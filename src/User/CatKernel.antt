-- ===== src/User/CatKernel.antt =====
-- `cat` of syscalls/ece391cat.c on the kernel of student-distrib.
use mpf_cker_os.Base.{
  ℕ, suc, ◌+◌, ◌-◌, ◌^◌, ◌≤◌, ◌<◌, min, ◌≡◌, refl, sym, ap, ap₂, ◌∙◌, ◌≢◌, ◌⊎◌, some, List, ◌++◌,
  arith, minus_one, Mem, length, bytes_at, place, IsBytes,
}
use mpf_cker_os.Filesys.{Filesys, file_length}
use mpf_cker_os.Filesys.Read.{file_byte}
use mpf_cker_os.Filesys.Same.{IsImage}
use mpf_cker_os.Syscall.{Kernel, Drivers, sys_read, sys_write}
use mpf_cker_os.Syscall.Files.{file_drivers}
use mpf_cker_os.Syscall.Handler.{Caller, syscall_handler_asm, syscall_read, with_kernel}
use mpf_cker_os.User.Cat.{Serves, cat_lem, length-bytes_at}
use mpf_cker_os.User.Bytes.{zero_add, bytes_at-split, bytes_at-same, place-IsBytes}
use mpf_cker_os.User.Programs.{cat}
use mpf_cker_os.User.Kernel.{
  World, Setting, kernel_calls, kernel_read, kernel_write, kernel_getargs, kernel_open, do_call,
  overlay, with_buffer, in_page,
}
use mpf_cker_os.User.OnKernel.{
  IsConsole, IsOpen, entry_of, read_file_next, read_file_end, sys_read-open, sys_write-console,
  overlay-IsBytes, overlay-SameImage, IsOpen-memory,
}

-- the bytes of the file from position `p` on
abbrev pub file_rest : Mem → Filesys → ℕ → ℕ → List ℕ
file_rest m fs i p = bytes_at (file_byte m fs i) p (file_length m fs i - p)

module _ (m0 : Mem) (fs : Filesys) (i limit : ℕ) (image : IsImage m0 fs i limit) (fd : ℕ)
    (is_fd : (2 ≤ fd) × (fd < 6)) (e : Setting) (d : Drivers) (f local : ℕ)
    (drivers : e.drivers ≡ file_drivers (suc (suc f)) local d) (console : IsConsole d)
    (apart : limit ≤ e.page) (word : e.page + 4096 < 2 ^ 32) (real : 0 < e.page)
    (video : (limit ≤ 0xb8000) ⊎ (0xb9000 ≤ fs.start_addr)) where
  -- the file is open in a world, and what is left of it
  abbrev pub FileOpen : World → Type 0
  FileOpen w = IsOpen m0 fs i limit image fd e.page is_fd apart word real w.caller.kernel

  abbrev pub left : World → List ℕ
  left w = file_rest m0 fs i (entry_of fd w.caller.kernel).file_pos

  do_read :
      (s : Caller) (k : Kernel) (r : ℕ)
      → sys_read e.drivers fd e.page 1024 s.kernel ≡ some (k, r)
      → do_call e 3 fd e.page 1024 s ≡ some (with_kernel s k, r)
  unfolding do_call syscall_handler_asm syscall_read
  do_read s k r ran = ground (arith, ran, is_fd, word)

  do_write :
      (n : ℕ) (s : Caller) (k : Kernel) (r : ℕ)
      → sys_write e.drivers 1 e.page n s.kernel ≡ some (k, r)
      → do_call e 4 1 e.page n s ≡ some (with_kernel s k, r)
  unfolding do_call syscall_handler_asm
  do_write n s k r ran = ground (arith, ran)

  -- the kernel with a buffer in the page
  with_buffer-IsOpen :
      (buf : Mem) (w : World)
      → IsBytes buf
      → FileOpen w
      → IsOpen m0 fs i limit image fd e.page is_fd apart word real (with_buffer e buf w).kernel
  with_buffer-IsOpen buf w is_bytes h =
      IsOpen-memory m0 fs i limit image fd e.page is_fd apart word real w.caller.kernel
        (overlay e.page buf w.caller.kernel.mem) h
        (overlay-IsBytes m0 fs i limit image fd e.page is_fd apart word real buf w.caller.kernel.mem
          is_bytes h.bytes)
        (overlay-SameImage m0 fs i limit image fd e.page is_fd apart word real buf
          w.caller.kernel.mem h.same_image)

  kernel_reads :
      (m : Mem) (w : World)
      → FileOpen w
      → IsBytes m
      → 0 < length (left w)
      → let n = min 1024 (length (left w)) in
        (m' : Mem) × (w' : World) × (kernel_read e fd 1024 m w ≡ some (m', w', n))
        × (bytes_at m' 0 n ++ left w' ≡ left w)
        × (w'.console ≡ w.console)
        × FileOpen w'
        × IsBytes m'
  unfolding kernel_read
  kernel_reads m w h is_bytes more =
      let s = with_buffer e m w in
      let p = (entry_of fd w.caller.kernel).file_pos in
      let size = file_length m0 fs i in
      let rest : length (left w) ≡ size - p = length-bytes_at (file_byte m0 fs i) p (size - p) in
      let (k', ran, at, holds, h') =
        read_file_next m0 fs i limit image fd e.page is_fd apart word real s.kernel
          (with_buffer-IsOpen m w is_bytes h) f (omega (arith, rest)) in
      let n = min 1024 (size - p) in
      let count : min 1024 (length (left w)) ≡ n = omega (arith, rest) in
      let called : sys_read e.drivers fd e.page 1024 s.kernel ≡ some (k', n) =
        ap (λ ds. sys_read ds fd e.page 1024 s.kernel) drivers
        ∙ sys_read-open m0 fs i limit image fd e.page is_fd apart word real s.kernel
            (with_buffer-IsOpen m w is_bytes h) (suc (suc f)) local d
        ∙ ran in
      let buf = in_page e (with_kernel s k') in
      let tail : size - (p + n) ≡ size - p - n = omega arith in
      let whole : n + (size - p - n) ≡ size - p = omega arith in
      (
        buf,
        record w { caller = with_kernel s k' },
        ground (arith, do_read s k' n called, count),
        ap (λ j. bytes_at buf 0 j ++ file_rest m0 fs i (entry_of fd k').file_pos) count
            ∙ ap₂ (λ a b. a ++ b)
                (bytes_at-same buf (file_byte m0 fs i) 0 p n
                  (λ j l. ap buf (zero_add j) ∙ holds j l))
                (ap (file_rest m0 fs i) at
                  ∙ ap (bytes_at (file_byte m0 fs i) (p + n)) (omega arith))
            ∙ sym (bytes_at-split (file_byte m0 fs i) p n (size - p - n))
            ∙ ap (bytes_at (file_byte m0 fs i) p) whole,
        refl,
        h',
        λ q. h'.bytes (e.page + q),
      )

  kernel_at_end :
      (m : Mem) (w : World)
      → FileOpen w
      → IsBytes m
      → length (left w) ≡ 0
      → (m' : Mem) × (w' : World) × (kernel_read e fd 1024 m w ≡ some (m', w', 0))
        × (w'.console ≡ w.console)
  unfolding kernel_read
  kernel_at_end m w h is_bytes none_left =
      let s = with_buffer e m w in
      let p = (entry_of fd w.caller.kernel).file_pos in
      let size = file_length m0 fs i in
      let rest : length (left w) ≡ size - p = length-bytes_at (file_byte m0 fs i) p (size - p) in
      let (k', ran) =
        read_file_end m0 fs i limit image fd e.page is_fd apart word real s.kernel
          (with_buffer-IsOpen m w is_bytes h) (suc f) (omega (arith, rest, h.within)) in
      let called : sys_read e.drivers fd e.page 1024 s.kernel ≡ some (k', 0) =
        ap (λ ds. sys_read ds fd e.page 1024 s.kernel) drivers
        ∙ sys_read-open m0 fs i limit image fd e.page is_fd apart word real s.kernel
            (with_buffer-IsOpen m w is_bytes h) (suc (suc f)) local d
        ∙ ran in
      (
        in_page e (with_kernel s k'),
        record w { caller = with_kernel s k' },
        ground (arith, do_read s k' 0 called),
        refl,
      )

  kernel_writes :
      (m : Mem) (n : ℕ) (w : World)
      → FileOpen w
      → IsBytes m
      → n ≤ 1024
      → (w' : World) × (r : ℕ) × (kernel_write e 1 (bytes_at m 0 n) w ≡ some (w', r))
        × (r ≢ minus_one)
        × (w'.console ≡ w.console ++ bytes_at m 0 n)
        × (left w' ≡ left w)
        × FileOpen w'
  unfolding kernel_write
  kernel_writes m n w h is_bytes short =
      let bytes = bytes_at m 0 n in
      let buf = place (λ q. w.caller.kernel.mem (e.page + q)) 0 bytes in
      let buf_bytes : IsBytes buf = λ a.
        place-IsBytes (λ q. w.caller.kernel.mem (e.page + q)) m 0 0 n a (λ q. h.bytes (e.page + q))
          is_bytes in
      let s = with_buffer e buf w in
      let h1 = with_buffer-IsOpen buf w buf_bytes h in
      let (m', r, ran, fine, m'_bytes, same) =
        console.writes e.page (length bytes) s.kernel h1.bytes in
      let called : sys_write e.drivers 1 e.page (length bytes) s.kernel
          ≡ some (record s.kernel { mem = m' }, r) =
        ap (λ ds. sys_write ds 1 e.page (length bytes) s.kernel) drivers
        ∙ sys_write-console m0 fs i limit image fd e.page is_fd apart word real (suc (suc f)) local
            (length bytes) d s.kernel
        ∙ ran in
      (
        record {
          caller = with_kernel s (record s.kernel { mem = m' });
          console = w.console ++ bytes;
        },
        r,
        ground (arith, do_write (length bytes) s (record s.kernel { mem = m' }) r called, fine),
        fine,
        refl,
        refl,
        IsOpen-memory m0 fs i limit image fd e.page is_fd apart word real s.kernel m' h1 m'_bytes
            (record {
              same = λ q lo hi. ground (arith, same q, h1.same_image.same q lo hi, video);
            }),
      )

  kernel-Serves : Serves (kernel_calls e) fd FileOpen left (λ w. w.console)
  kernel-Serves = record { reads = kernel_reads; at_end = kernel_at_end; writes = kernel_writes }

  -- `cat`, with its argument read and the file opened at position 0, writes the bytes of the file and ends with
  -- status 0.
  pub cat-kernel :
      (fuel : ℕ) (buf m : Mem) (w w1 w2 : World)
      → kernel_getargs e 1024 buf w ≡ (m, w1, 0)
      → kernel_open e m w1 ≡ (w2, fd)
      → IsBytes m
      → FileOpen w2
      → (entry_of fd w2.caller.kernel).file_pos ≡ 0
      → file_length m0 fs i < fuel
      → (w' : World) × (cat (kernel_calls e) fuel buf w ≡ some (w', 0))
        × (w'.console ≡ w2.console ++ bytes_at (file_byte m0 fs i) 0 (file_length m0 fs i))
  cat-kernel fuel buf m w w1 w2 args opens is_bytes h start enough =
      let all : file_length m0 fs i - 0 ≡ file_length m0 fs i = omega arith in
      let rest : left w2 ≡ bytes_at (file_byte m0 fs i) 0 (file_length m0 fs i) =
        ap (file_rest m0 fs i) start ∙ ap (bytes_at (file_byte m0 fs i) 0) all in
      let (w', ran, said) =
        cat_lem (kernel_calls e) fd FileOpen left (λ v. v.console) kernel-Serves fuel buf m w w1 w2
          args opens (omega (arith, is_fd)) is_bytes h
          (omega
            (arith, ap length rest, length-bytes_at (file_byte m0 fs i) 0 (file_length m0 fs i))) in
      (w', ran, said ∙ ap (λ l. w2.console ++ l) rest)
