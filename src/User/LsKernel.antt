-- ===== src/User/LsKernel.antt =====
-- `ls` of syscalls/ece391ls.c on the kernel of student-distrib.
use mpf_cker_os.Base.{
  ℕ, suc, ◌+◌, ◌-◌, ◌^◌, ◌≤◌, ◌<◌, ◌≡◌, refl, sym, ap, ◌∙◌, subst, ◌≢◌, true, false, some, List, [],
  ◌∷◌, ◌++◌, arith, ◌==◌, if◌then◌else◌, minus_one, Mem, length, bytes_at, IsBytes,
}
use mpf_cker_os.Filesys.{Filesys, dentry_addr}
use mpf_cker_os.Syscall.{Kernel, Drivers, sys_read}
use mpf_cker_os.Syscall.Files.{file_drivers}
use mpf_cker_os.Syscall.Handler.{Caller, syscall_handler_asm, syscall_read, with_kernel}
use mpf_cker_os.User.Bytes.{zero_add, bytes_at-same}
use mpf_cker_os.User.Cat.{length-bytes_at}
use mpf_cker_os.User.Kernel.{
  World, Setting, kernel_calls, kernel_read, kernel_write, do_call, overlay, with_buffer, in_page,
}
use mpf_cker_os.User.Listing.{Lists}
use mpf_cker_os.User.OnDirectory.{
  IsDirectory, IsDirOpen, IsDirOpen-memory, names_from, names_from-more, length-names_from,
  read_dir_lem, sys_read-dir,
}
use mpf_cker_os.User.OnKernel.{IsConsole}
use mpf_cker_os.User.Writing.{kernel_write_lem}

abbrev pub head : List (List ℕ) → List ℕ
head [] = []
head (n ∷ ns) = n

abbrev pub tail : List (List ℕ) → List (List ℕ)
tail [] = []
tail (n ∷ ns) = ns

module _ (m0 : Mem) (fs : Filesys) (len : ℕ → ℕ) (e : Setting) (d : Drivers) (f local : ℕ)
    (drivers : e.drivers ≡ file_drivers f local d) (console : IsConsole d)
    (word : e.page + 4096 < 2 ^ 32) (dir : IsDirectory m0 fs len e.page local) (fd : ℕ)
    (is_fd : (2 ≤ fd) × (fd < 6)) where
  -- the directory is open in a world, and the names that a program is still given
  abbrev pub DirOpen : World → Type 0
  DirOpen w = IsDirOpen m0 fs len e.page local dir fd is_fd w.caller.kernel

  abbrev pub names : World → List (List ℕ)
  names w =
      names_from m0 fs len w.caller.kernel.fs.curfile
        (fs.numdentries - (w.caller.kernel.fs.curfile + 1))

  do_read :
      (s : Caller) (k : Kernel) (r : ℕ)
      → sys_read e.drivers fd e.page 32 s.kernel ≡ some (k, r)
      → do_call e 3 fd e.page 32 s ≡ some (with_kernel s k, r)
  unfolding do_call syscall_handler_asm syscall_read
  do_read s k r ran = ground (arith, ran, is_fd, word)

  with_buffer-IsDirOpen :
      (buf : Mem) (w : World)
      → IsBytes buf
      → DirOpen w
      → IsDirOpen m0 fs len e.page local dir fd is_fd (with_buffer e buf w).kernel
  with_buffer-IsDirOpen buf w is_bytes h =
      IsDirOpen-memory m0 fs len e.page local dir fd is_fd w.caller.kernel
        (overlay e.page buf w.caller.kernel.mem) h
        (λ q. ground (arith, is_bytes (q - e.page), h.bytes q))
        (λ q lo hi. ground (arith, dir.below, lo, hi, h.same_dir q lo hi))

  -- a read of the directory through the gate
  kernel_read_dir :
      (m : Mem) (w : World)
      → DirOpen w
      → IsBytes m
      → let c = w.caller.kernel.fs.curfile in
        let last = c + 1 == fs.numdentries in
        (w' : World) × (kernel_read e fd 32 m w
          ≡ some (in_page e w'.caller, w', if last then 0 else len c))
        × (w'.caller.kernel.fs.curfile ≡ (if last then 0 else c + 1))
        × ((j : ℕ) → j < len c → in_page e w'.caller j ≡ m0 (dentry_addr fs c + j))
        × (w'.console ≡ w.console)
        × DirOpen w'
  unfolding kernel_read
  kernel_read_dir m w h is_bytes =
      let s = with_buffer e m w in
      let h1 = with_buffer-IsDirOpen m w is_bytes h in
      let (k', ran, next, holds, h') =
        read_dir_lem m0 fs len e.page local dir fd is_fd s.kernel h1 in
      let c = w.caller.kernel.fs.curfile in
      let n : ℕ = if c + 1 == fs.numdentries then 0 else len c in
      let called : sys_read e.drivers fd e.page 32 s.kernel ≡ some (k', n) =
        ap (λ ds. sys_read ds fd e.page 32 s.kernel) drivers
        ∙ sys_read-dir m0 fs len e.page local dir fd is_fd s.kernel h1 f d
        ∙ ran in
      (
        record w { caller = with_kernel s k' },
        ground (arith, do_read s k' n called),
        next,
        holds,
        refl,
        h',
      )

  -- the bytes of the name at an entry
  abbrev name_at : ℕ → List ℕ
  name_at c = bytes_at m0 (dentry_addr fs c) (len c)

  kernel_reads :
      (m : Mem) (w : World) (n : List ℕ) (ns : List (List ℕ))
      → DirOpen w
      → IsBytes m
      → names w ≡ n ∷ ns
      → (m' : Mem) × (w' : World) × (kernel_read e fd 32 m w ≡ some (m', w', length n))
        × (bytes_at m' 0 (length n) ≡ n)
        × (0 < length n)
        × (length n < 32)
        × (names w' ≡ ns)
        × (w'.console ≡ w.console)
        × DirOpen w'
        × IsBytes m'
  kernel_reads m w n ns h is_bytes is =
      let c = w.caller.kernel.fs.curfile in
      let left = fs.numdentries - (c + 1) in
      let count : left ≡ suc (length ns) =
        sym (length-names_from m0 fs len c left) ∙ ap (λ l. length l) is in
      let all : names w ≡ name_at c ∷ names_from m0 fs len (c + 1) (left - 1) =
        names_from-more m0 fs len c left (omega (arith, count)) in
      let this : n ≡ name_at c = ap head (sym is ∙ all) in
      let size : length n ≡ len c =
        ap (λ l. length l) this ∙ length-bytes_at m0 (dentry_addr fs c) (len c) in
      let more : (c + 1 == fs.numdentries) ≡ false = ground (arith, count) in
      let (w', ran, next, holds, kept, h') = kernel_read_dir m w h is_bytes in
      let at : w'.caller.kernel.fs.curfile ≡ c + 1 = ground (arith, next, more) in
      let rest : fs.numdentries - (c + 1 + 1) ≡ left - 1 = omega arith in
      (
        in_page e w'.caller,
        w',
        ground (arith, ran, more, size),
        ap (bytes_at (in_page e w'.caller) 0) size
            ∙ bytes_at-same (in_page e w'.caller) m0 0 (dentry_addr fs c) (len c)
                (λ j l. ap (in_page e w'.caller) (zero_add j) ∙ holds j l)
            ∙ sym this,
        omega (arith, size, dir.some_bytes c h.in_range),
        omega (arith, size, (dir.named c h.in_range).short),
        ap (λ i. names_from m0 fs len i (fs.numdentries - (i + 1))) at
            ∙ ap (names_from m0 fs len (c + 1)) rest
            ∙ ap tail (sym all ∙ is),
        kept,
        h',
        λ q. h'.bytes (e.page + q),
      )

  kernel_at_end :
      (m : Mem) (w : World)
      → DirOpen w
      → IsBytes m
      → names w ≡ []
      → (m' : Mem) × (w' : World) × (kernel_read e fd 32 m w ≡ some (m', w', 0))
        × (w'.console ≡ w.console)
  kernel_at_end m w h is_bytes is =
      let c = w.caller.kernel.fs.curfile in
      let none_left : fs.numdentries - (c + 1) ≡ 0 =
        sym (length-names_from m0 fs len c (fs.numdentries - (c + 1))) ∙ ap (λ l. length l) is in
      let last : (c + 1 == fs.numdentries) ≡ true = ground (arith, none_left, h.in_range) in
      let (w', ran, next, holds, kept, h') = kernel_read_dir m w h is_bytes in
      (in_page e w'.caller, w', ground (arith, ran, last), kept)

  kernel_writes :
      (m : Mem) (n : ℕ) (w : World)
      → DirOpen w
      → IsBytes m
      → n ≤ 1024
      → (w' : World) × (r : ℕ) × (kernel_write e 1 (bytes_at m 0 n) w ≡ some (w', r))
        × (r ≢ minus_one)
        × (w'.console ≡ w.console ++ bytes_at m 0 n)
        × (names w' ≡ names w)
        × DirOpen w'
  kernel_writes m n w h is_bytes short =
      let (w', r, wrote, fine, said, state, memory, same) =
        kernel_write_lem e d f local drivers console dir.real m n w h.bytes is_bytes in
      (
        w',
        r,
        wrote,
        fine,
        said,
        ap (λ (k : Kernel). names_from m0 fs len k.fs.curfile (fs.numdentries - (k.fs.curfile + 1)))
            state,
        subst (λ k. IsDirOpen m0 fs len e.page local dir fd is_fd k) (sym state)
            (IsDirOpen-memory m0 fs len e.page local dir fd is_fd w.caller.kernel
              w'.caller.kernel.mem h memory
              (λ q lo hi.
                same q (ground (arith, dir.below, lo, hi)) (ground (arith, dir.off_video, lo, hi))
                ∙ h.same_dir q lo hi)),
      )

  pub kernel-Lists : Lists (kernel_calls e) fd DirOpen names (λ w. w.console)
  kernel-Lists = record { reads = kernel_reads; at_end = kernel_at_end; writes = kernel_writes }
