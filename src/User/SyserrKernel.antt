-- ===== src/User/SyserrKernel.antt =====
-- The tests of syscalls/ece391syserr.c on the kernel of student-distrib.
use mpf_cker_os.Base.{
  ℕ, ◌+◌, ◌^◌, ◌≤◌, ◌<◌, ◌≡◌, ◌≢◌, ◌⊎◌, true, ◌&&◌, ◌||◌, Option, some, ◌++◌, arith, leb, ◌==◌,
  minus_one, Mem, length, bytes_at, place,
}
use Prim.Native.String.{String}
use mpf_cker_os.Process.{terminal_struct}
use mpf_cker_os.Strings.{codes}
use mpf_cker_os.Syscall.{Kernel, Drivers, current_entry, sys_write, sys_close, sys_vidmap}
use mpf_cker_os.Syscall.Checks.{sys_read_refused, sys_write_refused}
use mpf_cker_os.Syscall.Handler.{
  syscall_handler_asm, syscall_read, syscall_close, syscall_vidmap, with_kernel,
}
use mpf_cker_os.User.Calls.{say, ◌>>=◌}
use mpf_cker_os.User.Kernel.{
  World, Setting, kernel_calls, kernel_read, kernel_write, kernel_close, do_call, with_buffer,
  in_page, settled,
}
use mpf_cker_os.User.Syserr.{
  AllCalls, expect_refused, verdict, refuse_read, refuse_write, refuse_close, refuse_vidmap,
  refuse_sys, err_fd,
}

unfoldable pub kernel_vidmap : Setting → ℕ → World → World × ℕ
kernel_vidmap e p w =
    let (s, r) = settled w.caller (do_call e 8 p 0 0 w.caller) in (record w { caller = s }, r)

-- the other registers are what the compiler left in them
unfoldable pub kernel_call_sys : Setting → ℕ → ℕ → ℕ → ℕ → World → Option (World × ℕ)
kernel_call_sys e ebx ecx edx num w = do
  (s, r) ← do_call e num ebx ecx edx w.caller
  some (record w { caller = s }, r)

abbrev pub kernel_all : Setting → ℕ → ℕ → ℕ → AllCalls World
kernel_all e ebx ecx edx = record {
  calls = kernel_calls e;
  ece391_vidmap = kernel_vidmap e;
  call_sys = kernel_call_sys e ebx ecx edx;
}

-- a write to the terminal ends, and changes memory at most
pub record Answers (d : Drivers) : Type 0 where
  pub writes :
      (buf n : ℕ) (k : Kernel)
      → (m : Mem) × (r : ℕ) × (d.write terminal_struct 1 buf n k ≡ some (record k { mem = m }, r))
        × (r ≢ minus_one)

-- the world with another memory, and with more on the console
abbrev pub with_memory : Mem → World → World
with_memory m w = record w { caller = with_kernel w.caller (record w.caller.kernel { mem = m }) }

abbrev pub shown : Mem → String → World → World
shown m s w = record (with_memory m w) { console = w.console ++ codes s }

module _ (e : Setting) (answers : Answers e.drivers) (real : 0 < e.page)
    (word : e.page + 4096 < 2 ^ 32) (ebx ecx edx : ℕ) where
  abbrev c : AllCalls World
  c = kernel_all e ebx ecx edx

  pub say-kernel :
      (s : String) (w : World) → (m : Mem) × (say (kernel_calls e) 1 s w ≡ some (shown m s w))
  unfolding say kernel_write do_call syscall_handler_asm sys_write
  say-kernel s w =
      let buf = place (λ q. w.caller.kernel.mem (e.page + q)) 0 (codes s) in
      let (m, r, ran, fine) =
        answers.writes e.page (length (codes s)) (with_buffer e buf w).kernel in
      (m, ground (arith, ran, fine))

  pub verdict-kernel :
      (passed failed : String) (w : World)
      → (m : Mem) × (verdict c passed failed 0 w ≡ some (shown m passed w, 0))
  unfolding verdict
  verdict-kernel passed failed w = let (m, ran) = say-kernel passed w in (m, ground (arith, ran))

  -- what the kernel refuses to read, to write and to close
  pub refuse_read-kernel :
      (fd : ℕ) (s : String) (buf : Mem) (w : World)
      → fd < minus_one
      → ((fd == 1)
          || leb 6 fd
          || (leb 2 fd
              && (((current_entry w.caller.kernel).present == minus_one)
                  || (w.caller.kernel.curr_fd == minus_one))))
        ≡ true
      → (buf' m : Mem) × (refuse_read c fd s 0 buf w ≡ some (buf', with_memory m w, 0))
  unfolding refuse_read expect_refused kernel_read do_call syscall_handler_asm syscall_read
  refuse_read-kernel fd s buf w word' refused =
      let s' = with_buffer e buf w in
      let ran = sys_read_refused e.drivers fd e.page 31 s'.kernel (ground (arith, refused)) in
      (in_page e s', s'.kernel.mem, ground (arith, ran))

  pub refuse_write-kernel :
      (fd : ℕ) (s : String) (buf : Mem) (w : World)
      → ((fd == 0)
          || leb 6 fd
          || (leb 2 fd
              && (((current_entry w.caller.kernel).present == minus_one)
                  || (w.caller.kernel.curr_fd == minus_one))))
        ≡ true
      → (m : Mem) × (refuse_write c fd s 0 buf w ≡ some (with_memory m w, 0))
  unfolding refuse_write expect_refused kernel_write do_call syscall_handler_asm
  refuse_write-kernel fd s buf w refused =
      let bytes = bytes_at buf 0 31 in
      let s' = with_buffer e (place (λ q. w.caller.kernel.mem (e.page + q)) 0 bytes) w in
      let ran =
        sys_write_refused e.drivers fd e.page (length bytes) s'.kernel (ground (arith, refused)) in
      (s'.kernel.mem, ground (arith, ran))

  pub refuse_close-kernel :
      (fd : ℕ) (s : String) (w : World)
      → 6 ≤ fd
      → fd < 2 ^ 32
      → refuse_close c fd s 0 w ≡ some (w, 0)
  unfolding refuse_close expect_refused kernel_close do_call syscall_handler_asm syscall_close
      sys_close
  refuse_close-kernel fd s w high fits = ground (arith, high, fits)

  pub err_fd-kernel :
      (fd : ℕ) (passed failed : String) (buf : Mem) (w : World)
      → 6 ≤ fd
      → fd < minus_one
      → (m : Mem) × (err_fd c fd passed failed buf w ≡ some (shown m passed w, 0))
  unfolding err_fd
  err_fd-kernel fd passed failed buf w high fits =
      let (buf', m1, ran1) =
        refuse_read-kernel fd "read fail\n" buf w fits (ground (arith, high)) in
      let (m2, ran2) =
        refuse_write-kernel fd "write fail\n" buf' (with_memory m1 w) (ground (arith, high)) in
      let ran3 = refuse_close-kernel fd "close fail\n" (with_memory m2 w) high (omega arith) in
      let (m4, ran4) = verdict-kernel passed failed (with_memory m2 w) in
      (m4, ground (arith, ran1, ran2, ran3, ran4))

  pub refuse_vidmap-kernel :
      (p : ℕ) (s : String) (w : World)
      → (p ≡ 0) ⊎ (p ≡ 0x400000)
      → refuse_vidmap c p s 0 w ≡ some (w, 0)
  unfolding refuse_vidmap expect_refused kernel_vidmap do_call syscall_handler_asm syscall_vidmap
      sys_vidmap
  refuse_vidmap-kernel p s w h = ground (arith, h)

  pub refuse_sys-kernel :
      (num : ℕ) (s : String) (w : World)
      → (num ≡ 0) ⊎ (8 < num)
      → refuse_sys c num s 0 w ≡ some (w, 0)
  unfolding refuse_sys expect_refused kernel_call_sys do_call syscall_handler_asm
  refuse_sys-kernel num s w h = ground (arith, h)
