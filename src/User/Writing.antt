-- ===== src/User/Writing.antt =====
-- What a write to descriptor 1 does to the kernel of student-distrib.
use mpf_cker_os.Base.{
  ℕ, ◌+◌, ◌-◌, ◌≤◌, ◌<◌, ◌≡◌, refl, ap, ◌∙◌, ◌≢◌, ◌⊎◌, false, some, ◌++◌, arith, minus_one, Mem,
  inside, length, bytes_at, place, IsBytes,
}
use mpf_cker_os.Process.{terminal_struct}
use mpf_cker_os.Syscall.{Kernel, Drivers, sys_write}
use mpf_cker_os.Syscall.Files.{file_drivers, file_drivers_write}
use mpf_cker_os.Syscall.Handler.{Caller, syscall_handler_asm, with_kernel}
use mpf_cker_os.User.Bytes.{place-IsBytes}
use mpf_cker_os.User.Kernel.{World, Setting, kernel_write, do_call, with_buffer}
use mpf_cker_os.User.OnKernel.{IsConsole}

-- the kernel of a world with other memory
abbrev pub with_memory : World → Mem → Kernel
with_memory w m = record w.caller.kernel { mem = m }

module _ (e : Setting) (d : Drivers) (f local : ℕ) (drivers : e.drivers ≡ file_drivers f local d)
    (console : IsConsole d) (real : 0 < e.page) where
  do_write :
      (n : ℕ) (s : Caller) (k : Kernel) (r : ℕ)
      → sys_write e.drivers 1 e.page n s.kernel ≡ some (k, r)
      → do_call e 4 1 e.page n s ≡ some (with_kernel s k, r)
  unfolding do_call syscall_handler_asm
  do_write n s k r ran = ground (arith, ran)

  sys_write-console :
      (n : ℕ) (k : Kernel)
      → sys_write (file_drivers f local d) 1 e.page n k ≡ d.write terminal_struct 1 e.page n k
  unfolding sys_write file_drivers_write
  sys_write-console n k = ground (arith, real)

  -- A write of bytes to descriptor 1 shows them, and of the kernel changes no more than the page of the
  -- program and that of video memory.
  pub kernel_write_lem :
      (m : Mem) (n : ℕ) (w : World)
      → IsBytes w.caller.kernel.mem
      → IsBytes m
      → (w' : World) × (r : ℕ) × (kernel_write e 1 (bytes_at m 0 n) w ≡ some (w', r))
        × (r ≢ minus_one)
        × (w'.console ≡ w.console ++ bytes_at m 0 n)
        × (w'.caller.kernel ≡ with_memory w w'.caller.kernel.mem)
        × IsBytes w'.caller.kernel.mem
        × ((q : ℕ)
            → inside e.page 4096 q ≡ false
            → (q < 0xb8000) ⊎ (0xb9000 ≤ q)
            → w'.caller.kernel.mem q ≡ w.caller.kernel.mem q)
  unfolding kernel_write
  kernel_write_lem m n w memory is_bytes =
      let bytes = bytes_at m 0 n in
      let buf = place (λ q. w.caller.kernel.mem (e.page + q)) 0 bytes in
      let buf_bytes : IsBytes buf = λ a.
        place-IsBytes (λ q. w.caller.kernel.mem (e.page + q)) m 0 0 n a (λ q. memory (e.page + q))
          is_bytes in
      let s = with_buffer e buf w in
      let s_bytes : IsBytes s.kernel.mem = λ q. ground (arith, buf_bytes (q - e.page), memory q) in
      let (m', r, ran, fine, m'_bytes, same) =
        console.writes e.page (length bytes) s.kernel s_bytes in
      let called : sys_write e.drivers 1 e.page (length bytes) s.kernel
          ≡ some (record s.kernel { mem = m' }, r) =
        ap (λ ds. sys_write ds 1 e.page (length bytes) s.kernel) drivers
        ∙ sys_write-console (length bytes) s.kernel
        ∙ ran in
      (
        record {
          caller = with_kernel s (record s.kernel { mem = m' });
          console = w.console ++ bytes;
        },
        r,
        ground (arith, do_write (length bytes) s (record s.kernel { mem = m' }) r called, fine),
        fine,
        refl,
        refl,
        m'_bytes,
        λ q off beside. same q beside ∙ ground (arith, off),
      )
