-- ===== src/User/SyserrPasses.antt =====
-- Which tests of syscalls/ece391syserr.c pass on the kernel of student-distrib.
use mpf_cker_os.Base.{
  ℕ, ◌+◌, ◌^◌, ◌<◌, ◌≡◌, refl, sym, subst, ◌⊎◌, inl, inr, some, arith, ◌==◌, if◌then◌else◌, Mem,
}
use Prim.Native.String.{String}
use mpf_cker_os.User.Kernel.{World, Setting}
use mpf_cker_os.User.Syserr.{
  AllCalls, big_fd, neg_fd, err_neg_fd, err_big_fd, err_vidmap, err_stdin_out, err_syscall_num,
  run_test,
}
use mpf_cker_os.User.SyserrKernel.{
  kernel_all, Answers, with_memory, shown, verdict-kernel, refuse_read-kernel, refuse_write-kernel,
  refuse_vidmap-kernel, refuse_sys-kernel, err_fd-kernel,
}

module _ (e : Setting) (answers : Answers e.drivers) (real : 0 < e.page)
    (word : e.page + 4096 < 2 ^ 32) (ebx ecx edx : ℕ) where
  abbrev c : AllCalls World
  c = kernel_all e ebx ecx edx

  err_vidmap-kernel :
      (w : World) → (m : Mem) × (err_vidmap c w ≡ some (shown m "err_vidmap: PASS\n" w, 0))
  unfolding err_vidmap
  err_vidmap-kernel w =
      let refused = refuse_vidmap-kernel e answers real word ebx ecx edx in
      let (m, ran) =
        verdict-kernel e answers real word ebx ecx edx "err_vidmap: PASS\n" "err_vidmap: FAIL\n"
          w in
      (
        m,
        ground (
          arith,
          refused 0 "Null pointer fail\n" w (inl refl),
          refused 0x400000 "Kernel pointer fail fail\n" w (inr refl),
          ran,
        ),
      )

  err_stdin_out-kernel :
      (buf : Mem) (w : World)
      → (m : Mem) × (err_stdin_out c buf w ≡ some (shown m "err_stdin_out: PASS\n" w, 0))
  unfolding err_stdin_out
  err_stdin_out-kernel buf w =
      let (m1, ran1) =
        refuse_write-kernel e answers real word ebx ecx edx 0 "write to stdin fail\n" buf w refl in
      let (buf', m2, ran2) =
        refuse_read-kernel e answers real word ebx ecx edx 1 "read from stdout fail\n" buf
          (with_memory m1 w) (omega arith) refl in
      let (m3, ran3) =
        verdict-kernel e answers real word ebx ecx edx "err_stdin_out: PASS\n"
          "err_stdin_out: FAIL\n" (with_memory m2 w) in
      (m3, ground (arith, ran1, ran2, ran3))

  err_syscall_num-kernel :
      (w : World)
      → (m : Mem) × (err_syscall_num c w ≡ some (shown m "err_syscall_num: PASS\n" w, 0))
  unfolding err_syscall_num
  err_syscall_num-kernel w =
      let refused = refuse_sys-kernel e answers real word ebx ecx edx in
      let (m, ran) =
        verdict-kernel e answers real word ebx ecx edx "err_syscall_num: PASS\n"
          "err_syscall_num: FAIL\n" w in
      (
        m,
        ground (
          arith,
          refused big_fd "syscall 0 fail\n" w (inr (omega arith)),
          refused neg_fd "big num syscall fail\n" w (inr (omega arith)),
          refused 0 "neg num syscall fail\n" w (inl refl),
          ran,
        ),
      )

  -- what a test prints when it passes
  abbrev pub passed_text : ℕ → String
  passed_text select =
      if select == b'1'
      then "err_neg_fd: PASS\n"
      else if select == b'2'
      then "err_big_fd: PASS\n"
      else if select == b'6'
      then "err_vidmap: PASS\n"
      else if select == b'7'
      then "err_stdin_out: PASS\n"
      else "err_syscall_num: PASS\n"

  -- The tests 1, 2, 6, 7 and 8 return 0, print their message alone and change nothing of the kernel but memory,
  -- from any state of the process.
  pub run_test-kernel :
      (select : ℕ) (buf : Mem) (w : World)
      → (select ≡ b'1') ⊎ (select ≡ b'2') ⊎ (select ≡ b'6') ⊎ (select ≡ b'7') ⊎ (select ≡ b'8')
      → (m : Mem) × (run_test c select buf w ≡ some (shown m (passed_text select) w, 0))
  unfolding run_test err_neg_fd err_big_fd
  run_test-kernel select buf w h =
      let fds = err_fd-kernel e answers real word ebx ecx edx in
      let (m1, ran1) =
        fds neg_fd "err_neg_fd: PASS\n" "err_neg_fd: FAIL\n" buf w (omega arith) (omega arith) in
      let (m2, ran2) =
        fds big_fd "err_big_fd: PASS\n" "err_big_fd: FAIL\n" buf w (omega arith) (omega arith) in
      let (m6, ran6) = err_vidmap-kernel w in
      let (m7, ran7) = err_stdin_out-kernel buf w in
      let (m8, ran8) = err_syscall_num-kernel w in
      let passes : ℕ → Type 0 =
        λ s. (m : Mem) × (run_test c s buf w ≡ some (shown m (passed_text s) w, 0)) in
      elim h [
        | inl p ↦ subst passes (sym p) (m1, ran1)
        | inr (inl p) ↦ subst passes (sym p) (m2, ran2)
        | inr (inr (inl p)) ↦ subst passes (sym p) (m6, ran6)
        | inr (inr (inr (inl p))) ↦ subst passes (sym p) (m7, ran7)
        | inr (inr (inr (inr p))) ↦ subst passes (sym p) (m8, ran8)
      ]
