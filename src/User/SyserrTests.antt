-- ===== src/User/SyserrTests.antt =====
-- The tests of syscalls/ece391syserr.c on a concrete kernel.
use mpf_cker_os.Base.{
  ℕ, zero, suc, ◌+◌, ◌≤◌, ◌<◌, ◌≡◌, refl, inl, inr, ◌&&◌, none, some, [], ◌++◌, arith, ltb,
  if◌then◌else◌, minus_one, is_negative, Mem,
}
use mpf_cker_os.Filesys.{Dentry, read_dentry_by_name, find_dentry, match_name, copy_dentry}
use mpf_cker_os.Filesys.Image.{disk, fs}
use mpf_cker_os.Screen.{Screen, putc}
use mpf_cker_os.Strings.{codes}
use mpf_cker_os.Syscall.Files.{file_drivers_write}
use mpf_cker_os.Terminal.{terminal_write, terminal_write_from}
use mpf_cker_os.User.Calls.{text}
use mpf_cker_os.User.Console.{screen_of, console_write, write_terminal}
use mpf_cker_os.User.Kernel.{World, overlay}
use mpf_cker_os.User.Sample.{start, setting, zeros}
use mpf_cker_os.User.Syserr.{run_test, err_open_lots, err_unopened}
use mpf_cker_os.User.SyserrKernel.{Answers, kernel_all, shown}
use mpf_cker_os.User.SyserrPasses.{run_test-kernel}
use mpf_cker_os.User.SyserrOpens.{present_at, InUse, err_open_lots-kernel}
use mpf_cker_os.User.SyserrUnopened.{err_unopened-kernel}

terminal_write_from_count :
    (buf i count k : ℕ) (s : Screen) → (terminal_write_from buf i count k s).1 ≡ count + k
unfolding terminal_write_from
terminal_write_from_count buf i count zero s = omega arith
terminal_write_from_count buf i count (suc k) s =
    omega (arith, terminal_write_from_count buf (i + 1) (count + 1) k (putc (s.mem (buf + i)) s))

terminal-Answers : Answers setting.drivers
unfolding file_drivers_write console_write write_terminal terminal_write
terminal-Answers = record {
  writes = λ buf n k.
      let s = screen_of 0 0 k in
      (
        (terminal_write buf n s).0.mem,
        (terminal_write buf n s).1,
        refl,
        ground (arith, terminal_write_from_count buf 0 0 (if is_negative n then 0 else n) s),
      );
}

run_test-kernel_example :
    (m : Mem) × (run_test (kernel_all setting 0 0 0) b'7' zeros start
      ≡ some (shown m "err_stdin_out: PASS\n" start, 0))
run_test-kernel_example =
    run_test-kernel setting terminal-Answers (omega arith) (omega arith) 0 0 0 b'7' zeros start
      (inr (inr (inr (inl refl))))

dot : Dentry
dot = copy_dentry (overlay 0x100000 (text ".") disk) 4160

finds_dot : read_dentry_by_name (overlay 0x100000 (text ".") disk) fs 0x100000 ≡ some dot
unfolding read_dentry_by_name find_dentry match_name dot
finds_dot = refl

fresh : InUse 2 start
fresh = record { used = λ i l u. absurd (omega arith); free = λ i l u. refl }

err_open_lots-kernel_example :
    (w' : World) × (err_open_lots (kernel_all setting 0 0 0) start ≡ some (w', 0))
    × (w'.console ≡ [] ++ codes "err_open_lots: PASS\n")
    × ((j : ℕ) → 2 ≤ j → j < 8 → present_at w' j ≡ (if ltb 2 j && ltb j 6 then minus_one else 0))
err_open_lots-kernel_example =
    err_open_lots-kernel setting terminal-Answers (omega arith) (omega arith) 0 0 0 start dot fresh
      finds_dot

err_unopened-kernel_example :
    (m : Mem) × (err_unopened (kernel_all setting 0 0 0) zeros start
      ≡ some (shown m "err_unopened: PASS\n" start, 0))
err_unopened-kernel_example =
    err_unopened-kernel setting terminal-Answers (omega arith) (omega arith) 0 0 0 zeros start
      (λ j l. omega arith) refl

absent_helloo : read_dentry_by_name (overlay 0x100000 (text "helloo") disk) fs 0x100000 ≡ none
unfolding read_dentry_by_name find_dentry match_name
absent_helloo = refl

absent_shel : read_dentry_by_name (overlay 0x100000 (text "shel") disk) fs 0x100000 ≡ none
unfolding read_dentry_by_name find_dentry match_name
absent_shel = refl
