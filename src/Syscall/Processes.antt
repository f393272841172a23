-- ===== src/Syscall/Processes.antt =====
-- `sys_halt` and `sys_execute` of student-distrib/syscall.c, over the machine of Execute. The status is not
-- used.
use mpf_cker_os.Base.{ℕ, ◌≡◌, refl, Option}
use mpf_cker_os.Execute.{Regs, Machine, Outcome, Halt, execute, halt}

unfoldable sys_halt : ℕ → Machine → Machine × Halt
sys_halt status s = halt s

unfoldable sys_execute : ℕ → ℕ → ℕ → ℕ → Regs → Machine → Option (Machine × Outcome)
sys_execute f command temp buf r s = execute f command temp buf r s

-- Whatever the status that a program gives, the system call leaves the same machine and returns to the same
-- place.
sys_halt_status : (a b : ℕ) (s : Machine) → sys_halt a s ≡ sys_halt b s
unfolding sys_halt
sys_halt_status a b s = refl
