-- ===== src/Syscall/Handler.antt =====
-- The gate of the system calls, student-distrib/syscall_asm.S: the number and the arguments are registers,
-- and the C functions are called with them.
use mpf_cker_os.Base.{
  ℕ, ◌%◌, ◌||◌, Option, none, some, ltb, ◌==◌, if◌then◌else◌, minus_one, is_negative, Mem,
}
use mpf_cker_os.Paging.{Paging}
use mpf_cker_os.Syscall.{
  Kernel, Drivers, sys_read, sys_write, sys_open, sys_close, sys_vidmap, sys_getargs,
}

-- the kernel with its tables, and the arguments of the last line that was read
pub record Caller : Type 0 where
  pub kernel : Kernel
  pub paging : Paging
  pub stored : Mem

-- where the table of the video page and the arguments of the process lie, and the terminal
pub record Frame : Type 0 where
  pub video_table : ℕ
  pub cur_terminal : ℕ
  pub args_addr : ℕ

-- How a call leaves the gate: `prints` is the message of `syscall_handler`, and EAX is what it leaves there.
pub data Trap : Type 0 where
  halts : ℕ → Caller → Trap
  executes : ℕ → Caller → Trap
  prints : Caller → Trap
  returns : ℕ → Caller → Trap

abbrev pub with_kernel : Caller → Kernel → Caller
with_kernel s k = record s { kernel = k }

abbrev pub returned : Caller → Option (Kernel × ℕ) → Option Trap
returned s none = none
returned s (some (k, r)) = some (returns r (with_kernel s k))

-- `syscall_read`, which refuses -1 in any of the three registers
unfoldable pub syscall_read : Drivers → ℕ → ℕ → ℕ → Caller → Option Trap
syscall_read d ebx ecx edx s =
    let called = returned s (sys_read d ebx ecx edx s.kernel) in
    if (edx == minus_one) || (ecx == minus_one) || (ebx == minus_one)
    then some (prints s)
    else called

unfoldable pub syscall_vidmap : Frame → ℕ → Caller → Trap
syscall_vidmap a ebx s =
    let (paging', m', r) = sys_vidmap a.video_table a.cur_terminal ebx s.kernel.mem s.paging in
    returns r (record s { paging = paging'; kernel = record s.kernel { mem = m' } })

unfoldable pub syscall_getargs : Frame → ℕ → ℕ → Caller → Trap
syscall_getargs a ebx ecx s =
    let (m', r) = sys_getargs a.args_addr s.stored ebx ecx s.kernel.mem in
    returns r (record s { kernel = record s.kernel { mem = m' } })

unfoldable pub syscall_open : ℕ → Caller → Trap
syscall_open ebx s = let (k', r) = sys_open ebx s.kernel in returns r (with_kernel s k')

unfoldable pub syscall_close : ℕ → Caller → Trap
syscall_close ebx s = let (k', r) = sys_close ebx s.kernel in returns r (with_kernel s k')

-- `syscall_handler_asm`; of the status of `halt` only four bits are kept
unfoldable pub syscall_handler_asm : Drivers → Frame → ℕ → ℕ → ℕ → ℕ → Caller → Option Trap
syscall_handler_asm d a eax ebx ecx edx s =
    let reads = syscall_read d ebx ecx edx s in
    let writes = returned s (sys_write d ebx ecx edx s.kernel) in
    if is_negative eax || (eax == 0) || ltb 8 eax
    then some (returns minus_one s)
    else if eax == 1
    then some (halts (ebx % 16) s)
    else if eax == 2
    then some (executes ebx s)
    else if eax == 3
    then reads
    else if eax == 4
    then writes
    else if eax == 5
    then some (syscall_open ebx s)
    else if eax == 6
    then some (syscall_close ebx s)
    else if eax == 7
    then some (syscall_getargs a ebx ecx s)
    else some (syscall_vidmap a ebx s)
