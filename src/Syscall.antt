-- ===== src/Syscall.antt =====
-- The system calls of student-distrib/syscall.c over the process table and the file system. What the
-- drivers' `read` and `write` do is a record of operations, one for each jump table; the process that
-- runs on the current terminal is a field.
pub mod Checks
pub mod Dispatch
pub mod Files
mod Processes
pub mod Handler
mod Tests
use mpf_cker_os.Memory.{memcpy}
use mpf_cker_os.Filesys.{Filesys}
use mpf_cker_os.Paging.{Paging, vid_map}
use mpf_cker_os.Terminal.{terminal_getargs}
use mpf_cker_os.Process.{Pcb, Pcbs, FdEntry, Fop, terminal_struct, insert_fdt, remove_fd_entry}
use mpf_cker_os.Base.{
  Option, some, ℕ, ◌==◌, ltb, leb, if◌then◌else◌, sub32, minus_one, is_negative, signed_ltb, not,
  ◌&&◌, ◌||◌, Mem, update,
}

pub record Kernel : Type 0 where
  pub mem : Mem
  pub fs : Filesys
  pub pcbs : Pcbs
  -- `terminals[cur_terminal].curr_process`
  pub curr_process : ℕ
  -- `currPid` and `currFD`
  pub curr_pid : ℕ
  pub curr_fd : ℕ

-- `read` and `write` of each jump table, with the descriptor, the buffer and the count; `none` is a call
-- that has not ended
pub record Drivers : Type 0 where
  pub read : Fop → ℕ → ℕ → ℕ → Kernel → Option (Kernel × ℕ)
  pub write : Fop → ℕ → ℕ → ℕ → Kernel → Option (Kernel × ℕ)

-- `PCB_array[currPid].fd_table[currFD]`
abbrev pub current_entry : Kernel → FdEntry
current_entry k = (k.pcbs k.curr_pid).fd_table k.curr_fd

abbrev pub max_fd_index : ℕ
max_fd_index = 6

abbrev pub min_fd_index : ℕ
min_fd_index = 2

unfoldable pub sys_read : Drivers → ℕ → ℕ → ℕ → Kernel → Option (Kernel × ℕ)
sys_read d fd buf nbytes k =
    if is_negative fd || not (signed_ltb fd max_fd_index) || (fd == 1)
    then some (k, minus_one)
    else if buf == 0
    then some (k, minus_one)
    else if fd == 0
    then d.read terminal_struct fd buf nbytes k
    else if ((current_entry k).present == minus_one) || (k.curr_fd == minus_one)
    then some (k, minus_one)
    else d.read (current_entry k).jump_start_idx fd buf nbytes k

unfoldable pub sys_write : Drivers → ℕ → ℕ → ℕ → Kernel → Option (Kernel × ℕ)
sys_write d fd buf nbytes k =
    if is_negative fd || not (signed_ltb fd max_fd_index) || (fd == 0)
    then some (k, minus_one)
    else if buf == 0
    then some (k, minus_one)
    else if fd == 1
    then d.write terminal_struct fd buf nbytes k
    else if ((current_entry k).present == minus_one) || (k.curr_fd == minus_one)
    then some (k, minus_one)
    else d.write (current_entry k).jump_start_idx fd buf nbytes k

unfoldable pub sys_open : ℕ → Kernel → Kernel × ℕ
sys_open filename k =
    let (fs', b', fd) = insert_fdt k.mem k.fs (k.pcbs k.curr_process) filename in
    if k.mem filename == 0 then (k, minus_one) else (
      record k {
        fs = fs';
        pcbs = update k.pcbs k.curr_process b';
        curr_fd = fd;
        curr_pid = k.curr_process;
      },
      fd,
    )

unfoldable pub sys_close : ℕ → Kernel → Kernel × ℕ
sys_close fd k =
    let (b', r) = remove_fd_entry (k.pcbs k.curr_process) fd in
    let pcbs' = update k.pcbs k.curr_process b' in
    if not (signed_ltb min_fd_index fd) || not (signed_ltb fd max_fd_index)
    then (k, minus_one)
    else if r == 0
    then (record k { pcbs = pcbs'; curr_fd = sub32 k.curr_fd 1 }, r)
    else (record k { pcbs = pcbs' }, r)

abbrev pub start_kernel : ℕ
start_kernel = 0x400000

abbrev pub end_kernel : ℕ
end_kernel = 0x800000

-- `sys_vidmap` for the terminal `cur_terminal`, with the tables and memory
unfoldable pub sys_vidmap : ℕ → ℕ → ℕ → Mem → Paging → Paging × Mem × ℕ
sys_vidmap video_table_addr cur_terminal screen_start m p =
    let (p', m') = vid_map video_table_addr cur_terminal screen_start m p in
    if (screen_start == 0) || (leb start_kernel screen_start && ltb screen_start end_kernel)
    then (p, m, minus_one)
    else (p', m', 0)

-- `sys_getargs`: `storeargs` holds the arguments of the last line that was read, and `args_addr` is
-- where the `args` of the current process lie. Memory afterwards and the result.
unfoldable pub sys_getargs : ℕ → Mem → ℕ → ℕ → Mem → Mem × ℕ
sys_getargs args_addr storeargs buf nbytes m =
    let m1 = terminal_getargs storeargs args_addr 1024 m in
    if m1 args_addr == 0 then (m1, minus_one) else (memcpy m1 buf args_addr nbytes, 0)
