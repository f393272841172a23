-- ===== src/Syscall/Dispatch.antt =====
-- Sequences of system calls on descriptors, student-distrib/syscall.c.
use mpf_cker_os.Base.{
  ℕ, ◌+◌, ◌-◌, ◌≤◌, ◌<◌, ◌≡◌, ◌≢◌, inl, true, false, ◌&&◌, some, arith, ltb, ◌==◌, if◌then◌else◌,
  minus_one, Mem, inside,
}
use mpf_cker_os.Filesys.{Dentry, read_dentry_by_name}
use mpf_cker_os.Process.{Pcb, get_fd_avail, fop_of}
use mpf_cker_os.Process.Files.{insert_fdt_lem, opened}
use mpf_cker_os.Process.Slots.{get_fd_avail_lem, remove_fd_entry_lem}
use mpf_cker_os.Syscall.{Kernel, Drivers, current_entry, sys_read, sys_open, sys_close}
use mpf_cker_os.Memory.Copy.{memcpy_lem}
use mpf_cker_os.Terminal.{terminal_getargs}
use mpf_cker_os.Terminal.Copying.{terminal_getargs_lem}
use mpf_cker_os.Syscall.{sys_getargs}

module _ (k : Kernel) (filename : ℕ) (dentry : Dentry) (named : k.mem filename ≢ 0)
    (found : read_dentry_by_name k.mem k.fs filename ≡ some dentry)
    (room : (get_fd_avail (k.pcbs k.curr_process)).1 ≢ minus_one) where
  abbrev process : Pcb
  process = k.pcbs k.curr_process

  abbrev fd : ℕ
  fd = (get_fd_avail process).1

  pub fd_range : (2 ≤ fd) × (fd < 8)
  fd_range = ground (arith, (get_fd_avail_lem process 0 (omega arith)).0.found)

  -- Opening a name of the directory with a descriptor free returns that descriptor, which becomes the
  -- current one of the current process; its entry gets the file and all others stay.
  pub sys_open_lem :
      (j : ℕ)
      → j < 8
      → let (k', r) = sys_open filename k in
        (r ≡ fd)
        × (k'.curr_fd ≡ fd)
        × (k'.curr_pid ≡ k.curr_process)
        × (k'.curr_process ≡ k.curr_process)
        × ((k'.pcbs k.curr_process).fd_table j
            ≡ (if j == fd then opened (process.fd_table j) dentry else process.fd_table j))
  unfolding sys_open
  sys_open_lem j h =
      ground (arith, insert_fdt_lem k.mem k.fs process filename j dentry found room h)

  opened_entry : current_entry (sys_open filename k).0 ≡ opened (process.fd_table fd) dentry
  opened_entry = ground (arith, sys_open_lem fd fd_range.1, fd_range)

  -- Once a file is open, `sys_read` of any descriptor from 2 to 5 into a buffer that is not null calls
  -- the driver of that file's type, whichever descriptor it is given.
  pub sys_read-sys_open :
      (d : Drivers) (j buf nbytes : ℕ)
      → 2 ≤ j
      → j < 6
      → buf ≢ 0
      → let k' = (sys_open filename k).0 in
        sys_read d j buf nbytes k'
        ≡ d.read (fop_of dentry.file_type (process.fd_table fd).jump_start_idx) j buf nbytes k'
  unfolding sys_read
  sys_read-sys_open d j buf nbytes l h b =
      ground (arith, opened_entry, sys_open_lem fd fd_range.1, fd_range)

  -- Closing the descriptor that has just been opened gives 0 if it is 3, 4 or 5: it is free then, the
  -- current descriptor is one less, and the other descriptors, memory, the file system and the current
  -- process stay as they were. A file that was given 2, 6 or 7 cannot be closed: the call gives -1 and
  -- the kernel is as before it.
  pub sys_close-sys_open :
      (j : ℕ)
      → j < 8
      → let k' = (sys_open filename k).0 in
        let closable = ltb 2 fd && ltb fd 6 in
        let (k'', r) = sys_close fd k' in
        (r ≡ (if closable then 0 else minus_one))
        × ((k''.pcbs k.curr_process).fd_table j ≡ (
            if (j == fd) && closable
            then record (opened (process.fd_table j) dentry) { present = minus_one }
            else (k'.pcbs k.curr_process).fd_table j))
        × (k''.curr_fd ≡ (if closable then fd - 1 else fd))
        × (k''.curr_pid ≡ k'.curr_pid)
        × (k''.curr_process ≡ k'.curr_process)
        × (k''.mem ≡ k'.mem)
        × (k''.fs ≡ k'.fs)
        × (closable ≡ false → k'' ≡ k')
  unfolding sys_close
  sys_close-sys_open j h =
      let here = sys_open_lem fd fd_range.1 in
      let entry = sys_open_lem j h in
      let freed = remove_fd_entry_lem ((sys_open filename k).0.pcbs k.curr_process) fd j in
      (
        ground (arith, here, fd_range, freed),
        ground (arith, here, entry, fd_range, freed),
        ground (arith, here, fd_range, freed),
        ground arith,
        ground arith,
        ground arith,
        ground arith,
        λ kept. ground (arith, fd_range, kept),
      )

-- `sys_getargs` gives -1 if the first stored byte is null. Otherwise it gives 0 and puts the bytes
-- asked for into the buffer, if that does not overlap the arguments of the process from above.
pub sys_getargs_lem :
    (args_addr buf nbytes q : ℕ) (stored m : Mem)
    → nbytes < 1024
    → buf + nbytes ≤ args_addr
    → inside buf nbytes q ≡ true
    → let (m', r) = sys_getargs args_addr stored buf nbytes m in
      (r ≡ (if stored 0 == 0 then minus_one else 0))
      × (m' q ≡ (if stored 0 == 0 then m q else stored (q - buf)))
unfolding sys_getargs
sys_getargs_lem args_addr buf nbytes q stored m short apart within = ground (
  arith,
  terminal_getargs_lem stored args_addr 1024 m args_addr (omega arith),
  terminal_getargs_lem stored args_addr 1024 m (args_addr + (q - buf)) (omega arith),
  terminal_getargs_lem stored args_addr 1024 m q (omega arith),
  memcpy_lem (terminal_getargs stored args_addr 1024 m) buf args_addr nbytes q (inl (omega arith)),
)
