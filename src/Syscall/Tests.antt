-- ===== src/Syscall/Tests.antt =====
-- System calls of a concrete kernel.
use mpf_cker_os.Base.{
  ℕ, ◌+◌, ◌-◌, ◌*◌, ◌/◌, ◌%◌, ◌^◌, ◌≤◌, ◌<◌, bit_or, ◌≡◌, refl, ap, ◌≢◌, ◌↔◌, ◌⊎◌, inl, false, ◌&&◌,
  some, arith, ltb, ◌==◌, if◌then◌else◌, minus_one, update, inside,
}
use mpf_cker_os.Filesys.{load32}
use mpf_cker_os.Filesys.{Dentry, read_dentry_by_name, find_dentry, match_name, copy_dentry}
use mpf_cker_os.Filesys.Read.{file_byte}
use mpf_cker_os.Syscall.Files.{file_drivers, sys_read-file}
use mpf_cker_os.Filesys.Image.{disk_bytes}
use mpf_cker_os.Filesys.Image.{disk, fs}
use mpf_cker_os.Paging.{Paging}
use mpf_cker_os.Process.{FdEntry, Pcb, Fop, fop_of, get_fd_avail, get_fd_from}
use mpf_cker_os.Process.Files.{opened}
use mpf_cker_os.Syscall.{
  Kernel, Drivers, sys_read, sys_write, sys_open, sys_close, sys_vidmap, sys_getargs,
}
use mpf_cker_os.Syscall.Checks.{sys_read_refused, sys_write_refused, sys_vidmap_lem, user_entry}
use mpf_cker_os.Syscall.Dispatch.{
  sys_open_lem, sys_read-sys_open, sys_close-sys_open, sys_getargs_lem,
}

abbrev entry : FdEntry
entry = record {
  present = minus_one;
  file_pos = 0;
  inode_number = 0;
  jump_start_idx = Fop.null;
  file_type = 2;
}

-- a process that has opened descriptor 2
abbrev process : Pcb
process = record {
  fd_table = update (λ i. entry) 2 (record entry { present = 0 });
  pcb_in_use = 0;
  esp = 0;
  ebp = 0;
  task_esp = 0;
  task_ebp = 0;
  esp0 = 0;
  ss0 = 0;
  return_label_add = 0;
  parent_pid = 0;
  args = λ q. 0;
}

abbrev kernel : Kernel
kernel = record {
  mem = disk;
  fs = fs;
  pcbs = λ i. process;
  curr_process = 1;
  curr_pid = 0;
  curr_fd = 2;
}

-- drivers that do nothing and give back the count
abbrev drivers : Drivers
drivers = record {
  read = λ f fd buf nbytes k. some (k, nbytes);
  write = λ f fd buf nbytes k. some (k, nbytes);
}

sys_read_refused_example : sys_read drivers 6 100 4 kernel ≡ some (kernel, minus_one)
sys_read_refused_example = sys_read_refused drivers 6 100 4 kernel refl

sys_write_refused_example : sys_write drivers 0 100 4 kernel ≡ some (kernel, minus_one)
sys_write_refused_example = sys_write_refused drivers 0 100 4 kernel refl

abbrev tables : Paging
tables = record {
  page_directory = λ i. 0;
  page_table = λ i. 0;
  user_video_page_table = λ i. 0;
  cr3 = 0;
  flushes = 0;
  screen_starts = λ i. 0;
}

sys_vidmap_lem_example :
    let (paging', m', r) = sys_vidmap 0x502000 1 0x8000100 disk tables in
    let a = load32 m' 0x8000100 in
    ((r ≡ 0) ↔ ((◌≢◌ {A = ℕ} 0x8000100 0) × ((0x8000100 < 4 * 2 ^ 20) ⊎ (8 * 2 ^ 20 ≤ 0x8000100))))
    × (r ≡ 0
        → (paging'.page_directory (a / 4194304) ≡ bit_or 0x502000 7)
          × (a / 4096 % 1024 ≡ 1)
          × (user_entry paging' a / 4096 * 4096 + a % 4096 ≡ 0xb8000)
          × (user_entry paging' a % 8 ≡ 7)
          × (paging'.user_video_page_table 2 ≡ (if 2 == 1 then 0xb8007 else 0))
          × (paging'.page_directory 2 ≡ (if 2 == a / 4194304 then bit_or 0x502000 7 else 0))
          × (m' 100 ≡ (if inside 0x8000100 4 100 then m' 100 else disk 100)))
    × (r ≢ 0 → (r ≡ minus_one) × (paging' ≡ tables) × (m' ≡ disk))
sys_vidmap_lem_example = sys_vidmap_lem 0x502000 1 0x8000100 2 100 disk tables (omega arith)

abbrev a_entry : Dentry
a_entry = copy_dentry disk 4224

finds_a : read_dentry_by_name disk fs 100 ≡ some a_entry
unfolding read_dentry_by_name find_dentry match_name
finds_a = refl

room : (get_fd_avail process).1 ≢ minus_one
unfolding get_fd_avail get_fd_from
room = omega arith

sys_open_lem_example :
    let (k', r) = sys_open 100 kernel in
    let fd = (get_fd_avail process).1 in
    (r ≡ fd)
    × (k'.curr_fd ≡ fd)
    × (k'.curr_pid ≡ 1)
    × (k'.curr_process ≡ 1)
    × ((k'.pcbs 1).fd_table 3 ≡ (if 3 == fd then opened entry a_entry else entry))
sys_open_lem_example = sys_open_lem kernel 100 a_entry (omega arith) finds_a room 3 (omega arith)

sys_read-sys_open_example :
    let k' = (sys_open 100 kernel).0 in
    sys_read drivers 5 200 4 k'
    ≡ drivers.read
        (fop_of a_entry.file_type (process.fd_table (get_fd_avail process).1).jump_start_idx)
        5
        200
        4
        k'
sys_read-sys_open_example =
    sys_read-sys_open kernel 100 a_entry (omega arith) finds_a room drivers 5 200 4 (omega arith)
      (omega arith) (omega arith)

sys_close-sys_open_example :
    let k' = (sys_open 100 kernel).0 in
    let fd = (get_fd_avail process).1 in
    let closable = ltb 2 fd && ltb fd 6 in
    let (k'', r) = sys_close fd k' in
    (r ≡ (if closable then 0 else minus_one))
    × ((k''.pcbs 1).fd_table 3 ≡ (
        if (3 == fd) && closable
        then record (opened entry a_entry) { present = minus_one }
        else (k'.pcbs 1).fd_table 3))
    × (k''.curr_fd ≡ (if closable then fd - 1 else fd))
    × (k''.curr_pid ≡ k'.curr_pid)
    × (k''.curr_process ≡ k'.curr_process)
    × (k''.mem ≡ k'.mem)
    × (k''.fs ≡ k'.fs)
    × (closable ≡ false → k'' ≡ k')
sys_close-sys_open_example =
    sys_close-sys_open kernel 100 a_entry (omega arith) finds_a room 3 (omega arith)

sys_getargs_lem_example :
    let (m', r) = sys_getargs 4096 (λ q. 97) 100 8 (λ q. 0) in (r ≡ 0) × (m' 103 ≡ 97)
sys_getargs_lem_example =
    sys_getargs_lem 4096 100 8 103 (λ q. 97) (λ q. 0) (omega arith) (omega arith) refl

third : (get_fd_avail process).1 ≡ 3
unfolding get_fd_avail get_fd_from
third = refl

sys_read-file_example :
    let (k1, r) = sys_open 100 kernel in
    (k2 : Kernel) × (sys_read (file_drivers 9 3000 drivers) r 200 4 k1 ≡ some (k2, 4))
    × ((q : ℕ) → k2.mem q ≡ (if inside 200 4 q then file_byte disk fs 0 (q - 200) else disk q))
    × (((k2.pcbs 1).fd_table (get_fd_avail process).1).file_pos ≡ 4)
sys_read-file_example =
    sys_read-file kernel 100 a_entry (omega arith) finds_a room 7 3000 200 4 drivers refl
      (ground (arith, third)) (ap (λ (j : ℕ). (process.fd_table j).file_pos) third) disk_bytes
      (omega arith) (omega arith) (omega arith) (omega arith) (omega arith) (inl (omega arith))
