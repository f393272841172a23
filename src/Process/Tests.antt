-- ===== src/Process/Tests.antt =====
-- A concrete process table and file system.
use mpf_cker_os.Base.{◌≡◌, refl, inl, none, some, arith, ◌==◌, if◌then◌else◌, minus_one, update}
use mpf_cker_os.Filesys.{Dentry, read_dentry_by_name, find_dentry, match_name, copy_dentry}
use mpf_cker_os.Process.{
  FdEntry, Pcb, Pcbs, get_pid, get_fd_avail, get_fd_from, remove_fd_entry, insert_fdt, init_pcb,
  file_read, set_fd, terminal_struct, file_struct,
}
use mpf_cker_os.Process.Slots.{
  get_pid_lem, get_fd_avail_lem, remove_fd_entry_lem, IsFirstFree, pid_free, fd_free,
}
use mpf_cker_os.Process.Files.{insert_fdt_fails, init_pcb_lem, file_read_end}
use mpf_cker_os.Filesys.Image.{disk, fs, disk_bytes}

abbrev entry : FdEntry
entry = record {
  present = minus_one;
  file_pos = 0;
  inode_number = 0;
  jump_start_idx = file_struct;
  file_type = 2;
}

-- a process that is not in use
abbrev idle : Pcb
idle = record {
  fd_table = λ i. entry;
  pcb_in_use = minus_one;
  esp = 0;
  ebp = 0;
  task_esp = 0;
  task_ebp = 0;
  esp0 = 0;
  ss0 = 0;
  return_label_add = 0;
  parent_pid = 0;
  args = λ q. 0;
}

-- process 0 is in use
abbrev pcbs : Pcbs
pcbs = update (λ i. idle) 0 (record idle { pcb_in_use = 0 })

get_pid_lem_example :
    IsFirstFree (pid_free pcbs) 0 6 (get_pid pcbs).1
    × (((get_pid pcbs).0 1).pcb_in_use ≡ (if 1 == (get_pid pcbs).1 then 0 else (pcbs 1).pcb_in_use))
get_pid_lem_example = get_pid_lem pcbs 1 (omega arith)

get_fd_avail_lem_example :
    IsFirstFree (fd_free idle) 2 8 (get_fd_avail idle).1
    × ((get_fd_avail idle).0.fd_table 2
        ≡ (if 2 == (get_fd_avail idle).1 then record entry { present = 0 } else entry))
get_fd_avail_lem_example = get_fd_avail_lem idle 2 (omega arith)

remove_fd_entry_lem_example :
    let (b', r) = remove_fd_entry idle 2 in (r ≡ minus_one) × (b'.fd_table 2 ≡ entry)
remove_fd_entry_lem_example = remove_fd_entry_lem idle 2 2

first_fd : (get_fd_avail idle).1 ≡ 2
unfolding get_fd_avail get_fd_from
first_fd = refl

abbrev a_entry : Dentry
a_entry = copy_dentry disk 4224

finds_a : read_dentry_by_name disk fs 100 ≡ some a_entry
unfolding read_dentry_by_name find_dentry match_name
finds_a = refl

no_name : read_dentry_by_name disk fs 16384 ≡ none
unfolding read_dentry_by_name find_dentry match_name
no_name = refl

insert_fdt_fails_example :
    let (fs', b', r) = insert_fdt disk fs idle 16384 in (r ≡ minus_one) × (b'.fd_table 3 ≡ entry)
insert_fdt_fails_example = insert_fdt_fails disk fs idle 16384 3 (inl no_name) (omega arith)

init_pcb_lem_example :
    ((init_pcb pcbs 0).pcb_in_use ≡ minus_one)
    × (((init_pcb pcbs 0).fd_table 1).present ≡ minus_one)
    × (((init_pcb pcbs 0).fd_table 1).jump_start_idx ≡ terminal_struct)
init_pcb_lem_example = init_pcb_lem pcbs 0 1 (omega arith) (omega arith)

-- a process that has read one byte of the file "a" by descriptor 2
abbrev reader : Pcb
reader = set_fd idle 2 (record entry { present = 0; file_pos = 1 })

-- a process that has read all of it
abbrev finished : Pcb
finished = set_fd idle 2 (record entry { present = 0; file_pos = 5 })

file_read_end_example :
    file_read 9 disk fs finished 2 200 8
    ≡ some (disk, set_fd finished 2 (record entry { present = 0; file_pos = 0 }), 0)
file_read_end_example =
    file_read_end disk fs finished 2 disk_bytes (omega arith) (omega arith) 8 200 8 (omega arith)
