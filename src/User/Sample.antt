-- ===== src/User/Sample.antt =====
-- A kernel with a process that has opened nothing, for tests.
use mpf_cker_os.Base.{none, some, [], minus_one, Mem, place}
use mpf_cker_os.Filesys.Image.{disk, fs}
use mpf_cker_os.Paging.{Paging}
use mpf_cker_os.Process.{FdEntry, Pcb, Fop}
use mpf_cker_os.Strings.{codes}
use mpf_cker_os.Syscall.{Drivers}
use mpf_cker_os.Syscall.Files.{file_drivers}
use mpf_cker_os.User.Kernel.{World, Setting}
use mpf_cker_os.User.Console.{console_drivers}

abbrev pub entry : FdEntry
entry = record {
  present = minus_one;
  file_pos = 0;
  inode_number = 0;
  jump_start_idx = Fop.null;
  file_type = 2;
}

abbrev pub process : Pcb
process = record {
  fd_table = λ i. entry;
  pcb_in_use = 0;
  esp = 0;
  ebp = 0;
  task_esp = 0;
  task_ebp = 0;
  esp0 = 0;
  ss0 = 0;
  return_label_add = 0;
  parent_pid = 0;
  args = λ q. 0;
}

abbrev pub tables : Paging
tables = record {
  page_directory = λ i. 0;
  page_table = λ i. 0;
  user_video_page_table = λ i. 0;
  cr3 = 0;
  flushes = 0;
  screen_starts = λ i. 0;
}

-- the arguments of the last line are "a"
abbrev pub start : World
start = record {
  caller = record {
    kernel = record {
      mem = disk;
      fs = fs;
      pcbs = λ i. process;
      curr_process = 1;
      curr_pid = 1;
      curr_fd = minus_one;
    };
    paging = tables;
    stored = place (λ q. 0) 0 (codes "a");
  };
  console = [];
}

abbrev pub no_drivers : Drivers
no_drivers = record { read = λ z fd buf n k. some (k, 0); write = λ z fd buf n k. some (k, 0) }

abbrev pub drivers : Drivers
drivers = console_drivers (λ k. 0) (λ k. 0) no_drivers

abbrev pub setting : Setting
setting = record {
  drivers = file_drivers 4 3000 drivers;
  frame = record { video_table = 0; cur_terminal = 0; args_addr = 0x200000 };
  page = 0x100000;
  run_command = λ m w. none;
  after_message = 0;
}

abbrev pub zeros : Mem
zeros q = 0
