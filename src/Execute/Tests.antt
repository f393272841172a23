-- ===== src/Execute/Tests.antt =====
-- Starting and ending a concrete process.
use mpf_cker_os.Base.{◌+◌, ◌*◌, ◌≡◌, refl, none, some, arith, minus_one}
use mpf_cker_os.Pic.{fresh_pic}
use mpf_cker_os.Memory.{memmove, copy_bytes, copy_back}
use mpf_cker_os.Filesys.{read_dentry_by_name, find_dentry, match_name}
use mpf_cker_os.Filesys.Image.{disk, fs}
use mpf_cker_os.Execute.{
  Machine, Regs, refused, returns_to, curr_process, fill_pcb, fill_tss, execute, halt,
}
use mpf_cker_os.Execute.Sample.{pcb}
use mpf_cker_os.Execute.Return.{halt-fill_pcb, execute_unknown}

-- the shell of the first terminal, process 0
abbrev shell : Machine
shell = record {
  mem = disk;
  fs = fs;
  pcbs = λ i. pcb;
  running = λ i. 0;
  cur_terminal = 0;
  tss = record { ss0 = 0x18; esp0 = 0x7ffffc };
  paging = record {
    page_directory = λ i. 0;
    page_table = λ i. 0;
    user_video_page_table = λ i. 0;
    cr3 = 0;
    flushes = 0;
    screen_starts = λ i. 0;
  };
  pic = fresh_pic;
  first_instruct = 0;
}

abbrev regs : Regs
regs = record { esp = 0x7ff000; ebp = 0x7ff010; return_label = 0x401000 }

halt-fill_pcb_example :
    let (u, out) = halt (fill_tss 3 (record (fill_pcb 3 regs shell) { mem = disk; fs = fs })) in
    (out ≡ returns_to 0x7ff000 0x7ff010 0x401000)
    × (u.tss ≡ shell.tss)
    × (curr_process u ≡ 0)
    × (u.paging.page_directory 32 ≡ 2 * 4194304 + 0x87)
    × ((u.pcbs 3).pcb_in_use ≡ minus_one)
    × (((u.pcbs 3).fd_table 2).present ≡ minus_one)
    × ((u.pcbs 3).args 9 ≡ 0)
halt-fill_pcb_example =
    halt-fill_pcb shell 3 2 9 regs disk fs (omega arith) (omega arith) (omega arith) (omega arith)

no_name : read_dentry_by_name (memmove disk 50000 16384 128) fs 16384 ≡ none
unfolding read_dentry_by_name find_dentry match_name memmove copy_bytes copy_back
no_name = refl

execute_unknown_example :
    execute 9 16384 50000 60000 regs shell
    ≡ some (record shell { mem = memmove disk 50000 16384 128 }, refused)
execute_unknown_example = execute_unknown 9 16384 50000 60000 regs shell no_name
