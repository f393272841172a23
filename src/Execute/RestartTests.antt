-- ===== src/Execute/RestartTests.antt =====
-- The shell of a terminal, started anew.
use mpf_cker_os.Base.{◌*◌, ◌≡◌, refl, Option, none, some, [], ◌∷◌, minus_one, Mem, place}
use mpf_cker_os.Filesys.Image.{disk, fs}
use mpf_cker_os.Execute.{
  Machine, Regs, Outcome, enters, execute, read_elf, load, entry_point, fill_pcb, fill_tss, is_elf,
}
use mpf_cker_os.Filesys.{
  file_open, file_load, read_dentry_by_name, find_dentry, match_name, read_data, read_loop,
  curr_length,
}
use mpf_cker_os.Memory.{
  memmove, copy_back, copy_bytes, memcpy, memcpy_aligned, copy_dwords, move_dword,
}
use mpf_cker_os.Paging.{flush_tlb, map_page}
use mpf_cker_os.Printf.{printf, printf_from}
use mpf_cker_os.Process.{file_read, get_pid, get_pid_from}
use mpf_cker_os.Screen.{putc, update_cursor, store_cell}
use mpf_cker_os.Execute.Restart.{Tty, restart_round, print_message, free_shell}
use mpf_cker_os.Execute.Sample.{pcb}
use mpf_cker_os.Process.{Pcb}
use mpf_cker_os.Pic.{fresh_pic, send_eoi, outb}

-- the file "a" is a program of 28 bytes whose first instruction is at 0x08048000
abbrev program : Mem
program =
    place
      (place (place disk 16384 (0x7f ∷ 0x45 ∷ 0x4c ∷ 0x46 ∷ [])) 16408
        (0x00 ∷ 0x80 ∷ 0x04 ∷ 0x08 ∷ []))
      8192 (28 ∷ [])

abbrev in_use : Pcb
in_use = record pcb { pcb_in_use = 0; parent_pid = minus_one }

abbrev machine : Machine
machine = record {
  mem = program;
  fs = fs;
  pcbs = λ i. in_use;
  running = λ i. i;
  cur_terminal = 1;
  tss = record { ss0 = 0x18; esp0 = 0x7ffffc };
  paging = record {
    page_directory = λ i. 0;
    page_table = λ i. i * 4096;
    user_video_page_table = λ i. 0;
    cr3 = 0;
    flushes = 0;
    screen_starts = λ i. 0;
  };
  pic = fresh_pic;
  first_instruct = 0;
}

abbrev regs : Regs
regs = record { esp = 0x7ff000; ebp = 0x7ff010; return_label = 0x401000 }

abbrev tty : Tty
tty = record { machine = machine; x = 0; y = 0; ports = [] }

abbrev result : Option (Tty × Outcome)
result = restart_round 40 100 3000 3200 regs 1 tty

abbrev or_before : Option (Tty × Outcome) → Tty
or_before none = tty
or_before (some (t, out)) = t

enters_again : result ≡ some (or_before result, enters 0x8048000)
unfolding restart_round print_message printf printf_from execute read_elf load file_open file_load
    read_dentry_by_name find_dentry match_name memmove copy_back copy_bytes free_shell putc
    update_cursor store_cell file_read read_data read_loop curr_length get_pid get_pid_from
    entry_point fill_pcb fill_tss is_elf memcpy memcpy_aligned copy_dwords move_dword flush_tlb
    map_page send_eoi outb
enters_again = refl
