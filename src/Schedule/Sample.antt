-- ===== src/Schedule/Sample.antt =====
-- Three terminals and their processes, for tests.
use mpf_cker_os.Base.{ℕ, ◌+◌, ◌*◌, [], ◌∷◌, Mem, place}
use mpf_cker_os.Pic.{fresh_pic}
use mpf_cker_os.Schedule.{System, Terminal, buffer_of}
use mpf_cker_os.Schedule.Timer.{Timer}
use mpf_cker_os.Execute.Sample.{pcb}

abbrev pub empty_line : Mem
empty_line q = 0

abbrev pub terminal : ℕ → Terminal
terminal i = record {
  shell_pid = i;
  video_buffer = buffer_of i;
  buf_kb = empty_line;
  screen_x = 0;
  screen_y = 0;
  curr_idx = 0;
  num_chars = 0;
  save_x = 0;
  save_y = 0;
  prev_num_chars = 0;
  prev_buf = empty_line;
  curr_process = i;
  enter_flag = 1;
}

-- one character has been typed on the first terminal
abbrev pub running : System
running = record {
  terminals = terminal;
  visible = 0;
  cur_terminal = 2;
  pit_count = 4;
  pit_intr_count = 9;
  keyboard = record {
    num_chars = 1;
    curr_idx = 1;
    save_x = 7;
    save_y = 2;
    previous_buf = empty_line;
    previous_num_chars = 0;
    buf_kb = place empty_line 0 (97 ∷ []);
    flag_arr = empty_line;
  };
  x = 8;
  y = 2;
  mem = place (λ q. 32) 0xb8000 (97 ∷ 7 ∷ []);
  paging = record {
    page_directory = λ i. 0;
    page_table = λ i. i * 4096 + 3;
    user_video_page_table = λ i. 0;
    cr3 = 0;
    flushes = 0;
    screen_starts = λ i. 0;
  };
  pic = fresh_pic;
}

abbrev pub timer : Timer
timer = record {
  system = running;
  pcbs = λ i. pcb;
  tss = record { ss0 = 0x18; esp0 = 0x7ffffc };
  save_tss = λ i. record { ss0 = 0x18; esp0 = 0x7fdffc };
}
