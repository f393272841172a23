-- ===== src/Schedule.antt =====
-- The three terminals of student-distrib/schedule.c and schedule.h: setting them up, the switch from
-- one to another, the timer and the speaker. The handler of the timer is in Schedule/Timer. Memory is
-- physical; a copy from or to the video page goes through the frame that the page table gives for it.
pub mod Switch
pub mod Setup
pub mod Timer
pub mod Sample
pub mod Round
mod Tests
use mpf_cker_os.Base.{
  ℕ, zero, suc, ◌+◌, ◌-◌, ◌*◌, ◌/◌, ◌%◌, ◌^◌, ◌≤◌, ◌<◌, min, bit_and, bit_or, ◌≡◌, refl, sym, ap,
  ap₂, ◌∙◌, subst, ◌≢◌, ◌↔◌, ◌⊎◌, inl, inr, Bool, true, false, not, ◌&&◌, ◌||◌, Option, none, some,
  List, [], ◌∷◌, ◌++◌, arith, ltb, leb, ◌==◌, if◌then◌else◌, ==_iff, Bool-cases, all_below,
  all_below_sound, u8, u16, u32, sub32, minus_one, is_negative, signed_ltb, Mem, update, inside,
  length, get_or, bytes_at, bytes_at-eq, place, ℕ_discrete, dec_lt,
}
use mpf_cker_os.Memory.{memcpy, memset}
use mpf_cker_os.Pic.{Pic, enable_irq, outb}
use mpf_cker_os.Screen.{Screen, update_cursor}
use mpf_cker_os.Paging.{Paging, flush_tlb, video_mem, video_mem_index, four_kb}
use mpf_cker_os.Keyboard.{
  Keyboard, buffer_size, copied, set_num_chars, set_curr_idx, set_save_x, set_save_y,
  set_previous_num_chars, get_previous_buf, set_previous_buf,
}

-- `terminal_t` but for `save_tss`; `screen_start` is a field of the page tables' record
pub record Terminal : Type 0 where
  pub shell_pid : ℕ
  pub video_buffer : ℕ
  pub buf_kb : Mem
  pub screen_x : ℕ
  pub screen_y : ℕ
  pub curr_idx : ℕ
  pub num_chars : ℕ
  pub save_x : ℕ
  pub save_y : ℕ
  pub prev_num_chars : ℕ
  pub prev_buf : Mem
  pub curr_process : ℕ
  pub enter_flag : ℕ

abbrev pub num_terminals : ℕ
num_terminals = 3

pub record System : Type 0 where
  pub terminals : ℕ → Terminal
  pub visible : ℕ
  pub cur_terminal : ℕ
  pub pit_count : ℕ
  pub pit_intr_count : ℕ
  pub keyboard : Keyboard
  -- `screen_x` and `screen_y` of the console
  pub x : ℕ
  pub y : ℕ
  pub mem : Mem
  pub paging : Paging
  -- the controller, with every port write of these functions in its log
  pub pic : Pic

-- the physical page that the address `VIDEO_MEM` leads to
abbrev pub video_frame : Paging → ℕ
video_frame p = p.page_table video_mem_index / four_kb * four_kb

-- memory as it is seen through the mapping of the video page, and what is written there put back
abbrev pub seen : Paging → Mem → Mem
seen p m q = if inside video_mem four_kb q then m (video_frame p + (q - video_mem)) else m q

abbrev pub put_back : Paging → Mem → Mem → Mem
put_back p old m q =
    if inside (video_frame p) four_kb q
    then m (video_mem + (q - video_frame p))
    else if inside video_mem four_kb q
    then old q
    else m q

abbrev pub screen_of : System → Screen
screen_of s = record { x = s.x; y = s.y; mem = seen s.paging s.mem; ports = s.pic.ports }

abbrev pub with_screen : System → Screen → System
with_screen s t = record s {
  x = t.x;
  y = t.y;
  mem = put_back s.paging s.mem t.mem;
  pic = record s.pic { ports = t.ports };
}

abbrev pub on_screen : (Screen → Screen) → System → System
on_screen f s = with_screen s (f (screen_of s))

-- what is saved of the visible terminal
unfoldable pub save_terminal : System → Terminal
unfolding get_previous_buf
save_terminal s =
    let t = s.terminals s.visible in
    let k = s.keyboard in
    record t {
      screen_x = u8 s.x;
      screen_y = u8 s.y;
      curr_idx = u8 k.curr_idx;
      num_chars = u8 k.num_chars;
      save_x = u8 k.save_x;
      save_y = u8 k.save_y;
      prev_num_chars = u8 k.previous_num_chars;
      prev_buf = get_previous_buf t.prev_buf k;
      buf_kb = copied t.buf_kb k.buf_kb buffer_size;
    }

-- what is restored of a terminal into the keyboard
unfoldable pub restore_keyboard : Terminal → Keyboard → Keyboard
unfolding set_num_chars set_curr_idx set_save_x set_save_y set_previous_num_chars set_previous_buf
restore_keyboard t k =
    let k1 = set_previous_buf t.prev_buf (
      set_previous_num_chars t.prev_num_chars (
        set_save_y t.save_y
          (set_save_x t.save_x (set_num_chars t.num_chars (set_curr_idx t.curr_idx k))))) in
    record k1 { buf_kb = copied k1.buf_kb t.buf_kb buffer_size }

-- the writes of `set_cursor` to the cursor's registers, in the controller's log
abbrev pub log_cursor : ℕ → ℕ → Pic → Pic
log_cursor x y p = record p {
  ports = (update_cursor x y (record { x = x; y = y; mem = λ q. 0; ports = p.ports })).ports;
}

unfoldable pub switch_terminal : ℕ → System → System
unfolding save_terminal restore_keyboard flush_tlb
switch_terminal terminal_dest s =
    let frame = video_frame s.paging in
    let old = s.terminals s.visible in
    let m1 = memcpy s.mem old.video_buffer frame four_kb in
    let terms = update s.terminals s.visible (save_terminal s) in
    let new = terms terminal_dest in
    let user_table =
      update (update s.paging.user_video_page_table s.visible (bit_or old.video_buffer 7))
        terminal_dest (bit_or video_mem 7) in
    if terminal_dest == s.visible
    then s
    else if ltb num_terminals terminal_dest
    then s
    else record s {
      terminals = terms;
      visible = terminal_dest;
      keyboard = restore_keyboard new s.keyboard;
      x = new.screen_x;
      y = new.screen_y;
      mem = memcpy m1 frame new.video_buffer four_kb;
      paging = flush_tlb (record s.paging { user_video_page_table = user_table });
      pic = log_cursor new.screen_x new.screen_y s.pic;
    }

abbrev pub max_freq_pit : ℕ
max_freq_pit = 1193180

-- `init_PIT`
unfoldable pub init_pit : ℕ → System → System
unfolding outb enable_irq
init_pit frequency s =
    let divisor = max_freq_pit / frequency in
    let low = u8 (divisor % 256) in
    let high = u8 (divisor / 256 % 256) in
    record s {
      pic = enable_irq 0 (outb high 0x40 (outb low 0x40 (outb 0x36 0x43 s.pic)));
      pit_count = 0;
      pit_intr_count = 0;
    }

-- `beep`; `speaker` is what the speaker's port reads
unfoldable pub beep : ℕ → ℕ → Pic → Pic
unfolding outb enable_irq
beep speaker frequency p =
    let divisor = max_freq_pit / frequency in
    let p1 = outb (u8 (divisor / 256)) 0x42 (outb (u8 divisor) 0x42 (outb 0xb6 0x43 p)) in
    let p2 =
      if not (speaker == bit_or speaker 3) then outb (u8 (bit_or speaker 3)) 0x61 p1 else p1 in
    enable_irq 0 p2

-- `VIDEO_BUFFER1` to `VIDEO_BUFFER3`, for 0 to 2
abbrev pub buffer_of : ℕ → ℕ
buffer_of i = video_mem + four_kb * (i + 1)

-- a round of the loop of `init_terminals`
abbrev pub reset_terminal : ℕ → Terminal → Terminal
reset_terminal i t = record t {
  shell_pid = i;
  buf_kb = copied t.buf_kb (λ q. 0) buffer_size;
  screen_x = 0;
  screen_y = 0;
  curr_idx = 0;
  num_chars = 0;
  save_x = 0;
  save_y = 0;
  prev_num_chars = 0;
  curr_process = minus_one;
  enter_flag = 1;
  prev_buf = copied t.prev_buf (λ q. 0) buffer_size;
}

-- the loop: the terminals and memory
unfoldable pub reset_from : (ℕ → Terminal) → Mem → ℕ → ℕ → (ℕ → Terminal) × Mem
reset_from ts m i zero = (ts, m)
reset_from ts m i (suc left) =
    reset_from (update ts i (reset_terminal i (ts i))) (memset m (ts i).video_buffer 0 four_kb)
      (i + 1) left

abbrev pub with_buffer : ℕ → (ℕ → Terminal) → ℕ → Terminal
with_buffer i ts = update ts i (record (ts i) { video_buffer = buffer_of i })

unfoldable pub init_terminals : System → System
unfolding reset_from
init_terminals s =
    let ts = with_buffer 2 (with_buffer 1 (with_buffer 0 s.terminals)) in
    let m =
      memset (memset (memset s.mem (buffer_of 0) 0 four_kb) (buffer_of 1) 20 four_kb) (buffer_of 2)
        40 four_kb in
    let (ts', m') = reset_from ts m 0 num_terminals in
    record s {
      terminals = ts';
      mem = m';
      paging = record s.paging {
        screen_starts = update (update (update s.paging.screen_starts 0 0) 1 0) 2 0;
      };
      cur_terminal = 2;
      visible = 0;
      pit_intr_count = 0;
    }
