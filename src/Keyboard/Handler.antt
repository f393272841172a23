-- ===== src/Keyboard/Handler.antt =====
-- `keyboard_handler` of student-distrib/keyboard.c. The scan code, what the port of the speaker reads and
-- the address of the frame of `printf` are arguments; interrupts are off while it runs.
use mpf_cker_os.Base.{
  ℕ, zero, suc, ◌+◌, ◌-◌, Bool, not, ◌&&◌, ◌||◌, Option, none, some, ltb, leb, ◌==◌, if◌then◌else◌,
  u8, u32, sub32, signed_ltb, Mem, update,
}
use mpf_cker_os.Pic.{send_eoi}
use mpf_cker_os.Paging.{map_video_page}
use mpf_cker_os.Screen.{Screen, putc, backspace, clear_kb}
use mpf_cker_os.Printf.{printf}
use mpf_cker_os.Schedule.{
  screen_of, with_screen, on_screen, System, Terminal, switch_terminal, beep,
}
use mpf_cker_os.Keyboard.{Keyboard, buffer_size, max_char, copied}
use mpf_cker_os.Keyboard.Layout.{key_char, note, num_characters}

abbrev pub with_keyboard : System → Keyboard → System
with_keyboard s k = record s { keyboard = k }

abbrev set_flag : ℕ → ℕ → Keyboard → Keyboard
set_flag i v k = record k { flag_arr = update k.flag_arr i v }

-- the cases of the `switch` for the keys that only set a flag
unfoldable pub key_flag : ℕ → Keyboard → Option Keyboard
key_flag scan k =
    if scan == 0x2a
    then some (set_flag 0 1 k)
    else if scan == 0xaa
    then some (set_flag 0 0 k)
    else if scan == 0x36
    then some (set_flag 1 1 k)
    else if scan == 0xb6
    then some (set_flag 1 0 k)
    else if scan == 0x1d
    then some (set_flag 2 (u32 (k.flag_arr 2 + 1)) k)
    else if scan == 0x9d
    then some (set_flag 2 (sub32 (k.flag_arr 2) 1) k)
    else if scan == 0x3a
    then some (set_flag 3 (if k.flag_arr 3 == 0 then 1 else 0) k)
    else if scan == 0x38
    then some (set_flag 4 (u32 (k.flag_arr 4 + 1)) k)
    else if scan == 0xb8
    then some (set_flag 4 (sub32 (k.flag_arr 4) 1) k)
    else none

abbrev place_cursor : ℕ → ℕ → ℕ → (ℕ → Terminal) → ℕ → Terminal
place_cursor i x y ts = update ts i (record (ts i) { screen_x = u8 x; screen_y = u8 y })

-- the cursor of the running terminal is saved, and the visible one takes its place
unfoldable pub begin_visible : System → System
begin_visible s =
    let ts = place_cursor s.cur_terminal s.x s.y s.terminals in
    record s {
      terminals = ts;
      x = (ts s.visible).screen_x;
      y = (ts s.visible).screen_y;
      paging = map_video_page 0 s.paging;
    }

-- and back
unfoldable pub end_visible : System → System
end_visible s =
    let ts = place_cursor s.visible s.x s.y s.terminals in
    record s {
      terminals = ts;
      x = (ts s.cur_terminal).screen_x;
      y = (ts s.cur_terminal).screen_y;
      paging =
          map_video_page (if s.cur_terminal == s.visible then 0 else 1 + s.cur_terminal) s.paging;
    }

-- the loop that erases what has been typed, with fuel
unfoldable pub erase_typed : ℕ → ℕ → ℕ → Screen → Option Screen
erase_typed zero save_x save_y s = none
erase_typed (suc f) save_x save_y s =
    let rest = erase_typed f save_x save_y (backspace s) in
    if not (s.x == save_x) && not (s.y == save_y) then rest else some s

-- the line before in place of the one that is typed
abbrev pub previous_line : Keyboard → Keyboard
previous_line k = record k {
  buf_kb = copied k.buf_kb k.previous_buf buffer_size;
  num_chars = k.previous_num_chars;
  curr_idx = k.previous_num_chars;
}

-- the case of the up key; `stack` is what lies above the arguments of `printf`
unfoldable pub recall : ℕ → Mem → ℕ → System → Option System
recall f stack conv s0 =
    let s = begin_visible s0 in
    let k = s.keyboard in
    let k' = previous_line k in
    elim (erase_typed f k.save_x k.save_y (screen_of s)) [
      | none ↦ none
      | some t ↦ elim (printf f k'.buf_kb stack conv t) [
        | none ↦ none
        | some (n, u) ↦ some (end_visible (with_screen (with_keyboard s k') u))
      ]
    ]

-- control and L
unfoldable pub clear_line : System → System
clear_line s =
    let k = s.keyboard in
    with_keyboard (on_screen clear_kb s)
      (record k { curr_idx = 0; num_chars = 0; buf_kb = copied k.buf_kb (λ q. 0) buffer_size })

unfoldable pub erase_key : System → System
erase_key s =
    let k = s.keyboard in
    with_keyboard (on_screen backspace s)
      (record k { curr_idx = sub32 k.curr_idx 1; num_chars = sub32 k.num_chars 1 })

unfoldable pub enter_key : System → System
enter_key s =
    let k = s.keyboard in
    let k' = if k.num_chars == 0 then k else record k {
      previous_buf = copied (copied k.previous_buf (λ q. 0) buffer_size) k.buf_kb k.num_chars;
      previous_num_chars = k.num_chars;
    } in
    let t =
      with_keyboard (on_screen (putc b'\n') s)
        (record k' { buf_kb = update k'.buf_kb k'.curr_idx b'\n'; curr_idx = 0; num_chars = 0 }) in
    record t {
      terminals = update t.terminals t.visible (record (t.terminals t.visible) { enter_flag = 0 });
    }

-- a character is shown and added to the line
unfoldable pub put_key : ℕ → System → System
put_key c s =
    let k = s.keyboard in
    with_keyboard (on_screen (putc c) s) (record k {
      buf_kb = update k.buf_kb k.curr_idx c;
      curr_idx = u32 (k.curr_idx + 1);
      num_chars = u32 (k.num_chars + 1);
    })

abbrev pub shift_on : Keyboard → Bool
shift_on k = not (k.flag_arr 0 == 0) || not (k.flag_arr 1 == 0)

abbrev pub caps_on : Keyboard → Bool
caps_on k = not (k.flag_arr 3 == 0)

abbrev pub sound : ℕ → ℕ → System → System
sound speaker frequency s =
    if frequency == 0 then s else record s { pic = beep speaker frequency s.pic }

-- where the line starts is recorded; `strlen(buf_kb)` is 0 when the first byte of the line is
unfoldable pub start_line : System → System
start_line s =
    if s.keyboard.buf_kb 0 == 0
    then with_keyboard s (record s.keyboard { save_x = s.x; save_y = s.y })
    else s

-- the beep of a plain character
unfoldable pub beep_key : ℕ → ℕ → System → System
beep_key speaker c s =
    if shift_on s.keyboard || caps_on s.keyboard then s else sound speaker (note c) s

-- a key of the tables
unfoldable pub type_key : ℕ → ℕ → System → System
type_key speaker scan s =
    let c = key_char (shift_on s.keyboard) (caps_on s.keyboard) scan in
    let s1 = start_line s in if c == 0 then s1 else put_key c (beep_key speaker c s1)

-- the keys whose release silences the speaker
abbrev pub is_piano_release : ℕ → Bool
is_piano_release scan =
    (leb 0x9e scan && leb scan 0xa5)
    || (scan == 0x91)
    || (scan == 0x92)
    || (leb 0x94 scan && leb scan 0x96)

-- the conditions of the chain after the `switch`
abbrev pub is_clear : ℕ → Keyboard → Bool
is_clear scan k = not (k.flag_arr 2 == 0) && (scan == 0x26)

abbrev pub is_erase : ℕ → Keyboard → Bool
is_erase scan k = (scan == 0x0e) && not (k.curr_idx == 0)

abbrev pub is_switch : ℕ → Keyboard → Bool
is_switch scan k = ((scan == 0x3b) || (scan == 0x3c) || (scan == 0x3d)) && not (k.flag_arr 4 == 0)

abbrev pub is_typed : ℕ → Keyboard → Bool
is_typed scan k = signed_ltb k.num_chars max_char && ltb 0 scan && ltb scan num_characters

-- the chain
unfoldable pub key_action : ℕ → ℕ → System → System
key_action speaker scan s =
    if is_clear scan s.keyboard
    then clear_line s
    else if is_erase scan s.keyboard
    then erase_key s
    else if scan == 0x1c
    then enter_key s
    else if is_switch scan s.keyboard
    then switch_terminal (scan - 0x3b) s
    else if is_typed scan s.keyboard
    then type_key speaker scan s
    else if is_piano_release scan
    then sound speaker 40000 s
    else s

abbrev pub end_of_interrupt : System → System
end_of_interrupt s = record s { pic = send_eoi 1 s.pic }

-- with fuel for the loops of the up key
unfoldable pub keyboard_handler : ℕ → Mem → ℕ → ℕ → ℕ → System → Option System
keyboard_handler f stack conv speaker scan s = elim (key_flag scan s.keyboard) [
  | some k ↦ some (end_of_interrupt (with_keyboard s k))
  | none ↦
      let recalled = recall f stack conv s in
      if scan == 0x48
      then elim recalled [ none ↦ none | some t ↦ some (end_of_interrupt t) ]
      else some (end_of_interrupt (end_visible (key_action speaker scan (begin_visible s))))
]
