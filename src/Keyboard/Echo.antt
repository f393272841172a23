-- ===== src/Keyboard/Echo.antt =====
-- What a character key does to the screen and the line, student-distrib/keyboard.c.
use mpf_cker_os.Base.{
  ℕ, ◌+◌, ◌<◌, ◌≡◌, refl, sym, ap, ◌∙◌, ◌≢◌, ◌⊎◌, Bool, true, false, not, ◌||◌, none, some, arith,
  ◌==◌, if◌then◌else◌, all_below, all_below_sound, u32, Mem,
}
use mpf_cker_os.Paging.{map_video_page, flush_tlb, video_mem}
use mpf_cker_os.Screen.{Screen, putc}
use mpf_cker_os.Screen.Refine.{OnScreen, view, putc-OnScreen, putc_refines}
use mpf_cker_os.Screen.Console.{Console, Same, put, put-Same}
use mpf_cker_os.Screen.Output.{Same-trans}
use mpf_cker_os.Screen.Cells.{at}
use mpf_cker_os.Schedule.{System, video_frame}
use mpf_cker_os.Keyboard.{Keyboard}
use mpf_cker_os.Keyboard.Layout.{
  key_char, char_array, char_array_shift_nocap, char_array_shift_cap, char_array_noshift_cap,
}
use mpf_cker_os.Keyboard.Line.{LineFits}
use mpf_cker_os.Keyboard.Handler.{
  keyboard_handler, key_flag, key_action, type_key, put_key, start_line, beep_key, begin_visible,
  end_visible, shift_on, caps_on, end_of_interrupt,
}
use mpf_cker_os.Schedule.{screen_of, with_screen}

-- the keys with a character are neither those of the `switch` nor those of the chain before the tables
abbrev is_plain : ℕ → Bool
is_plain scan = not (
    (scan == 0x2a)
    || (scan == 0x36)
    || (scan == 0x1d)
    || (scan == 0x3a)
    || (scan == 0x38)
    || (scan == 0x0e)
    || (scan == 0x1c)
    || (scan == 0))

abbrev has_char : Bool → Bool → ℕ → Bool
has_char shift caps scan = (key_char shift caps scan == 0) || is_plain scan

char_keys :
    (all_below 59 (has_char false false) ≡ true)
    × (all_below 59 (has_char false true) ≡ true)
    × (all_below 59 (has_char true false) ≡ true)
    × (all_below 59 (has_char true true) ≡ true)
unfolding all_below key_char char_array char_array_shift_nocap char_array_shift_cap
    char_array_noshift_cap
char_keys = (refl, refl, refl, refl)

plain_key :
    (shift caps : Bool) (scan : ℕ) → scan < 59 → key_char shift caps scan ≢ 0 → is_plain scan ≡ true
plain_key false false scan h c =
    ground (arith, all_below_sound 59 (has_char false false) scan char_keys.0 h)
plain_key false true scan h c =
    ground (arith, all_below_sound 59 (has_char false true) scan char_keys.1 h)
plain_key true false scan h c =
    ground (arith, all_below_sound 59 (has_char true false) scan char_keys.2 h)
plain_key true true scan h c =
    ground (arith, all_below_sound 59 (has_char true true) scan char_keys.3 h)

key_flag-none :
    (scan : ℕ) (k : Keyboard) → scan < 59 → is_plain scan ≡ true → key_flag scan k ≡ none
unfolding key_flag
key_flag-none scan k h p = ground arith

-- such a key goes to the tables
key_action-type :
    (speaker scan : ℕ) (s : System)
    → scan < 59
    → is_plain scan ≡ true
    → s.keyboard.num_chars < 127
    → (s.keyboard.flag_arr 2 ≡ 0) ⊎ (scan ≢ 0x26)
    → key_action speaker scan s ≡ type_key speaker scan s
unfolding key_action
key_action-type speaker scan s h p room control = ground arith

handler-type :
    (f : ℕ) (stack : Mem) (conv speaker scan : ℕ) (s : System)
    → scan < 59
    → is_plain scan ≡ true
    → s.keyboard.num_chars < 127
    → (s.keyboard.flag_arr 2 ≡ 0) ⊎ (scan ≢ 0x26)
    → keyboard_handler f stack conv speaker scan s
      ≡ some (end_of_interrupt (end_visible (type_key speaker scan (begin_visible s))))
unfolding keyboard_handler begin_visible
handler-type f stack conv speaker scan s h p room control =
    ground
      (arith, key_flag-none scan s.keyboard h p, key_action-type speaker scan (begin_visible s) h p)

-- what the video page holds, with the cursor of the system
abbrev pub page : System → Console
page s = record { col = s.x; row = s.y; grid = λ r c. s.mem (at r c) }

pub record CursorFits (s : System) : Type 0 where
  pub col : s.x < 80
  pub row : s.y < 25

seen-video : (s : System) (q : ℕ) → video_frame s.paging ≡ video_mem → (screen_of s).mem q ≡ s.mem q
seen-video s q e = ground (arith, e)

put_back-video :
    (s : System) (t : Screen) (q : ℕ)
    → video_frame s.paging ≡ video_mem
    → (with_screen s t).mem q ≡ t.mem q
put_back-video s t q e = ground (arith, e)

put_key_shows :
    (c : ℕ) (s : System)
    → video_frame s.paging ≡ video_mem
    → CursorFits s
    → CursorFits (put_key c s) × Same (page (put_key c s)) (put c (page s))
unfolding put_key
put_key_shows c s e v =
    let on : OnScreen (screen_of s) = record { col = v.col; row = v.row } in
    let after = putc-OnScreen c on in
    let shows = putc_refines c on in
    let before : Same (view (screen_of s)) (page s) = record {
      col = refl;
      row = refl;
      grid = λ r k p q. seen-video s (at r k) e;
    } in
    let stored : Same (page (put_key c s)) (view (putc c (screen_of s))) = record {
      col = refl;
      row = refl;
      grid = λ r k p q. put_back-video s (putc c (screen_of s)) (at r k) e;
    } in
    (
      record { col = after.col; row = after.row },
      Same-trans stored (Same-trans shows (put-Same c on.row before)),
    )

begin_visible_frame :
    (s : System)
    → s.visible ≡ s.cur_terminal
    → CursorFits s
    → let b = begin_visible s in
      (video_frame b.paging ≡ video_mem) × (b.x ≡ s.x) × (b.y ≡ s.y) × (b.visible ≡ b.cur_terminal)
unfolding begin_visible map_video_page flush_tlb
begin_visible_frame s e v = (refl, ground (arith, v.col), ground (arith, v.row), e)

end_visible_cursor :
    (s : System)
    → s.visible ≡ s.cur_terminal
    → CursorFits s
    → ((end_visible s).x ≡ s.x) × ((end_visible s).y ≡ s.y)
unfolding end_visible
end_visible_cursor s e v = (ground (arith, v.col), ground (arith, v.row))

-- what is left alone before the character is put
prepared_lem :
    (speaker c : ℕ) (s : System)
    → let u = beep_key speaker c (start_line s) in
      (u.x ≡ s.x)
      × (u.y ≡ s.y)
      × (u.paging ≡ s.paging)
      × (u.visible ≡ s.visible)
      × (u.cur_terminal ≡ s.cur_terminal)
      × (u.mem ≡ s.mem)
      × (u.keyboard.buf_kb ≡ s.keyboard.buf_kb)
      × (u.keyboard.curr_idx ≡ s.keyboard.curr_idx)
      × (u.keyboard.num_chars ≡ s.keyboard.num_chars)
unfolding beep_key start_line
prepared_lem speaker c s = ground arith

put_key_terminal :
    (c : ℕ) (s : System)
    → s.visible ≡ s.cur_terminal
    → (put_key c s).visible ≡ (put_key c s).cur_terminal
unfolding put_key
put_key_terminal c s e = e

put_key_line :
    (c : ℕ) (s : System)
    → s.keyboard.num_chars < 127
    → let k = (put_key c s).keyboard in
      ((q : ℕ) → k.buf_kb q ≡ (if s.keyboard.curr_idx == q then c else s.keyboard.buf_kb q))
      × (k.num_chars ≡ s.keyboard.num_chars + 1)
      × (k.curr_idx ≡ u32 (s.keyboard.curr_idx + 1))
unfolding put_key
put_key_line c s room = (λ q. refl, ground arith, refl)

-- what `end_visible` and the rest of the handler leave
ends_lem :
    (s : System)
    → s.visible ≡ s.cur_terminal
    → CursorFits s
    → let t = end_of_interrupt (end_visible s) in Same (page t) (page s) × (t.keyboard ≡ s.keyboard)
unfolding end_visible
ends_lem s e v = (
  record {
    col = (end_visible_cursor s e v).0;
    row = (end_visible_cursor s e v).1;
    grid = λ r c h l. refl;
  },
  refl,
)

-- A key with a character `c`, while its terminal runs and is on view, the line has room and the cursor is
-- on the screen: the handler ends, the page shows what the console shows after `c`, and `c` is added
-- to the line. With control on, the key L is another one.
pub keyboard_handler-put :
    (f : ℕ) (stack : Mem) (conv speaker scan : ℕ) (s : System)
    → LineFits s
    → s.visible ≡ s.cur_terminal
    → CursorFits s
    → scan < 59
    → key_char (shift_on s.keyboard) (caps_on s.keyboard) scan ≢ 0
    → s.keyboard.num_chars < 127
    → (s.keyboard.flag_arr 2 ≡ 0) ⊎ (scan ≢ 0x26)
    → let c = key_char (shift_on s.keyboard) (caps_on s.keyboard) scan in
      (t : System) × (keyboard_handler f stack conv speaker scan s ≡ some t)
      × Same (page t) (put c (page s))
      × ((q : ℕ)
          → t.keyboard.buf_kb q ≡ (if s.keyboard.num_chars == q then c else s.keyboard.buf_kb q))
      × (t.keyboard.num_chars ≡ s.keyboard.num_chars + 1)
      × (t.keyboard.curr_idx ≡ s.keyboard.num_chars + 1)
unfolding begin_visible type_key
keyboard_handler-put f stack conv speaker scan s fits e v h some_char room control =
    let c = key_char (shift_on s.keyboard) (caps_on s.keyboard) scan in
    let b = begin_visible s in
    let plain = plain_key (shift_on s.keyboard) (caps_on s.keyboard) scan h some_char in
    let ran = handler-type f stack conv speaker scan s h plain room control in
    let u = beep_key speaker c (start_line b) in
    let prepared = prepared_lem speaker c b in
    let (frame, bx, by, same_view) = begin_visible_frame s e v in
    let frame' : video_frame u.paging ≡ video_mem = ap video_frame prepared.2 ∙ frame in
    let cursor : CursorFits u = record {
      col = ground (arith, prepared, bx, v.col);
      row = ground (arith, prepared, by, v.row);
    } in
    let (cursor', shows) = put_key_shows c u frame' cursor in
    let w = put_key c u in
    let typed : type_key speaker scan b ≡ w = ground (arith, some_char) in
    let view' : w.visible ≡ w.cur_terminal =
      put_key_terminal c u (prepared.3 ∙ e ∙ sym prepared.4) in
    let (shown, kept) = ends_lem w view' cursor' in
    let start : Same (page u) (page s) = record {
      col = prepared.0 ∙ bx;
      row = prepared.1 ∙ by;
      grid = λ r k p q. ap (λ m. m (at r k)) prepared.5;
    } in
    let (line, count, index) = put_key_line c u (ground (arith, prepared.8, room)) in
    (
      end_of_interrupt (end_visible w),
      ran ∙ ap (λ z. some (end_of_interrupt (end_visible z))) typed,
      Same-trans shown (Same-trans shows (put-Same c cursor.row start)),
      λ q. ground (arith, kept, line q, prepared.6, prepared.7, fits.same_index),
      ground (arith, kept, count, prepared.8),
      ground (arith, kept, index, prepared.7, prepared.8, fits.same_index),
    )
