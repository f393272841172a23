-- ===== src/Keyboard/Line.antt =====
-- The line of the keyboard under every key, student-distrib/keyboard.c.
use mpf_cker_os.Base.{
  ℕ, ◌-◌, ◌≤◌, ◌<◌, ◌≡◌, refl, subst, ◌≢◌, inl, inr, some, arith, ◌==◌, Bool-cases, Mem, ℕ_discrete,
  if_rule, some-inversion, Option-cases,
}
use mpf_cker_os.Paging.{flush_tlb}
use mpf_cker_os.Printf.{printf}
use mpf_cker_os.Schedule.{System, switch_terminal, save_terminal, restore_keyboard}
use mpf_cker_os.Keyboard.{
  Keyboard, set_num_chars, set_curr_idx, set_save_x, set_save_y, set_previous_num_chars,
  set_previous_buf, get_previous_buf,
}
use mpf_cker_os.Keyboard.Handler.{
  key_flag, begin_visible, end_visible, recall, clear_line, erase_key, enter_key, put_key, type_key,
  start_line, beep_key, key_action, is_clear, is_erase, is_switch, is_typed, is_piano_release,
  previous_line, keyboard_handler, sound, erase_typed, end_of_interrupt, with_keyboard,
}
use mpf_cker_os.Schedule.{with_screen, screen_of}

-- The index of the line is the number of its characters, which leaves room for the end of line in the
-- 128 bytes, and so for the line that is kept in each terminal and for the one before.
pub record LineFits (s : System) : Type 0 where
  pub same_index : s.keyboard.curr_idx ≡ s.keyboard.num_chars
  pub within : s.keyboard.num_chars ≤ 127
  pub previous : s.keyboard.previous_num_chars ≤ 127
  pub visible : s.visible < 3
  pub kept_index : (i : ℕ) → i < 3 → (s.terminals i).curr_idx ≡ (s.terminals i).num_chars
  pub kept_within : (i : ℕ) → i < 3 → (s.terminals i).num_chars ≤ 127
  pub kept_previous : (i : ℕ) → i < 3 → (s.terminals i).prev_num_chars ≤ 127

key_flag-LineFits :
    (scan : ℕ) (k : Keyboard) (s : System)
    → key_flag scan s.keyboard ≡ some k
    → LineFits s
    → LineFits (end_of_interrupt (with_keyboard s k))
unfolding key_flag
key_flag-LineFits scan k s e h = record {
  same_index = ground (arith, h.same_index);
  within = ground (arith, h.within);
  previous = ground (arith, h.previous);
  visible = h.visible;
  kept_index = h.kept_index;
  kept_within = h.kept_within;
  kept_previous = h.kept_previous;
}

begin_visible-LineFits : (s : System) → LineFits s → LineFits (begin_visible s)
unfolding begin_visible
begin_visible-LineFits s h = record {
  same_index = h.same_index;
  within = h.within;
  previous = h.previous;
  visible = h.visible;
  kept_index = λ i p. ground (arith, h.kept_index i);
  kept_within = λ i p. ground (arith, h.kept_within i);
  kept_previous = λ i p. ground (arith, h.kept_previous i);
}

end_visible-LineFits : (s : System) → LineFits s → LineFits (end_visible s)
unfolding end_visible
end_visible-LineFits s h = record {
  same_index = h.same_index;
  within = h.within;
  previous = h.previous;
  visible = h.visible;
  kept_index = λ i p. ground (arith, h.kept_index i);
  kept_within = λ i p. ground (arith, h.kept_within i);
  kept_previous = λ i p. ground (arith, h.kept_previous i);
}

pub switch_terminal-LineFits :
    (d : ℕ) (s : System) → d < 3 → LineFits s → LineFits (switch_terminal d s)
unfolding switch_terminal save_terminal restore_keyboard set_num_chars set_curr_idx set_save_x
    set_save_y set_previous_num_chars set_previous_buf get_previous_buf flush_tlb
switch_terminal-LineFits d s p h = record {
  same_index = ground (arith, h.same_index, h.kept_index d);
  within = ground (arith, h.within, h.kept_within d);
  previous = ground (arith, h.previous, h.kept_previous d);
  visible = ground (arith, h.visible);
  kept_index = λ i q. ground (arith, h.same_index, h.kept_index i);
  kept_within = λ i q. ground (arith, h.within, h.kept_within i);
  kept_previous = λ i q. ground (arith, h.previous, h.kept_previous i);
}

clear_line-LineFits : (s : System) → LineFits s → LineFits (clear_line s)
unfolding clear_line
clear_line-LineFits s h = record {
  same_index = refl;
  within = omega arith;
  previous = h.previous;
  visible = h.visible;
  kept_index = h.kept_index;
  kept_within = h.kept_within;
  kept_previous = h.kept_previous;
}

erase_key-LineFits : (s : System) → s.keyboard.curr_idx ≢ 0 → LineFits s → LineFits (erase_key s)
unfolding erase_key
erase_key-LineFits s some_char h = record {
  same_index = omega (arith, h.same_index);
  within = omega (arith, h.same_index, h.within);
  previous = h.previous;
  visible = h.visible;
  kept_index = h.kept_index;
  kept_within = h.kept_within;
  kept_previous = h.kept_previous;
}

enter_key-LineFits : (s : System) → LineFits s → LineFits (enter_key s)
unfolding enter_key
enter_key-LineFits s h = record {
  same_index = refl;
  within = omega arith;
  previous = ground (arith, h.previous, h.within);
  visible = h.visible;
  kept_index = λ i p. ground (arith, h.kept_index i);
  kept_within = λ i p. ground (arith, h.kept_within i);
  kept_previous = λ i p. ground (arith, h.kept_previous i);
}

type_key-LineFits :
    (speaker scan : ℕ) (s : System)
    → s.keyboard.num_chars < 127
    → LineFits s
    → LineFits (type_key speaker scan s)
unfolding type_key put_key start_line beep_key
type_key-LineFits speaker scan s room h = record {
  same_index = ground (arith, h.same_index);
  within = ground (arith, h.within);
  previous = ground (arith, h.previous);
  visible = ground (arith, h.visible);
  kept_index = λ i p. ground (arith, h.kept_index i);
  kept_within = λ i p. ground (arith, h.kept_within i);
  kept_previous = λ i p. ground (arith, h.kept_previous i);
}

sound-LineFits :
    (speaker frequency : ℕ) (s : System) → LineFits s → LineFits (sound speaker frequency s)
sound-LineFits speaker frequency s h = elim (Bool-cases (frequency == 0)) [
  | inl silent ↦ rw silent h
  | inr loud ↦ rw loud (record {
    same_index = h.same_index;
    within = h.within;
    previous = h.previous;
    visible = h.visible;
    kept_index = h.kept_index;
    kept_within = h.kept_within;
    kept_previous = h.kept_previous;
  })
]

key_action-LineFits :
    (speaker scan : ℕ) (s : System) → LineFits s → LineFits (key_action speaker scan s)
unfolding key_action
key_action-LineFits speaker scan s h =
    if_rule LineFits (is_clear scan s.keyboard) (λ clear. clear_line-LineFits s h)
      λ e1.
        if_rule LineFits (is_erase scan s.keyboard) (λ erase. erase_key-LineFits s (ground arith) h)
          λ e2.
            if_rule LineFits (scan == 0x1c) (λ enter. enter_key-LineFits s h)
              λ e3.
                if_rule LineFits (is_switch scan s.keyboard)
                  (λ f. switch_terminal-LineFits (scan - 0x3b) s (ground arith) h)
                  λ e4.
                    if_rule LineFits (is_typed scan s.keyboard)
                      (λ key. type_key-LineFits speaker scan s (ground (arith, h.within)) h)
                      λ e5.
                        if_rule LineFits (is_piano_release scan)
                          (λ release. sound-LineFits speaker 40000 s h) λ e6. h

-- the invariant is about the keyboard and the terminals alone
LineFits-end_of_interrupt : (s : System) → LineFits s → LineFits (end_of_interrupt s)
LineFits-end_of_interrupt s h = record {
  same_index = h.same_index;
  within = h.within;
  previous = h.previous;
  visible = h.visible;
  kept_index = h.kept_index;
  kept_within = h.kept_within;
  kept_previous = h.kept_previous;
}

recall-LineFits :
    (f : ℕ) (stack : Mem) (conv : ℕ) (s t : System)
    → LineFits s
    → recall f stack conv s ≡ some t
    → LineFits t
unfolding recall
recall-LineFits f stack conv s t h e =
    let b = begin_visible s in
    let h' = begin_visible-LineFits s h in
    let k = b.keyboard in
    let (u, erased, e1) = some-inversion (erase_typed f k.save_x k.save_y (screen_of b)) _ e in
    let ((n, v), printed, e2) =
      some-inversion (printf f (previous_line k).buf_kb stack conv u) _ e1 in
    let shown : System = with_screen (with_keyboard b (previous_line k)) v in
    let fits : LineFits shown = record {
      same_index = refl;
      within = h'.previous;
      previous = h'.previous;
      visible = h'.visible;
      kept_index = h'.kept_index;
      kept_within = h'.kept_within;
      kept_previous = h'.kept_previous;
    } in
    let same : end_visible shown ≡ t = cc in subst LineFits same (end_visible-LineFits shown fits)

-- Every key but the up key ends, and keeps the invariant.
keyboard_handler_ends :
    (f : ℕ) (stack : Mem) (conv speaker scan : ℕ) (s : System)
    → LineFits s
    → scan ≢ 0x48
    → (t : System) × (keyboard_handler f stack conv speaker scan s ≡ some t) × LineFits t
unfolding keyboard_handler
keyboard_handler_ends f stack conv speaker scan s h key =
    elim (Option-cases (key_flag scan s.keyboard)) [
      | inl other ↦
          let acted = key_action speaker scan (begin_visible s) in
          (
            end_of_interrupt (end_visible acted),
            ground (arith, other),
            LineFits-end_of_interrupt (end_visible acted) (
                end_visible-LineFits acted (
                  key_action-LineFits speaker scan (begin_visible s) (begin_visible-LineFits s h))),
          )
      | inr (k, flag) ↦ (
        end_of_interrupt (with_keyboard s k),
        ground (arith, flag),
        key_flag-LineFits scan k s flag h,
      )
    ]

up_key-LineFits :
    (f : ℕ) (stack : Mem) (conv speaker : ℕ) (s t : System)
    → LineFits s
    → keyboard_handler f stack conv speaker 0x48 s ≡ some t
    → LineFits t
unfolding keyboard_handler key_flag
up_key-LineFits f stack conv speaker s t h e =
    let (u, recalled, e1) =
      some-inversion (recall f stack conv s) (λ t. some (end_of_interrupt t)) e in
    let same : end_of_interrupt u ≡ t = cc in
    subst LineFits same (LineFits-end_of_interrupt u (recall-LineFits f stack conv s u h recalled))

-- Every key keeps the invariant.
pub keyboard_handler-LineFits :
    (f : ℕ) (stack : Mem) (conv speaker scan : ℕ) (s t : System)
    → LineFits s
    → keyboard_handler f stack conv speaker scan s ≡ some t
    → LineFits t
keyboard_handler-LineFits f stack conv speaker scan s t h e = elim (ℕ_discrete scan 0x48) [
  | yes up ↦ up_key-LineFits f stack conv speaker s t h (rw up at e)
  | no other ↦
      let (u, ran, fits) = keyboard_handler_ends f stack conv speaker scan s h other in
      let same : u ≡ t = cc in subst LineFits same fits
]
