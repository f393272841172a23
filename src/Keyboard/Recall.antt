-- ===== src/Keyboard/Recall.antt =====
-- The up key, which erases the line and writes the one before, student-distrib/keyboard.c.
use mpf_cker_os.Base.{
  ℕ, zero, suc, ◌+◌, ◌-◌, ◌%◌, ◌≤◌, ◌<◌, ◌≡◌, refl, ◌≢◌, ◌⊎◌, inl, inr, not, ◌&&◌, none, some,
  arith, ◌==◌, Bool-cases, Mem,
}
use mpf_cker_os.Paging.{map_video_page, flush_tlb}
use mpf_cker_os.Screen.{Screen, backspace, update_cursor, clear_kb}
use mpf_cker_os.Schedule.{System}
use mpf_cker_os.Keyboard.Handler.{
  erase_typed, recall, keyboard_handler, key_flag, key_action, clear_line, begin_visible,
  end_visible, end_of_interrupt,
}
use mpf_cker_os.Schedule.{screen_of}

-- the steps that are left until the column is reached
abbrev steps : ℕ → ℕ → ℕ
steps save_x x = (x + 80 - save_x) % 80

backspace_step :
    (save_x : ℕ) (s : Screen)
    → s.x < 80
    → save_x < 80
    → (save_x ≤ s.x) ⊎ (0 < s.y)
    → s.x ≢ save_x
    → let t = backspace s in
      (t.x < 80) × ((save_x ≤ t.x) ⊎ (0 < t.y)) × (steps save_x t.x < steps save_x s.x)
unfolding backspace update_cursor
backspace_step save_x s h k way other = ground arith

-- The loop of the up key ends within 80 rounds if going back from the cursor reaches the column where
-- the line started before the top of the screen.
pub erase_typed_ends :
    (f save_x save_y : ℕ) (s : Screen)
    → s.x < 80
    → save_x < 80
    → (save_x ≤ s.x) ⊎ (0 < s.y)
    → steps save_x s.x < f
    → (t : Screen) × (erase_typed f save_x save_y s ≡ some t)
unfolding erase_typed
erase_typed_ends zero save_x save_y s h k way fuel = absurd (omega arith)
erase_typed_ends (suc f) save_x save_y s h k way fuel =
    elim (Bool-cases (not (s.x == save_x) && not (s.y == save_y))) [
      | inl more ↦
          let (col, way', less) = backspace_step save_x s h k way (ground arith) in
          let (t, ran) = erase_typed_ends f save_x save_y (backspace s) col k way' (omega arith) in
          (t, rw more ran)
      | inr done ↦ (s, rw done)
    ]

-- In the corner, with the line started in another row and another column, the loop does not end.
erase_typed_stuck :
    (f save_x save_y : ℕ) (s : Screen)
    → s.x ≡ 0
    → s.y ≡ 0
    → save_x ≢ 0
    → save_y ≢ 0
    → erase_typed f save_x save_y s ≡ none
unfolding erase_typed backspace update_cursor
erase_typed_stuck zero save_x save_y s x y p q = refl
erase_typed_stuck (suc f) save_x save_y s x y p q =
    ground (arith, erase_typed_stuck f save_x save_y (backspace s))

-- the keys whose action is not in the `switch`
action_key :
    (f : ℕ) (stack : Mem) (conv speaker : ℕ) (s : System)
    → keyboard_handler f stack conv speaker 0x26 s
      ≡ some (end_of_interrupt (end_visible (key_action speaker 0x26 (begin_visible s))))
unfolding keyboard_handler key_flag
action_key f stack conv speaker s = refl

-- After control and L have cleared the screen of the running terminal, the up key does not end, however
-- long it runs, if the last line was started beyond the first row and the first column.
pub clear_then_up :
    (f g : ℕ) (stack : Mem) (conv speaker : ℕ) (s : System)
    → s.visible ≡ s.cur_terminal
    → s.keyboard.flag_arr 2 ≢ 0
    → s.keyboard.save_x ≢ 0
    → s.keyboard.save_y ≢ 0
    → (t : System) × (keyboard_handler f stack conv speaker 0x26 s ≡ some t)
      × (keyboard_handler g stack conv speaker 0x48 t ≡ none)
unfolding keyboard_handler key_flag recall key_action clear_line begin_visible end_visible clear_kb
    update_cursor map_video_page flush_tlb
clear_then_up f g stack conv speaker s view control x y =
    let t = end_of_interrupt (end_visible (key_action speaker 0x26 (begin_visible s))) in
    let b = begin_visible t in
    (
      t,
      action_key f stack conv speaker s,
      ground (arith, erase_typed_stuck g b.keyboard.save_x b.keyboard.save_y (screen_of b)),
    )
