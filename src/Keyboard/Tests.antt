-- ===== src/Keyboard/Tests.antt =====
-- Concrete keys.
use mpf_cker_os.Base.{
  ℕ, ◌+◌, ◌-◌, ◌≡◌, refl, inr, true, false, none, some, arith, ◌==◌, if◌then◌else◌, update,
}
use mpf_cker_os.Screen.Console.{Same, put}
use mpf_cker_os.Schedule.{System, init_terminals}
use mpf_cker_os.Schedule.Sample.{running, timer}
use mpf_cker_os.Schedule.Timer.{Timer, pit_handler}
use mpf_cker_os.Keyboard.Layout.{key_char, char_array, key_char_case, is_lower, one_of}
use mpf_cker_os.Keyboard.Handler.{keyboard_handler, shift_on, caps_on}
use mpf_cker_os.Keyboard.Line.{LineFits}
use mpf_cker_os.Keyboard.Recall.{clear_then_up}
use mpf_cker_os.Keyboard.Echo.{keyboard_handler-put, page, CursorFits}
use mpf_cker_os.Keyboard.Reach.{here, next, tick, init_terminals-Reach}

key_char_case_example : key_char true true 0x1e ≡ (
    if is_lower (key_char false false 0x1e)
    then if one_of true true then key_char false false 0x1e - 32 else key_char false false 0x1e
    else key_char true false 0x1e)
key_char_case_example = key_char_case true true 0x1e (omega arith)

running-LineFits : LineFits running
running-LineFits = record {
  same_index = refl;
  within = omega arith;
  previous = omega arith;
  visible = omega arith;
  kept_index = λ i h. refl;
  kept_within = λ i h. omega arith;
  kept_previous = λ i h. omega arith;
}

-- the terminal that is on view runs, and control is down
abbrev front : System
front = record running {
  cur_terminal = 0;
  keyboard = record running.keyboard { flag_arr = update (λ q. 0) 2 1 };
}

clear_then_up_example :
    (t : System) × (keyboard_handler 9 (λ q. 0) 5000 0 0x26 front ≡ some t)
    × (keyboard_handler 1000 (λ q. 0) 5000 0 0x48 t ≡ none)
clear_then_up_example =
    clear_then_up 9 1000 (λ q. 0) 5000 0 front refl (omega arith) (omega arith) (omega arith)

front-LineFits : LineFits front
front-LineFits = record {
  same_index = refl;
  within = omega arith;
  previous = omega arith;
  visible = omega arith;
  kept_index = λ i h. refl;
  kept_within = λ i h. omega arith;
  kept_previous = λ i h. omega arith;
}

front-CursorFits : CursorFits front
front-CursorFits = record { col = omega arith; row = omega arith }

-- the key of "b"
b_char : key_char (shift_on front.keyboard) (caps_on front.keyboard) 0x30 ≡ b'b'
unfolding key_char char_array
b_char = refl

keyboard_handler-put_example :
    let c = key_char (shift_on front.keyboard) (caps_on front.keyboard) 0x30 in
    (t : System) × (keyboard_handler 9 (λ q. 0) 5000 0 0x30 front ≡ some t)
    × Same (page t) (put c (page front))
    × ((q : ℕ) → t.keyboard.buf_kb q ≡ (if 1 == q then c else front.keyboard.buf_kb q))
    × (t.keyboard.num_chars ≡ 1 + 1)
    × (t.keyboard.curr_idx ≡ 1 + 1)
keyboard_handler-put_example =
    keyboard_handler-put 9 (λ q. 0) 5000 0 0x30 front front-LineFits refl front-CursorFits
      (omega arith) (ground (arith, b_char)) (omega arith) (inr (omega arith))

-- nothing has been typed yet
abbrev idle : System
idle = record running { keyboard = record running.keyboard { num_chars = 0; curr_idx = 0 } }

abbrev booted : Timer
booted = record timer { system = init_terminals idle }

init_terminals-Reach_example : LineFits (pit_handler 100 104 booted).0.system
init_terminals-Reach_example =
    init_terminals-Reach idle timer.pcbs timer.tss timer.save_tss (pit_handler 100 104 booted).0
      refl refl refl (next here (tick 100 104 booted))
