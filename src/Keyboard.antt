-- ===== src/Keyboard.antt =====
-- The state of student-distrib/keyboard.c with its getters and setters and `init_keyboard`; what a key
-- does is in Keyboard/Handler. The counters are `int`, and the buffers are functions.
pub mod Layout
pub mod Handler
pub mod Line
pub mod Recall
pub mod Echo
pub mod Reach
mod Tests
use mpf_cker_os.Base.{ℕ, ltb, if◌then◌else◌, Mem, update}
use mpf_cker_os.Pic.{Pic, enable_irq}

abbrev pub buffer_size : ℕ
buffer_size = 128

abbrev pub max_char : ℕ
max_char = 127

-- The getters of the source are the fields of the same name.
pub record Keyboard : Type 0 where
  pub num_chars : ℕ
  pub curr_idx : ℕ
  pub save_x : ℕ
  pub save_y : ℕ
  pub previous_buf : Mem
  pub previous_num_chars : ℕ
  pub buf_kb : Mem
  -- left shift, right shift, control, caps lock and alt
  pub flag_arr : Mem

-- `memcpy` of `n` bytes between two arrays
abbrev pub copied : Mem → Mem → ℕ → Mem
copied dest src n q = if ltb q n then src q else dest q

unfoldable pub set_num_chars : ℕ → Keyboard → Keyboard
set_num_chars x k = record k { num_chars = x }

unfoldable pub set_curr_idx : ℕ → Keyboard → Keyboard
set_curr_idx x k = record k { curr_idx = x }

unfoldable pub set_save_x : ℕ → Keyboard → Keyboard
set_save_x x k = record k { save_x = x }

unfoldable pub set_save_y : ℕ → Keyboard → Keyboard
set_save_y x k = record k { save_y = x }

unfoldable pub set_previous_num_chars : ℕ → Keyboard → Keyboard
set_previous_num_chars x k = record k { previous_num_chars = x }

-- the target array afterwards
unfoldable pub get_previous_buf : Mem → Keyboard → Mem
get_previous_buf target_buf k = copied target_buf k.previous_buf buffer_size

unfoldable pub set_previous_buf : Mem → Keyboard → Keyboard
set_previous_buf source_buf k = record k {
  previous_buf = copied k.previous_buf source_buf buffer_size;
}

-- `init_keyboard`: the controller, the keyboard and the `enter_flag` of the visible terminal
unfoldable pub init_keyboard : Pic → Keyboard → Pic × Keyboard × ℕ
init_keyboard p k = (enable_irq 1 p, record k { buf_kb = update k.buf_kb max_char 0 }, 1)
