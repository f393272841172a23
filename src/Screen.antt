-- ===== src/Screen.antt =====
-- The text screen of student-distrib/lib.c: `clear`, `clear_kb`, `backspace`, `update_cursor`,
-- `putc`, `puts`, the setters of the cursor and `test_interrupts`. The static variables `screen_x` and
-- `screen_y`, memory and the log of port writes, the newest first, are the state. The coordinates are
-- never negative in the source, so they are plain numbers; an address is a 32-bit word.
pub mod Console
pub mod Cells
pub mod Refine
pub mod Bounds
pub mod Erase
pub mod Output
mod Tests
use mpf_cker_os.Memory.{memmove}
use mpf_cker_os.Base.{
  ℕ, zero, suc, ◌+◌, ◌-◌, ◌*◌, ◌/◌, ◌%◌, ◌==◌, if◌then◌else◌, u8, u16, u32, sub32, Mem, update,
  Option, none, some, List, ◌∷◌, ◌&&◌, ◌||◌,
}

pub record Screen : Type 0 where
  pub x : ℕ
  pub y : ℕ
  pub mem : Mem
  -- each write as its value and its port
  pub ports : List (ℕ × ℕ)

abbrev pub video : ℕ
video = 0xb8000

abbrev pub num_cols : ℕ
num_cols = 80

abbrev pub num_rows : ℕ
num_rows = 25

abbrev pub attrib : ℕ
attrib = 7

-- `VIDEO + (pos << 1)`
abbrev pub cell_addr : ℕ → ℕ
cell_addr pos = u32 (video + u32 (pos * 2))

-- the two stores of a character with its attribute
unfoldable pub store_cell : Mem → ℕ → ℕ → Mem
store_cell m pos c = update (update m (cell_addr pos) c) (cell_addr pos + 1) attrib

unfoldable pub update_cursor : ℕ → ℕ → Screen → Screen
update_cursor x y s =
    let pos = u16 (y * num_cols + x) in
    record s {
      ports = (u8 (pos / 256), 0x3d5) ∷ (0x0e, 0x3d4) ∷ (u8 pos, 0x3d5) ∷ (0x0f, 0x3d4) ∷ s.ports;
    }

-- the loop of `clear` and `clear_kb` with `left` rounds to go
unfoldable pub clear_cells : Mem → ℕ → ℕ → Mem
clear_cells m i zero = m
clear_cells m i (suc left) = clear_cells (store_cell m i b' ') (i + 1) left

unfoldable pub clear_kb : Screen → Screen
clear_kb s =
    let t = record s { x = 0; y = 0; mem = clear_cells s.mem 0 (num_rows * num_cols) } in
    update_cursor t.x t.y t

unfoldable pub clear : Screen → Screen
clear s = clear_kb (record s { mem = clear_cells s.mem 0 (num_rows * num_cols) })

unfoldable pub backspace : Screen → Screen
backspace s =
    let blanked = store_cell s.mem (sub32 (num_cols * s.y + s.x) 1) b' ' in
    let t =
      if s.x == 0
      then if s.y == 0
        then record s { mem = blanked }
        else record s { mem = blanked; x = num_cols - 1; y = s.y - 1 }
      else record s { mem = blanked; x = s.x - 1 } in
    update_cursor t.x t.y t

-- the loop that blanks the bottom row
unfoldable pub blank_row : Mem → ℕ → ℕ → ℕ → Mem
blank_row m y i zero = m
blank_row m y i (suc left) = blank_row (store_cell m (num_cols * y + i) b' ') y (i + 1) left

-- the branch of `putc` for a line end, before the cursor is updated
unfoldable pub line_feed : Screen → Screen
line_feed s =
    if s.y == num_rows - 1
    then record s {
      mem =
          blank_row (memmove s.mem video (video + num_cols * 2) (num_cols * (num_rows - 1) * 2)) s.y
            0 num_cols;
      x = 0;
    }
    else record s { x = 0; y = s.y + 1 }

unfoldable pub putc : ℕ → Screen → Screen
putc c s =
    let stored = store_cell s.mem (num_cols * s.y + s.x) c in
    let t =
      if (c == b'\n') || (c == b'\r')
      then line_feed s
      else if (s.y == num_rows - 1) && (s.x == num_cols - 1)
      then (let u = line_feed (record s { mem = stored; x = s.x + 1 }) in update_cursor u.x u.y u)
      else record s {
        mem = stored;
        x = (s.x + 1) % num_cols;
        y = (s.y + (s.x + 1) / num_cols) % num_rows;
      } in
    update_cursor t.x t.y t

-- `puts` with fuel; the result is the number of characters. The string is read from the memory that
-- `putc` writes to.
unfoldable pub puts_from : ℕ → ℕ → ℕ → Screen → Option (ℕ × Screen)
puts_from zero p index s = none
puts_from (suc f) p index s =
    let rest = puts_from f p (index + 1) (putc (s.mem (p + index)) s) in
    if s.mem (p + index) == 0 then some (index, s) else rest

unfoldable pub puts : ℕ → ℕ → Screen → Option (ℕ × Screen)
puts f p s = puts_from f p 0 s

unfoldable pub set_cursor : ℕ → ℕ → Screen → Screen
set_cursor x y s = let t = record s { x = x; y = y } in update_cursor t.x t.y t

unfoldable pub set_screenxy : ℕ → ℕ → Screen → Screen
set_screenxy x y s = record s { x = x; y = y }

-- the loop of `test_interrupts` over the attribute bytes
unfoldable pub add_attributes : ℕ → Mem → ℕ → ℕ → Mem
add_attributes count m i zero = m
add_attributes count m i (suc left) =
    let a = video + i * 2 + 1 in add_attributes count (update m a (u8 (m a + count))) (i + 1) left

unfoldable pub test_interrupts : ℕ → Screen → Screen
test_interrupts count s = record s { mem = add_attributes count s.mem 0 (num_rows * num_cols) }
