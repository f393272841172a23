-- ===== src/Screen/Cells.antt =====
-- Reading the cells of the screen after the block operations of student-distrib/lib.c.
use mpf_cker_os.Base.{
  ℕ, zero, suc, ◌+◌, ◌*◌, ◌%◌, ◌≤◌, ◌<◌, ◌≡◌, ◌&&◌, arith, ◌==◌, if◌then◌else◌, Mem, update, inside,
}
use mpf_cker_os.Memory.{memmove}
use mpf_cker_os.Memory.Copy.{memmove_lem}
use mpf_cker_os.Screen.{store_cell, blank_row, clear_cells, add_attributes, video}

-- the address of the character in row `r` and column `c`
abbrev pub at : ℕ → ℕ → ℕ
at r c = video + (80 * r + c) * 2

pub store_cell_lem :
    (m : Mem) (pos ch q : ℕ)
    → pos < 2000
    → store_cell m pos ch q
      ≡ (if q == video + pos * 2 then ch else if q == video + pos * 2 + 1 then 7 else m q)
unfolding store_cell
store_cell_lem m pos ch q h = ground arith

-- the memory with `n` blank cells from position `i` on
abbrev pub blanked : Mem → ℕ → ℕ → ℕ → ℕ
blanked m i n q = if inside (video + i * 2) (n * 2) q then (if q % 2 == 0 then b' ' else 7) else m q

pub clear_cells_lem : (m : Mem) (i n q : ℕ) → i + n ≤ 2000 → clear_cells m i n q ≡ blanked m i n q
unfolding clear_cells
clear_cells_lem m i zero q h = ground arith
clear_cells_lem m i (suc n) q h =
    ground (arith, clear_cells_lem (store_cell m i b' ') (i + 1) n q, store_cell_lem m i b' ' q)

pub blank_row_lem :
    (m : Mem) (y i n q : ℕ) → y < 25 → i + n ≤ 80 → blank_row m y i n q ≡ blanked m (80 * y + i) n q
unfolding blank_row
blank_row_lem m y i zero q h p = ground arith
blank_row_lem m y i (suc n) q h p = ground (
  arith,
  blank_row_lem (store_cell m (80 * y + i) b' ') y (i + 1) n q,
  store_cell_lem m (80 * y + i) b' ' q,
)

-- the memory after the screen has scrolled by a line
abbrev pub scrolled : Mem → ℕ → ℕ
scrolled m q =
    if inside video 3840 q
    then m (q + 160)
    else if inside (video + 3840) 160 q
    then (if q % 2 == 0 then b' ' else 7)
    else m q

pub scroll_lem :
    (m : Mem) (q : ℕ) → blank_row (memmove m video (video + 160) 3840) 24 0 80 q ≡ scrolled m q
scroll_lem m q = ground (
  arith,
  blank_row_lem (memmove m video (video + 160) 3840) 24 0 80 q,
  memmove_lem m video (video + 160) 3840 q,
)

-- `test_interrupts` adds the count to the attributes on the screen and changes nothing else.
pub add_attributes_lem :
    (count : ℕ) (m : Mem) (i n q : ℕ)
    → add_attributes count m i n q
      ≡ (if inside (video + i * 2) (n * 2) q && (q % 2 == 1) then (m q + count) % 256 else m q)
unfolding add_attributes
add_attributes_lem count m i zero q = ground arith
add_attributes_lem count m i (suc n) q = ground (
  arith,
  add_attributes_lem count (update m (video + i * 2 + 1) ((m (video + i * 2 + 1) + count) % 256))
      (i + 1) n q,
)
