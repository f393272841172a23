-- ===== src/Screen/Bounds.antt =====
-- Where the screen functions of student-distrib/lib.c write.
use mpf_cker_os.Base.{
  ℕ, ◌+◌, ◌*◌, ◌/◌, ◌%◌, ◌<◌, ◌≡◌, refl, false, ◌∷◌, arith, ◌==◌, if◌then◌else◌, inside,
}
use mpf_cker_os.Screen.{Screen, store_cell, line_feed, update_cursor, putc, clear, clear_kb, video}
use mpf_cker_os.Screen.{clear_cells}
use mpf_cker_os.Screen.Cells.{store_cell_lem, scroll_lem, clear_cells_lem}
use mpf_cker_os.Screen.Refine.{OnScreen}

-- `putc` with the cursor on the screen writes to the 4000 bytes of the screen alone.
pub putc_outside :
    (ch : ℕ) {s : Screen} (q : ℕ)
    → OnScreen s
    → inside video 4000 q ≡ false
    → (putc ch s).mem q ≡ s.mem q
unfolding putc line_feed update_cursor
putc_outside ch {s} q v h = ground (
  arith,
  scroll_lem s.mem q,
  scroll_lem (store_cell s.mem (80 * s.y + s.x) ch) q,
  store_cell_lem s.mem (80 * s.y + s.x) ch q,
)

-- For a cursor on the screen `update_cursor` writes the two bytes of its position `80 * y + x` to the
-- data port of the display, the low byte after register 0x0f and the high one after 0x0e.
pub update_cursor_bytes :
    (s : Screen)
    → OnScreen s
    → (low : ℕ) × (high : ℕ) × ((update_cursor s.x s.y s).ports
        ≡ (high, 0x3d5) ∷ (0x0e, 0x3d4) ∷ (low, 0x3d5) ∷ (0x0f, 0x3d4) ∷ s.ports)
      × (low < 256)
      × (high < 256)
      × (high * 256 + low ≡ 80 * s.y + s.x)
unfolding update_cursor
update_cursor_bytes s v =
    let pos = (s.y * 80 + s.x) % 65536 in
    (pos % 256, pos / 256 % 256, refl, omega arith, omega arith, omega arith)

-- `clear_kb` blanks every cell, puts the cursor in the corner and leaves other memory alone; `clear`
-- does the same.
pub clear_kb_lem :
    (s : Screen) (q : ℕ)
    → ((clear_kb s).x ≡ 0)
      × ((clear_kb s).y ≡ 0)
      × ((clear_kb s).mem q
          ≡ (if inside video 4000 q then (if q % 2 == 0 then b' ' else 7) else s.mem q))
      × ((clear s).mem q ≡ (clear_kb s).mem q)
      × ((clear s).x ≡ 0)
      × ((clear s).y ≡ 0)
unfolding clear_kb clear update_cursor
clear_kb_lem s q =
    ground
      (arith, clear_cells_lem s.mem 0 2000 q, clear_cells_lem (clear_cells s.mem 0 2000) 0 2000 q)
