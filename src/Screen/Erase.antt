-- ===== src/Screen/Erase.antt =====
-- `backspace` of student-distrib/lib.c.
use mpf_cker_os.Base.{ℕ, ◌+◌, ◌-◌, ◌*◌, ◌<◌, ◌≡◌, ◌≢◌, arith, ◌==◌, if◌then◌else◌}
use mpf_cker_os.Screen.{Screen, store_cell, update_cursor, putc, backspace, video}
use mpf_cker_os.Screen.Cells.{at, store_cell_lem}
use mpf_cker_os.Screen.Refine.{OnScreen}

-- `backspace` keeps the cursor on the screen.
pub backspace-OnScreen : {s : Screen} → OnScreen s → OnScreen (backspace s)
unfolding backspace update_cursor
backspace-OnScreen v = ground arith

-- `backspace` takes back a character that did not scroll the screen: the cursor is where it was, the
-- cell there is blank, and all other memory is as before the character.
pub backspace-putc :
    (ch : ℕ) {s : Screen} (q : ℕ)
    → OnScreen s
    → ch ≢ b'\n'
    → ch ≢ b'\r'
    → 80 * s.y + s.x < 1999
    → let t = backspace (putc ch s) in
      (t.x ≡ s.x)
      × (t.y ≡ s.y)
      × (t.mem q ≡ (if q == at s.y s.x then b' ' else if q == at s.y s.x + 1 then 7 else s.mem q))
unfolding backspace putc update_cursor
backspace-putc ch {s} q v n r h = ground (
  arith,
  store_cell_lem s.mem (80 * s.y + s.x) ch q,
  store_cell_lem (store_cell s.mem (80 * s.y + s.x) ch) (80 * s.y + s.x) b' ' q,
)

-- With the cursor in the top left corner `backspace` stores a space and the attribute in the two
-- bytes below the video memory.
pub backspace_corner :
    (s : Screen)
    → s.x ≡ 0
    → s.y ≡ 0
    → ((backspace s).mem (video - 2) ≡ b' ') × ((backspace s).mem (video - 1) ≡ 7)
unfolding backspace update_cursor store_cell
backspace_corner s h k = ground arith
