-- ===== src/Screen/Refine.antt =====
-- `putc`, `puts` and `clear` of student-distrib/lib.c against the console.
use mpf_cker_os.Base.{ℕ, ◌+◌, ◌*◌, ◌<◌, ◌≡◌, refl, arith}
use mpf_cker_os.Screen.{Screen, store_cell, clear_cells, line_feed, update_cursor, putc}
use mpf_cker_os.Screen.{clear, clear_kb}
use mpf_cker_os.Screen.Cells.{at, store_cell_lem, scroll_lem, clear_cells_lem}
use mpf_cker_os.Screen.Console.{Console, Same, next_line, write_at, put}

abbrev pub view : Screen → Console
view s = record { col = s.x; row = s.y; grid = λ r c. s.mem (at r c) }

pub record OnScreen (s : Screen) : Type 0 where
  pub col : s.x < 80
  pub row : s.y < 25

line_feed-Same : (s : Screen) → s.y < 25 → Same (view (line_feed s)) (next_line (view s))
unfolding line_feed next_line
line_feed-Same s h = record {
  col = ground arith;
  row = ground arith;
  grid = λ r c p q. ground (arith, scroll_lem s.mem (at r c));
}

-- `putc` keeps the cursor on the screen.
pub putc-OnScreen : (ch : ℕ) {s : Screen} → OnScreen s → OnScreen (putc ch s)
unfolding putc line_feed update_cursor
putc-OnScreen ch h = ground arith

-- the screen after the character is stored at the cursor
stored : ℕ → Screen → Screen
stored ch s = record s { mem = store_cell s.mem (80 * s.y + s.x) ch }

stored_grid :
    (ch : ℕ) {s : Screen} (r c : ℕ)
    → OnScreen s
    → r < 25
    → c < 80
    → (stored ch s).mem (at r c) ≡ write_at (view s) ch r c
unfolding stored write_at
stored_grid ch {s} r c v p q = ground (arith, store_cell_lem s.mem (80 * s.y + s.x) ch (at r c))

-- `putc` on the screen is `put` on the console that the screen shows: a character is stored at the
-- cursor, which moves on, wraps at the end of a line and scrolls at the end of the last one.
pub putc_refines : (ch : ℕ) {s : Screen} → OnScreen s → Same (view (putc ch s)) (put ch (view s))
unfolding putc put update_cursor line_feed next_line stored
putc_refines ch {s} v = record {
  col = ground arith;
  row = ground arith;
  grid = λ r c p q. ground (
    arith,
    stored_grid ch r c v p q,
    stored_grid ch (r + 1) c v,
    scroll_lem s.mem (at r c),
    scroll_lem (store_cell s.mem (80 * s.y + s.x) ch) (at r c),
  );
}

-- `clear` shows the blank console with its cursor in the corner.
pub clear_refines :
    (s : Screen) → Same (view (clear s)) (record { col = 0; row = 0; grid = λ r c. b' ' })
unfolding clear clear_kb update_cursor
clear_refines s = record {
  col = refl;
  row = refl;
  grid = λ r c p q. ground (
    arith,
    clear_cells_lem (clear_cells s.mem 0 2000) 0 2000 (at r c),
    clear_cells_lem s.mem 0 2000 (at r c),
  );
}
