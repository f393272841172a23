-- ===== src/Screen/Console.antt =====
-- What the screen promises: a grid of characters with a cursor that wraps and scrolls.
use mpf_cker_os.Base.{ℕ, ◌+◌, ◌<◌, ◌≡◌, ◌&&◌, ◌||◌, List, [], ◌∷◌, arith, ltb, ◌==◌, if◌then◌else◌}

pub record Console : Type 0 where
  pub col : ℕ
  pub row : ℕ
  pub grid : ℕ → ℕ → ℕ

unfoldable pub next_line : Console → Console
next_line t =
    if t.row == 24
    then record { col = 0; row = 24; grid = λ r c. if ltb r 24 then t.grid (r + 1) c else b' ' }
    else record { col = 0; row = t.row + 1; grid = t.grid }

-- the character at the cursor replaced
unfoldable pub write_at : Console → ℕ → ℕ → ℕ → ℕ
write_at t ch r c = if (r == t.row) && (c == t.col) then ch else t.grid r c

unfoldable pub put : ℕ → Console → Console
put ch t =
    let written = record t { grid = write_at t ch } in
    if (ch == b'\n') || (ch == b'\r')
    then next_line t
    else if t.col == 79
    then next_line written
    else record written { col = t.col + 1 }

-- Two consoles that show the same.
pub record Same (a b : Console) : Type 0 where
  pub col : a.col ≡ b.col
  pub row : a.row ≡ b.row
  pub grid : (r c : ℕ) → r < 25 → c < 80 → a.grid r c ≡ b.grid r c

pub put-Same : (ch : ℕ) {a b : Console} → a.row < 25 → Same a b → Same (put ch a) (put ch b)
unfolding put next_line write_at
put-Same ch {a} {b} h s = record {
  col = ground (arith, s.col, s.row);
  row = ground (arith, s.col, s.row);
  grid = λ r c p q. ground (arith, s.col, s.row, s.grid r c, s.grid (r + 1) c);
}

unfoldable pub put_all : List ℕ → Console → Console
put_all [] t = t
put_all (c ∷ cs) t = put_all cs (put c t)
