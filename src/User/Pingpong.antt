-- ===== src/User/Pingpong.antt =====
-- The program syscalls/ece391pingpong.c, which moves a character between two walls until it is stopped. What
-- it reads of the clock is not used.
use mpf_cker_os.Base.{
  ℕ, zero, suc, ◌+◌, Option, some, [], ◌∷◌, ◌==◌, if◌then◌else◌, u8, Mem, update,
}
use mpf_cker_os.User.Calls.{Calls, ◌>>=◌, text, ece391_fdputs}

-- blanks at `left` places from `i` on
unfoldable pub clear_from : Mem → ℕ → ℕ → Mem
clear_from buf i zero = buf
clear_from buf i (suc left) = clear_from (update buf i b' ') (i + 1) left

unfoldable pub walls : Mem → Mem
walls buf = update (update (update (update (clear_from buf 0 81) 80 0) 79 b'\n') 78 b'|') 1 b'|'

-- the character `ch` at `j`
unfoldable pub draw : ℕ → ℕ → Mem → Mem
draw ch j buf = update (clear_from buf 2 76) j ch

unfoldable pub next_char : ℕ → ℕ
next_char ch = if ch == b'Z' then b'A' else u8 (ch + 1)

module _ {W : Type 0} (c : Calls W) where
  -- a frame, and the wait for the clock
  unfoldable pub show_frame : ℕ → ℕ → ℕ → ℕ → Mem → W → Option (Mem × W)
  show_frame g rtc_fd ch j buf w = do
    w1 ← ece391_fdputs c g 1 (draw ch j buf) 0 w
    (m, w2, r) ← c.ece391_read rtc_fd 4 (λ q. 0) w1
    some (draw ch j buf, w2)

  -- the way out from `j`, and the way back to the first place
  unfoldable pub move_out : ℕ → ℕ → ℕ → ℕ → ℕ → Mem → W → Option (Mem × W)
  move_out g rtc_fd ch j zero buf w = some (buf, w)
  move_out g rtc_fd ch j (suc left) buf w = do
    (buf', w') ← show_frame g rtc_fd ch j buf w
    move_out g rtc_fd ch (j + 1) left buf' w'

  unfoldable pub move_back : ℕ → ℕ → ℕ → ℕ → Mem → W → Option (Mem × W)
  move_back g rtc_fd ch zero buf w = some (buf, w)
  move_back g rtc_fd ch (suc left) buf w = do
    (buf', w') ← show_frame g rtc_fd ch (2 + left) buf w
    move_back g rtc_fd ch left buf' w'

  -- `rounds` rounds of the endless loop
  unfoldable pub bounce : ℕ → ℕ → ℕ → ℕ → Mem → W → Option (Mem × W)
  bounce zero g rtc_fd ch buf w = some (buf, w)
  bounce (suc rounds) g rtc_fd ch buf w = do
    (buf1, w1) ← move_out g rtc_fd ch 2 76 buf w
    (buf2, w2) ← move_back g rtc_fd ch 76 buf1 w1
    bounce rounds g rtc_fd (next_char ch) buf2 w2

  unfoldable pub pingpong : ℕ → ℕ → Mem → W → Option (Mem × W)
  pingpong rounds g buf w = do
    let opened = c.ece391_open (text "rtc") w
    (w1, r) ← c.ece391_write opened.1 (32 ∷ 0 ∷ 0 ∷ 0 ∷ []) opened.0
    bounce rounds g opened.1 b'A' (walls buf) w1
