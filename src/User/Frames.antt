-- ===== src/User/Frames.antt =====
-- What pingpong of syscalls/ece391pingpong.c shows.
use mpf_cker_os.Base.{
  ℕ, zero, suc, ◌+◌, ◌≤◌, ◌<◌, ◌≡◌, refl, sym, ap, ◌∙◌, ◌≢◌, ◌||◌, some, List, [], ◌∷◌, ◌++◌, arith,
  ◌==◌, if◌then◌else◌, Mem, update, inside, bytes_at, bytes_at-eq,
}
use mathlib.Core.List.{append_assoc, append-nil}
use mpf_cker_os.Strings.Length.{IsString}
use mpf_cker_os.User.Calls.{Calls, text}
use mpf_cker_os.User.Counting.{Shows, fdputs_lem}
use mpf_cker_os.User.Pingpong.{
  clear_from, walls, draw, next_char, show_frame, move_out, move_back, bounce, pingpong,
}

-- the places outside of the world
record IsWalled (buf : Mem) : Type 0 where
  first : buf 0 ≡ b' '
  near : buf 1 ≡ b'|'
  far : buf 78 ≡ b'|'
  line_end : buf 79 ≡ b'\n'
  end : buf 80 ≡ 0

-- a line with the character at `j` between the walls
abbrev pub picture : ℕ → ℕ → Mem
picture ch j q =
    if q == j then ch else if (q == 1) || (q == 78) then b'|' else if q == 79 then b'\n' else b' '

clear_from_lem :
    (buf : Mem) (i left q : ℕ) → clear_from buf i left q ≡ (if inside i left q then b' ' else buf q)
unfolding clear_from
clear_from_lem buf i zero q = ground arith
clear_from_lem buf i (suc left) q =
    ground (arith, clear_from_lem (update buf i b' ') (i + 1) left q)

walls-IsWalled : (buf : Mem) → IsWalled (walls buf)
unfolding walls
walls-IsWalled buf = record {
  first = ground (arith, clear_from_lem buf 0 81 0);
  near = refl;
  far = refl;
  line_end = refl;
  end = refl;
}

module _ (ch j : ℕ) (buf : Mem) (h : IsWalled buf) (lo : 2 ≤ j) (hi : j < 78) where
  draw-picture : (q : ℕ) → q < 80 → draw ch j buf q ≡ picture ch j q
  unfolding draw
  draw-picture q p = ground (arith, clear_from_lem buf 2 76 q, h.first, h.near, h.far, h.line_end)

  draw-IsWalled : IsWalled (draw ch j buf)
  unfolding draw
  draw-IsWalled = record {
    first = ground (arith, clear_from_lem buf 2 76 0, h.first);
    near = ground (arith, clear_from_lem buf 2 76 1, h.near);
    far = ground (arith, clear_from_lem buf 2 76 78, h.far);
    line_end = ground (arith, clear_from_lem buf 2 76 79, h.line_end);
    end = ground (arith, clear_from_lem buf 2 76 80, h.end);
  }

  draw-IsString : ch ≢ 0 → IsString (draw ch j buf) 0 80
  unfolding draw
  draw-IsString real = record {
    ends = ground (arith, clear_from_lem buf 2 76 80, h.end);
    before = λ i p. ground (arith, draw-picture i p, real);
  }

-- the frames of the way out from `j`, of the way back, and of `rounds` rounds
abbrev pub frames_out : ℕ → ℕ → ℕ → List ℕ
frames_out ch j zero = []
frames_out ch j (suc left) = bytes_at (picture ch j) 0 80 ++ frames_out ch (j + 1) left

abbrev pub frames_back : ℕ → ℕ → List ℕ
frames_back ch zero = []
frames_back ch (suc left) = bytes_at (picture ch (2 + left)) 0 80 ++ frames_back ch left

abbrev pub frames : ℕ → ℕ → List ℕ
frames zero ch = []
frames (suc rounds) ch = (frames_out ch 2 76 ++ frames_back ch 76) ++ frames rounds (next_char ch)

-- a read of the clock ends and shows nothing
pub record Ticks {W : Type 0} (c : Calls W) (rtc_fd : ℕ) (shown : W → List ℕ) : Type 0 where
  pub reads :
      (m : Mem) (w : W)
      → (m' : Mem) × (w' : W) × (r : ℕ) × (c.ece391_read rtc_fd 4 m w ≡ some (m', w', r))
        × (shown w' ≡ shown w)

module _ {W : Type 0} (c : Calls W) (rtc_fd : ℕ) (shown : W → List ℕ) (shows : Shows c shown)
    (ticks : Ticks c rtc_fd shown) (g : ℕ) (enough : 80 < g) where
  show_frame_lem :
      (ch j : ℕ) (buf : Mem) (w : W)
      → IsWalled buf
      → 2 ≤ j
      → j < 78
      → ch ≢ 0
      → (buf' : Mem) × (w' : W) × (show_frame c g rtc_fd ch j buf w ≡ some (buf', w'))
        × IsWalled buf'
        × (shown w' ≡ shown w ++ bytes_at (picture ch j) 0 80)
  unfolding show_frame
  show_frame_lem ch j buf w h lo hi real =
      let (w1, put, said) =
        fdputs_lem c shown shows g (draw ch j buf) 80 w (draw-IsString ch j buf h lo hi real)
          enough in
      let (m, w2, r, read, kept) = ticks.reads (λ q. 0) w1 in
      let same =
        bytes_at-eq (picture ch j) (draw ch j buf) 0 80
          (λ i p. draw-picture ch j buf h lo hi (0 + i) (omega arith)) in
      (
        draw ch j buf,
        w2,
        ground (arith, put, read),
        draw-IsWalled ch j buf h lo hi,
        kept ∙ said ∙ ap (λ l. shown w ++ l) same,
      )

  move_out_lem :
      (ch j left : ℕ) (buf : Mem) (w : W)
      → IsWalled buf
      → 2 ≤ j
      → j + left ≤ 78
      → ch ≢ 0
      → (buf' : Mem) × (w' : W) × (move_out c g rtc_fd ch j left buf w ≡ some (buf', w'))
        × IsWalled buf'
        × (shown w' ≡ shown w ++ frames_out ch j left)
  unfolding move_out
  move_out_lem ch j zero buf w h lo hi real = (buf, w, refl, h, sym (append-nil (shown w)))
  move_out_lem ch j (suc left) buf w h lo hi real =
      let (buf1, w1, one, h1, said) = show_frame_lem ch j buf w h lo (omega arith) real in
      let (buf2, w2, rest, h2, said') =
        move_out_lem ch (j + 1) left buf1 w1 h1 (omega arith) (omega arith) real in
      (
        buf2,
        w2,
        ground (arith, one, rest),
        h2,
        said'
            ∙ ap (λ l. l ++ frames_out ch (j + 1) left) said
            ∙ append_assoc (shown w) (bytes_at (picture ch j) 0 80) (frames_out ch (j + 1) left),
      )

  move_back_lem :
      (ch left : ℕ) (buf : Mem) (w : W)
      → IsWalled buf
      → left ≤ 76
      → ch ≢ 0
      → (buf' : Mem) × (w' : W) × (move_back c g rtc_fd ch left buf w ≡ some (buf', w'))
        × IsWalled buf'
        × (shown w' ≡ shown w ++ frames_back ch left)
  unfolding move_back
  move_back_lem ch zero buf w h hi real = (buf, w, refl, h, sym (append-nil (shown w)))
  move_back_lem ch (suc left) buf w h hi real =
      let (buf1, w1, one, h1, said) =
        show_frame_lem ch (2 + left) buf w h (omega arith) (omega arith) real in
      let (buf2, w2, rest, h2, said') = move_back_lem ch left buf1 w1 h1 (omega arith) real in
      (
        buf2,
        w2,
        ground (arith, one, rest),
        h2,
        said'
            ∙ ap (λ l. l ++ frames_back ch left) said
            ∙ append_assoc (shown w) (bytes_at (picture ch (2 + left)) 0 80) (frames_back ch left),
      )

  -- a letter stays a letter
  next_char-letter : (ch : ℕ) → 65 ≤ ch → ch ≤ 90 → (65 ≤ next_char ch) × (next_char ch ≤ 90)
  unfolding next_char
  next_char-letter ch lo hi = (ground arith, ground arith)

  bounce_lem :
      (rounds ch : ℕ) (buf : Mem) (w : W)
      → IsWalled buf
      → 65 ≤ ch
      → ch ≤ 90
      → (buf' : Mem) × (w' : W) × (bounce c rounds g rtc_fd ch buf w ≡ some (buf', w'))
        × (shown w' ≡ shown w ++ frames rounds ch)
  unfolding bounce
  bounce_lem zero ch buf w h lo hi = (buf, w, refl, sym (append-nil (shown w)))
  bounce_lem (suc rounds) ch buf w h lo hi =
      let (buf1, w1, out, h1, said) =
        move_out_lem ch 2 76 buf w h (omega arith) (omega arith) (omega arith) in
      let (buf2, w2, back, h2, said') =
        move_back_lem ch 76 buf1 w1 h1 (omega arith) (omega arith) in
      let (lo', hi') = next_char-letter ch lo hi in
      let (buf3, w3, rest, said'') = bounce_lem rounds (next_char ch) buf2 w2 h2 lo' hi' in
      let a = frames_out ch 2 76 in
      let b = frames_back ch 76 in
      (
        buf3,
        w3,
        ground (arith, out, back, rest),
        said''
            ∙ ap (λ l. l ++ frames rounds (next_char ch))
                (said' ∙ ap (λ l. l ++ b) said ∙ append_assoc (shown w) a b)
            ∙ append_assoc (shown w) (a ++ b) (frames rounds (next_char ch)),
      )

  -- Any number of rounds of pingpong, with the clock opened and set, ends and shows, for each letter from A
  -- on in turn, the frames with the letter at each place between the walls from the first to the last and
  -- back, and nothing else.
  pub pingpong_lem :
      (rounds : ℕ) (buf : Mem) (w w1 w2 : W) (r : ℕ)
      → c.ece391_open (text "rtc") w ≡ (w1, rtc_fd)
      → c.ece391_write rtc_fd (32 ∷ 0 ∷ 0 ∷ 0 ∷ []) w1 ≡ some (w2, r)
      → (buf' : Mem) × (w' : W) × (pingpong c rounds g buf w ≡ some (buf', w'))
        × (shown w' ≡ shown w2 ++ frames rounds b'A')
  unfolding pingpong
  pingpong_lem rounds buf w w1 w2 r opens sets =
      let (buf', w', ran, said) =
        bounce_lem rounds b'A' (walls buf) w2 (walls-IsWalled buf) (omega arith) (omega arith) in
      (buf', w', ground (arith, opens, sets, ran), said)
