-- ===== src/Fish/Program.antt =====
-- fish/fish.c over the calls of the kernel. The list of blinking characters is the state of the program; what
-- its clock reads is not used.
use mpf_cker_os.Base.{
  ℕ, zero, suc, ◌+◌, ◌*◌, ◌^◌, Bool, true, false, not, ◌&&◌, ◌||◌, Option, none, some, [], ◌∷◌,
  ◌==◌, if◌then◌else◌, u16, minus_one, is_negative, Mem, update,
}
use mpf_cker_os.Fish.{
  Blink, Blinks, no_blink, mp1_ioctl_add, mp1_ioctl_remove, mp1_ioctl_sync, mp1_rtc_tasklet,
}
use mpf_cker_os.User.Calls.{Calls, text, ◌>>=◌}

-- the loop of `ece391_memset` from `i` with `left` to go, and that of `ece391_memcpy`
unfoldable pub memset_from : Mem → ℕ → ℕ → ℕ → ℕ → Mem
memset_from m memory c i zero = m
memset_from m memory c i (suc left) = memset_from (update m (memory + i) c) memory c (i + 1) left

unfoldable pub ece391_memset : Mem → ℕ → ℕ → ℕ → Mem
ece391_memset m memory c n = memset_from m memory c 0 n

unfoldable pub memcpy_from : Mem → ℕ → ℕ → ℕ → ℕ → Mem
memcpy_from m dest src i zero = m
memcpy_from m dest src i (suc left) =
    memcpy_from (update m (dest + i) (m (src + i))) dest src (i + 1) left

unfoldable pub ece391_memcpy : Mem → ℕ → ℕ → ℕ → Mem × ℕ
ece391_memcpy m dest src n = (memcpy_from m dest src 0 n, 0)

-- the state of the program beside that of the kernel
pub record Aquarium (W : Type 0) : Type 0 where
  pub blinks : Blinks
  pub kernel : W

-- a character of a frame, and whether the file has ended
pub record Reader : Type 0 where
  pub char : ℕ
  pub eof : Bool

-- how `add_frames` ends: by the end of the program when a file cannot be opened
pub data Frames (W : Type 0) : Type 0 where
  halted : Aquarium W → Frames W
  shown : Aquarium W → Frames W

abbrev pub line_end : ℕ
line_end = b'\n'

-- the character of a blink
abbrev pub visible : ℕ → ℕ
visible c = if c == line_end then b' ' else c

abbrev pub is_drawn : ℕ → Bool
is_drawn c = not (c == b' ') && not (c == line_end)

abbrev pub frame_blink : ℕ → ℕ → ℕ → ℕ → Blink
frame_blink c0 c1 row col = record {
  location = u16 (row * 80 + col + 40);
  on_char = visible c0;
  off_char = visible c1;
  on_length = 15;
  off_length = 15;
  countdown = 0;
  status = 0;
  next = 0;
}

module _ {W : Type 0} (c : Calls W) (ece391_vidmap : W → W × ℕ) where
  -- the reading of a character, unless the line has ended
  unfoldable pub read_char : ℕ → Reader → W → Option (Reader × W)
  read_char fd r w =
      let read : Option (Reader × W) = elim (c.ece391_read fd 1 (λ q. r.char) w) [
        | none ↦ none
        | some (m, w', n) ↦ some (
          (if n == 0 then record { char = line_end; eof = true } else record r { char = m 0 }),
          w',
        )
      ] in
      if r.char == line_end then some (r, w) else read

  unfoldable pub draw_cell : ℕ → ℕ → Reader → Reader → Blinks → Blinks
  draw_cell row col r0 r1 s =
      if is_drawn r0.char || is_drawn r1.char
      then (mp1_ioctl_add (frame_blink r0.char r1.char row col) s).0
      else s

  -- the loop over a line of both frames, on fuel
  unfoldable pub add_line :
      ℕ → ℕ → ℕ → ℕ → ℕ → Reader → Reader → Aquarium W → Option (Reader × Reader × Aquarium W)
  add_line zero fd0 fd1 row col r0 r1 s = none
  add_line (suc f) fd0 fd1 row col r0 r1 s = do
    (r0', w1) ← read_char fd0 r0 s.kernel
    (r1', w2) ← read_char fd1 r1 w1
    let after : Aquarium W = record { blinks = draw_cell row col r0' r1' s.blinks; kernel = w2 }
    let rest = add_line f fd0 fd1 row (col + 1) r0' r1' after
    if (r0'.char == line_end) && (r1'.char == line_end)
        then some (r0', r1', record s { kernel = w2 })
        else rest

  -- the end of a line: a file that has ended is closed
  unfoldable pub end_line : ℕ → Reader → W → Reader × W
  end_line fd r w =
      if r.eof
      then (record r { char = line_end }, (c.ece391_close fd w).0)
      else (record r { char = b'0' }, w)

  -- the loop over the lines, on fuel for the lines and for the characters of each
  unfoldable pub add_lines : ℕ → ℕ → ℕ → ℕ → ℕ → Reader → Reader → Aquarium W → Option (Aquarium W)
  add_lines zero g fd0 fd1 row r0 r1 s = none
  add_lines (suc f) g fd0 fd1 row r0 r1 s =
      let more : Option (Aquarium W) = elim (add_line g fd0 fd1 row 0 r0 r1 s) [
        | none ↦ none
        | some (r0', r1', s') ↦
            let (r0'', w1) = end_line fd0 r0' s'.kernel in
            let (r1'', w2) = end_line fd1 r1' w1 in
            add_lines f g fd0 fd1 (row + 1) r0'' r1'' (record s' { kernel = w2 })
      ] in
      if r0.eof && r1.eof then some s else more

  abbrev pub unread : Reader
  unread = record { char = b'0'; eof = false }

  unfoldable pub add_frames : ℕ → ℕ → Mem → Mem → Aquarium W → Option (Frames W)
  add_frames f g f0 f1 s =
      let (w1, fd0) = c.ece391_open f0 s.kernel in
      let (w2, fd1) = c.ece391_open f1 w1 in
      let lines : Option (Frames W) =
        elim (add_lines f g fd0 fd1 0 unread unread (record s { kernel = w2 })) [
          | none ↦ none
          | some s' ↦ some (shown s')
        ] in
      if is_negative fd0
      then some (halted (record s { kernel = w1 }))
      else if is_negative fd1
      then some (halted (record s { kernel = w2 }))
      else lines

  -- the loops of `main` that wait for the clock, with `left` rounds to go
  unfoldable pub wait_rounds : ℕ → ℕ → ℕ → Aquarium W → Option (Aquarium W)
  wait_rounds f rtc_fd zero s = some s
  wait_rounds f rtc_fd (suc left) s = do
    (m, w, n) ← c.ece391_read rtc_fd 4 (λ q. 0) s.kernel
    blinks' ← mp1_rtc_tasklet f s.blinks
    wait_rounds f rtc_fd left (record { blinks = blinks'; kernel = w })

  -- the blinking character of `main`
  abbrev pub fish_blink : Blink
  fish_blink = record {
    location = 6 * 80 + 60;
    on_char = b'I';
    off_char = b'M';
    on_length = 7;
    off_length = 6;
    countdown = 0;
    status = 0;
    next = 0;
  }

  abbrev pub wait : ℕ
  wait = 100

  -- `main` from the write to the clock on
  unfoldable pub swim : ℕ → ℕ → Aquarium W → Option (Aquarium W × ℕ)
  swim f rtc_fd s = do
    (w1, r) ← c.ece391_write rtc_fd (32 ∷ 0 ∷ 0 ∷ 0 ∷ []) s.kernel
    s2 ← wait_rounds f rtc_fd wait (record s { kernel = w1 })
    s3 ← wait_rounds f rtc_fd wait (record s2 { blinks = (mp1_ioctl_add fish_blink s2.blinks).0 })
    (b4, r4) ← mp1_ioctl_sync f (40 * 2 ^ 16 + (6 * 80 + 60)) s3.blinks
    s5 ← wait_rounds f rtc_fd wait (record s3 { blinks = b4 })
    (b6, r6) ← mp1_ioctl_remove f (6 * 80 + 60) s5.blinks
    s7 ← wait_rounds f rtc_fd wait (record s5 { blinks = b6 })
    some (record s7 { kernel = (c.ece391_close rtc_fd s7.kernel).0 }, 0)

  abbrev pub after_frames : ℕ → ℕ → Frames W → Option (Aquarium W × ℕ)
  after_frames f rtc_fd (halted s) = some (s, 255)
  after_frames f rtc_fd (shown s) = swim f rtc_fd s

  -- whether the pointer to the video memory is not null
  unfoldable pub mp1_set_video_mode : W → W × Bool
  mp1_set_video_mode w = let (w', r) = ece391_vidmap w in (w', not (r == minus_one))

  -- `main`, with fuel for the lists, the lines and their characters. `ece391_vidmap` gives no null pointer when it
  -- succeeds.
  unfoldable pub fish : ℕ → ℕ → ℕ → Aquarium W → Option (Aquarium W × ℕ)
  fish f lines chars s =
      let cleared = record s.blinks { blink_array = λ i. no_blink } in
      let (w1, mapped) = mp1_set_video_mode s.kernel in
      let (w2, rtc_fd) = c.ece391_open (text "rtc") w1 in
      let rest : Option (Aquarium W × ℕ) =
        elim (add_frames lines chars (text "frame0.txt") (text "frame1.txt")
          (record { blinks = cleared; kernel = w2 })) [
            | none ↦ none
            | some z ↦ after_frames f rtc_fd z
          ] in
      if mapped then rest else some (record { blinks = cleared; kernel = w1 }, minus_one)
