-- ===== src/Schedule/Switch.antt =====
-- Switching between terminals, student-distrib/schedule.c.
use mpf_cker_os.Base.{
  ℕ, ◌+◌, ◌-◌, ◌≤◌, ◌<◌, ◌≡◌, ◌≢◌, inl, inr, true, arith, if◌then◌else◌, Mem, inside,
}
use mpf_cker_os.Memory.{memcpy}
use mpf_cker_os.Memory.Copy.{memcpy_lem}
use mpf_cker_os.Keyboard.{
  Keyboard, get_previous_buf, set_previous_buf, set_num_chars, set_curr_idx, set_save_x, set_save_y,
  set_previous_num_chars,
}
use mpf_cker_os.Paging.{flush_tlb, four_kb, video_mem}
use mpf_cker_os.Schedule.{
  System, video_frame, buffer_of, save_terminal, restore_keyboard, switch_terminal,
}

-- the video page is mapped to itself, and each terminal has the buffer of its index
pub record IsPlaced (s : System) : Type 0 where
  pub mapped : video_frame s.paging ≡ video_mem
  pub buffers : (i : ℕ) → i < 3 → (s.terminals i).video_buffer ≡ buffer_of i

-- two keyboards that hold the same counters and the same 128 bytes of both buffers
pub record SameKeyboard (a b : Keyboard) : Type 0 where
  pub num_chars : a.num_chars ≡ b.num_chars
  pub curr_idx : a.curr_idx ≡ b.curr_idx
  pub save_x : a.save_x ≡ b.save_x
  pub save_y : a.save_y ≡ b.save_y
  pub previous_num_chars : a.previous_num_chars ≡ b.previous_num_chars
  pub buf_kb : (q : ℕ) → q < 128 → a.buf_kb q ≡ b.buf_kb q
  pub previous_buf : (q : ℕ) → q < 128 → a.previous_buf q ≡ b.previous_buf q

-- the counters and the cursor fit the bytes in which a terminal keeps them
pub record FitsBytes (s : System) : Type 0 where
  pub x : s.x < 256
  pub y : s.y < 256
  pub num_chars : s.keyboard.num_chars < 256
  pub curr_idx : s.keyboard.curr_idx < 256
  pub save_x : s.keyboard.save_x < 256
  pub save_y : s.keyboard.save_y < 256
  pub previous_num_chars : s.keyboard.previous_num_chars < 256

-- memory after the visible page has been saved at `v` and the one at `d` has been shown
abbrev pub exchanged : Mem → ℕ → ℕ → Mem
exchanged m v d q =
    if inside video_mem four_kb q
    then m (d + (q - video_mem))
    else if inside v four_kb q
    then m (video_mem + (q - v))
    else m q

copies_page :
    (m : Mem) (a b q : ℕ)
    → a + four_kb ≤ b
    → (memcpy m b a four_kb q ≡ (if inside b four_kb q then m (a + (q - b)) else m q))
      × (memcpy m a b four_kb q ≡ (if inside a four_kb q then m (b + (q - a)) else m q))
copies_page m a b q h = (
  ground (arith, memcpy_lem m b a four_kb q (inr h)),
  ground (arith, memcpy_lem m a b four_kb q (inl (omega arith))),
)

module _ (s : System) (placed : IsPlaced s) (v_range : s.visible < 3) where
  abbrev v : ℕ
  v = s.visible

  -- A switch to another terminal shows it and copies the video page into the buffer of the one that
  -- was on view and the other's buffer into the video page; no other byte of memory changes.
  pub switch_terminal_memory :
      (d q : ℕ)
      → d < 3
      → d ≢ v
      → let t = switch_terminal d s in
        (t.visible ≡ d)
        × (t.mem q ≡ exchanged s.mem (buffer_of v) (buffer_of d) q)
        × (video_frame t.paging ≡ video_mem)
        × ((i : ℕ) → i < 3 → (t.terminals i).video_buffer ≡ buffer_of i)
  unfolding switch_terminal save_terminal flush_tlb
  switch_terminal_memory d q h other =
      let m1 = memcpy s.mem (buffer_of v) video_mem four_kb in
      let at = copies_page m1 video_mem (buffer_of d) q (omega arith) in
      let from =
        copies_page s.mem video_mem (buffer_of v) (buffer_of d + (q - video_mem)) (omega arith) in
      let here = copies_page s.mem video_mem (buffer_of v) q (omega arith) in
      (
        ground arith,
        ground (arith, placed.mapped, placed.buffers v v_range, placed.buffers d h, at, from, here),
        ground (arith, placed.mapped),
        λ i k. ground (arith, placed.buffers i k),
      )

  -- the first switch keeps the placement
  switch_terminal-IsPlaced : (d : ℕ) → d < 3 → d ≢ v → IsPlaced (switch_terminal d s)
  switch_terminal-IsPlaced d h other = record {
    mapped = (switch_terminal_memory d 0 h other).2;
    buffers = (switch_terminal_memory d 0 h other).3;
  }

keyboard_back :
    (s : System) (d : ℕ)
    → d < 3
    → d ≢ s.visible
    → s.visible < 3
    → FitsBytes s
    → let u = switch_terminal s.visible (switch_terminal d s) in
      (u.x ≡ s.x) × (u.y ≡ s.y) × SameKeyboard u.keyboard s.keyboard
unfolding switch_terminal save_terminal restore_keyboard get_previous_buf set_previous_buf
    set_num_chars set_curr_idx set_save_x set_save_y set_previous_num_chars flush_tlb
keyboard_back s d h other v_range fits = (
  ground (arith, fits.x),
  ground (arith, fits.y),
  record {
    num_chars = ground (arith, fits.num_chars);
    curr_idx = ground (arith, fits.curr_idx);
    save_x = ground (arith, fits.save_x);
    save_y = ground (arith, fits.save_y);
    previous_num_chars = ground (arith, fits.previous_num_chars);
    buf_kb = λ q l. ground arith;
    previous_buf = λ q l. ground arith;
  },
)

-- Switching to another terminal and back restores the cursor, the keyboard's counters, line and
-- history, and the page of video memory, if the counters fit a byte.
pub switch_terminal-switch_terminal :
    (s : System) (d q : ℕ)
    → IsPlaced s
    → FitsBytes s
    → s.visible < 3
    → d < 3
    → d ≢ s.visible
    → inside video_mem four_kb q ≡ true
    → let u = switch_terminal s.visible (switch_terminal d s) in
      (u.visible ≡ s.visible)
      × (u.x ≡ s.x)
      × (u.y ≡ s.y)
      × SameKeyboard u.keyboard s.keyboard
      × (u.mem q ≡ s.mem q)
switch_terminal-switch_terminal s d q placed fits v_range h other within =
    let away : d ≢ s.visible = other in
    let first =
      switch_terminal_memory s placed v_range d (buffer_of s.visible + (q - video_mem)) h away in
    let view = (switch_terminal_memory s placed v_range d 0 h away).0 in
    let second =
      switch_terminal_memory (switch_terminal d s)
        (switch_terminal-IsPlaced s placed v_range d h away) (ground (arith, view)) s.visible q
        v_range (ground (arith, view)) in
    let (x, y, keys) = keyboard_back s d h other v_range fits in
    (second.0, x, y, keys, ground (arith, second, first))
