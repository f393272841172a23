-- ===== src/Schedule/Setup.antt =====
-- Setting up the terminals and the timer, student-distrib/schedule.c.
use mpf_cker_os.Base.{
  ℕ, zero, suc, ◌+◌, ◌*◌, ◌/◌, ◌%◌, ◌≤◌, ◌<◌, ◌≡◌, refl, sym, subst, arith, if◌then◌else◌, u8,
  minus_one, Mem, update, inside,
}
use native.Mathlib.Nat.{mul-div-le, lt-mul-div-succ, mul-le-mul_right}
use mpf_cker_os.Memory.{memset}
use mpf_cker_os.Memory.Copy.{memset_lem}
use mpf_cker_os.Pic.{outb, enable_irq}
use mpf_cker_os.Paging.{four_kb}
use mpf_cker_os.Schedule.{
  System, Terminal, buffer_of, reset_terminal, reset_from, with_buffer, init_terminals, init_pit,
}

pub reset_from_terminals :
    (ts : ℕ → Terminal) (m : Mem) (i n j : ℕ)
    → (reset_from ts m i n).0 j ≡ (if inside i n j then reset_terminal j (ts j) else ts j)
unfolding reset_from
reset_from_terminals ts m i zero j = ground arith
reset_from_terminals ts m i (suc n) j = ground (
  arith,
  reset_from_terminals (update ts i (reset_terminal i (ts i)))
      (memset m (ts i).video_buffer 0 four_kb) (i + 1) n j,
)

reset_from_memory :
    (ts : ℕ → Terminal) (m : Mem) (i n q : ℕ)
    → ((j : ℕ) → i ≤ j → j < i + n → (ts j).video_buffer ≡ buffer_of j)
    → (reset_from ts m i n).1 q ≡ (if inside (buffer_of i) (four_kb * n) q then 0 else m q)
unfolding reset_from
reset_from_memory ts m i zero q h = ground arith
reset_from_memory ts m i (suc n) q h = ground (
  arith,
  h i (omega arith) (omega arith),
  memset_lem m (buffer_of i) 0 four_kb q,
  reset_from_memory (update ts i (reset_terminal i (ts i))) (memset m (ts i).video_buffer 0 four_kb)
      (i + 1) n q (λ j l r. ground (arith, h j (omega arith) (omega arith))),
)

-- `init_terminals` gives each of the three terminals its own buffer with an empty line, no process and
-- the cursor in the corner, clears the three buffers and no other memory, and shows the first one.
pub init_terminals_lem :
    (s : System) (i q : ℕ)
    → i < 3
    → let t = init_terminals s in
      (t.visible ≡ 0)
      × ((t.terminals i).video_buffer ≡ buffer_of i)
      × ((t.terminals i).curr_process ≡ minus_one)
      × ((t.terminals i).screen_x + (t.terminals i).screen_y + (t.terminals i).num_chars ≡ 0)
      × ((t.terminals i).buf_kb (q % 128) ≡ 0)
      × (t.mem q ≡ (if inside (buffer_of 0) (3 * four_kb) q then 0 else s.mem q))
unfolding init_terminals
init_terminals_lem s i q h =
    let ts = with_buffer 2 (with_buffer 1 (with_buffer 0 s.terminals)) in
    let m0 = memset s.mem (buffer_of 0) 0 four_kb in
    let m1 = memset m0 (buffer_of 1) 20 four_kb in
    let m2 = memset m1 (buffer_of 2) 40 four_kb in
    let each = reset_from_terminals ts m2 0 3 i in
    let low : q % 128 < 128 = omega arith in
    (
      refl,
      ground (arith, each),
      ground (arith, each),
      ground (arith, each),
      ground (arith, each, low),
      ground (
        arith,
        reset_from_memory ts m2 0 3 q (λ j l r. ground arith),
        memset_lem s.mem (buffer_of 0) 0 four_kb q,
        memset_lem m0 (buffer_of 1) 20 four_kb q,
        memset_lem m1 (buffer_of 2) 40 four_kb q,
      ),
    )

-- the divisor for `f` Hz fits two bytes
divisor_lem :
    (f clock : ℕ)
    → 19 ≤ f
    → clock < 19 * 65536
    → (clock / f < 65536) × (f * (clock / f) ≤ clock) × (clock < f * (clock / f + 1))
divisor_lem f clock h wide =
    let most : f * (clock / f) ≤ clock = mul-div-le clock f in
    let low : 19 * (clock / f) ≤ f * (clock / f) = mul-le-mul_right (clock / f) h in
    (omega arith, most, lt-mul-div-succ clock (omega arith))

-- From 19 Hz on, and up to the clock of the timer, the two bytes that `init_PIT` sends after the
-- command are those of a divisor of at least 1 whose rate is at least the one asked for, and with one
-- more it would be less; both counters are reset and interrupt 0 is enabled.
pub init_pit_lem :
    (f : ℕ) (s : System)
    → 19 ≤ f
    → f ≤ 1193180
    → let t = init_pit f s in
      (low : ℕ) × (high : ℕ) × (t.pic
        ≡ enable_irq 0 (outb high 0x40 (outb low 0x40 (outb 0x36 0x43 s.pic))))
      × (low < 256)
      × (high < 256)
      × (f * (256 * high + low) ≤ 1193180)
      × (1193180 < f * (256 * high + low + 1))
      × (t.pit_count ≡ 0)
      × (t.pit_intr_count ≡ 0)
unfolding init_pit
init_pit_lem f s h k =
    let (short, most, next) = divisor_lem f 1193180 h (omega arith) in
    let whole : 256 * u8 (1193180 / f / 256 % 256) + u8 (1193180 / f % 256) ≡ 1193180 / f =
      omega (arith, short) in
    (
      u8 (1193180 / f % 256),
      u8 (1193180 / f / 256 % 256),
      refl,
      omega arith,
      omega arith,
      subst (λ d. f * d ≤ 1193180) (sym whole) most,
      subst (λ d. 1193180 < f * (d + 1)) (sym whole) next,
      refl,
      refl,
    )
