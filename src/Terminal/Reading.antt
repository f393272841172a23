-- ===== src/Terminal/Reading.antt =====
-- The line that the terminal reads, student-distrib/terminal.c.
use mpf_cker_os.Base.{
  ℕ, zero, suc, ◌+◌, ◌-◌, ◌^◌, ◌≤◌, ◌<◌, min, ◌≡◌, refl, ◌≢◌, true, false, some, arith, ltb,
  if◌then◌else◌, Mem, update, inside, ℕ_discrete,
}
use mpf_cker_os.Terminal.{
  Line, skip_spaces, scan_args, terminal_read, drop_front, clear_buffer, signed_min,
}

-- the bytes of a line from `i` on end at `n`
pub record IsLine (b : Mem) (i n : ℕ) : Type 0 where
  pub ends : b n ≡ 0xa
  pub before : (j : ℕ) → i ≤ j → j < n → b j ≢ 0xa

skip_spaces_lem :
    (f : ℕ) (b : Mem) (i k : ℕ)
    → k < f
    → ((j : ℕ) → i ≤ j → j < i + k → b j ≡ 0x20)
    → b (i + k) ≢ 0x20
    → skip_spaces f b i ≡ some (i + k)
unfolding skip_spaces
skip_spaces_lem zero b i k h spaces stop = absurd (omega arith)
skip_spaces_lem (suc f) b i zero h spaces stop = ground arith
skip_spaces_lem (suc f) b i (suc k) h spaces stop = ground (
  arith,
  spaces i (omega arith) (omega arith),
  skip_spaces_lem f b (i + 1) k (omega arith) (λ j l r. spaces j (omega arith) (omega arith))
      (ground arith),
)

-- the rest of the line once a space has been met
scan_args-after :
    (f : ℕ) (b s : Mem) (c n offset max : ℕ)
    → c ≤ n
    → n - c < f
    → IsLine b c n
    → (s' : Mem) × (scan_args f b s c true offset max ≡ some (s', n, max))
      × ((q : ℕ) → s' q ≡ (if inside offset (n - c) q then b (c + (q - offset)) else s q))
unfolding scan_args
scan_args-after zero b s c n offset max h g line = absurd (omega arith)
scan_args-after (suc f) b s c n offset max h g line = elim (ℕ_discrete c n) [
  | yes same ↦ (s, ground (arith, line.ends), λ q. ground arith)
  | no other ↦
      let (s', ran, holds) =
        scan_args-after f b (update s offset (b c)) (c + 1) n (offset + 1) max (omega arith)
          (omega arith)
          (record { ends = line.ends; before = λ j l r. line.before j (omega arith) r }) in
      (s', ground (arith, line.before c, ran), λ q. ground (arith, holds q))
]

-- a line without a space
scan_args-none :
    (f : ℕ) (b s : Mem) (c n offset max : ℕ)
    → c ≤ n
    → n - c < f
    → IsLine b c n
    → ((j : ℕ) → c ≤ j → j < n → b j ≢ 0x20)
    → scan_args f b s c false offset max ≡ some (s, n, max)
unfolding scan_args
scan_args-none zero b s c n offset max h g line word = absurd (omega arith)
scan_args-none (suc f) b s c n offset max h g line word = elim (ℕ_discrete c n) [
  | yes same ↦ ground (arith, line.ends)
  | no other ↦ ground (
    arith,
    line.before c,
    word c,
    scan_args-none f b s (c + 1) n offset max (omega arith) (omega arith)
        (record { ends = line.ends; before = λ j l r. line.before j (omega arith) r })
        (λ j l r. word j (omega arith) r),
  )
]

-- a line whose first space is at `k`
scan_args-first :
    (f : ℕ) (b s : Mem) (c k n offset max : ℕ)
    → c ≤ k
    → k < n
    → n - c < f
    → IsLine b c n
    → ((j : ℕ) → c ≤ j → j < k → b j ≢ 0x20)
    → b k ≡ 0x20
    → (s' : Mem) × (scan_args f b s c false offset max ≡ some (s', n, k))
      × ((q : ℕ) → s' q ≡ (if ltb q (n - (k + 1)) then b (k + 1 + q) else s q))
unfolding scan_args
scan_args-first zero b s c k n offset max h l g line word space = absurd (omega arith)
scan_args-first (suc f) b s c k n offset max h l g line word space =
    let rest : IsLine b (c + 1) n = record {
      ends = line.ends;
      before = λ j l r. line.before j (omega arith) r;
    } in
    elim (ℕ_discrete c k) [
      | yes same ↦
          let (s', ran, holds) =
            scan_args-after f b s (c + 1) n 0 c (omega arith) (omega arith) rest in
          (s', ground (arith, line.before c, ran), λ q. ground (arith, holds q))
      | no other ↦
          let (s', ran, holds) =
            scan_args-first f b s (c + 1) k n offset max (omega arith) l (omega arith) rest
              (λ j l r. word j (omega arith) r) space in
          (s', ground (arith, line.before c, word c, ran), holds)
    ]

-- the buffers after a line has been read
pub record IsTaken (l : Line) (args : Mem) : Type 0 where
  pub waits : l.enter_flag ≡ 1
  pub cleared : (q : ℕ) → q < 128 → l.buf_kb q ≡ 0
  pub stored : (q : ℕ) → q < 1024 → l.storeargs q ≡ args q

module _ (l : Line) (i n : ℕ) (room : i + n < 128) (line : IsLine l.buf_kb i (i + n))
    (spaces : (j : ℕ) → 0 ≤ j → j < i → l.buf_kb j ≡ 0x20) (start : l.buf_kb i ≢ 0x20) where
  abbrev letter : Mem
  letter j = l.buf_kb (i + j)

  moved : IsLine (drop_front i l.buf_kb) 0 n
  moved = record {
    ends = ground (arith, line.ends);
    before = λ j h k. ground (arith, line.before (i + j) (omega arith) (omega arith));
  }

  -- A line of one word, after any spaces, is read with its end of line, as far as the count goes, and
  -- leaves no arguments: fuel for the length of the buffer is enough.
  pub terminal_read_word :
      (f buf nbytes : ℕ) (m : Mem)
      → 128 < f
      → 0 < nbytes
      → nbytes < 2 ^ 31
      → ((j : ℕ) → j < n → letter j ≢ 0x20)
      → let r = min (n + 1) nbytes in
        (m' : Mem) × (l' : Line) × (terminal_read f buf nbytes m l ≡ some (m', l', r))
        × IsTaken l' (λ q. 0)
        × ((q : ℕ) → m' q ≡ (if inside buf r q then letter (q - buf) else m q))
  unfolding terminal_read
  terminal_read_word f buf nbytes m fuel some_bytes small one_word =
      let skip =
        skip_spaces_lem f l.buf_kb 0 i (omega arith) (λ j h k. spaces j h (omega arith))
          (ground arith) in
      let scan =
        scan_args-none f (drop_front i l.buf_kb) (clear_buffer 1024 l.storeargs) 0 n 0
          (signed_min 128 nbytes) (omega arith) (omega arith) moved
          (λ j h k. ground (arith, one_word j k)) in
      (
        λ q. if inside buf (min (n + 1) nbytes) q then drop_front i l.buf_kb (q - buf) else m q,
        record {
          buf_kb = clear_buffer 128 (drop_front i l.buf_kb);
          storeargs = clear_buffer 1024 l.storeargs;
          enter_flag = 1;
        },
        ground (arith, skip, scan),
        record { waits = refl; cleared = λ q h. ground arith; stored = λ q h. ground arith },
        λ q. ground arith,
      )

  -- Of a line whose first space after its start is at `k`, the first `k` bytes are read, as far as the
  -- count goes, and what comes after that space up to the end of line becomes the arguments.
  pub terminal_read_command :
      (f buf nbytes k : ℕ) (m : Mem)
      → 128 < f
      → 0 < nbytes
      → nbytes < 2 ^ 31
      → k < n
      → ((j : ℕ) → j < k → letter j ≢ 0x20)
      → letter k ≡ 0x20
      → let r = min k nbytes in
        (m' : Mem) × (l' : Line) × (terminal_read f buf nbytes m l ≡ some (m', l', r))
        × IsTaken l' (λ q. if ltb q (n - (k + 1)) then letter (k + 1 + q) else 0)
        × ((q : ℕ) → m' q ≡ (if inside buf r q then letter (q - buf) else m q))
  unfolding terminal_read
  terminal_read_command f buf nbytes k m fuel some_bytes small inner command space =
      let skip =
        skip_spaces_lem f l.buf_kb 0 i (omega arith) (λ j h k. spaces j h (omega arith))
          (ground arith) in
      let (s', scan, holds) =
        scan_args-first f (drop_front i l.buf_kb) (clear_buffer 1024 l.storeargs) 0 k n 0
          (signed_min 128 nbytes) (omega arith) inner (omega arith) moved
          (λ j h g. ground (arith, command j g)) (ground arith) in
      (
        λ q. if inside buf (min k nbytes) q then drop_front i l.buf_kb (q - buf) else m q,
        record {
          buf_kb = clear_buffer 128 (drop_front i l.buf_kb);
          storeargs = s';
          enter_flag = 1;
        },
        ground (arith, skip, scan),
        record {
          waits = refl;
          cleared = λ q h. ground arith;
          stored = λ q h. ground (arith, holds q);
        },
        λ q. ground arith,
      )
