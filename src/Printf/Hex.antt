-- ===== src/Printf/Hex.antt =====
-- `%#x` of `printf` of student-distrib/lib.c: eight hexadecimal digits.
use mpf_cker_os.Base.{
  ℕ, zero, suc, ◌+◌, ◌-◌, ◌^◌, ◌≤◌, ◌<◌, ◌≡◌, refl, sym, ◌∙◌, subst, ◌⊎◌, true, some, arith,
  if◌then◌else◌, Mem, update, inside,
}
use mpf_cker_os.Strings.Length.{IsString, strlen-eq-some}
use mpf_cker_os.Strings.Digits.{number}
use mpf_cker_os.Screen.{Screen, video}
use mpf_cker_os.Screen.Refine.{OnScreen}
use mpf_cker_os.Printf.{pad_zeros, put_hex8, convert}
use mpf_cker_os.Printf.Numbers.{Shows, puts_frame, itoa_frame}

pad_zeros_lem : (m : Mem) (a n q : ℕ) → pad_zeros m a n q ≡ (if inside a n q then b'0' else m q)
unfolding pad_zeros
pad_zeros_lem m a zero q = ground arith
pad_zeros_lem m a (suc n) q = ground (arith, pad_zeros_lem (update m a b'0') (a + 1) n q)

zeros-number : (m : Mem) (s k : ℕ) → ((i : ℕ) → i < k → m (s + i) ≡ b'0') → number m 16 s k ≡ 0
zeros-number m s zero zeros = refl
zeros-number m s (suc k) zeros =
    ground (arith, zeros k, zeros-number m s k (λ i p. zeros i (omega arith)))

-- zeros in front do not change a number
number_zeros :
    (m m' : Mem) (s k n len : ℕ)
    → k + n ≡ len
    → ((i : ℕ) → i < k → m' (s + i) ≡ b'0')
    → ((i : ℕ) → i < n → m' (s + k + i) ≡ m (s + k + i))
    → number m' 16 s len ≡ number m 16 (s + k) n
number_zeros m m' s k zero len e zeros same = zeros-number m' s len (λ i p. zeros i (omega arith))
number_zeros m m' s k (suc n) zero e zeros same = absurd (omega arith)
number_zeros m m' s k (suc n) (suc len) e zeros same =
    ground
      (arith, same n, number_zeros m m' s k n len (omega arith) zeros (λ i p. same i (omega arith)))

module _ (conv : ℕ) (away : (conv + 64 ≤ video) ⊎ (video + 4000 ≤ conv)) (s : Screen)
    (on : OnScreen s) where
  -- `%#x` of a word uses one argument and writes exactly eight characters, whose number in base 16 is
  -- the word.
  pub convert_hex8 :
      (f buf esp : ℕ) (format args : Mem)
      → 12 < f
      → format buf ≡ b'x'
      → args esp < 2 ^ 32
      → (t : Screen) × (m : Mem) × (text : ℕ) × (convert (suc f) format args conv buf true esp s
          ≡ some (buf, esp + 1, t))
        × (number m 16 text 8 ≡ args esp)
        × Shows m text 8 conv 64 s t
  unfolding convert put_hex8
  convert_hex8 f buf esp format args fuel x word =
      let (m, n, ran, most, printed, kept) =
        itoa_frame conv away s on f 8 (args esp) (conv + 8) 16 s.mem (omega arith) (omega arith)
          (omega arith) (omega arith) (omega arith) (omega arith) (omega arith) (λ q p. refl) in
      let measured = strlen-eq-some f m (conv + 8) n printed.string (omega arith) in
      let padded = pad_zeros m (conv + n) (8 - n) in
      let at : (q : ℕ) → padded q ≡ (if inside (conv + n) (8 - n) q then b'0' else m q) =
        λ q. pad_zeros_lem m (conv + n) (8 - n) q in
      let str : IsString padded (conv + n) 8 = record {
        ends = ground (arith, at (conv + n + 8), printed.string.ends);
        before = λ i p. ground (arith, at (conv + n + i), printed.string.before (n + i - 8));
      } in
      let (t, count, shown, shows) =
        puts_frame conv away s on f (conv + n) 8 padded str (omega arith) (omega arith)
          (omega arith) (λ q p. ground (arith, at q, kept q)) in
      let same : number padded 16 (conv + n) 8 ≡ number m 16 (conv + n + (8 - n)) n =
        number_zeros m padded (conv + n) (8 - n) n 8 (omega arith)
          (λ i p. ground (arith, at (conv + n + i)))
          (λ i p. ground (arith, at (conv + n + (8 - n) + i))) in
      let start : conv + n + (8 - n) ≡ conv + 8 = omega arith in
      (
        t,
        padded,
        conv + n,
        ground (arith, ran, measured, shown),
        same ∙ subst (λ a. number m 16 a n ≡ args esp) (sym start) printed.digits,
        shows,
      )
