-- ===== src/Strings/Digits.antt =====
-- The number that a block of digit characters stands for, read from either end.
use mpf_cker_os.Base.{
  ℕ, zero, suc, ◌+◌, ◌-◌, ◌*◌, ◌<◌, ◌≡◌, refl, ◌≢◌, ◌⊎◌, true, not, ◌&&◌, ◌||◌, arith, ltb, ◌==◌,
  if◌then◌else◌, ==_iff, all_below, all_below_sound, Mem,
}
use mpf_cker_os.Strings.{digit_char}

abbrev pub digit_value : ℕ → ℕ
digit_value c = if ltb c 58 then c - 48 else c - 55

-- the first digit counts most
abbrev pub number : Mem → ℕ → ℕ → ℕ → ℕ
number m radix s zero = 0
number m radix s (suc n) = number m radix s n * radix + digit_value (m (s + n))

-- the first digit counts least
abbrev pub number_low_first : Mem → ℕ → ℕ → ℕ → ℕ
number_low_first m radix s zero = 0
number_low_first m radix s (suc n) = digit_value (m s) + number_low_first m radix (s + 1) n * radix

pub number-reversed :
    (m m' : Mem) (radix s t n : ℕ)
    → ((i : ℕ) → i < n → m' (t + i) ≡ m (s + n - 1 - i))
    → number m' radix t n ≡ number_low_first m radix s n
number-reversed m m' radix s t zero h = refl
number-reversed m m' radix s t (suc n) h =
    ground (arith, h n, number-reversed m m' radix (s + 1) t n (λ i p. ground (arith, h i)))

digit_table : all_below 36 (λ i. digit_value (digit_char i) == i) ≡ true
unfolding all_below digit_char
digit_table = refl

digit_table_zero :
    all_below 36 (λ i. not (digit_char i == 0) && ((i == 0) || not (digit_char i == 48))) ≡ true
unfolding all_below digit_char
digit_table_zero = refl

pub digit_value-digit_char : (i : ℕ) → i < 36 → digit_value (digit_char i) ≡ i
digit_value-digit_char i h = (==_iff _ i).0 (all_below_sound 36 _ i digit_table h)

pub digit_char-ne-zero : (i : ℕ) → i < 36 → (digit_char i ≢ 0) × ((i ≡ 0) ⊎ (digit_char i ≢ 48))
digit_char-ne-zero i h = ground (arith, all_below_sound 36 _ i digit_table_zero h)
