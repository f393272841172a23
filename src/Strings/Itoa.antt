-- ===== src/Strings/Itoa.antt =====
-- `itoa` of student-distrib/lib.c writes the digits of its argument.
use mpf_cker_os.Base.{
  ℕ, zero, suc, ◌+◌, ◌-◌, ◌*◌, ◌/◌, ◌%◌, ◌^◌, ◌≤◌, ◌<◌, ◌≡◌, refl, ◌∙◌, ◌≢◌, ◌⊎◌, inl, some, arith,
  Mem, update, dec_lt,
}
use native.Mathlib.Nat.{
  pow-suc, div-mul-le_self, div-add-mod, mul-le-mul_right, pow-le-pow_left, pow-zero,
}
use mpf_cker_os.Strings.{digit_char, itoa_digits, itoa}
use mpf_cker_os.Strings.Length.{IsString}
use mpf_cker_os.Strings.Reverse.{strrev_lem}
use mpf_cker_os.Strings.Digits.{number, number_low_first, number-reversed}
use mpf_cker_os.Strings.Digits.{digit_value-digit_char, digit_char-ne-zero}

-- `m'` holds at `s` the `n` digits of `v`, the lowest first, and elsewhere what `m` holds
record HasDigits (m m' : Mem) (radix s n v : ℕ) : Type 0 where
  string : IsString m' s n
  value : number_low_first m' radix s n ≡ v
  empty : v ≡ 0 → n ≡ 0
  last : (v ≡ 0) ⊎ ((0 < n) × (m' (s + n - 1) ≢ 48))
  elsewhere : (q : ℕ) → (q < s) ⊎ (s + n < q) → m' q ≡ m q

pow_quotient : (k v r : ℕ) → v < r ^ suc k → v / r < r ^ k
pow_quotient k v r h =
    let step : r ^ suc k ≡ r ^ k * r = pow-suc r k in
    let most : v / r * r ≤ v = div-mul-le_self v r in
    let less : r ^ k ≤ v / r → r ^ k * r ≤ v / r * r = λ p. mul-le-mul_right r p in
    elim (dec_lt (v / r) (r ^ k)) [ yes p ↦ p | no p ↦ absurd (omega (arith, less (omega arith))) ]

itoa_digits-suc :
    (f : ℕ) (m : Mem) (s v r : ℕ)
    → 0 < v
    → itoa_digits (suc f) m s v r
      ≡ itoa_digits f (update m s (digit_char (v % r))) (s + 1) (v / r) r
unfolding itoa_digits
itoa_digits-suc f m s v r h = ground arith

module _ (radix : ℕ) (lo : 2 ≤ radix) (hi : radix ≤ 36) where
  HasDigits-cons :
      (m m' : Mem) (s n v : ℕ)
      → 0 < v
      → HasDigits (update m s (digit_char (v % radix))) m' radix (s + 1) n (v / radix)
      → HasDigits m m' radix s (suc n) v
  HasDigits-cons m m' s n v pos h =
      let low : v % radix < 36 = grind arith in
      let here : m' s ≡ digit_char (v % radix) = ground (arith, h.elsewhere s) in
      record {
        string = record {
          ends = ground (arith, h.string.ends);
          before =
              λ i p. ground (arith, digit_char-ne-zero (v % radix) low, h.string.before (i - 1));
        };
        value = ground (arith, digit_value-digit_char (v % radix) low, h.value);
        empty = λ e. absurd (omega arith);
        last =
            ground
              (arith, div-add-mod v radix, h.empty, digit_char-ne-zero (v % radix) low, h.last);
        elsewhere = λ q p. ground (arith, h.elsewhere q);
      }

  itoa_digits_lem :
      (f k : ℕ) (m : Mem) (s v : ℕ)
      → v < radix ^ k
      → k ≤ f
      → (m' : Mem) × (n : ℕ) × (itoa_digits (suc f) m s v radix ≡ some m')
        × (n ≤ k)
        × HasDigits m m' radix s n v
  unfolding itoa_digits
  itoa_digits_lem f k m s zero h fuel = (
    update m s 0,
    0,
    refl,
    omega arith,
    record {
      string = record { ends = ground arith; before = λ i p. absurd (omega arith) };
      value = refl;
      empty = λ e. refl;
      last = inl refl;
      elsewhere = λ q p. ground arith;
    },
  )
  itoa_digits_lem f zero m s (suc v) h fuel = absurd (omega (arith, pow-zero radix))
  itoa_digits_lem zero (suc k) m s (suc v) h fuel = absurd (omega arith)
  itoa_digits_lem (suc f) (suc k) m s (suc v) h fuel =
      let (m', n, e, fits, d) =
        itoa_digits_lem f k (update m s (digit_char (suc v % radix))) (s + 1) (suc v / radix)
          (pow_quotient k (suc v) radix h) (omega arith) in
      (
        m',
        suc n,
        itoa_digits-suc (suc f) m s (suc v) radix (omega arith) ∙ e,
        omega arith,
        HasDigits-cons m m' s n (suc v) (omega arith) d,
      )

-- what `itoa` has written at `buf`: the `n` digits of `value` in base `radix` as a string
pub record Printed (m m' : Mem) (radix buf n value : ℕ) : Type 0 where
  pub string : IsString m' buf n
  pub digits : number m' radix buf n ≡ value
  pub some_digit : 0 < n
  pub no_leading_zero : (value ≡ 0) ⊎ (m' buf ≢ 48)
  pub elsewhere : (q : ℕ) → (q < buf) ⊎ (buf + n < q) → m' q ≡ m q

module _ (radix : ℕ) (lo : 2 ≤ radix) (hi : radix ≤ 36) where
  itoa_pos :
      (f k : ℕ) (m : Mem) (value buf : ℕ)
      → 0 < value
      → value < radix ^ k
      → k ≤ f
      → (m' : Mem) × (n : ℕ) × (itoa (suc f) m value buf radix ≡ some m')
        × (n ≤ k)
        × Printed m m' radix buf n value
  unfolding itoa
  itoa_pos f k m v buf pos h fuel =
      let (m1, n, e, fits, d) = itoa_digits_lem radix lo hi f k m buf v h fuel in
      let (m2, e', at) = strrev_lem (suc f) m1 buf n d.string (omega arith) in
      (
        m2,
        n,
        ground (arith, e, e'),
        fits,
        record {
          string = record {
            ends = ground (arith, at (buf + n), d.string.ends);
            before = λ i p. ground (arith, at (buf + i), d.string.before (n - 1 - i));
          };
          digits =
              number-reversed m1 m2 radix buf buf n (λ i p. ground (arith, at (buf + i))) ∙ d.value;
          some_digit = ground (arith, d.last);
          no_leading_zero = ground (arith, at buf, d.last);
          elsewhere = λ q p. ground (arith, at q, d.elsewhere q);
        },
      )

  -- a value of at most `k` digits in the base, with fuel for them
  pub itoa_bounded :
      (f k : ℕ) (m : Mem) (value buf : ℕ)
      → value < radix ^ k
      → 0 < k
      → k ≤ f
      → (m' : Mem) × (n : ℕ) × (itoa (suc f) m value buf radix ≡ some m')
        × (n ≤ k)
        × Printed m m' radix buf n value
  unfolding itoa
  itoa_bounded f k m zero buf h pos fuel = (
    update (update m buf 48) (buf + 1) 0,
    1,
    refl,
    omega arith,
    record {
      string = record { ends = ground arith; before = λ i p. ground arith };
      digits = ground arith;
      some_digit = omega arith;
      no_leading_zero = inl refl;
      elsewhere = λ q p. ground arith;
    },
  )
  itoa_bounded f k m (suc v) buf h pos fuel = itoa_pos f k m (suc v) buf (omega arith) h fuel

  -- With fuel for the bits of the value, `itoa` ends, and leaves at `buf` a string of at least one
  -- and at most as many digits as the value has bits, which read in base `radix` give the value,
  -- with no leading zero. It writes nothing beyond the null byte.
  pub itoa_lem :
      (f : ℕ) (m : Mem) (value buf : ℕ)
      → value < 2 ^ suc f
      → (m' : Mem) × (n : ℕ) × (itoa (suc (suc f)) m value buf radix ≡ some m')
        × (n ≤ suc f)
        × Printed m m' radix buf n value
  itoa_lem f m value buf h =
      itoa_bounded (suc f) (suc f) m value buf (omega (arith, pow-le-pow_left lo (suc f)))
        (omega arith) (omega arith)
