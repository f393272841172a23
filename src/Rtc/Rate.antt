-- ===== src/Rtc/Rate.antt =====
-- The rate that `rtc_write` of student-distrib/rtc.c programs.
use mpf_cker_os.Base.{
  ℕ, ◌+◌, ◌-◌, ◌*◌, ◌/◌, ◌^◌, ◌≤◌, ◌<◌, bit_and, bit_or, ◌≡◌, refl, ap, ◌∙◌, ◌↔◌, true, false, ◌&&◌,
  ◌||◌, none, some, ◌∷◌, arith, ◌==◌, if◌then◌else◌, ==_iff, all_below, all_below_sound, minus_one,
}
use mpf_cker_os.Pic.{outb}
use mpf_cker_os.Rtc.{
  Rtc, is_rate, count_rate, clamp_rate, new_rate, rtc_write, rtc_close, rtc_open, init_rtc,
}

rate_table :
    all_below 10 (λ k. elim (new_rate (2 ^ (k + 1))) [
      | none ↦ false
      | some r ↦ (r == 14 - k) && (2 ^ (k + 1) * 2 ^ r == 2 ^ 15)
    ])
    ≡ true
unfolding all_below new_rate count_rate clamp_rate
rate_table = refl

-- the exponent of an accepted frequency
unfoldable pub exponent : ℕ → ℕ
exponent f =
    if f == 2
    then 1
    else if f == 4
    then 2
    else if f == 8
    then 3
    else if f == 16
    then 4
    else if f == 32
    then 5
    else if f == 64
    then 6
    else if f == 128
    then 7
    else if f == 256
    then 8
    else if f == 512
    then 9
    else 10

pub is_rate-eq-true :
    (f : ℕ) → is_rate f ≡ true → (0 < exponent f) × (exponent f ≤ 10) × (f ≡ 2 ^ exponent f)
unfolding is_rate exponent
is_rate-eq-true f h = ground arith

new_rate_lem : (k : ℕ) → k < 10 → new_rate (2 ^ (k + 1)) ≡ some (14 - k)
new_rate_lem k h = ground (arith, all_below_sound 10 _ k rate_table h)

product_table : all_below 10 (λ k. 2 ^ (k + 1) * 2 ^ (14 - k) == 2 ^ 15) ≡ true
unfolding all_below
product_table = refl

-- the low half of register A is replaced by the rate
nibble_table :
    all_below 256 (λ p. all_below 16 (λ r. bit_or (bit_and p 0xf0) r == p / 16 * 16 + r)) ≡ true
unfolding all_below
nibble_table = refl

nibble : (p r : ℕ) → p < 256 → r < 16 → bit_or (bit_and p 0xf0) r ≡ p / 16 * 16 + r
nibble p r hp hr =
    (==_iff _ _).0 (all_below_sound 16 _ r (all_below_sound 256 _ p nibble_table hp) hr)

-- `rtc_write` of an accepted frequency returns 0 and programs the rate `r` with
-- `frequency * 2 ^ r = 2 ^ 15`, between 5 and 14, keeping the high half of register A.
pub rtc_write_lem :
    (f prev : ℕ) (s : Rtc)
    → is_rate f ≡ true
    → prev < 256
    → (r : ℕ) × (f * 2 ^ r ≡ 2 ^ 15)
      × (5 ≤ r)
      × (r ≤ 14)
      × (rtc_write f prev s
          ≡ some (
            0,
            record s {
              rate = r;
              pic = record s.pic {
                ports = (prev / 16 * 16 + r, 0x71) ∷ (0x8a, 0x70) ∷ (0x8a, 0x70) ∷ s.pic.ports;
              };
            },
          ))
unfolding rtc_write outb
rtc_write_lem f prev s ok byte =
    let (pos, most, e) = is_rate-eq-true f ok in
    let k : ℕ = exponent f - 1 in
    let small : k < 10 = omega arith in
    let power : f ≡ 2 ^ (k + 1) = e ∙ ap (λ (n : ℕ). 2 ^ n) (omega arith) in
    let product : 2 ^ (k + 1) * 2 ^ (14 - k) ≡ 2 ^ 15 =
      (==_iff _ _).0 (all_below_sound 10 _ k product_table small) in
    (
      14 - k,
      rw (ap (λ (n : ℕ). n * 2 ^ (14 - k)) power) product,
      omega arith,
      omega arith,
      ground (arith, ap new_rate power, new_rate_lem k small, nibble prev (14 - k)),
    )

-- Any other frequency is refused with -1, and nothing changes.
pub rtc_write_refused :
    (f prev : ℕ) (s : Rtc) → is_rate f ≡ false → rtc_write f prev s ≡ some (minus_one, s)
unfolding rtc_write
rtc_write_refused f prev s h = ground arith

-- The frequencies that are accepted are the powers of two from 2 to 1024.
pub is_rate_iff : (f : ℕ) → (is_rate f ≡ true) ↔ ((k : ℕ) × (1 ≤ k) × (k ≤ 10) × (f ≡ 2 ^ k))
is_rate_iff f = (
  λ h. let (pos, most, e) = is_rate-eq-true f h in (exponent f, pos, most, e),
  λ (k, lo, hi, e). rw e (power_accepted k lo hi),
)
  where
    powers : all_below 11 (λ k. (k == 0) || is_rate (2 ^ k)) ≡ true
    powers = unfold all_below is_rate in refl

    power_accepted : (k : ℕ) → 1 ≤ k → k ≤ 10 → is_rate (2 ^ k) ≡ true
    power_accepted k lo hi = ground (arith, all_below_sound 11 _ k powers)

-- `rtc_close` leaves the clock and the controllers as they were: the frequency 0 that it writes is
-- one that `rtc_write` refuses.
pub rtc_close_lem : (a : ℕ) (s : Rtc) → rtc_close a s ≡ some (0, s)
unfolding rtc_close rtc_write is_rate
rtc_close_lem a s = refl

-- `rtc_open` unmasks the interrupt line of the clock, returns 0 and programs the rate 14.
pub rtc_open_lem :
    (b a : ℕ) (s : Rtc)
    → a < 256
    → rtc_open b a s
      ≡ some (
        0,
        record (init_rtc b s) {
          rate = 14;
          pic = record (init_rtc b s).pic {
            ports =
                (a / 16 * 16 + 14, 0x71) ∷ (0x8a, 0x70) ∷ (0x8a, 0x70) ∷ (init_rtc b s).pic.ports;
          };
        },
      )
unfolding rtc_open rtc_write is_rate outb
rtc_open_lem b a s h = ground (arith, new_rate_lem 0 (omega arith), nibble a 14 h (omega arith))
