-- ===== src/User/Itoa.antt =====
-- `ece391_itoa` and `ece391_strrev` of syscalls/ece391support.c compute what the kernel's `itoa` and `strrev`
-- do.
use mpf_cker_os.Base.{
  ℕ, zero, suc, ◌+◌, ◌-◌, ◌/◌, ◌%◌, ◌≡◌, refl, ap, inl, inr, arith, leb, if◌then◌else◌, Mem, update,
  Option-cases,
}
use mpf_cker_os.Strings.{swap_ends, reverse_block, strlen, strrev, itoa_digits, itoa, digit_char}
use mpf_cker_os.User.{ece391_strrev, ece391_itoa_digits, ece391_itoa}
use mpf_cker_os.User.Library.{ece391_strlen-strlen}

swap_ends_none : (m : Mem) (s : ℕ) → swap_ends 1 m s 0 0 ≡ m
unfolding swap_ends
swap_ends_none m s = ground arith

reverse_same :
    (m : Mem) (s len : ℕ)
    → (if leb len 1 then m else swap_ends len m s 0 (len - 1)) ≡ reverse_block m s len
unfolding reverse_block
reverse_same m s zero = ground arith
reverse_same m s (suc zero) = ground (arith, swap_ends_none m s)
reverse_same m s (suc (suc n)) =
    let last : suc (suc n) - 1 ≡ suc n = omega arith in
    ground (arith, ap (λ k. swap_ends (suc (suc n)) m s 0 k) last)

pub ece391_strrev-strrev : (f : ℕ) (m : Mem) (s : ℕ) → ece391_strrev f m s ≡ strrev f m s
unfolding ece391_strrev strrev
ece391_strrev-strrev f m s = elim (Option-cases (strlen f m s)) [
  | inl n ↦ ground (arith, ece391_strlen-strlen f m s)
  | inr (len, e) ↦ ground (arith, ece391_strlen-strlen f m s, reverse_same m s len)
]

digits_same :
    (f : ℕ) (m : Mem) (p v radix : ℕ) → ece391_itoa_digits f m p v radix ≡ itoa_digits f m p v radix
unfolding ece391_itoa_digits itoa_digits
digits_same zero m p v radix = refl
digits_same (suc f) m p v radix =
    ground (arith, digits_same f (update m p (digit_char (v % radix))) (p + 1) (v / radix) radix)

-- `ece391_itoa` gives the memory that the kernel's `itoa` gives, and ends when it ends.
pub ece391_itoa-itoa :
    (f : ℕ) (m : Mem) (value buf radix : ℕ)
    → ece391_itoa f m value buf radix ≡ itoa f m value buf radix
unfolding ece391_itoa itoa
ece391_itoa-itoa f m v buf radix = elim (Option-cases (itoa_digits f m buf v radix)) [
  | inl n ↦ ground (arith, digits_same f m buf v radix)
  | inr (m', e) ↦ ground (arith, digits_same f m buf v radix, ece391_strrev-strrev f m' buf)
]
