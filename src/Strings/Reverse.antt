-- ===== src/Strings/Reverse.antt =====
-- `strrev` of student-distrib/lib.c reverses in place.
use mpf_cker_os.Base.{
  ℕ, zero, suc, ◌+◌, ◌-◌, ◌≤◌, ◌<◌, ◌≡◌, sym, ap₂, ◌∙◌, inl, inr, ◌&&◌, some, arith, ltb, leb, ◌==◌,
  if◌then◌else◌, Bool-cases, Mem, inside,
}
use mpf_cker_os.Strings.{swap, swap_ends, reverse_block, strrev}
use mpf_cker_os.Strings.Length.{IsString, strlen-eq-some}

swap_lem :
    (m : Mem) (lo hi q : ℕ)
    → swap m lo hi q ≡ (if q == lo then m hi else if q == hi then m lo else m q)
unfolding swap
swap_lem m lo hi q = ground arith

abbrev mirrored : Mem → ℕ → ℕ → ℕ → ℕ
mirrored m lo hi q = if leb lo q && leb q hi then m (lo + hi - q) else m q

mirrored-swap :
    (m : Mem) (lo hi q : ℕ)
    → lo < hi
    → mirrored (swap m lo hi) (lo + 1) (hi - 1) q ≡ mirrored m lo hi q
mirrored-swap m lo hi q h =
    ground (arith, swap_lem m lo hi q, swap_lem m lo hi (lo + 1 + (hi - 1) - q))

mirrored_refl : (m : Mem) (lo hi q : ℕ) → hi ≤ lo → mirrored m lo hi q ≡ m q
mirrored_refl m lo hi q h = ground arith

mirrored_shift :
    (m : Mem) (s beg end q : ℕ)
    → beg < end
    → mirrored m (s + (beg + 1)) (s + (end - 1)) q ≡ mirrored m (s + beg + 1) (s + end - 1) q
mirrored_shift m s beg end q h = ap₂ (λ a b. mirrored m a b q) (omega arith) (omega arith)

swap_ends_lem :
    (f : ℕ) (m : Mem) (s beg end q : ℕ)
    → end < beg + f
    → swap_ends f m s beg end q ≡ mirrored m (s + beg) (s + end) q
unfolding swap_ends
swap_ends_lem zero m s beg end q h = sym (mirrored_refl m (s + beg) (s + end) q (omega arith))
swap_ends_lem (suc f) m s beg end q h = elim (Bool-cases (ltb beg end)) [
  | inl lt ↦ rw lt (
      swap_ends_lem f (swap m (s + beg) (s + end)) s (beg + 1) (end - 1) q (ground arith)
      ∙ mirrored_shift (swap m (s + beg) (s + end)) s beg end q (ground arith)
      ∙ mirrored-swap m (s + beg) (s + end) q (ground arith))
  | inr ge ↦ rw ge (sym (mirrored_refl m (s + beg) (s + end) q (ground arith)))
]

pub reverse_block_lem :
    (m : Mem) (s n q : ℕ)
    → reverse_block m s n q ≡ (if inside s n q then m (s + s + n - 1 - q) else m q)
unfolding reverse_block
reverse_block_lem m s zero q = ground arith
reverse_block_lem m s (suc n) q = ground (arith, swap_ends_lem (suc n) m s 0 n q)

-- `strrev` returns with the bytes of the string in reverse order, its null byte and all other memory
-- as they were.
pub strrev_lem :
    (f : ℕ) (m : Mem) (s n : ℕ)
    → IsString m s n
    → n < f
    → (m' : Mem) × (strrev f m s ≡ some m')
      × ((q : ℕ) → m' q ≡ (if inside s n q then m (s + s + n - 1 - q) else m q))
unfolding strrev
strrev_lem f m s n h p =
    (reverse_block m s n, ground (arith, strlen-eq-some f m s n h p), reverse_block_lem m s n)
