-- ===== src/Pic/Masks.antt =====
-- Which interrupt lines are masked after an operation of student-distrib/i8259.c.
use mpf_cker_os.Base.{
  ℕ, ◌+◌, ◌-◌, ◌/◌, ◌%◌, ◌^◌, ◌≤◌, ◌<◌, bit_and, bit_or, ◌≡◌, refl, true, ◌||◌, ◌∷◌, arith, leb,
  ◌==◌, if◌then◌else◌, ==_iff, all_below, all_below_sound, u8,
}
use mpf_cker_os.Pic.{Pic, not32, enable_irq, disable_irq, send_eoi}

-- 1 if the interrupt line `i` is masked
abbrev pub masked : Pic → ℕ → ℕ
masked p i = if leb 8 i then p.slave_mask / 2 ^ (i - 8) % 2 else p.master_mask / 2 ^ i % 2

pub record IsByteMasks (p : Pic) : Type 0 where
  pub master : p.master_mask < 256
  pub slave : p.slave_mask < 256

-- the bit `i` of a byte after the bit `k` has been cleared or set
clear_table :
    all_below 256 (λ m. all_below 8 (λ k.
      all_below 8
        (λ i. u8 (bit_and m (not32 (2 ^ k))) / 2 ^ i % 2 == (if i == k then 0 else m / 2 ^ i % 2))))
    ≡ true
unfolding all_below
clear_table = refl

set_table :
    all_below 256 (λ m. all_below 8 (λ k.
      all_below 8
        (λ i. u8 (bit_or m (2 ^ k)) / 2 ^ i % 2 == (if i == k then 1 else m / 2 ^ i % 2))))
    ≡ true
unfolding all_below
set_table = refl

wide_table : all_below 256 (λ m. all_below 8 (λ k. u8 (bit_or m (2 ^ (k + 8))) == m)) ≡ true
unfolding all_below
wide_table = refl

eoi_table : all_below 8 (λ k. bit_or 0x60 k == 0x60 + k) ≡ true
unfolding all_below
eoi_table = refl

clear_bit :
    (m k i : ℕ)
    → m < 256
    → k < 8
    → i < 8
    → u8 (bit_and m (not32 (2 ^ k))) / 2 ^ i % 2 ≡ (if i == k then 0 else m / 2 ^ i % 2)
clear_bit m k i hm hk hi =
    let by_mask = all_below_sound 256 _ m clear_table hm in
    let by_line = all_below_sound 8 _ k by_mask hk in
    (==_iff _ _).0 (all_below_sound 8 _ i by_line hi)

set_bit :
    (m k i : ℕ)
    → m < 256
    → k < 8
    → i < 8
    → u8 (bit_or m (2 ^ k)) / 2 ^ i % 2 ≡ (if i == k then 1 else m / 2 ^ i % 2)
set_bit m k i hm hk hi =
    let by_mask = all_below_sound 256 _ m set_table hm in
    let by_line = all_below_sound 8 _ k by_mask hk in
    (==_iff _ _).0 (all_below_sound 8 _ i by_line hi)

set_wide : (m k : ℕ) → m < 256 → k < 8 → u8 (bit_or m (2 ^ (k + 8))) ≡ m
set_wide m k hm hk =
    let by_mask = all_below_sound 256 _ m wide_table hm in
    (==_iff _ _).0 (all_below_sound 8 _ k by_mask hk)

-- `enable_irq` unmasks its line and no other, for each of the 16 lines.
pub enable_irq_lem :
    (irq i : ℕ) {p : Pic}
    → irq < 16
    → i < 16
    → IsByteMasks p
    → masked (enable_irq irq p) i ≡ (if i == irq then 0 else masked p i)
unfolding enable_irq
enable_irq_lem irq i {p} h k v = ground (
  arith,
  clear_bit p.master_mask irq i v.master,
  clear_bit p.slave_mask (irq - 8) (i - 8) v.slave,
)

pub enable_irq-IsByteMasks : (irq : ℕ) {p : Pic} → IsByteMasks p → IsByteMasks (enable_irq irq p)
unfolding enable_irq
enable_irq-IsByteMasks irq v = ground arith

-- `disable_irq` of a line below 8 masks it, and masks the line 8 above it too; the other lines keep
-- their state.
pub disable_irq_low :
    (irq i : ℕ) {p : Pic}
    → irq < 8
    → i < 16
    → IsByteMasks p
    → masked (disable_irq irq p) i ≡ (if (i == irq) || (i == irq + 8) then 1 else masked p i)
unfolding disable_irq
disable_irq_low irq i {p} h k v =
    ground (arith, set_bit p.master_mask irq i v.master, set_bit p.slave_mask irq (i - 8) v.slave)

-- `disable_irq` of a line of the second controller leaves every mask as it was.
pub disable_irq_high :
    (irq i : ℕ) {p : Pic}
    → 8 ≤ irq
    → irq < 16
    → IsByteMasks p
    → masked (disable_irq irq p) i ≡ masked p i
unfolding disable_irq
disable_irq_high irq i {p} h k v =
    ground
      (arith, set_wide p.master_mask (irq - 8) v.master, set_wide p.slave_mask (irq - 8) v.slave)

-- `send_eoi` acknowledges a line of the first controller there, and a line of the second one at both,
-- the second first; the first is told its line 2.
pub send_eoi_lem :
    (irq : ℕ) (p : Pic)
    → irq < 16
    → (send_eoi irq p).ports ≡ (
        if leb 8 irq
        then (0x62, 0x20) ∷ (0x58 + irq, 0xa0) ∷ p.ports
        else (0x60 + irq, 0x20) ∷ p.ports)
unfolding send_eoi
send_eoi_lem irq p h = ground (
  arith,
  λ (k : irq < 8). (==_iff _ _).0 (all_below_sound 8 _ irq eoi_table k),
  λ (k : irq - 8 < 8). (==_iff _ _).0 (all_below_sound 8 _ (irq - 8) eoi_table k),
)
