-- ===== src/User/Search.antt =====
-- When grep of syscalls/ece391grep.c finds its string in a line.
use mpf_cker_os.Base.{
  ℕ, zero, suc, ◌+◌, ◌-◌, ◌≤◌, ◌<◌, ◌≡◌, refl, ◌≢◌, ◌↔◌, inl, inr, true, ◌&&◌, arith, ltb, ◌==◌,
  Bool-cases, Mem, ℕ_discrete, dec_lt,
}
use mpf_cker_os.Strings.Length.{IsString}
use mpf_cker_os.User.{ece391_strncmp}
use mpf_cker_os.User.Grep.{finds}

-- the first `n` bytes of two strings agree
Agree : Mem → ℕ → Mem → ℕ → ℕ → Type 0
Agree m s1 m' s2 n = (j : ℕ) → j < n → m (s1 + j) ≡ m' (s2 + j)

-- `s` occurs at `check` in the line of `left` bytes from `start` on
pub record Occurs (s : Mem) (n : ℕ) (buf : Mem) (start left : ℕ) : Type 0 where
  pub check : ℕ
  pub from : start ≤ check
  pub within : check + n ≤ start + left
  pub agrees : (j : ℕ) → j < n → buf (check + j) ≡ s j

module _ (m m' : Mem) (bytes : (q : ℕ) → m q < 256) (bytes' : (q : ℕ) → m' q < 256) where
  strncmp-Agree :
      (s1 s2 n : ℕ)
      → ((j : ℕ) → j < n → m' (s2 + j) ≢ 0)
      → (ece391_strncmp m s1 m' s2 n ≡ 0) ↔ Agree m s1 m' s2 n
  unfolding ece391_strncmp Agree
  strncmp-Agree s1 s2 zero h = (λ z j p. absurd (omega arith), λ a. refl)
  strncmp-Agree s1 s2 (suc n) h =
      let (to, from) = strncmp-Agree (s1 + 1) (s2 + 1) n (λ j p. ground (arith, h (suc j))) in
      (
        λ z j p.
            let first : m s1 ≡ m' s2 = ground (arith, z, bytes s1, bytes' s2) in
            let rest : 0 < n → ece391_strncmp m (s1 + 1) m' (s2 + 1) n ≡ 0 =
              λ k. ground (arith, z, first, h 0) in
            elim (dec_lt 0 j) [
              | no start ↦ ground (arith, first)
              | yes more ↦ ground (arith, to (rest (omega arith)) (j - 1))
            ],
        λ a.
            let tail : ece391_strncmp m (s1 + 1) m' (s2 + 1) n ≡ 0 =
              from (λ j p. ground (arith, a (suc j))) in
            ground (arith, a 0, tail),
      )

-- a place where the loop stops
finds_stops :
    (s : Mem) (n : ℕ) (buf : Mem) (check left : ℕ)
    → finds s n buf check left ≡ true
    → (k : ℕ) × (check ≤ k) × (k < check + left) × (ece391_strncmp buf k s 0 n ≡ 0) × (s 0 < 128)
unfolding finds
finds_stops s n buf check zero e = absurd (ground (arith, e))
finds_stops s n buf check (suc left) e =
    elim (Bool-cases
      (ltb (s 0) 128 && (s 0 == buf check) && (ece391_strncmp buf check s 0 n == 0))) [
        | inl here ↦ (check, omega arith, omega arith, ground (arith, here), ground (arith, here))
        | inr past ↦
            let (k, lo, hi, z, low) =
              finds_stops s n buf (check + 1) left (ground (arith, e, past)) in
            (k, omega arith, omega arith, z, low)
      ]

finds_at :
    (s : Mem) (n : ℕ) (buf : Mem) (check left k : ℕ)
    → check ≤ k
    → k < check + left
    → s 0 ≡ buf k
    → ece391_strncmp buf k s 0 n ≡ 0
    → s 0 < 128
    → finds s n buf check left ≡ true
unfolding finds
finds_at s n buf check zero k lo hi e z low = absurd (omega arith)
finds_at s n buf check (suc left) k lo hi e z low = elim (ℕ_discrete check k) [
  | yes here ↦ ground (arith, here, e, z, low)
  | no past ↦
      ground (arith, finds_at s n buf (check + 1) left k (omega arith) (omega arith) e z low)
]

-- The loop of grep over a line, a string of `left` bytes, finds a string of `n` bytes, at least one, exactly
-- when its first byte is below 128 and it occurs in the line.
pub finds-Occurs :
    (s buf : Mem) (n start left : ℕ)
    → ((q : ℕ) → s q < 256)
    → ((q : ℕ) → buf q < 256)
    → IsString s 0 n
    → 0 < n
    → IsString buf start left
    → (finds s n buf start left ≡ true) ↔ ((s 0 < 128) × Occurs s n buf start left)
unfolding Agree
finds-Occurs s buf n start left bytes bytes' string some_bytes line =
    let nonzero : (j : ℕ) → j < n → s (0 + j) ≢ 0 = string.before in
    (
      λ e.
          let (k, lo, hi, z, low) = finds_stops s n buf start left e in
          let same = (strncmp-Agree buf s bytes' bytes k 0 n nonzero).0 z in
          (
            low,
            record {
              check = k;
              from = lo;
              within = elim (dec_lt (start + left - k) n) [
                | yes p ↦ absurd (
                    ground
                      (arith, same (start + left - k) p, nonzero (start + left - k) p, line.ends))
                | no p ↦ omega arith
              ];
              agrees = λ j p. ground (arith, same j p);
            },
          ),
      λ (low, o).
          finds_at s n buf start left o.check o.from (omega (arith, o.within))
            (ground (arith, o.agrees 0))
            ((strncmp-Agree buf s bytes' bytes o.check 0 n nonzero).1
              (λ j p. ground (arith, o.agrees j p)))
            low,
    )
