-- ===== src/Strings/Compare.antt =====
-- `strncmp` of student-distrib/lib.c decides whether two strings agree on their first bytes.
use mpf_cker_os.Base.{ℕ, zero, suc, ◌+◌, ◌≤◌, ◌<◌, ◌≡◌, ◌↔◌, refl, arith, Mem}
use mpf_cker_os.Strings.{strncmp_from, strncmp}
use mpf_cker_os.Strings.Length.{IsString}

module _ (m : Mem) (bytes : (q : ℕ) → m q < 256) (s1 s2 a : ℕ) (str : IsString m s1 a) where
  agree-of-zero :
      (i n : ℕ)
      → i ≤ a
      → strncmp_from m s1 s2 i n ≡ 0
      → (j : ℕ) → i ≤ j
      → j < i + n
      → j ≤ a
      → m (s1 + j) ≡ m (s2 + j)
  unfolding strncmp_from
  agree-of-zero i zero p e j lo hi end = absurd (omega arith)
  agree-of-zero i (suc n) p e j lo hi end = ground (
    arith,
    bytes (s1 + i),
    bytes (s2 + i),
    str.ends,
    str.before i,
    λ (q : i < a) (z : strncmp_from m s1 s2 (i + 1) n ≡ 0) (l : i < j).
        agree-of-zero (i + 1) n (omega arith) z j (omega arith) (omega arith) end,
  )

  zero-of-agree :
      (i n : ℕ)
      → i ≤ a
      → ((j : ℕ) → i ≤ j → j < i + n → j ≤ a → m (s1 + j) ≡ m (s2 + j))
      → strncmp_from m s1 s2 i n ≡ 0
  unfolding strncmp_from
  zero-of-agree i zero p h = refl
  zero-of-agree i (suc n) p h = ground (
    arith,
    bytes (s1 + i),
    bytes (s2 + i),
    str.before i,
    str.ends,
    h i,
    λ (q : i < a).
        zero-of-agree (i + 1) n (omega arith) (λ j lo hi end. h j (omega arith) (omega arith) end),
  )

  -- `strncmp` on `n` bytes is 0 exactly when the second string agrees with the first one on its
  -- bytes below `n`, the null byte included.
  pub strncmp-eq-zero :
      (n : ℕ) → (strncmp m s1 s2 n ≡ 0) ↔ ((j : ℕ) → j < n → j ≤ a → m (s1 + j) ≡ m (s2 + j))
  unfolding strncmp
  strncmp-eq-zero n = (
    λ e j hi end. agree-of-zero 0 n (omega arith) e j (omega arith) (omega arith) end,
    λ h. zero-of-agree 0 n (omega arith) (λ j lo hi end. h j (omega arith) end),
  )
