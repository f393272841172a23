-- ===== src/User/Library.antt =====
-- The string functions of syscalls/ece391support.c on strings.
use mpf_cker_os.Base.{
  ℕ, zero, suc, ◌+◌, ◌-◌, ◌<◌, ◌≡◌, refl, ap, ◌∙◌, ◌≢◌, ◌↔◌, some, arith, ◌==◌, if◌then◌else◌,
  sub32, Mem, ℕ_discrete,
}
use mpf_cker_os.Strings.{strlen_from, strlen, strncmp_from, strncmp}
use mpf_cker_os.Strings.Length.{IsString}
use mpf_cker_os.User.{ece391_strlen_from, ece391_strlen, ece391_strcmp, ece391_strncmp}

strlen_from_same :
    (f : ℕ) (m : Mem) (s len : ℕ) → ece391_strlen_from f m (s + len) len ≡ strlen_from f m s len
unfolding ece391_strlen_from strlen_from
strlen_from_same zero m s len = refl
strlen_from_same (suc f) m s len =
    let shifted : ece391_strlen_from f m (s + len + 1) (len + 1) ≡ strlen_from f m s (len + 1) =
      ap (λ a. ece391_strlen_from f m a (len + 1)) (omega arith)
      ∙ strlen_from_same f m s (len + 1) in
    ap (λ r. if m (s + len) == 0 then some len else r) shifted

-- `ece391_strlen` is the kernel's `strlen`.
pub ece391_strlen-strlen : (f : ℕ) (m : Mem) (s : ℕ) → ece391_strlen f m s ≡ strlen f m s
unfolding ece391_strlen strlen
ece391_strlen-strlen f m s =
    ap (λ a. ece391_strlen_from f m a 0) (omega arith) ∙ strlen_from_same f m s 0

IsString-tail : {m : Mem} {s n : ℕ} → IsString m s (suc n) → IsString m (s + 1) n
IsString-tail h = record {
  ends = ground (arith, h.ends);
  before = λ i p. ground (arith, h.before (suc i));
}

-- two strings are the same: as long, with the same bytes
abbrev pub SameString : Mem → ℕ → ℕ → Mem → ℕ → ℕ → Type 0
SameString m s1 a m' s2 b = (a ≡ b) × ((i : ℕ) → i < a → m (s1 + i) ≡ m' (s2 + i))

module _ (m m' : Mem) (bytes : (q : ℕ) → m q < 256) (bytes' : (q : ℕ) → m' q < 256) where
  SameString-first :
      (s1 a s2 b : ℕ)
      → IsString m s1 a
      → IsString m' s2 b
      → SameString m s1 a m' s2 b
      → m s1 ≡ m' s2
  SameString-first s1 zero s2 b h h' (e, same) = ground (arith, h.ends, h'.ends)
  SameString-first s1 (suc a) s2 b h h' (e, same) = ground (arith, same 0)

  SameString-tail :
      (s1 a s2 b : ℕ)
      → m s1 ≡ m' s2
      → SameString m (s1 + 1) a m' (s2 + 1) b ↔ SameString m s1 (suc a) m' s2 (suc b)
  SameString-tail s1 a s2 b first = (
    λ (e, same). (omega arith, λ i p. ground (arith, first, same (i - 1))),
    λ (e, same). (omega arith, λ i p. ground (arith, same (suc i))),
  )

  strcmp_differs :
      (f s1 a s2 b : ℕ)
      → IsString m s1 a
      → IsString m' s2 b
      → m s1 ≢ m' s2
      → (r : ℕ) × (ece391_strcmp (suc f) m s1 m' s2 ≡ some r)
        × ((r ≡ 0) ↔ SameString m s1 a m' s2 b)
  unfolding ece391_strcmp
  strcmp_differs f s1 a s2 b h h' differ = (
    sub32 (m s1) (m' s2),
    ground arith,
    (
      λ z. absurd (ground (arith, bytes s1, bytes' s2)),
      λ same. absurd (differ (SameString-first s1 a s2 b h h' same)),
    ),
  )

  -- With fuel beyond the length of the first string, `ece391_strcmp` ends, and it gives 0 exactly when
  -- the two strings are as long as each other and have the same bytes.
  pub ece391_strcmp_lem :
      (f s1 a s2 b : ℕ)
      → IsString m s1 a
      → IsString m' s2 b
      → a < f
      → (r : ℕ) × (ece391_strcmp f m s1 m' s2 ≡ some r) × ((r ≡ 0) ↔ SameString m s1 a m' s2 b)
  unfolding ece391_strcmp
  ece391_strcmp_lem zero s1 a s2 b h h' fuel = absurd (omega arith)
  ece391_strcmp_lem (suc f) s1 zero s2 zero h h' fuel =
      (0, ground (arith, h.ends, h'.ends), (λ z. (refl, λ i p. absurd (omega arith)), λ same. refl))
  ece391_strcmp_lem (suc f) s1 zero s2 (suc b) h h' fuel =
      strcmp_differs f s1 zero s2 (suc b) h h' (ground (arith, h.ends, h'.before 0))
  ece391_strcmp_lem (suc f) s1 (suc a) s2 zero h h' fuel =
      strcmp_differs f s1 (suc a) s2 zero h h' (ground (arith, h.before 0, h'.ends))
  ece391_strcmp_lem (suc f) s1 (suc a) s2 (suc b) h h' fuel = elim (ℕ_discrete (m s1) (m' s2)) [
    | no other ↦ strcmp_differs f s1 (suc a) s2 (suc b) h h' other
    | yes first ↦
        let (r, e, zero_iff) =
          ece391_strcmp_lem f (s1 + 1) a (s2 + 1) b (IsString-tail h) (IsString-tail h')
            (omega arith) in
        let tail = SameString-tail s1 a s2 b first in
        (
          r,
          ground (arith, h.before 0, e, first),
          (λ z. tail.0 (zero_iff.0 z), λ same. zero_iff.1 (tail.1 same)),
        )
  ]

module _ (m : Mem) (bytes : (q : ℕ) → m q < 256) (s1 s2 : ℕ) where
  strncmp_same :
      (n i : ℕ) → (ece391_strncmp m (s1 + i) m (s2 + i) n ≡ 0) ↔ (strncmp_from m s1 s2 i n ≡ 0)
  unfolding ece391_strncmp strncmp_from
  strncmp_same zero i = (λ z. z, λ z. z)
  strncmp_same (suc zero) i = ground (arith, bytes (s1 + i), bytes (s2 + i))
  strncmp_same (suc (suc n)) i =
      let (to, from) = strncmp_same (suc n) (i + 1) in
      ground (arith, bytes (s1 + i), bytes (s2 + i), to, from)

  -- `ece391_strncmp` on `n` bytes is 0 exactly when the kernel's `strncmp` is, although the one takes
  -- bytes as unsigned and the other as signed.
  pub ece391_strncmp-strncmp : (n : ℕ) → (ece391_strncmp m s1 m s2 n ≡ 0) ↔ (strncmp m s1 s2 n ≡ 0)
  unfolding strncmp
  ece391_strncmp-strncmp n = ground (arith, strncmp_same n 0)
