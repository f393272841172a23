-- ===== src/Filesys/Lookup.antt =====
-- Looking up a directory entry, student-distrib/filesys.c.
use mpf_cker_os.Base.{
  ℕ, zero, suc, ◌+◌, ◌≤◌, ◌<◌, ◌≡◌, refl, subst, inl, inr, true, false, Option, none, some, arith,
  Bool-cases, Mem, ℕ_discrete,
}
use mpf_cker_os.Filesys.{Filesys, Dentry, match_name, find_dentry, read_dentry_by_name, dentry_addr}
use mpf_cker_os.Filesys.{copy_dentry}
use mpf_cker_os.Filesys.Names.{SameName, match_name_iff}

-- what a lookup has found among the entries from `lo` up to `hi`
pub data Found (m : Mem) (fs : Filesys) (fname lo hi : ℕ) : Option Dentry → Type 0 where
  first :
      (i : ℕ)
      → lo ≤ i
      → i < hi
      → SameName m (dentry_addr fs i) fname
      → ((j : ℕ) → lo ≤ j → j < i → ¬ SameName m (dentry_addr fs j) fname)
      → Found m fs fname lo hi (some (copy_dentry m (dentry_addr fs i)))
  missing :
      ((j : ℕ) → lo ≤ j → j < hi → ¬ SameName m (dentry_addr fs j) fname)
      → Found m fs fname lo hi none

module _ (m : Mem) (fs : Filesys) (fname : ℕ) where
  abbrev IsSame : ℕ → Type 0
  IsSame j = SameName m (dentry_addr fs j) fname

  not-IsSame : (i : ℕ) → match_name m (dentry_addr fs i) fname 0 32 ≡ false → ¬ IsSame i
  not-IsSame i h s =
      let t : match_name m (dentry_addr fs i) fname 0 32 ≡ true =
        (match_name_iff m (dentry_addr fs i) fname).1 s in
      cc

  -- a lookup that skips the first entry
  Found-skip :
      (lo hi : ℕ) {r : Option Dentry}
      → ¬ IsSame lo
      → Found m fs fname (lo + 1) hi r
      → Found m fs fname lo hi r
  Found-skip lo hi no_match (first i p q s before) = first i (omega arith) q s (λ j l u t.
      elim (ℕ_discrete j lo) [
        | yes e ↦ no_match (subst IsSame e t)
        | no ne ↦ before j (omega arith) u t
      ])
  Found-skip lo hi no_match (missing none_of) = missing (λ j l u t. elim (ℕ_discrete j lo) [
    | yes e ↦ no_match (subst IsSame e t)
    | no ne ↦ none_of j (omega arith) u t
  ])

  find_dentry-Found :
      (i left hi : ℕ) → i + left ≡ hi → Found m fs fname i hi (find_dentry m fs fname i left)
  unfolding find_dentry
  find_dentry-Found i zero hi e = missing (λ j l u t. absurd (omega arith))
  find_dentry-Found i (suc left) hi e =
      elim (Bool-cases (match_name m (dentry_addr fs i) fname 0 32)) [
        | inl yes_match ↦ rw yes_match (
            first i (omega arith) (omega arith)
              ((match_name_iff m (dentry_addr fs i) fname).0 yes_match)
              (λ j l u t. absurd (omega arith)))
        | inr no_match ↦ rw no_match (
            Found-skip i hi (not-IsSame i no_match)
              (find_dentry-Found (i + 1) left hi (omega arith)))
      ]

  -- `read_dentry_by_name` finds the first of the 64 entries that has the name, and fails exactly when
  -- none has it.
  pub read_dentry_by_name-Found : Found m fs fname 0 64 (read_dentry_by_name m fs fname)
  unfolding read_dentry_by_name
  read_dentry_by_name-Found = find_dentry-Found 0 64 64 refl
