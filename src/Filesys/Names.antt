-- ===== src/Filesys/Names.antt =====
-- When a directory entry of student-distrib/filesys.c has the name that is looked for.
use mpf_cker_os.Base.{
  ℕ, zero, suc, ◌+◌, ◌≤◌, ◌<◌, ◌≡◌, refl, ◌≢◌, ◌↔◌, ◌⊎◌, inl, inr, true, ◌||◌, arith, ◌==◌,
  Bool-cases, Mem,
}
use mpf_cker_os.Filesys.{match_name}

-- The name at `a` and the string at `fname` agree up to a null byte in both, or on 32 bytes.
pub record SameName (m : Mem) (a fname : ℕ) : Type 0 where
  pub last : ℕ
  pub fits : last ≤ 31
  pub agree : (j : ℕ) → j ≤ last → m (a + j) ≡ m (fname + j)
  pub inner : (j : ℕ) → j < last → m (a + j) ≢ 0
  pub ends : (m (a + last) ≡ 0) ⊎ (last ≡ 31)

module _ (m : Mem) (a fname : ℕ) where
  match_name_sound :
      (c left : ℕ)
      → c + left ≡ 32
      → ((j : ℕ) → j < c → m (a + j) ≡ m (fname + j))
      → ((j : ℕ) → j < c → m (a + j) ≢ 0)
      → match_name m a fname c left ≡ true
      → SameName m a fname
  unfolding match_name
  match_name_sound c zero e same inner h = absurd (ground arith)
  match_name_sound c (suc left) e same inner h =
      let here : m (a + c) ≡ m (fname + c) = ground arith in
      elim (Bool-cases ((m (a + c) == 0) || (c == 31))) [
        | inl stop ↦ record {
          last = c;
          fits = omega arith;
          agree = λ j l. ground (arith, same j);
          inner = inner;
          ends = ground arith;
        }
        | inr more ↦
            match_name_sound (c + 1) left (omega arith) (λ j l. ground (arith, same j))
              (λ j l. ground (arith, inner j)) (ground arith)
      ]

  match_name_complete :
      (c left : ℕ)
      → c + left ≡ 32
      → (s : SameName m a fname) → c ≤ s.last
      → match_name m a fname c left ≡ true
  unfolding match_name
  match_name_complete c zero e s h = absurd (omega (arith, s.fits))
  match_name_complete c (suc left) e s h = elim (Bool-cases ((m (a + c) == 0) || (c == 31))) [
    | inl stop ↦ ground (arith, s.agree c h)
    | inr more ↦
        ground (arith, s.agree c h, s.ends, match_name_complete (c + 1) left (omega arith) s)
  ]

  -- The inner loop of `read_dentry_by_name` decides whether the names are the same.
  pub match_name_iff : (match_name m a fname 0 32 ≡ true) ↔ SameName m a fname
  match_name_iff = (
    match_name_sound 0 32 refl (λ j l. absurd (omega arith)) (λ j l. absurd (omega arith)),
    λ s. match_name_complete 0 32 refl s (omega arith),
  )
