-- ===== src/Strings/Length.antt =====
-- `strlen` of student-distrib/lib.c finds the null byte.
use mpf_cker_os.Base.{ℕ, zero, suc, ◌+◌, ◌≤◌, ◌<◌, ◌≡◌, ◌≢◌, arith, some}
use mpf_cker_os.Base.{Mem, ◌==◌, Bool-cases, inl, inr}
use mpf_cker_os.Strings.{strlen_from, strlen}

-- the string at `s` has `n` bytes before its null byte
pub record IsString (m : Mem) (s n : ℕ) : Type 0 where
  pub ends : m (s + n) ≡ 0
  pub before : (i : ℕ) → i < n → m (s + i) ≢ 0

strlen_from-eq-some :
    (f : ℕ) (m : Mem) (s n len : ℕ)
    → IsString m s n
    → len ≤ n
    → n < len + f
    → strlen_from f m s len ≡ some n
unfolding strlen_from
strlen_from-eq-some zero m s n len h p q = absurd (omega arith)
strlen_from-eq-some (suc f) m s n len h p q =
    ground (arith, h.before len, strlen_from-eq-some f m s n (len + 1) h)

-- With fuel beyond its length, `strlen` returns the length of a string.
pub strlen-eq-some : (f : ℕ) (m : Mem) (s n : ℕ) → IsString m s n → n < f → strlen f m s ≡ some n
unfolding strlen
strlen-eq-some f m s n h p = strlen_from-eq-some f m s n 0 h (omega arith) (omega arith)

strlen_from_sound :
    (f : ℕ) (m : Mem) (s n len : ℕ)
    → ((i : ℕ) → i < len → m (s + i) ≢ 0)
    → strlen_from f m s len ≡ some n
    → IsString m s n
unfolding strlen_from
strlen_from_sound zero m s n len h e = absurd (ground arith)
strlen_from_sound (suc f) m s n len h e = elim (Bool-cases (m (s + len) == 0)) [
  | inl z ↦
      let same : len ≡ n = ground arith in
      record { ends = ground arith; before = λ i p. h i (omega arith) }
  | inr nz ↦ strlen_from_sound f m s n (len + 1) (λ i p. ground (arith, h i)) (ground arith)
]

pub strlen_sound : (f : ℕ) (m : Mem) (s n : ℕ) → strlen f m s ≡ some n → IsString m s n
unfolding strlen
strlen_sound f m s n e = strlen_from_sound f m s n 0 (λ i p. absurd (omega arith)) e
