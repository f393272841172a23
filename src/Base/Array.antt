-- ===== src/Base/Array.antt =====
-- Memory and static arrays as functions of an address or an index: a write out of an array's bounds
-- goes to a cell of its own.
use Prim.Native.Nat.{ℕ, zero, suc, ◌+◌, ◌<◌}
use mathlib.Core.Path.{◌≡◌, refl}
use mathlib.Core.Bool.{Bool, ◌&&◌}
use mathlib.Core.List.{List, [], ◌∷◌}
use native.Mathlib.Omega.{arith}
use mpf_cker_os.Base.Tests.{ltb, leb, ◌==◌, if◌then◌else◌}

abbrev pub Mem : Type 0
Mem = ℕ → ℕ

abbrev pub IsBytes : Mem → Type 0
IsBytes m = (q : ℕ) → m q < 256

abbrev pub update {ℓ} : {A : Type ℓ} → (ℕ → A) → ℕ → A → ℕ → A
update f i v j = if i == j then v else f j

-- `q` is one of the `n` addresses from `d` on.
abbrev pub inside : ℕ → ℕ → ℕ → Bool
inside d n q = leb d q && ltb q (d + n)

module _ {ℓ} {A : Type ℓ} where
  abbrev pub length : List A → ℕ
  length [] = 0
  length (x ∷ xs) = suc (length xs)

  abbrev pub get_or : List A → ℕ → A → A
  get_or [] i d = d
  get_or (x ∷ xs) zero d = x
  get_or (x ∷ xs) (suc i) d = get_or xs i d

-- the `n` bytes from address `p` on
abbrev pub bytes_at : Mem → ℕ → ℕ → List ℕ
bytes_at m p zero = []
bytes_at m p (suc n) = m p ∷ bytes_at m (p + 1) n

pub bytes_at-eq :
    (m m' : Mem) (p n : ℕ)
    → ((i : ℕ) → i < n → m' (p + i) ≡ m (p + i))
    → bytes_at m' p n ≡ bytes_at m p n
bytes_at-eq m m' p zero h = refl
bytes_at-eq m m' p (suc n) h =
    ground (arith, h 0, bytes_at-eq m m' (p + 1) n (λ i q. ground (arith, h (suc i))))

-- the bytes of a list stored from address `p` on
abbrev pub place : Mem → ℕ → List ℕ → Mem
place m p [] = m
place m p (x ∷ xs) = update (place m (p + 1) xs) p x
