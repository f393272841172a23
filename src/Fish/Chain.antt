-- ===== src/Fish/Chain.antt =====
-- The nodes of the list of fish/blink.S.
use mpf_cker_os.Base.{
  ℕ, ◌+◌, ◌<◌, ◌≡◌, refl, sym, ap, ◌∙◌, subst, ◌≢◌, Bool, true, false, ◌||◌, List, [], ◌∷◌, arith,
  ◌==◌, place,
}
use mpf_cker_os.Fish.{Blink, num_cells}

abbrev pub elem : ℕ → List ℕ → Bool
elem i [] = false
elem i (j ∷ js) = (i == j) || elem i js

-- From the pointer `p` on the list has the nodes with these indices, each once, that are in use and within
-- the array.
unfoldable pub IsChain : (ℕ → Blink) → ℕ → List ℕ → Type 0
IsChain t p [] = p ≡ 0
IsChain t p (i ∷ is) =
    (p ≡ i + 1)
    × (i < num_cells)
    × ((t i).location ≢ 0)
    × (elem i is ≡ false)
    × IsChain t (t i).next is

-- a change that keeps the place and the next node of each node of the list
pub IsChain-same :
    (t t' : ℕ → Blink) (p : ℕ) (is : List ℕ)
    → ((j : ℕ) → elem j is ≡ true → ((t' j).next ≡ (t j).next) × ((t' j).location ≡ (t j).location))
    → IsChain t p is
    → IsChain t' p is
unfolding IsChain
IsChain-same t t' p [] h c = c
IsChain-same t t' p (i ∷ is) h (at, low, used, once, rest) =
    let (next, place) = h i (ground arith) in
    (
      at,
      low,
      ground (arith, place, used),
      once,
      subst (λ q. IsChain t' q is) (sym next)
          (IsChain-same t t' (t i).next is (λ j m. h j (ground (arith, m))) rest),
    )

-- a change of nodes that are not in the list
pub IsChain-outside :
    (t t' : ℕ → Blink) (p : ℕ) (is : List ℕ)
    → ((j : ℕ) → elem j is ≡ true → t' j ≡ t j)
    → IsChain t p is
    → IsChain t' p is
IsChain-outside t t' p is h =
    IsChain-same t t' p is (λ j m. (ap (λ b. b.next) (h j m), ap (λ b. b.location) (h j m)))

-- a node that is free is not in the list
pub free-outside :
    (t : ℕ → Blink) (p i : ℕ) (is : List ℕ)
    → (t i).location ≡ 0
    → IsChain t p is
    → elem i is ≡ false
unfolding IsChain
free-outside t p i [] h c = refl
free-outside t p i (j ∷ js) h (at, low, used, once, rest) =
    let other : i ≢ j = λ e. used (ap (λ k. (t k).location) (sym e) ∙ h) in
    ground (arith, other, free-outside t (t j).next i js h rest)

pub IsChain-head : (t : ℕ → Blink) (i p : ℕ) (is : List ℕ) → IsChain t p (i ∷ is) → p ≡ i + 1
unfolding IsChain
IsChain-head t i p is c = c.0
