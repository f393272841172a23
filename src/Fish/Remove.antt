-- ===== src/Fish/Remove.antt =====
-- Finding and removing a node of the list of fish/blink.S.
use mpf_cker_os.Base.{
  ℕ, zero, suc, ◌+◌, ◌-◌, ◌≤◌, ◌<◌, ◌≡◌, refl, sym, ap, ap₂, ◌∙◌, subst, ◌≢◌, ◌⊎◌, inl, inr, true,
  false, some, List, [], ◌∷◌, arith, ◌==◌, if◌then◌else◌, u16, minus_one, update, length, place,
  ℕ_discrete,
}
use mpf_cker_os.Fish.{
  Blink, Blinks, node_at, no_blink, find_from, mp1_find_helper, prev_from, unlink, mp1_free,
  remove_found, mp1_ioctl_remove,
}
use mpf_cker_os.Fish.Chain.{elem, IsChain, IsChain-outside}

-- the pointer to the first node at a place, and 0 without one
abbrev pub first_at : (ℕ → Blink) → ℕ → List ℕ → ℕ
first_at t loc [] = 0
first_at t loc (i ∷ is) = if (t i).location == loc then i + 1 else first_at t loc is

-- the list without an index
abbrev pub erase : ℕ → List ℕ → List ℕ
erase i [] = []
erase i (j ∷ js) = if i == j then js else j ∷ erase i js

elem-erase : (i j : ℕ) (js : List ℕ) → elem j js ≡ false → elem j (erase i js) ≡ false
elem-erase i j [] h = refl
elem-erase i j (k ∷ ks) h = ground (arith, h, elem-erase i j ks)

elem_erased : (t : ℕ → Blink) (i p : ℕ) (js : List ℕ) → IsChain t p js → elem i (erase i js) ≡ false
unfolding IsChain
elem_erased t i p [] c = refl
elem_erased t i p (k ∷ ks) (at, low, used, once, rest) = elim (ℕ_discrete i k) [
  | yes same ↦ ground (arith, same, once, ap (λ n. elem n ks) same)
  | no other ↦ ground (arith, other, elem_erased t i (t k).next ks rest)
]

find_from_lem :
    (f loc p : ℕ) (is : List ℕ) (s : Blinks)
    → IsChain s.blink_array p is
    → length is < f
    → find_from f loc p s ≡ some (first_at s.blink_array loc is)
unfolding find_from IsChain
find_from_lem zero loc p is s c fuel = absurd (omega arith)
find_from_lem (suc f) loc p [] s c fuel = ground (arith, c)
find_from_lem (suc f) loc p (i ∷ is) s (at, low, used, once, rest) fuel =
    let back : p - 1 ≡ i = omega (arith, at) in
    let here : node_at s p ≡ s.blink_array i = ap s.blink_array back in
    let chain : IsChain s.blink_array (node_at s p).next is =
      subst (λ q. IsChain s.blink_array q is) (sym (ap (λ b. b.next) here)) rest in
    let place : (node_at s p).location ≡ (s.blink_array i).location = ap (λ b. b.location) here in
    ground (arith, find_from_lem f loc (node_at s p).next is s chain (omega arith), at, place)

-- the node that is found
first_at_lem :
    (t : ℕ → Blink) (loc p : ℕ) (is : List ℕ)
    → IsChain t p is
    → ((first_at t loc is ≡ 0) × ((j : ℕ) → elem j is ≡ true → (t j).location ≢ loc))
      ⊎ ((i : ℕ) × (first_at t loc is ≡ i + 1) × (elem i is ≡ true) × ((t i).location ≡ loc))
unfolding IsChain
first_at_lem t loc p [] c = inl (refl, λ j m. absurd (ground (arith, m)))
first_at_lem t loc p (i ∷ is) (at, low, used, once, rest) = elim (ℕ_discrete (t i).location loc) [
  | yes same ↦ inr (i, ground (arith, same), ground arith, same)
  | no other ↦ elim (first_at_lem t loc (t i).next is rest) [
    | inl (none_at, all) ↦ inl (
      ground (arith, other, none_at),
      λ j m. elim (ℕ_discrete j i) [
        | yes same ↦ subst (λ n. (t n).location ≢ loc) (sym same) other
        | no apart ↦ all j (ground (arith, m, apart))
      ],
    )
    | inr (k, at_k, inside_k, found) ↦
        inr (k, ground (arith, other, at_k), ground (arith, inside_k), found)
  ]
]

-- the table in which the node `q` is followed by what followed `i`
abbrev pub bridged : (ℕ → Blink) → ℕ → ℕ → ℕ → Blink
bridged t q i = update t q (record (t q) { next = (t i).next })

-- the node before `i` in a list that starts with `j`
prev_from_lem :
    (f p i j : ℕ) (js : List ℕ) (s : Blinks)
    → IsChain s.blink_array p (j ∷ js)
    → elem i js ≡ true
    → length js < f
    → (q : ℕ) × (prev_from f (i + 1) p s ≡ some (q + 1))
      × (elem q (j ∷ js) ≡ true)
      × IsChain (bridged s.blink_array q i) p (erase i (j ∷ js))
unfolding prev_from IsChain
prev_from_lem zero p i j js s c m fuel = absurd (omega arith)
prev_from_lem (suc f) p i j [] s c m fuel = absurd (ground (arith, m))
prev_from_lem (suc f) p i j (k ∷ ks) s (at, low, used, once, tail) m fuel =
    let (at_k, low_k, used_k, once_k, rest) = tail in
    let t = s.blink_array in
    let back : p - 1 ≡ j = omega (arith, at) in
    let here : node_at s p ≡ t j = ap t back in
    let next : (node_at s p).next ≡ k + 1 = ap (λ b. b.next) here ∙ at_k in
    elim (ℕ_discrete i k) [
      | yes same ↦
          let t' = bridged t j i in
          let apart : i ≢ j = ground (arith, same, once) in
          let others : (n : ℕ) → elem n ks ≡ true → t' n ≡ t n = λ n l. elim (ℕ_discrete j n) [
            | yes e ↦ absurd (ground (arith, ap (λ a. elem a ks) e, once, l))
            | no away ↦ ground (arith, away)
          ] in
          let shorter : erase i (j ∷ k ∷ ks) ≡ j ∷ ks = ground (arith, apart, same) in
          let jumped : (t' j).next ≡ (t k).next = ground (arith, ap (λ a. (t a).next) same) in
          let chain : IsChain t' p (j ∷ ks) = (
            at,
            low,
            ground (arith, used),
            ground (arith, once),
            subst (λ a. IsChain t' a ks) (sym jumped)
                (IsChain-outside t t' (t k).next ks others rest),
          ) in
          (
            j,
            ground (arith, next, same, at),
            ground arith,
            subst (λ l. IsChain t' p l) (sym shorter) chain,
          )
      | no other ↦
          let inside_ks : elem i ks ≡ true = ground (arith, m, other) in
          let moved : IsChain t (node_at s p).next (k ∷ ks) =
            subst (λ a. IsChain t a (k ∷ ks)) (sym (ap (λ b. b.next) here)) tail in
          let (q, ran, in_tail, shorter) =
            prev_from_lem f (node_at s p).next i k ks s moved inside_ks (omega arith) in
          let t' = bridged t q i in
          let apart : q ≢ j = λ e. ground (arith, ap (λ a. elem a (k ∷ ks)) e, in_tail, once) in
          let not_i : i ≢ j = λ e. ground (arith, ap (λ a. elem a (k ∷ ks)) e, m, once) in
          let same_j : t' j ≡ t j = ground (arith, apart) in
          let here_next : (node_at s p).next ≡ (t' j).next =
            ap (λ b. b.next) here ∙ sym (ap (λ b. b.next) same_j) in
          let erased : erase i (j ∷ k ∷ ks) ≡ j ∷ erase i (k ∷ ks) = ground (arith, not_i) in
          let chain : IsChain t' p (j ∷ erase i (k ∷ ks)) = (
            at,
            low,
            ground (arith, ap (λ b. b.location) same_j, used),
            elem-erase i j (k ∷ ks) once,
            subst (λ a. IsChain t' a (erase i (k ∷ ks))) here_next shorter,
          ) in
          (
            q,
            ground (arith, next, other, ran),
            ground (arith, in_tail),
            subst (λ l. IsChain t' p l) (sym erased) chain,
          )
    ]

-- all of a node but what follows it
abbrev pub SameButNext : Blink → Blink → Type 0
SameButNext b b' = b' ≡ record b { next = b'.next }

unlink_lem :
    (f i : ℕ) (is : List ℕ) (s : Blinks)
    → IsChain s.blink_array s.mp1_list_head is
    → elem i is ≡ true
    → length is ≤ f
    → (s' : Blinks) × (unlink f (i + 1) s ≡ some s')
      × IsChain s'.blink_array s'.mp1_list_head (erase i is)
      × (s'.vmem ≡ s.vmem)
      × ((n : ℕ) → SameButNext (s.blink_array n) (s'.blink_array n))
unfolding unlink IsChain
unlink_lem f i [] s c m fuel = absurd (ground (arith, m))
unlink_lem f i (j ∷ js) s c m fuel =
    let t = s.blink_array in
    let (at, low, used, once, rest) = c in
    let back : i + 1 - 1 ≡ i = omega arith in
    elim (ℕ_discrete i j) [
      | yes same ↦
          let after : (node_at s (i + 1)).next ≡ (t j).next = ap (λ a. (t a).next) (back ∙ same) in
          (
            record s { mp1_list_head = (node_at s (i + 1)).next },
            ground (arith, at, same),
            subst (λ l. IsChain t (node_at s (i + 1)).next l) (ground (arith, same))
                (subst (λ a. IsChain t a js) (sym after) rest),
            refl,
            λ n. refl,
          )
      | no other ↦
          let (q, ran, in_list, chain) =
            prev_from_lem f s.mp1_list_head i j js s c (ground (arith, m, other)) (omega arith) in
          let back_q : q + 1 - 1 ≡ q = omega arith in
          let table : update t (q + 1 - 1)
                (record (t (q + 1 - 1)) { next = (node_at s (i + 1)).next })
              ≡ bridged t q i =
            ap₂ (λ a b. update t a (record (t a) { next = (t b).next })) back_q back in
          (
            record s { blink_array = bridged t q i },
            ground (arith, at, other, ran, table),
            chain,
            refl,
            λ n. elim (ℕ_discrete q n) [
              | yes e ↦ subst (λ a. SameButNext (t a) (bridged t q i a)) e (ground arith)
              | no away ↦ ground (arith, away)
            ],
          )
    ]

-- With a list of nodes, each once and in use, and more fuel than nodes, a removal ends: it gives -1 and changes
-- nothing when no node is at the place, or gives 0, and a node at the place is free and out of the list, the
-- others keep all but what follows them, and the screen stays.
pub mp1_ioctl_remove_lem :
    (f arg : ℕ) (is : List ℕ) (s : Blinks)
    → IsChain s.blink_array s.mp1_list_head is
    → length is < f
    → ((mp1_ioctl_remove f arg s ≡ some (s, minus_one))
        × ((j : ℕ) → elem j is ≡ true → (s.blink_array j).location ≢ u16 arg))
      ⊎ ((i : ℕ) × (s' : Blinks) × (elem i is ≡ true)
          × ((s.blink_array i).location ≡ u16 arg)
          × (mp1_ioctl_remove f arg s ≡ some (s', 0))
          × IsChain s'.blink_array s'.mp1_list_head (erase i is)
          × (s'.blink_array i ≡ no_blink)
          × ((n : ℕ) → n ≢ i → SameButNext (s.blink_array n) (s'.blink_array n))
          × (s'.vmem ≡ s.vmem))
unfolding mp1_ioctl_remove mp1_find_helper remove_found mp1_free
mp1_ioctl_remove_lem f arg is s c fuel =
    let t = s.blink_array in
    let found = find_from_lem f (u16 arg) s.mp1_list_head is s c fuel in
    elim (first_at_lem t (u16 arg) s.mp1_list_head is c) [
      | inl (nowhere, all) ↦ inl (ground (arith, found, nowhere), all)
      | inr (i, at, in_list, place) ↦
          let (s1, ran, chain, screen, nodes) =
            unlink_lem f i is s c in_list (omega (arith, fuel)) in
          let t' = update s1.blink_array i no_blink in
          let back : i + 1 - 1 ≡ i = omega arith in
          let freed : update s1.blink_array (i + 1 - 1) no_blink ≡ t' =
            ap (λ a. update s1.blink_array a no_blink) back in
          let gone = elem_erased t i s.mp1_list_head is c in
          let others : (n : ℕ) → elem n (erase i is) ≡ true → t' n ≡ s1.blink_array n = λ n m.
            elim (ℕ_discrete i n) [
              | yes e ↦ absurd (ground (arith, ap (λ a. elem a (erase i is)) e, gone, m))
              | no away ↦ ground (arith, away)
            ] in
          inr (
            i,
            record s1 { blink_array = t' },
            in_list,
            place,
            ground (arith, found, at, ran, freed),
            IsChain-outside s1.blink_array t' s1.mp1_list_head (erase i is) others chain,
            ground arith,
            λ n away. ground (arith, nodes n, away),
            screen,
          )
    ]
