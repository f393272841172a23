-- ===== src/Fish/Change.antt =====
-- Adding and removing a blinking character, fish/blink.S and fish/fish.c.
use mpf_cker_os.Base.{
  ℕ, zero, suc, ◌+◌, ◌-◌, ◌*◌, ◌≤◌, ◌<◌, ◌≡◌, refl, sym, ap, subst, ◌≢◌, ◌⊎◌, inl, inr, true, List,
  ◌∷◌, arith, ◌==◌, if◌then◌else◌, update, ℕ_discrete,
}
use mpf_cker_os.Fish.{
  Blink, Blinks, num_cells, started, mp1_poke, malloc_from, mp1_malloc, mp1_ioctl_add,
}
use mpf_cker_os.Fish.Chain.{elem, IsChain, IsChain-outside, free-outside}

-- a node that is free, or none is
abbrev pub Free : (ℕ → Blink) → ℕ → Type 0
Free t p = (i : ℕ) × (p ≡ i + 1) × (i < num_cells) × ((t i).location ≡ 0)

malloc_from_lem :
    (t : ℕ → Blink) (i left : ℕ)
    → i + left ≡ num_cells
    → Free t (malloc_from t i left)
      ⊎ ((malloc_from t i left ≡ 0) × ((j : ℕ) → i ≤ j → j < num_cells → (t j).location ≢ 0))
unfolding malloc_from
malloc_from_lem t i zero e = inr (refl, λ j l u. absurd (omega arith))
malloc_from_lem t i (suc left) e = elim (ℕ_discrete (t i).location 0) [
  | yes free ↦ inl (i, ground (arith, free), omega arith, free)
  | no used ↦ elim (malloc_from_lem t (i + 1) left (omega arith)) [
    | inl (k, at, low, free) ↦ inl (k, ground (arith, at, used), low, free)
    | inr (full, all) ↦ inr (
      ground (arith, full, used),
      λ j l u. elim (ℕ_discrete j i) [
        | yes same ↦ subst (λ n. (t n).location ≢ 0) (sym same) used
        | no other ↦ all j (omega arith) u
      ],
    )
  ]
]

-- the state after an addition at the index `i`
abbrev added : Blink → ℕ → Blinks → Blinks
added b i s = record {
  blink_array = update s.blink_array i (record (started b) { next = s.mp1_list_head });
  mp1_list_head = i + 1;
  vmem = update s.vmem (b.location * 2) b.on_char;
}

mp1_ioctl_add-added :
    (b : Blink) (s : Blinks) (i : ℕ)
    → b.location < num_cells
    → mp1_malloc s ≡ i + 1
    → mp1_ioctl_add b s ≡ (added b i s, 0)
unfolding mp1_ioctl_add mp1_poke
mp1_ioctl_add-added b s i on_screen at =
    let back : i + 1 - 1 ≡ i = omega arith in
    let node = record (started b) { next = s.mp1_list_head } in
    let table : update s.blink_array (i + 1 - 1) node ≡ update s.blink_array i node =
      ap (λ k. update s.blink_array k node) back in
    ground (arith, at, on_screen, table)

added-IsChain :
    (b : Blink) (i : ℕ) (s : Blinks) (is : List ℕ)
    → IsChain s.blink_array s.mp1_list_head is
    → b.location ≢ 0
    → i < num_cells
    → (s.blink_array i).location ≡ 0
    → IsChain (added b i s).blink_array (i + 1) (i ∷ is)
unfolding IsChain
added-IsChain b i s is c placed low free =
    let apart = free-outside s.blink_array s.mp1_list_head i is free c in
    let t = (added b i s).blink_array in
    let here : t i ≡ record (started b) { next = s.mp1_list_head } = ground arith in
    let others : (j : ℕ) → elem j is ≡ true → t j ≡ s.blink_array j = λ j m. elim (ℕ_discrete i j) [
      | yes same ↦ absurd (ground (arith, same, apart, m))
      | no other ↦ ground (arith, other)
    ] in
    (
      refl,
      low,
      ground (arith, ap (λ n. n.location) here, placed),
      apart,
      subst (λ q. IsChain t q is) (sym (ap (λ n. n.next) here))
          (IsChain-outside s.blink_array t s.mp1_list_head is others c),
    )

-- With a list of nodes, each once and in use, a free node, and a place on the screen that is not its corner, a
-- node that was free comes in front of the list, started; the other nodes stay, and of the screen the place
-- alone changes.
pub mp1_ioctl_add_lem :
    (b : Blink) (s : Blinks) (is : List ℕ) (k : ℕ)
    → IsChain s.blink_array s.mp1_list_head is
    → 0 < b.location
    → b.location < num_cells
    → k < num_cells
    → (s.blink_array k).location ≡ 0
    → let (s', r) = mp1_ioctl_add b s in
      (r ≡ 0)
      × ((i : ℕ) × IsChain s'.blink_array s'.mp1_list_head (i ∷ is)
          × ((s.blink_array i).location ≡ 0)
          × (s'.blink_array i ≡ record (started b) { next = s.mp1_list_head })
          × ((j : ℕ) → j ≢ i → s'.blink_array j ≡ s.blink_array j))
      × ((q : ℕ) → s'.vmem q ≡ (if q == b.location * 2 then b.on_char else s.vmem q))
unfolding mp1_malloc
mp1_ioctl_add_lem b s is k c placed on_screen low free =
    let after : Blinks × ℕ → Type 0 = λ z.
      (z.1 ≡ 0)
      × ((i : ℕ) × IsChain z.0.blink_array z.0.mp1_list_head (i ∷ is)
          × ((s.blink_array i).location ≡ 0)
          × (z.0.blink_array i ≡ record (started b) { next = s.mp1_list_head })
          × ((j : ℕ) → j ≢ i → z.0.blink_array j ≡ s.blink_array j))
      × ((q : ℕ) → z.0.vmem q ≡ (if q == b.location * 2 then b.on_char else s.vmem q)) in
    elim (malloc_from_lem s.blink_array 0 num_cells refl) [
      | inl (i, at, in_array, unused) ↦ subst after (sym (mp1_ioctl_add-added b s i on_screen at)) (
        refl,
        (
          i,
          added-IsChain b i s is c (omega (arith, placed)) in_array unused,
          unused,
          ground arith,
          λ j other. ground (arith, other),
        ),
        λ q. ground arith,
      )
      | inr (full, all) ↦ absurd (all k (omega arith) low free)
    ]
