-- ===== src/Fish/Tick.antt =====
-- What an interrupt of the clock does to the list of fish/blink.S.
use mpf_cker_os.Base.{
  ℕ, zero, suc, ◌+◌, ◌-◌, ◌*◌, ◌<◌, ◌≡◌, refl, sym, ap, ◌∙◌, subst, ◌≢◌, true, some, List, [], ◌∷◌,
  arith, ◌==◌, if◌then◌else◌, length,
}
use mpf_cker_os.Fish.{
  Blink, Blinks, node_at, ticked, tick_node, tasklet_from, mp1_rtc_tasklet, mp1_poke,
}
use mpf_cker_os.Fish.Chain.{elem, IsChain, IsChain-outside, IsChain-same}

-- the list after the interrupt
pub record Ticked (s : Blinks) (is : List ℕ) (s' : Blinks) : Type 0 where
  pub head : s'.mp1_list_head ≡ s.mp1_list_head
  pub nodes :
      (j : ℕ) → s'.blink_array j ≡ (if elem j is then ticked (s.blink_array j) else s.blink_array j)
  pub screen :
      (q : ℕ)
      → ((j : ℕ) → elem j is ≡ true → (s.blink_array j).location * 2 ≢ q)
      → s'.vmem q ≡ s.vmem q

tick_node_lem :
    (s : Blinks) (p i : ℕ)
    → p ≡ i + 1
    → let s' = tick_node p s in
      (s'.mp1_list_head ≡ s.mp1_list_head)
      × ((j : ℕ)
          → s'.blink_array j ≡ (if j == i then ticked (s.blink_array j) else s.blink_array j))
      × ((q : ℕ) → (s.blink_array i).location * 2 ≢ q → s'.vmem q ≡ s.vmem q)
unfolding tick_node mp1_poke
tick_node_lem s p i at =
    let back : p - 1 ≡ i = omega (arith, at) in
    let here : s.blink_array (p - 1) ≡ s.blink_array i = ap s.blink_array back in
    let place : (s.blink_array (p - 1)).location ≡ (s.blink_array i).location =
      ap (λ b. b.location) here in
    (
      ground arith,
      λ j.
          subst
            (λ k.
              (tick_node p s).blink_array j
              ≡ (if j == k then ticked (s.blink_array j) else s.blink_array j))
            back (ground arith),
      λ q h. ground (arith, place, h),
    )

-- the next node and the place of a node stay
ticked_keeps : (b : Blink) → ((ticked b).next ≡ b.next) × ((ticked b).location ≡ b.location)
ticked_keeps b = ground arith

tasklet_from_lem :
    (f p : ℕ) (is : List ℕ) (s : Blinks)
    → IsChain s.blink_array p is
    → length is < f
    → (s' : Blinks) × (tasklet_from f p s ≡ some s') × Ticked s is s'
unfolding tasklet_from IsChain
tasklet_from_lem zero p is s c fuel = absurd (omega arith)
tasklet_from_lem (suc f) p [] s c fuel =
    (s, ground (arith, c), record { head = refl; nodes = λ j. refl; screen = λ q h. refl })
tasklet_from_lem (suc f) p (i ∷ is) s (at, low, used, once, rest) fuel =
    let s1 = tick_node p s in
    let t = s.blink_array in
    let (head, nodes, screen) = tick_node_lem s p i at in
    let others : (j : ℕ) → elem j is ≡ true → s1.blink_array j ≡ t j =
      λ j m. ground (arith, nodes j, m, once) in
    let here : s1.blink_array i ≡ ticked (t i) = ground (arith, nodes i) in
    let next : (node_at s1 p).next ≡ (t i).next =
      ap (λ k. (s1.blink_array k).next) (omega (arith, at))
      ∙ ap (λ b. b.next) here
      ∙ (ticked_keeps (t i)).0 in
    let chain : IsChain s1.blink_array (node_at s1 p).next is =
      subst (λ k. IsChain s1.blink_array k is) (sym next)
        (IsChain-outside t s1.blink_array (t i).next is others rest) in
    let (s2, ran, done) = tasklet_from_lem f (node_at s1 p).next is s1 chain (omega arith) in
    (
      s2,
      ground (arith, ran, at),
      record {
        head = done.head ∙ head;
        nodes = λ j. ground (arith, done.nodes j, nodes j, once);
        screen = λ q h.
            done.screen q (λ j m. ground (arith, others j m, h j, m))
            ∙ screen q (h i (ground arith));
      },
    )

-- With a list of nodes, each once and in use, and more fuel than nodes, an interrupt of the clock ends, ticks each
-- node once, keeps the list, and changes the screen at the places of the nodes alone.
pub mp1_rtc_tasklet_lem :
    (f : ℕ) (is : List ℕ) (s : Blinks)
    → IsChain s.blink_array s.mp1_list_head is
    → length is < f
    → (s' : Blinks) × (mp1_rtc_tasklet f s ≡ some s')
      × IsChain s'.blink_array s'.mp1_list_head is
      × Ticked s is s'
unfolding mp1_rtc_tasklet
mp1_rtc_tasklet_lem f is s c fuel =
    let (s', ran, done) = tasklet_from_lem f s.mp1_list_head is s c fuel in
    let kept : (j : ℕ)
        → elem j is ≡ true
        → ((s'.blink_array j).next ≡ (s.blink_array j).next)
          × ((s'.blink_array j).location ≡ (s.blink_array j).location) =
      λ j m. ground (arith, done.nodes j, m, ticked_keeps (s.blink_array j)) in
    let chain = IsChain-same s.blink_array s'.blink_array s.mp1_list_head is kept c in
    (s', ran, subst (λ q. IsChain s'.blink_array q is) (sym done.head) chain, done)
