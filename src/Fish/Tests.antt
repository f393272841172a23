-- ===== src/Fish/Tests.antt =====
-- Blinking characters on a concrete list.
use mpf_cker_os.Base.{
  ℕ, ◌+◌, ◌*◌, ◌^◌, ◌≡◌, refl, ◌≢◌, ◌⊎◌, true, some, [], ◌∷◌, arith, ◌==◌, if◌then◌else◌, minus_one,
  update,
}
use mpf_cker_os.Fish.{
  Blink, Blinks, no_blink, started, node_at, mp1_ioctl_add, mp1_ioctl_remove, mp1_ioctl_find,
  mp1_ioctl_sync, mp1_rtc_tasklet, mp1_poke, mp1_find_helper, find_from,
}
use mpf_cker_os.Fish.Chain.{elem, IsChain}
use mpf_cker_os.Fish.Change.{mp1_ioctl_add_lem}
use mpf_cker_os.Fish.Remove.{erase, SameButNext, mp1_ioctl_remove_lem}
use mpf_cker_os.Fish.Tick.{Ticked, mp1_rtc_tasklet_lem}
use mpf_cker_os.Fish.Program.{ece391_memset, memset_from, ece391_memcpy, memcpy_from}

abbrev blink : Blink
blink = record {
  location = 540;
  on_char = b'I';
  off_char = b'M';
  on_length = 7;
  off_length = 6;
  countdown = 1;
  status = 1;
  next = 0;
}

-- the nodes 1 and 0
abbrev two : Blinks
two = record {
  blink_array =
      update (update (λ i. no_blink) 0 (record blink { location = 40 })) 1
        (record blink { next = 1 });
  mp1_list_head = 2;
  vmem = λ q. 0;
}

two-IsChain : IsChain two.blink_array two.mp1_list_head (1 ∷ 0 ∷ [])
unfolding IsChain
two-IsChain = (refl, omega arith, omega arith, refl, (refl, omega arith, omega arith, refl, refl))

mp1_rtc_tasklet_lem_example :
    (s' : Blinks) × (mp1_rtc_tasklet 3 two ≡ some s')
    × IsChain s'.blink_array s'.mp1_list_head (1 ∷ 0 ∷ [])
    × Ticked two (1 ∷ 0 ∷ []) s'
mp1_rtc_tasklet_lem_example = mp1_rtc_tasklet_lem 3 (1 ∷ 0 ∷ []) two two-IsChain (omega arith)

mp1_ioctl_add_lem_example :
    let (s', r) = mp1_ioctl_add blink two in
    (r ≡ 0)
    × ((i : ℕ) × IsChain s'.blink_array s'.mp1_list_head (i ∷ 1 ∷ 0 ∷ [])
        × ((two.blink_array i).location ≡ 0)
        × (s'.blink_array i ≡ record (started blink) { next = 2 })
        × ((j : ℕ) → j ≢ i → s'.blink_array j ≡ two.blink_array j))
    × ((q : ℕ) → s'.vmem q ≡ (if q == 1080 then b'I' else 0))
mp1_ioctl_add_lem_example =
    mp1_ioctl_add_lem blink two (1 ∷ 0 ∷ []) 2 two-IsChain (omega arith) (omega arith) (omega arith)
      refl

mp1_ioctl_remove_lem_example :
    ((mp1_ioctl_remove 3 40 two ≡ some (two, minus_one))
      × ((j : ℕ) → elem j (1 ∷ 0 ∷ []) ≡ true → (two.blink_array j).location ≢ 40))
    ⊎ ((i : ℕ) × (s' : Blinks) × (elem i (1 ∷ 0 ∷ []) ≡ true)
        × ((two.blink_array i).location ≡ 40)
        × (mp1_ioctl_remove 3 40 two ≡ some (s', 0))
        × IsChain s'.blink_array s'.mp1_list_head (erase i (1 ∷ 0 ∷ []))
        × (s'.blink_array i ≡ no_blink)
        × ((n : ℕ) → n ≢ i → SameButNext (two.blink_array n) (s'.blink_array n))
        × (s'.vmem ≡ two.vmem))
mp1_ioctl_remove_lem_example = mp1_ioctl_remove_lem 3 40 (1 ∷ 0 ∷ []) two two-IsChain (omega arith)

-- `mp1_ioctl_sync` writes the character for off to the screen though the node is on
sync_shows_off :
    (s' : Blinks) × (mp1_ioctl_sync 3 (40 * 2 ^ 16 + 540) two ≡ some (s', 0))
    × (s'.vmem 1080 ≡ b'M')
    × ((node_at s' 2).status ≡ 1)
unfolding mp1_ioctl_sync mp1_find_helper find_from mp1_poke
sync_shows_off = (_, refl, refl, refl)

find_runs : mp1_ioctl_find 3 blink two ≡ some (record blink { next = 1 }, 0)
unfolding mp1_ioctl_find mp1_find_helper find_from
find_runs = refl

memset_runs : ece391_memset (λ q. 7) 3 0 2 4 ≡ 0
unfolding ece391_memset memset_from
memset_runs = refl

memcpy_runs : (ece391_memcpy (λ q. q) 3 10 2).0 4 ≡ 11
unfolding ece391_memcpy memcpy_from
memcpy_runs = refl
