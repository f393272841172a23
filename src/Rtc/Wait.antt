-- ===== src/Rtc/Wait.antt =====
-- Blocking on the clock, student-distrib/rtc.c.
use mpf_cker_os.Base.{◌≡◌, refl, ◌≢◌, none, some, List, [], ◌∷◌, arith}
use mpf_cker_os.Rtc.{Rtc, Irq, clock, other, wait, rtc_read, rtc_handler}

-- interrupts of other devices, and then those of a list
abbrev pub others : List (Rtc → Rtc) → List Irq → List Irq
others [] is = is
others (h ∷ hs) is = other h ∷ others hs is

-- what all of them do, in order
abbrev pub after : List (Rtc → Rtc) → Rtc → Rtc
after [] s = s
after (h ∷ hs) s = after hs (h s)

-- none of them lowers the flag `waiting` that is up
pub data KeepsWaiting : List (Rtc → Rtc) → Type 0 where
  none_left : KeepsWaiting []
  keeps :
      (h : Rtc → Rtc) (hs : List (Rtc → Rtc))
      → ((s : Rtc) → s.waiting ≢ 0 → (h s).waiting ≢ 0)
      → KeepsWaiting hs
      → KeepsWaiting (h ∷ hs)

wait-others :
    (hs : List (Rtc → Rtc)) (is : List Irq) (s : Rtc)
    → KeepsWaiting hs
    → s.waiting ≢ 0
    → wait (others hs (clock ∷ is)) s ≡ some (rtc_handler (after hs s), is)
unfolding wait
wait-others [] [] s k h = ground arith
wait-others [] (i ∷ is) s k h = ground arith
wait-others (g ∷ hs) is s (keeps _ _ kept k) h =
    ground (arith, wait-others hs is (g s) k (kept s h))

-- `rtc_read` returns 0 right after the first clock interrupt, with the flag down and the later interrupts
-- not consumed, whatever the interrupts before it do that leave the flag `waiting` up.
pub rtc_read_lem :
    (hs : List (Rtc → Rtc)) (is : List Irq) (s : Rtc)
    → KeepsWaiting hs
    → let t = rtc_handler (after hs (record s { waiting = 1 })) in
      (rtc_read (others hs (clock ∷ is)) s ≡ some (0, t, is)) × (t.waiting ≡ 0)
unfolding rtc_read rtc_handler
rtc_read_lem hs is s k =
    (ground (arith, wait-others hs is (record s { waiting = 1 }) k (omega arith)), refl)

wait_blocked :
    (hs : List (Rtc → Rtc)) (s : Rtc)
    → KeepsWaiting hs
    → s.waiting ≢ 0
    → wait (others hs []) s ≡ none
unfolding wait
wait_blocked [] s k h = ground arith
wait_blocked (g ∷ hs) s (keeps _ _ kept k) h = ground (arith, wait_blocked hs (g s) k (kept s h))

-- Without a clock interrupt `rtc_read` does not return, if the other interrupts leave the flag up.
pub rtc_read_blocked :
    (hs : List (Rtc → Rtc)) (s : Rtc) → KeepsWaiting hs → rtc_read (others hs []) s ≡ none
unfolding rtc_read
rtc_read_blocked hs s k = ground (arith, wait_blocked hs (record s { waiting = 1 }) k (omega arith))
