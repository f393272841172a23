-- ===== src/Fish.antt =====
-- The program fish of fish/: the list of blinking characters of fish/blink.S, with the array of fish/fish.c
-- from which its nodes come. A pointer to a node is 0 for NULL and one more than the index otherwise; a walk
-- along the list takes fuel, and `none` is a walk that has not ended.
pub mod Chain
pub mod Tick
pub mod Change
pub mod Remove
pub mod Program
mod Tests
use mpf_cker_os.Base.{
  ℕ, zero, suc, ◌+◌, ◌-◌, ◌*◌, ◌/◌, ◌%◌, ◌^◌, ◌≤◌, ◌<◌, min, bit_and, bit_or, ◌≡◌, refl, sym, ap,
  ap₂, ◌∙◌, subst, ◌≢◌, ◌↔◌, ◌⊎◌, inl, inr, Bool, true, false, not, ◌&&◌, ◌||◌, Option, none, some,
  List, [], ◌∷◌, ◌++◌, arith, ltb, leb, ◌==◌, if◌then◌else◌, ==_iff, Bool-cases, all_below,
  all_below_sound, u8, u16, u32, sub32, minus_one, is_negative, signed_ltb, Mem, update, inside,
  length, get_or, bytes_at, bytes_at-eq, place, ℕ_discrete, dec_lt, if_rule, some-inversion,
  Option-cases, IsBytes,
}

-- `struct mp1_blink_struct`
pub record Blink : Type 0 where
  pub location : ℕ
  pub on_char : ℕ
  pub off_char : ℕ
  pub on_length : ℕ
  pub off_length : ℕ
  pub countdown : ℕ
  pub status : ℕ
  pub next : ℕ

pub record Blinks : Type 0 where
  pub blink_array : ℕ → Blink
  pub mp1_list_head : ℕ
  -- the video memory, from `vmem_base_addr` on
  pub vmem : Mem

abbrev pub num_cells : ℕ
num_cells = 2000

abbrev pub node_at : Blinks → ℕ → Blink
node_at s p = s.blink_array (p - 1)

abbrev pub set_node : ℕ → Blink → Blinks → Blinks
set_node p b s = record s { blink_array = update s.blink_array (p - 1) b }

-- the bytes of a structure set to 0
abbrev pub no_blink : Blink
no_blink = record {
  location = 0;
  on_char = 0;
  off_char = 0;
  on_length = 0;
  off_length = 0;
  countdown = 0;
  status = 0;
  next = 0;
}

unfoldable pub mp1_poke : ℕ → ℕ → Blinks → Blinks
mp1_poke c offset s = record s { vmem = update s.vmem offset c }

-- the loop of `mp1_malloc` from `i` with `left` to go
unfoldable pub malloc_from : (ℕ → Blink) → ℕ → ℕ → ℕ
malloc_from t i zero = 0
malloc_from t i (suc left) =
    let rest = malloc_from t (i + 1) left in if (t i).location == 0 then i + 1 else rest

unfoldable pub mp1_malloc : Blinks → ℕ
mp1_malloc s = malloc_from s.blink_array 0 num_cells

unfoldable pub mp1_free : ℕ → Blinks → Blinks
mp1_free p s = set_node p no_blink s

-- what is copied to a new node
abbrev pub started : Blink → Blink
started b = record b { status = 1; countdown = b.on_length }

unfoldable pub mp1_ioctl_add : Blink → Blinks → Blinks × ℕ
mp1_ioctl_add b s =
    let p = mp1_malloc s in
    let s1 = set_node p (record (started b) { next = s.mp1_list_head }) s in
    let s2 = record s1 { mp1_list_head = p } in
    if leb num_cells b.location
    then (s, minus_one)
    else if p == 0
    then (s, minus_one)
    else (mp1_poke b.on_char (b.location * 2) s2, 0)

-- `mp1_find_helper` from the pointer `p` on; the location is 16 bits
unfoldable pub find_from : ℕ → ℕ → ℕ → Blinks → Option ℕ
find_from zero loc p s = none
find_from (suc f) loc p s =
    let rest = find_from f loc (node_at s p).next s in
    if p == 0 then some 0 else if (node_at s p).location == loc then some p else rest

unfoldable pub mp1_find_helper : ℕ → ℕ → Blinks → Option ℕ
mp1_find_helper f loc s = find_from f (u16 loc) s.mp1_list_head s

-- `remove_find_prev` from the node `q` on: the node whose next one is `p`
unfoldable pub prev_from : ℕ → ℕ → ℕ → Blinks → Option ℕ
prev_from zero p q s = none
prev_from (suc f) p q s =
    let rest = prev_from f p (node_at s q).next s in
    if (node_at s q).next == p then some q else rest

-- `found_prev`, for the head of the list or a node before `p`
unfoldable pub unlink : ℕ → ℕ → Blinks → Option Blinks
unlink f p s =
    let after = (node_at s p).next in
    let inner : Option Blinks = elim (prev_from f p s.mp1_list_head s) [
      | none ↦ none
      | some q ↦ some (set_node q (record (node_at s q) { next = after }) s)
    ] in
    if s.mp1_list_head == p then some (record s { mp1_list_head = after }) else inner

-- what `mp1_ioctl_remove` does with the node that it has found
unfoldable pub remove_found : ℕ → Option ℕ → Blinks → Option (Blinks × ℕ)
remove_found f none s = none
remove_found f (some p) s =
    let removed : Option (Blinks × ℕ) = elim (unlink f p s) [
      | none ↦ none
      | some s' ↦ some (mp1_free p s', 0)
    ] in
    if p == 0 then some (s, minus_one) else removed

unfoldable pub mp1_ioctl_remove : ℕ → ℕ → Blinks → Option (Blinks × ℕ)
mp1_ioctl_remove f arg s = remove_found f (mp1_find_helper f arg s) s

-- `mp1_ioctl_find`: the structure that is copied out
unfoldable pub mp1_ioctl_find : ℕ → Blink → Blinks → Option (Blink × ℕ)
mp1_ioctl_find f b s = elim (mp1_find_helper f b.location s) [
  | none ↦ none
  | some p ↦ some (if p == 0 then (b, minus_one) else (node_at s p, 0))
]

-- the fields that `sync_copy_loop` copies
abbrev pub synced : Blink → Blink → Blink
synced from to = record to {
  on_length = from.on_length;
  off_length = from.off_length;
  countdown = from.countdown;
  status = from.status;
}

-- `mp1_ioctl_sync`. The condition of `cmovl` never holds after the `testb`, so that the character is that for
-- off.
unfoldable pub mp1_ioctl_sync : ℕ → ℕ → Blinks → Option (Blinks × ℕ)
mp1_ioctl_sync f arg s = elim (mp1_find_helper f (arg / 2 ^ 16) s) [
  | none ↦ none
  | some p ↦ elim (mp1_find_helper f (arg % 2 ^ 16) s) [
    | none ↦ if p == 0 then some (s, minus_one) else none
    | some q ↦
        let b = synced (node_at s p) (node_at s q) in
        if (p == 0) || (q == 0)
        then some (s, minus_one)
        else some (mp1_poke b.off_char (b.location * 2) (set_node q b s), 0)
  ]
]

-- the countdown of a node after it has been decremented, and whether it is still to be waited
abbrev pub counted : Blink → ℕ
counted b = u16 (b.countdown + 65535)

abbrev pub waits : Blink → Bool
waits b = ltb 0 (counted b) && ltb (counted b) 32768

abbrev pub is_on : Blink → Bool
is_on b = b.status % 2 == 1

-- a node after an interrupt of the clock
abbrev pub ticked : Blink → Blink
ticked b =
    if waits b
    then record b { countdown = counted b }
    else if is_on b
    then record b { countdown = b.off_length; status = b.status - 1 }
    else record b { countdown = b.on_length; status = b.status + 1 }

-- the round of the loop for the node `p`
unfoldable pub tick_node : ℕ → Blinks → Blinks
tick_node p s =
    let b = node_at s p in
    let s' = set_node p (ticked b) s in
    if waits b then s' else mp1_poke (if is_on b then b.off_char else b.on_char) (b.location * 2) s'

unfoldable pub tasklet_from : ℕ → ℕ → Blinks → Option Blinks
tasklet_from zero p s = none
tasklet_from (suc f) p s =
    let s' = tick_node p s in
    let rest = tasklet_from f (node_at s' p).next s' in if p == 0 then some s else rest

unfoldable pub mp1_rtc_tasklet : ℕ → Blinks → Option Blinks
mp1_rtc_tasklet f s = tasklet_from f s.mp1_list_head s
