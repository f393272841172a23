-- ===== src/Terminal.antt =====
-- The terminal device of student-distrib/terminal.c: what it writes, the line that it reads from the
-- keyboard's buffer, and the arguments that it keeps of that line. The two buffers are functions.
pub mod Copying
pub mod Reading
mod Tests
use mpf_cker_os.Base.{
  ℕ, zero, suc, ◌+◌, ◌-◌, ◌*◌, ◌/◌, ◌%◌, ◌^◌, ◌≤◌, ◌<◌, min, bit_and, bit_or, ◌≡◌, refl, sym, ap,
  ap₂, ◌∙◌, subst, ◌≢◌, ◌↔◌, ◌⊎◌, inl, inr, Bool, true, false, not, ◌&&◌, ◌||◌, Option, none, some,
  List, [], ◌∷◌, ◌++◌, arith, ltb, leb, ◌==◌, if◌then◌else◌, ==_iff, Bool-cases, all_below,
  all_below_sound, u8, u16, u32, sub32, minus_one, is_negative, signed_ltb, Mem, update, inside,
  length, get_or, bytes_at, bytes_at-eq, place, ℕ_discrete, dec_lt,
}
use mpf_cker_os.Screen.{Screen, putc}

abbrev pub buffer_size : ℕ
buffer_size = 128

abbrev pub arg_length : ℕ
arg_length = 1024

-- the static buffers of the device
pub record Line : Type 0 where
  -- `buf_kb`
  pub buf_kb : Mem
  -- `storeargs`
  pub storeargs : Mem
  -- `terminals[visible].enter_flag`: 0 once a line is there
  pub enter_flag : ℕ

-- the loop over the leading spaces, on fuel
unfoldable pub skip_spaces : ℕ → Mem → ℕ → Option ℕ
skip_spaces zero b i = none
skip_spaces (suc f) b i = let rest = skip_spaces f b (i + 1) in if b i == 0x20 then rest else some i

-- the loop over the line, on fuel: `storeargs`, `count`, whether a space has been met, `offset_arg`
-- and `max`
unfoldable pub scan_args : ℕ → Mem → Mem → ℕ → Bool → ℕ → ℕ → Option (Mem × ℕ × ℕ)
scan_args zero b s count met offset max = none
scan_args (suc f) b s count met offset max =
    let c = b count in
    let after = scan_args f b (update s offset c) (count + 1) true (offset + 1) max in
    let at_space = scan_args f b s (count + 1) true 0 count in
    let before = scan_args f b s (count + 1) false offset max in
    if c == 0xa
    then some (s, count, max)
    else if met
    then after
    else if c == 0x20
    then at_space
    else before

-- the smaller of two `int32_t`
abbrev pub signed_min : ℕ → ℕ → ℕ
signed_min a b = if signed_ltb a b then a else b

-- `memmove(buf_kb, buf_kb + i, BUFFER_SIZE - i)` on a buffer of its own
abbrev pub drop_front : ℕ → Mem → Mem
drop_front i b q = if ltb q (buffer_size - i) then b (q + i) else b q

abbrev pub clear_buffer : ℕ → Mem → Mem
clear_buffer n b q = if ltb q n then 0 else b q

-- what `terminal_read` does once it has left its first loop: memory, the buffers and the result. An
-- `nbytes` that is negative would be the length of a `memmove`, and gives no result.
unfoldable pub terminal_read : ℕ → ℕ → ℕ → Mem → Line → Option (Mem × Line × ℕ)
terminal_read f buf nbytes m l = elim (skip_spaces f l.buf_kb 0) [
  | none ↦ none
  | some i ↦
      let b = drop_front i l.buf_kb in
      let max0 = signed_min buffer_size nbytes in
      elim (scan_args f b (clear_buffer arg_length l.storeargs) 0 false 0 max0) [
        | none ↦ none
        | some (s, last, max1) ↦
            let count = last + 1 in
            let max2 = if signed_ltb max1 count then max1 else count in
            let max3 = signed_min max2 nbytes in
            if is_negative max3
            then none
            else some (
              (λ q. if inside buf max3 q then b (q - buf) else m q),
              record { buf_kb = clear_buffer buffer_size b; storeargs = s; enter_flag = 1 },
              max3,
            )
      ]
]

-- the loop of `terminal_write` with `left` bytes to go: the screen and the count
unfoldable pub terminal_write_from : ℕ → ℕ → ℕ → ℕ → Screen → Screen × ℕ
terminal_write_from buf i count zero s = (s, count)
terminal_write_from buf i count (suc left) s =
    terminal_write_from buf (i + 1) (count + 1) left (putc (s.mem (buf + i)) s)

unfoldable pub terminal_write : ℕ → ℕ → Screen → Screen × ℕ
terminal_write buf nbytes s =
    terminal_write_from buf 0 0 (if is_negative nbytes then 0 else nbytes) s

-- the loop of `terminal_getargs` with `left` bytes to go
unfoldable pub getargs_from : Mem → ℕ → ℕ → ℕ → Mem → Mem
getargs_from storeargs dest i zero m = m
getargs_from storeargs dest i (suc left) m =
    getargs_from storeargs dest (i + 1) left (update m (dest + i) (storeargs i))

-- `terminal_getargs` for at least one byte
unfoldable pub terminal_getargs : Mem → ℕ → ℕ → Mem → Mem
terminal_getargs storeargs dest nbytes m =
    update (getargs_from storeargs dest 0 nbytes m) (dest + (nbytes - 1)) 0xa

unfoldable pub terminal_open : ℕ → ℕ
terminal_open filename = 0

unfoldable pub terminal_close : ℕ → ℕ
terminal_close fd = 0
