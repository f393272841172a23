-- ===== src/User.antt =====
-- The library of the user programs, syscalls/ece391support.c. A pointer is a memory and an address, so
-- that a string constant may lie in a memory of its own; a loop that looks for a null byte takes fuel.
pub mod Library
pub mod Itoa
pub mod Calls
pub mod Programs
pub mod Cat
pub mod Counting
pub mod Kernel
pub mod OnKernel
pub mod Listing
pub mod OnDirectory
pub mod Writing
pub mod LsKernel
pub mod LsOpen
pub mod Bytes
pub mod CatKernel
pub mod CatFile
pub mod Console
pub mod Syserr
pub mod SyserrKernel
pub mod SyserrPasses
pub mod SyserrOpens
pub mod SyserrUnopened
pub mod Grep
pub mod Pingpong
pub mod Frames
pub mod Search
mod Tests
mod CatTests
mod LsTests
mod Sample
mod SyserrTests
use mpf_cker_os.Base.{
  ℕ, zero, suc, ◌+◌, ◌-◌, ◌*◌, ◌/◌, ◌%◌, ◌^◌, ◌≤◌, ◌<◌, min, bit_and, bit_or, ◌≡◌, refl, sym, ap,
  ap₂, ◌∙◌, subst, ◌≢◌, ◌↔◌, ◌⊎◌, inl, inr, Bool, true, false, not, ◌&&◌, ◌||◌, Option, none, some,
  List, [], ◌∷◌, ◌++◌, arith, ltb, leb, ◌==◌, if◌then◌else◌, ==_iff, Bool-cases, all_below,
  all_below_sound, u8, u16, u32, sub32, minus_one, is_negative, signed_ltb, Mem, update, inside,
  length, get_or, bytes_at, bytes_at-eq, place, ℕ_discrete, dec_lt, if_rule, some-inversion,
  Option-cases,
}
use mpf_cker_os.Strings.{digit_char, swap_ends}

-- the loop of `ece391_strlen`
unfoldable pub ece391_strlen_from : ℕ → Mem → ℕ → ℕ → Option ℕ
ece391_strlen_from zero m s len = none
ece391_strlen_from (suc f) m s len =
    let rest = ece391_strlen_from f m (s + 1) (len + 1) in if m s == 0 then some len else rest

unfoldable pub ece391_strlen : ℕ → Mem → ℕ → Option ℕ
ece391_strlen f m s = ece391_strlen_from f m s 0

unfoldable pub ece391_strcpy : ℕ → Mem → ℕ → ℕ → Option Mem
ece391_strcpy zero m dst src = none
ece391_strcpy (suc f) m dst src =
    let stored = update m dst (m src) in
    let rest = ece391_strcpy f stored (dst + 1) (src + 1) in
    if m src == 0 then some stored else rest

-- the bytes are unsigned
unfoldable pub ece391_strcmp : ℕ → Mem → ℕ → Mem → ℕ → Option ℕ
ece391_strcmp zero m s1 m' s2 = none
ece391_strcmp (suc f) m s1 m' s2 =
    let rest = ece391_strcmp f m (s1 + 1) m' (s2 + 1) in
    if m s1 == m' s2 then (if m s1 == 0 then some 0 else rest) else some (sub32 (m s1) (m' s2))

-- `n` counts down in the condition
unfoldable pub ece391_strncmp : Mem → ℕ → Mem → ℕ → ℕ → ℕ
ece391_strncmp m s1 m' s2 zero = 0
ece391_strncmp m s1 m' s2 (suc n) =
    let rest = ece391_strncmp m (s1 + 1) m' (s2 + 1) n in
    if m s1 == m' s2 then (if (m s1 == 0) || (n == 0) then 0 else rest) else sub32 (m s1) (m' s2)

-- the loop is that of the kernel's `strrev`
unfoldable pub ece391_strrev : ℕ → Mem → ℕ → Option Mem
ece391_strrev f m s = elim (ece391_strlen f m s) [
  | none ↦ none
  | some len ↦ some (if leb len 1 then m else swap_ends len m s 0 (len - 1))
]

-- the digit loop, which ends with the terminating null byte
unfoldable pub ece391_itoa_digits : ℕ → Mem → ℕ → ℕ → ℕ → Option Mem
ece391_itoa_digits zero m newbuf newval radix = none
ece391_itoa_digits (suc f) m newbuf newval radix =
    let stored = update m newbuf (digit_char (newval % radix)) in
    let rest = ece391_itoa_digits f stored (newbuf + 1) (newval / radix) radix in
    if ltb 0 newval then rest else some (update m newbuf 0)

unfoldable pub ece391_itoa : ℕ → Mem → ℕ → ℕ → ℕ → Option Mem
ece391_itoa f m value buf radix =
    if value == 0
    then some (update (update m buf 48) (buf + 1) 0)
    else elim (ece391_itoa_digits f m buf value radix) [
      | none ↦ none
      | some m' ↦ ece391_strrev f m' buf
    ]
