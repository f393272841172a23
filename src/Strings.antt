-- ===== src/Strings.antt =====
-- The C strings of student-distrib/lib.c, in memory. A loop that looks for a null byte takes fuel;
-- `none` is a loop that has not ended.
pub mod Length
pub mod Copies
pub mod Compare
pub mod Reverse
pub mod Digits
pub mod Itoa
mod Tests
use Prim.Native.String.{String}
use Prim.Native.Char.{code}
use mpf_cker_os.Base.{
  ℕ, zero, suc, ◌+◌, ◌-◌, ◌/◌, ◌%◌, ◌==◌, ltb, if◌then◌else◌, u32, sub32, Mem, update, get_or,
  Option, none, some, List, [], ◌∷◌, Bool, not, ◌||◌,
}

-- `while (s[len] != 0) len++`
unfoldable pub strlen_from : ℕ → Mem → ℕ → ℕ → Option ℕ
strlen_from zero m s len = none
strlen_from (suc f) m s len =
    let rest = strlen_from f m s (len + 1) in if m (s + len) == 0 then some len else rest

unfoldable pub strlen : ℕ → Mem → ℕ → Option ℕ
strlen f m s = strlen_from f m s 0

unfoldable pub strcpy_from : ℕ → Mem → ℕ → ℕ → ℕ → Option Mem
strcpy_from zero m dest src i = none
strcpy_from (suc f) m dest src i =
    let rest = strcpy_from f (update m (dest + i) (m (src + i))) dest src (i + 1) in
    if m (src + i) == 0 then some (update m (dest + i) 0) else rest

unfoldable pub strcpy : ℕ → Mem → ℕ → ℕ → Option Mem
strcpy f m dest src = strcpy_from f m dest src 0

-- the second loop of `strncpy`, with `left` rounds to go
unfoldable pub strncpy_pad : Mem → ℕ → ℕ → ℕ → Mem
strncpy_pad m dest i zero = m
strncpy_pad m dest i (suc left) = strncpy_pad (update m (dest + i) 0) dest (i + 1) left

-- the first loop of `strncpy`, `n - i` being `left`
unfoldable pub strncpy_from : Mem → ℕ → ℕ → ℕ → ℕ → Mem
strncpy_from m dest src i zero = m
strncpy_from m dest src i (suc left) =
    let rest = strncpy_from (update m (dest + i) (m (src + i))) dest src (i + 1) left in
    if m (src + i) == 0 then strncpy_pad m dest i (suc left) else rest

unfoldable pub strncpy : Mem → ℕ → ℕ → ℕ → Mem
strncpy m dest src n = strncpy_from m dest src 0 n

-- an `int8_t` as an `int32_t`, both as bit patterns
abbrev pub sign_extend : ℕ → ℕ
sign_extend c = if ltb c 128 then c else c + 4294967040

unfoldable pub strncmp_from : Mem → ℕ → ℕ → ℕ → ℕ → ℕ
strncmp_from m s1 s2 i zero = 0
strncmp_from m s1 s2 i (suc left) =
    let rest = strncmp_from m s1 s2 (i + 1) left in
    let differs : Bool = not (m (s1 + i) == m (s2 + i)) || (m (s1 + i) == 0) in
    if differs then sub32 (sign_extend (m (s1 + i))) (sign_extend (m (s2 + i))) else rest

unfoldable pub strncmp : Mem → ℕ → ℕ → ℕ → ℕ
strncmp m s1 s2 n = strncmp_from m s1 s2 0 n

-- the body of the loop of `strrev`, at two addresses
unfoldable pub swap : Mem → ℕ → ℕ → Mem
swap m lo hi = update (update m hi (m lo)) lo (m hi)

-- the loop of `strrev` while `beg < end`; it takes at most `end` rounds
unfoldable pub swap_ends : ℕ → Mem → ℕ → ℕ → ℕ → Mem
swap_ends zero m s beg end = m
swap_ends (suc f) m s beg end =
    let rest = swap_ends f (swap m (s + beg) (s + end)) s (beg + 1) (end - 1) in
    if ltb beg end then rest else m

-- `end` starts at `strlen(s) - 1`, which is -1 for the empty string: the loop does not run there.
unfoldable pub reverse_block : Mem → ℕ → ℕ → Mem
reverse_block m s zero = m
reverse_block m s (suc last) = swap_ends (suc last) m s 0 last

unfoldable pub strrev : ℕ → Mem → ℕ → Option Mem
strrev f m s = elim (strlen f m s) [ none ↦ none | some len ↦ some (reverse_block m s len) ]

abbrev pub codes : String → List ℕ
codes String.[] = []
codes (String.◌∷◌ c s) = code c ∷ codes s

-- `lookup[i]`
unfoldable pub digit_char : ℕ → ℕ
digit_char i = get_or (codes "0123456789ABCDEFGHIJKLMNOPQRSTUVWXYZ") i 0

-- the digit loop of `itoa`, which ends with the terminating null byte
unfoldable pub itoa_digits : ℕ → Mem → ℕ → ℕ → ℕ → Option Mem
itoa_digits zero m newbuf newval radix = none
itoa_digits (suc f) m newbuf newval radix =
    let rest =
      itoa_digits f (update m newbuf (digit_char (newval % radix))) (newbuf + 1) (newval / radix)
        radix in
    if newval == 0 then some (update m newbuf 0) else rest

unfoldable pub itoa : ℕ → Mem → ℕ → ℕ → ℕ → Option Mem
itoa f m value buf radix =
    if value == 0
    then some (update (update m buf 48) (buf + 1) 0)
    else elim (itoa_digits f m buf value radix) [ none ↦ none | some m' ↦ strrev f m' buf ]
