-- ===== src/Printf.antt =====
-- `printf` of student-distrib/lib.c. The format is an array of its own, outside of the video memory; its
-- bytes are read by index. The arguments are the words of the stack after the format, and `conv_buf`
-- lies at the address `conv`, in a frame that the caller of `printf` does not see.
pub mod Literal
pub mod Numbers
pub mod Hex
mod Tests
use mpf_cker_os.Base.{
  ℕ, zero, suc, ◌+◌, ◌-◌, ◌*◌, ◌/◌, ◌%◌, ◌^◌, ◌≤◌, ◌<◌, min, bit_and, bit_or, ◌≡◌, refl, sym, ap,
  ap₂, ◌∙◌, subst, ◌≢◌, ◌↔◌, ◌⊎◌, inl, inr, Bool, true, false, not, ◌&&◌, ◌||◌, Option, none, some,
  List, [], ◌∷◌, ◌++◌, arith, ltb, leb, ◌==◌, if◌then◌else◌, ==_iff, Bool-cases, all_below,
  all_below_sound, u8, u16, u32, sub32, minus_one, is_negative, signed_ltb, Mem, update, inside,
  length, get_or, bytes_at, bytes_at-eq, place, ℕ_discrete, dec_lt,
}
use mpf_cker_os.Strings.{itoa, strlen}
use mpf_cker_os.Screen.{Screen, putc, puts}

-- `itoa` into the frame, `puts` of the buffer, and the next argument
unfoldable pub put_number : ℕ → ℕ → ℕ → ℕ → ℕ → Screen → Option Screen
put_number f value buf radix text s = elim (itoa f s.mem value buf radix) [
  | none ↦ none
  | some m ↦ elim (puts f text (record s { mem = m })) [ none ↦ none | some (n, t) ↦ some t ]
]

-- the loop that fills `conv_buf` with zeros up to its eighth byte, with `left` rounds to go
unfoldable pub pad_zeros : Mem → ℕ → ℕ → Mem
pad_zeros m a zero = m
pad_zeros m a (suc left) = pad_zeros (update m a b'0') (a + 1) left

-- `%#x`: the digits stand at `conv_buf + 8`, and the zeros before them
unfoldable pub put_hex8 : ℕ → ℕ → ℕ → Screen → Option Screen
put_hex8 f conv value s = elim (itoa f s.mem value (conv + 8) 16) [
  | none ↦ none
  | some m ↦ elim (strlen f m (conv + 8)) [
    | none ↦ none
    | some start ↦
        elim (puts f (conv + start) (record s { mem = pad_zeros m (conv + start) (8 - start) })) [
          | none ↦ none
          | some (n, t) ↦ some t
        ]
  ]
]

-- `-value` on `int32_t`
abbrev pub negate : ℕ → ℕ
negate value = u32 (2 ^ 32 - value)

-- `%d`: the sign, and the digits of the magnitude
unfoldable pub put_signed : ℕ → ℕ → ℕ → Screen → Option Screen
put_signed f conv value s =
    if is_negative value
    then put_number f (negate value) (conv + 1) 10 conv (record s { mem = update s.mem conv b'-' })
    else put_number f value conv 10 conv s

-- the index in the format, the number of arguments used, and the screen
abbrev pub Progress : Type 0
Progress = ℕ × ℕ × Screen

abbrev pub used_one : ℕ → ℕ → Option Screen → Option Progress
used_one buf esp none = none
used_one buf esp (some s) = some (buf, esp + 1, s)

-- `format_char_switch`, with fuel for the characters `#`
unfoldable pub convert : ℕ → Mem → Mem → ℕ → ℕ → Bool → ℕ → Screen → Option Progress
convert zero format args conv buf alternate esp s = none
convert (suc f) format args conv buf alternate esp s =
    let c = format buf in
    let again = convert f format args conv (buf + 1) true esp s in
    if c == b'%'
    then some (buf, esp, putc b'%' s)
    else if c == b'#'
    then again
    else if c == b'x'
    then used_one buf esp
        (if alternate then put_hex8 f conv (args esp) s else put_number f (args esp) conv 16 conv s)
    else if c == b'u'
    then used_one buf esp (put_number f (args esp) conv 10 conv s)
    else if c == b'd'
    then used_one buf esp (put_signed f conv (args esp) s)
    else if c == b'c'
    then some (buf, esp + 1, putc (u8 (args esp)) s)
    else if c == b's'
    then elim (puts f (args esp) s) [ none ↦ none | some (n, t) ↦ some (buf, esp + 1, t) ]
    else some (buf, esp, s)

-- the loop over the format; the result is the index of its null byte
unfoldable pub printf_from : ℕ → Mem → Mem → ℕ → ℕ → ℕ → Screen → Option (ℕ × Screen)
printf_from zero format args conv buf esp s = none
printf_from (suc f) format args conv buf esp s =
    let plain = printf_from f format args conv (buf + 1) esp (putc (format buf) s) in
    let special : Option (ℕ × Screen) = elim (convert f format args conv (buf + 1) false esp s) [
      | none ↦ none
      | some (buf', esp', s') ↦ printf_from f format args conv (buf' + 1) esp' s'
    ] in
    if format buf == 0 then some (buf, s) else if format buf == b'%' then special else plain

unfoldable pub printf : ℕ → Mem → Mem → ℕ → Screen → Option (ℕ × Screen)
printf f format args conv s = printf_from f format args conv 0 0 s
