-- ===== src/Keyboard/Layout.antt =====
-- The character tables of student-distrib/keyboard.c and the notes of the piano keys.
use mpf_cker_os.Base.{
  ℕ, ◌-◌, ◌<◌, ◌≡◌, refl, Bool, true, false, not, ◌&&◌, List, [], ◌∷◌, arith, leb, ◌==◌,
  if◌then◌else◌, all_below, all_below_sound, get_or,
}

abbrev pub num_characters : ℕ
num_characters = 0x3b

unfoldable pub char_array : List ℕ
char_array =
    0 ∷ 0 ∷ b'1' ∷ b'2' ∷ b'3' ∷ b'4' ∷ b'5' ∷ b'6' ∷ b'7' ∷ b'8' ∷ b'9' ∷ b'0' ∷ b'-' ∷ b'=' ∷ 0
    ∷ 0 ∷ b'q' ∷ b'w' ∷ b'e' ∷ b'r' ∷ b't' ∷ b'y' ∷ b'u' ∷ b'i' ∷ b'o' ∷ b'p' ∷ b'[' ∷ b']' ∷ 0 ∷ 0
    ∷ b'a' ∷ b's' ∷ b'd' ∷ b'f' ∷ b'g' ∷ b'h' ∷ b'j' ∷ b'k' ∷ b'l' ∷ b';' ∷ 39 ∷ b'`' ∷ 0 ∷ 92
    ∷ b'z' ∷ b'x' ∷ b'c' ∷ b'v' ∷ b'b' ∷ b'n' ∷ b'm' ∷ b',' ∷ b'.' ∷ b'/' ∷ 0 ∷ b'*' ∷ 0 ∷ b' ' ∷ 0
    ∷ []

unfoldable pub char_array_shift_nocap : List ℕ
char_array_shift_nocap =
    0 ∷ 0 ∷ b'!' ∷ b'@' ∷ b'#' ∷ b'$' ∷ b'%' ∷ b'^' ∷ b'&' ∷ b'*' ∷ b'(' ∷ b')' ∷ b'_' ∷ b'+' ∷ 0
    ∷ 0 ∷ b'Q' ∷ b'W' ∷ b'E' ∷ b'R' ∷ b'T' ∷ b'Y' ∷ b'U' ∷ b'I' ∷ b'O' ∷ b'P' ∷ b'{' ∷ b'}' ∷ 0 ∷ 0
    ∷ b'A' ∷ b'S' ∷ b'D' ∷ b'F' ∷ b'G' ∷ b'H' ∷ b'J' ∷ b'K' ∷ b'L' ∷ b':' ∷ 34 ∷ b'~' ∷ 0 ∷ b'|'
    ∷ b'Z' ∷ b'X' ∷ b'C' ∷ b'V' ∷ b'B' ∷ b'N' ∷ b'M' ∷ b'<' ∷ b'>' ∷ b'?' ∷ 0 ∷ b'*' ∷ 0 ∷ b' ' ∷ 0
    ∷ []

unfoldable pub char_array_shift_cap : List ℕ
char_array_shift_cap =
    0 ∷ 0 ∷ b'!' ∷ b'@' ∷ b'#' ∷ b'$' ∷ b'%' ∷ b'^' ∷ b'&' ∷ b'*' ∷ b'(' ∷ b')' ∷ b'_' ∷ b'+' ∷ 0
    ∷ 0 ∷ b'q' ∷ b'w' ∷ b'e' ∷ b'r' ∷ b't' ∷ b'y' ∷ b'u' ∷ b'i' ∷ b'o' ∷ b'p' ∷ b'{' ∷ b'}' ∷ 0 ∷ 0
    ∷ b'a' ∷ b's' ∷ b'd' ∷ b'f' ∷ b'g' ∷ b'h' ∷ b'j' ∷ b'k' ∷ b'l' ∷ b':' ∷ 34 ∷ b'~' ∷ 0 ∷ b'|'
    ∷ b'z' ∷ b'x' ∷ b'c' ∷ b'v' ∷ b'b' ∷ b'n' ∷ b'm' ∷ b'<' ∷ b'>' ∷ b'?' ∷ 0 ∷ b'*' ∷ 0 ∷ b' ' ∷ 0
    ∷ []

unfoldable pub char_array_noshift_cap : List ℕ
char_array_noshift_cap =
    0 ∷ 0 ∷ b'1' ∷ b'2' ∷ b'3' ∷ b'4' ∷ b'5' ∷ b'6' ∷ b'7' ∷ b'8' ∷ b'9' ∷ b'0' ∷ b'-' ∷ b'=' ∷ 0
    ∷ 0 ∷ b'Q' ∷ b'W' ∷ b'E' ∷ b'R' ∷ b'T' ∷ b'Y' ∷ b'U' ∷ b'I' ∷ b'O' ∷ b'P' ∷ b'[' ∷ b']' ∷ 0 ∷ 0
    ∷ b'A' ∷ b'S' ∷ b'D' ∷ b'F' ∷ b'G' ∷ b'H' ∷ b'J' ∷ b'K' ∷ b'L' ∷ b';' ∷ 39 ∷ b'`' ∷ 0 ∷ 92
    ∷ b'Z' ∷ b'X' ∷ b'C' ∷ b'V' ∷ b'B' ∷ b'N' ∷ b'M' ∷ b',' ∷ b'.' ∷ b'/' ∷ 0 ∷ b'*' ∷ 0 ∷ b' ' ∷ 0
    ∷ []

-- the character of a key, by the flags for a shift and for caps lock; 0 is none
unfoldable pub key_char : Bool → Bool → ℕ → ℕ
key_char shift caps scan =
    if shift
    then if caps then get_or char_array_shift_cap scan 0 else get_or char_array_shift_nocap scan 0
    else if caps
    then get_or char_array_noshift_cap scan 0
    else get_or char_array scan 0

-- the frequency of the beep for a lower-case character; 0 is none
unfoldable pub note : ℕ → ℕ
note c =
    if c == b'a'
    then 262
    else if c == b'w'
    then 277
    else if c == b's'
    then 294
    else if c == b'e'
    then 311
    else if c == b'd'
    then 330
    else if c == b'f'
    then 349
    else if c == b't'
    then 370
    else if c == b'g'
    then 392
    else if c == b'y'
    then 415
    else if c == b'h'
    then 440
    else if c == b'u'
    then 466
    else if c == b'j'
    then 493
    else if c == b'k'
    then 523
    else 0

abbrev pub is_lower : ℕ → Bool
is_lower c = leb b'a' c && leb c b'z'

-- one of the two and not both
abbrev pub one_of : Bool → Bool → Bool
one_of a b = if a then not b else b

abbrev same_key : Bool → Bool → ℕ → Bool
same_key shift caps scan =
    let plain = key_char false false scan in
    let c = key_char shift caps scan in
    if is_lower plain
    then c == (if one_of shift caps then plain - 32 else plain)
    else c == key_char shift false scan

same_keys :
    (all_below 59 (same_key false false) ≡ true)
    × (all_below 59 (same_key false true) ≡ true)
    × (all_below 59 (same_key true false) ≡ true)
    × (all_below 59 (same_key true true) ≡ true)
unfolding all_below key_char char_array char_array_shift_nocap char_array_shift_cap
    char_array_noshift_cap
same_keys = (refl, refl, refl, refl)

-- On each of the 59 keys, a letter is in upper case exactly when one of shift and caps lock is on but not
-- both, and caps lock does not change what is no letter.
pub key_char_case :
    (shift caps : Bool) (scan : ℕ)
    → scan < 59
    → let plain = key_char false false scan in
      key_char shift caps scan ≡ (
        if is_lower plain
        then if one_of shift caps then plain - 32 else plain
        else key_char shift false scan)
key_char_case false false scan h =
    ground (arith, all_below_sound 59 (same_key false false) scan same_keys.0 h)
key_char_case false true scan h =
    ground (arith, all_below_sound 59 (same_key false true) scan same_keys.1 h)
key_char_case true false scan h =
    ground (arith, all_below_sound 59 (same_key true false) scan same_keys.2 h)
key_char_case true true scan h =
    ground (arith, all_below_sound 59 (same_key true true) scan same_keys.3 h)
