-- ===== src/Memory/Words.antt =====
-- `memset_word` and `memset_dword` of student-distrib/lib.c.
use mpf_cker_os.Base.{
  ℕ, zero, suc, ◌+◌, ◌-◌, ◌*◌, ◌/◌, ◌%◌, ◌≡◌, arith, ◌==◌, if◌then◌else◌, Mem, update, inside,
}
use mpf_cker_os.Memory.{fill_words, memset_word, fill_longs, memset_dword}

-- the byte `i` of a word, the lowest first
abbrev pub byte_of : ℕ → ℕ → ℕ
byte_of c i =
    if i == 0
    then c % 256
    else if i == 1
    then c / 256 % 256
    else if i == 2
    then c / 65536 % 256
    else c / 16777216 % 256

fill_words_lem :
    (m : Mem) (d c n q : ℕ)
    → fill_words m d c n q ≡ (if inside d (2 * n) q then byte_of c ((q - d) % 2) else m q)
unfolding fill_words
fill_words_lem m d c zero q = ground arith
fill_words_lem m d c (suc n) q =
    ground
      (arith, fill_words_lem (update (update m d (c % 256)) (d + 1) (c / 256 % 256)) (d + 2) c n q)

-- `memset_word` sets `n` words of two bytes to the low half of its argument, and no other byte.
pub memset_word_lem :
    (m : Mem) (s c n q : ℕ)
    → memset_word m s c n q ≡ (if inside s (2 * n) q then byte_of c ((q - s) % 2) else m q)
unfolding memset_word
memset_word_lem m s c n q = fill_words_lem m s c n q

fill_longs_lem :
    (m : Mem) (d c n q : ℕ)
    → fill_longs m d c n q ≡ (if inside d (4 * n) q then byte_of c ((q - d) % 4) else m q)
unfolding fill_longs
fill_longs_lem m d c zero q = ground arith
fill_longs_lem m d c (suc n) q = ground (
  arith,
  fill_longs_lem
      (update
        (update (update (update m d (c % 256)) (d + 1) (c / 256 % 256)) (d + 2) (c / 65536 % 256))
        (d + 3) (c / 16777216 % 256))
      (d + 4) c n q,
)

-- `memset_dword` sets `n` words of four bytes to its argument, and no other byte.
pub memset_dword_lem :
    (m : Mem) (s c n q : ℕ)
    → memset_dword m s c n q ≡ (if inside s (4 * n) q then byte_of c ((q - s) % 4) else m q)
unfolding memset_dword
memset_dword_lem m s c n q = fill_longs_lem m s c n q
