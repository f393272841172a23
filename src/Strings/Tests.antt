-- ===== src/Strings/Tests.antt =====
-- Concrete runs of the string functions.
use mpf_cker_os.Base.{
  ℕ, ◌+◌, ◌-◌, ◌≤◌, ◌<◌, ◌≡◌, refl, ◌↔◌, inr, Option, none, some, [], ◌∷◌, arith, if◌then◌else◌,
  Mem, inside, bytes_at, place,
}
use mpf_cker_os.Memory.Copy.{moved}
use mpf_cker_os.Strings.{
  codes, strlen, strlen_from, strcpy, strncpy, strncmp, strrev, itoa, digit_char,
}
use mpf_cker_os.Strings.{itoa_digits, swap_ends, swap, reverse_block, strncmp_from}
use mpf_cker_os.Strings.Length.{IsString, strlen-eq-some}
use mpf_cker_os.Strings.Copies.{strcpy_lem, strncpy_lem}
use mpf_cker_os.Strings.Compare.{strncmp-eq-zero}
use mpf_cker_os.Strings.Reverse.{strrev_lem}
use mpf_cker_os.Strings.Itoa.{itoa_lem, Printed}

abbrev empty : Mem
empty q = 0

-- "cat" at 100 and "car" at 200
abbrev words : Mem
words = place (place empty 100 (codes "cat")) 200 (codes "car")

cat-IsString : IsString words 100 3
cat-IsString = record { ends = refl; before = λ i h. ground arith }

words_bytes : (q : ℕ) → words q < 256
words_bytes q = ground arith

strncmp_runs : (strncmp words 100 200 2 ≡ 0) × (strncmp words 100 200 3 ≡ 2)
unfolding strncmp strncmp_from
strncmp_runs = (refl, refl)

-- the byte at `q`, if the call has returned
abbrev byte_of : Option Mem → ℕ → ℕ
byte_of none q = 0
byte_of (some m) q = m q

itoa_runs : bytes_at (byte_of (itoa 12 empty 391 50 10)) 50 4 ≡ 51 ∷ 57 ∷ 49 ∷ 0 ∷ []
unfolding itoa itoa_digits strrev strlen strlen_from reverse_block swap_ends swap digit_char
itoa_runs = refl

strlen-eq-some_example : strlen 9 words 100 ≡ some 3
strlen-eq-some_example = strlen-eq-some 9 words 100 3 cat-IsString (omega arith)

strcpy_lem_example :
    (m' : Mem) × (strcpy 9 words 300 100 ≡ some m') × ((q : ℕ) → m' q ≡ moved words 300 100 4 q)
strcpy_lem_example = strcpy_lem 9 words 300 100 3 cat-IsString (omega arith) (inr (omega arith))

strncpy_lem_example : strncpy words 300 100 8 302 ≡ 116
strncpy_lem_example =
    strncpy_lem words 300 100 3 8 302 (omega arith) (λ j h. ground arith) (inr refl)
      (inr (omega arith))

strncmp-eq-zero_example :
    (strncmp words 100 200 2 ≡ 0) ↔ ((j : ℕ) → j < 2 → j ≤ 3 → words (100 + j) ≡ words (200 + j))
strncmp-eq-zero_example = strncmp-eq-zero words words_bytes 100 200 3 cat-IsString 2

strrev_lem_example :
    (m' : Mem) × (strrev 9 words 100 ≡ some m')
    × ((q : ℕ) → m' q ≡ (if inside 100 3 q then words (100 + 100 + 3 - 1 - q) else words q))
strrev_lem_example = strrev_lem 9 words 100 3 cat-IsString (omega arith)

itoa_lem_example :
    (m' : Mem) × (n : ℕ) × (itoa 34 empty 391 50 10 ≡ some m')
    × (n ≤ 33)
    × Printed empty m' 10 50 n 391
itoa_lem_example = itoa_lem 10 (omega arith) (omega arith) 32 empty 391 50 (omega arith)
