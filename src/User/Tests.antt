-- ===== src/User/Tests.antt =====
-- The user programs on concrete kernels.
use mpf_cker_os.Base.{
  if◌then◌else◌, ◌==◌, ℕ, zero, suc, ◌<◌, ◌≡◌, refl, ◌↔◌, true, not, none, some, List, [], ◌++◌,
  arith, ◌==◌, all_below, all_below_sound, minus_one, Mem,
}
use mpf_cker_os.Strings.{codes, strncmp}
use mpf_cker_os.Strings.Length.{IsString}
use mpf_cker_os.User.{ece391_strcmp, ece391_strncmp, ece391_strcpy}
use mpf_cker_os.User.Library.{ece391_strcmp_lem, SameString, ece391_strncmp-strncmp}
use mpf_cker_os.User.Calls.{Calls, text, say, complain}
use mpf_cker_os.User.Programs.{counter, count_limit, testprint}
use mpf_cker_os.User.Pingpong.{pingpong}
use mpf_cker_os.User.Frames.{Ticks, frames, pingpong_lem}
use mpf_cker_os.User.Grep.{finds, find_end}
use mpf_cker_os.User.Search.{Occurs, finds-Occurs}
use mpf_cker_os.User.Counting.{Shows, Counted, question, counter_lem}

abbrev zeros : Mem
zeros = λ q. 0

ls_table : all_below 2 (λ i. not (text "ls" i == 0)) ≡ true
unfolding all_below
ls_table = refl

-- the answer 0 to the question of `counter`
abbrev count_calls : Calls (List ℕ)
count_calls = record {
  ece391_read = λ fd n m s. some (text "0\n", s, 2);
  ece391_write = λ fd bytes s. some (s ++ bytes, 0);
  ece391_open = λ name s. (s, minus_one);
  ece391_close = λ fd s. (s, 0);
  ece391_getargs = λ n m s. (m, s, minus_one);
  ece391_execute = λ m s. none;
}

answer :
    (w1 : List ℕ)
    → say count_calls 1 question [] ≡ some w1
    → count_calls.ece391_read 0 1023 zeros w1 ≡ some (text "0\n", codes question, 2)
unfolding say
answer w1 e = ground (arith, e)

count_calls-Shows : Shows count_calls (λ s. s)
count_calls-Shows = record { writes = λ bytes s. (s ++ bytes, 0, refl, refl) }

counter_lem_example :
    (w' : List ℕ) × (out : List ℕ) × (counter count_calls 7 zeros [] ≡ some (w', 0))
    × Counted 0 (count_limit 48) out
    × (w' ≡ codes question ++ out)
counter_lem_example =
    counter_lem count_calls (λ s. s) count_calls-Shows 0 zeros (text "0\n") [] (codes question) 48
      answer refl (omega arith) (omega arith) (omega arith)

testprint_runs :
    testprint count_calls [] ≡ some (codes "Hello, if this ran, the program was correct. Yay!\n", 0)
unfolding testprint say complain
testprint_runs = refl

abbrev words : Mem
words = text "ls"

words_bytes : (q : ℕ) → words q < 256
words_bytes zero = omega arith
words_bytes (suc zero) = omega arith
words_bytes (suc (suc q)) = omega arith

words-IsString : IsString words 0 2
words-IsString = record {
  ends = refl;
  before = λ i p. ground (arith, all_below_sound 2 _ i ls_table p);
}

ece391_strcmp_lem_example :
    (r : ℕ) × (ece391_strcmp 3 words 0 words 0 ≡ some r)
    × ((r ≡ 0) ↔ SameString words 0 2 words 0 2)
ece391_strcmp_lem_example =
    ece391_strcmp_lem words words words_bytes words_bytes 3 0 2 0 2 words-IsString words-IsString
      (omega arith)

finds-Occurs_example :
    (finds words 2 words 0 2 ≡ true) ↔ ((words 0 < 128) × Occurs words 2 words 0 2)
finds-Occurs_example =
    finds-Occurs words words 2 0 2 words_bytes words_bytes words-IsString (omega arith)
      words-IsString

ece391_strncmp-strncmp_example : (ece391_strncmp words 0 words 1 2 ≡ 0) ↔ (strncmp words 0 1 2 ≡ 0)
ece391_strncmp-strncmp_example = ece391_strncmp-strncmp words words_bytes 0 1 2

strcpy_runs : (m : Mem) × (ece391_strcpy 4 words 8 0 ≡ some m) × (m 9 ≡ b's')
unfolding ece391_strcpy
strcpy_runs = (_, refl, refl)

find_end_runs : find_end (text "a\nb\n") 2 2 ≡ 3
unfolding find_end
find_end_runs = refl

-- a clock that is always ready
abbrev rtc_calls : Calls (List ℕ)
rtc_calls = record {
  ece391_read = λ fd n m s. some (m, s, 0);
  ece391_write = λ fd bytes s. some ((if fd == 1 then s ++ bytes else s), 0);
  ece391_open = λ name s. (s, 2);
  ece391_close = λ fd s. (s, 0);
  ece391_getargs = λ n m s. (m, s, minus_one);
  ece391_execute = λ m s. none;
}

rtc_calls-Shows : Shows rtc_calls (λ s. s)
rtc_calls-Shows = record { writes = λ bytes s. (s ++ bytes, 0, refl, refl) }

rtc_calls-Ticks : Ticks rtc_calls 2 (λ s. s)
rtc_calls-Ticks = record { reads = λ m s. (m, s, 0, refl, refl) }

pingpong_lem_example :
    (buf' : Mem) × (s' : List ℕ) × (pingpong rtc_calls 27 81 zeros [] ≡ some (buf', s'))
    × (s' ≡ [] ++ frames 27 65)
pingpong_lem_example =
    pingpong_lem rtc_calls 2 (λ s. s) rtc_calls-Shows rtc_calls-Ticks 81 (omega arith) 27 zeros []
      [] [] 0 refl refl
