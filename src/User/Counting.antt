-- ===== src/User/Counting.antt =====
-- What `counter` of syscalls/ece391counter.c writes.
use mpf_cker_os.Base.{
  ℕ, zero, suc, ◌+◌, ◌^◌, ◌≤◌, ◌<◌, ◌≡◌, refl, sym, ap, ◌∙◌, ◌≢◌, ◌⊎◌, some, List, [], ◌∷◌, ◌++◌,
  arith, Mem, update, length, get_or, bytes_at,
}
use Prim.Native.String.{String}
use mathlib.Core.List.{append_assoc, append-nil}
use mpf_cker_os.Strings.{codes}
use mpf_cker_os.Strings.Length.{IsString, strlen-eq-some}
use mpf_cker_os.Strings.Digits.{number}
use mpf_cker_os.Strings.Itoa.{Printed, itoa_bounded}
use mpf_cker_os.User.{ece391_strlen}
use mpf_cker_os.User.Library.{ece391_strlen-strlen}
use mpf_cker_os.User.Itoa.{ece391_itoa-itoa}
use mpf_cker_os.User.Cat.{length-bytes_at}
use mpf_cker_os.User.Calls.{Calls, ece391_fdputs, say}
use mpf_cker_os.User.Programs.{count_limit, count_from, counter}

-- the digits of `v` in base 10, without a leading zero
pub record IsDecimal (ds : List ℕ) (v : ℕ) : Type 0 where
  pub value : number (λ i. get_or ds i 0) 10 0 (length ds) ≡ v
  pub some_digit : 0 < length ds
  pub no_leading_zero : (v ≡ 0) ⊎ (get_or ds 0 0 ≢ b'0')

-- the `left` numbers after `i`, each on a line
pub data Counted : ℕ → ℕ → List ℕ → Type 0 where
  done : {i : ℕ} → Counted i 0 []
  line :
      {i left : ℕ} {out : List ℕ} (ds : List ℕ)
      → IsDecimal ds (i + 1)
      → Counted (i + 1) left out
      → Counted i (suc left) (ds ++ (b'\n' ∷ out))

-- what is written to descriptor 1 is appended to `shown`
pub record Shows {W : Type 0} (c : Calls W) (shown : W → List ℕ) : Type 0 where
  pub writes :
      (bytes : List ℕ) (w : W)
      → (w' : W) × (r : ℕ) × (c.ece391_write 1 bytes w ≡ some (w', r))
        × (shown w' ≡ shown w ++ bytes)

get_or-bytes_at : (m : Mem) (p n i : ℕ) → i < n → get_or (bytes_at m p n) i 0 ≡ m (p + i)
get_or-bytes_at m p zero i h = absurd (omega arith)
get_or-bytes_at m p (suc n) zero h = ground arith
get_or-bytes_at m p (suc n) (suc i) h = ground (arith, get_or-bytes_at m (p + 1) n i)

number_same :
    (m m' : Mem) (radix s n : ℕ)
    → ((i : ℕ) → i < n → m (s + i) ≡ m' (s + i))
    → number m radix s n ≡ number m' radix s n
number_same m m' radix s zero h = refl
number_same m m' radix s (suc n) h =
    ground (arith, h n, number_same m m' radix s n (λ i p. h i (omega arith)))

Printed-IsDecimal : (m m' : Mem) (n v : ℕ) → Printed m m' 10 0 n v → IsDecimal (bytes_at m' 0 n) v
Printed-IsDecimal m m' n v p =
    let len = length-bytes_at m' 0 n in
    let same : number (λ i. get_or (bytes_at m' 0 n) i 0) 10 0 n ≡ number m' 10 0 n =
      number_same (λ i. get_or (bytes_at m' 0 n) i 0) m' 10 0 n
        (λ i q. ground (arith, get_or-bytes_at m' 0 n i q)) in
    record {
      value = ap (λ k. number (λ i. get_or (bytes_at m' 0 n) i 0) 10 0 k) len ∙ same ∙ p.digits;
      some_digit = ground (arith, len, p.some_digit);
      no_leading_zero = ground (arith, p.no_leading_zero, get_or-bytes_at m' 0 n 0 p.some_digit);
    }

abbrev pub question : String
question = "Enter the Test Number: (0): 100, (1): 10000, (2): 100000\n"

module _ {W : Type 0} (c : Calls W) (shown : W → List ℕ) (shows : Shows c shown) where
  pub fdputs_lem :
      (f : ℕ) (m : Mem) (n : ℕ) (w : W)
      → IsString m 0 n
      → n < f
      → (w' : W) × (ece391_fdputs c f 1 m 0 w ≡ some w') × (shown w' ≡ shown w ++ bytes_at m 0 n)
  unfolding ece391_fdputs
  fdputs_lem f m n w string fuel =
      let (w', r, e, same) = shows.writes (bytes_at m 0 n) w in
      (w', ground (arith, ece391_strlen-strlen f m 0, strlen-eq-some f m 0 n string fuel, e), same)

  say_shows :
      (s : String) (w : W) → (w' : W) × (say c 1 s w ≡ some w') × (shown w' ≡ shown w ++ codes s)
  unfolding say
  say_shows s w = let (w', r, e, same) = shows.writes (codes s) w in (w', ground (arith, e), same)

  count_from_lem :
      (f k : ℕ) (buf : Mem) (i left : ℕ) (w : W)
      → i + left < 10 ^ k
      → 0 < k
      → k ≤ f
      → (w' : W) × (out : List ℕ) × (count_from c (suc f) buf i left w ≡ some w')
        × Counted i left out
        × (shown w' ≡ shown w ++ out)
  unfolding count_from
  count_from_lem f k buf i zero w h pos fuel = (w, [], refl, done, sym (append-nil (shown w)))
  count_from_lem f k buf i (suc left) w h pos fuel =
      let (m, n, printed, fits, p) =
        itoa_bounded 10 (omega arith) (omega arith) f k buf (i + 1) 0 (omega (arith, h)) pos fuel in
      let (w1, put, said) = fdputs_lem (suc f) m n w p.string (omega arith) in
      let (w2, end, said') = say_shows "\n" w1 in
      let (w', out, ran, counted, said'') =
        count_from_lem f k m (i + 1) left w2 (omega (arith, h)) pos fuel in
      let ds = bytes_at m 0 n in
      (
        w',
        ds ++ (b'\n' ∷ out),
        ground (arith, ece391_itoa-itoa (suc f) buf (i + 1) 0 10, printed, put, end, ran),
        line ds (Printed-IsDecimal buf m n (i + 1) p) counted,
        said''
            ∙ ap (λ l. l ++ out) (said' ∙ ap (λ l. l ++ (b'\n' ∷ [])) said)
            ∙ append_assoc (shown w ++ ds) (b'\n' ∷ []) out
            ∙ append_assoc (shown w) ds (b'\n' ∷ out),
      )

  -- `counter`, on an answer of one of the characters 0, 1 and 2 and another one, ends with status 0 and
  -- writes the numbers from 1 to 100, to 10000 or to 100000, each in decimal on a line.
  pub counter_lem :
      (f : ℕ) (buf m : Mem) (w w2 : W) (choice : ℕ)
      → ((w1 : W) → say c 1 question w ≡ some w1 → c.ece391_read 0 1023 buf w1 ≡ some (m, w2, 2))
      → m 0 ≡ choice
      → m 1 ≢ 0
      → b'0' ≤ choice
      → choice ≤ b'2'
      → (w' : W) × (out : List ℕ) × (counter c (suc (6 + f)) buf w ≡ some (w', 0))
        × Counted 0 (count_limit choice) out
        × (shown w' ≡ shown w2 ++ out)
  unfolding counter count_limit
  counter_lem f buf m w w2 choice read first second low high =
      let (w1, asked, said) = say_shows question w in
      let string : IsString (update m 2 0) 0 2 = record {
        ends = ground arith;
        before = λ i p. ground (arith, first, second);
      } in
      let len : ece391_strlen (suc (6 + f)) (update m 2 0) 0 ≡ some 2 =
        ece391_strlen-strlen (suc (6 + f)) (update m 2 0) 0
        ∙ strlen-eq-some (suc (6 + f)) (update m 2 0) 0 2 string (omega arith) in
      let (w', out, ran, counted, shown') =
        count_from_lem (6 + f) 6 (update m 2 0) 0 (count_limit choice) w2 (ground arith)
          (omega arith) (omega arith) in
      (w', out, ground (arith, asked, read w1 asked, len, first, low, high, ran), counted, shown')
