-- ===== src/Emulate/Arguments.antt =====
-- The arguments of a program through syscalls/ece391emulate.c.
use mpf_cker_os.Base.{
  ℕ, zero, suc, ◌+◌, ◌-◌, ◌^◌, ◌≤◌, ◌<◌, ◌≡◌, ap, ◌∙◌, true, false, not, ◌&&◌, ◌||◌, List, [], ◌∷◌,
  ◌++◌, arith, ltb, ◌==◌, if◌then◌else◌, sub32, minus_one, is_negative, signed_ltb, Mem, update,
  inside, length, get_or, place, dec_lt,
}
use mpf_cker_os.Emulate.{ece391_getargs}
use mpf_cker_os.Emulate.Directory.{get_or-from}

-- the arguments with a space between each two of them
abbrev pub joined : List (List ℕ) → List ℕ
joined [] = []
joined (a ∷ []) = a
joined (a ∷ b ∷ args) = a ++ (b' ' ∷ joined (b ∷ args))

length-append : (xs ys : List ℕ) → length (xs ++ ys) ≡ length xs + length ys
length-append [] ys = omega arith
length-append (x ∷ xs) ys = ground (arith, length-append xs ys)

minus_zero : (i : ℕ) → i ≡ i - 0
minus_zero i = omega arith

get_or-append :
    (xs ys : List ℕ) (i : ℕ)
    → get_or (xs ++ ys) i 0
      ≡ (if ltb i (length xs) then get_or xs i 0 else get_or ys (i - length xs) 0)
get_or-append [] ys i = ap (λ j. get_or ys j 0) (minus_zero i) ∙ ground arith
get_or-append (x ∷ xs) ys zero = ground arith
get_or-append (x ∷ xs) ys (suc i) = ground (arith, get_or-append xs ys i)

place_lem :
    (m : Mem) (p q : ℕ) (l : List ℕ)
    → place m p l q ≡ (if inside p (length l) q then get_or l (q - p) 0 else m q)
place_lem m p q [] = ground arith
place_lem m p q (x ∷ l) = elim (dec_lt q p) [
  | yes before ↦ ground (arith, place_lem m (p + 1) q l, before)
  | no from ↦ ground (arith, place_lem m (p + 1) q l, get_or-from x l q p (omega arith))
]

-- the bytes of the first of two lists, and before them
joined_early :
    (xs ys : List ℕ) (buf q v : ℕ)
    → q < buf + length xs
    → (if inside buf (length xs) q then get_or xs (q - buf) 0 else v) ≡ (
        if inside buf (length (xs ++ ys)) q
        then get_or (xs ++ ys) (q - buf) 0
        else if q == buf + length (xs ++ ys)
        then 0
        else v)
joined_early xs ys buf q v early =
    let size : length (xs ++ ys) ≡ length xs + length ys = length-append xs ys in
    elim (dec_lt q buf) [
      | yes before ↦ ground (arith, before)
      | no from ↦
          let inside_xs : q - buf < length xs = omega (arith, early, from) in
          let byte : get_or (xs ++ ys) (q - buf) 0 ≡ get_or xs (q - buf) 0 =
            get_or-append xs ys (q - buf) ∙ ground (arith, inside_xs) in
          let here : (inside buf (length (xs ++ ys)) q ≡ true) × (inside buf (length xs) q ≡ true) =
            ground (arith, early, from, size) in
          ground (arith, here, byte)
    ]

-- the bytes after the first of two lists, with a space between them
joined_late :
    (xs ys : List ℕ) (buf q v w : ℕ)
    → buf + length xs ≤ q
    → w ≡ (if q == buf + length xs then b' ' else v)
    → (if inside (buf + length xs + 1) (length ys) q
        then get_or ys (q - (buf + length xs + 1)) 0
        else if q == buf + length xs + 1 + length ys
        then 0
        else w)
      ≡ (if inside buf (length (xs ++ (b' ' ∷ ys))) q
          then get_or (xs ++ (b' ' ∷ ys)) (q - buf) 0
          else if q == buf + length (xs ++ (b' ' ∷ ys))
          then 0
          else v)
joined_late xs ys buf q v w late is =
    let size : length (xs ++ (b' ' ∷ ys)) ≡ length xs + suc (length ys) =
      length-append xs (b' ' ∷ ys) in
    let index : q - buf - length xs ≡ q - (buf + length xs) = omega arith in
    let past : ltb (q - buf) (length xs) ≡ false = ground (arith, late) in
    let byte : get_or (xs ++ (b' ' ∷ ys)) (q - buf) 0
        ≡ (if q == buf + length xs then b' ' else get_or ys (q - (buf + length xs + 1)) 0) =
      get_or-append xs (b' ' ∷ ys) (q - buf)
      ∙ ground (arith, past)
      ∙ ap (λ i. get_or (b' ' ∷ ys) i 0) index
      ∙ get_or-from b' ' ys q (buf + length xs) late in
    ground (arith, byte, size, late, is)

-- the comparison of a count with a length
signed_ltb_length :
    (n l : ℕ)
    → n < 2 ^ 32
    → l < 2 ^ 31
    → (signed_ltb n l ≡ (is_negative n || ltb n l))
      × (signed_ltb l n ≡ (not (is_negative n) && ltb l n))
signed_ltb_length n l h k = (ground arith, ground arith)

-- a count that is at least a length, less the length, and then less a space
sub32_length :
    (n l : ℕ)
    → n < 2 ^ 32
    → signed_ltb n l ≡ false
    → l < 2 ^ 31
    → (sub32 n l ≡ n - l) × (n < 2 ^ 31) × (l ≤ n)
sub32_length n l h e k = (ground (arith, e), ground (arith, e), ground (arith, e))

-- With arguments below 2 ^ 31 bytes, `ece391_getargs` gives 0 exactly when they, with a space between each two of
-- them, are fewer bytes than the count asks for, as a signed number, and -1 otherwise. When it gives 0 it has stored
-- them with a null byte after them, and changed no other byte.
pub ece391_getargs_lem :
    (args : List (List ℕ)) (buf nbytes q : ℕ) (m : Mem)
    → nbytes < 2 ^ 32
    → length (joined args) < 2 ^ 31
    → let (m', r) = ece391_getargs args buf nbytes m in
      let l = joined args in
      (r ≡ (if signed_ltb (length l) nbytes then 0 else minus_one))
      × (signed_ltb (length l) nbytes ≡ true
          → m' q ≡ (
              if inside buf (length l) q
              then get_or l (q - buf) 0
              else if q == buf + length l
              then 0
              else m q))
unfolding ece391_getargs
ece391_getargs_lem [] buf nbytes q m h k = (ground arith, λ l. ground (arith, l))
ece391_getargs_lem (a ∷ []) buf nbytes q m h k =
    (ground arith, λ l. ground (arith, l, place_lem m buf q a))
ece391_getargs_lem (a ∷ b ∷ args) buf nbytes q m h k =
    let others = joined (b ∷ args) in
    let m1 = update (place m buf a) (buf + length a) 0 in
    let m2 = update m1 (buf + length a) b' ' in
    let size : length (a ++ (b' ' ∷ others)) ≡ length a + suc (length others) =
      length-append a (b' ' ∷ others) in
    let left = sub32 (sub32 nbytes (length a)) 1 in
    let (r, at) =
      ece391_getargs_lem (b ∷ args) (buf + length a + 1) left q m2 (omega arith)
        (omega (arith, k, size)) in
    (
      ground (arith, r, size),
      λ l.
          let rest = at (ground (arith, l, size)) in
          let after = ece391_getargs (b ∷ args) (buf + length a + 1) left m2 in
          let value : (ece391_getargs (a ∷ b ∷ args) buf nbytes m).0 q ≡ after.0 q =
            ground (arith, l, size) in
          elim (dec_lt q (buf + length a)) [
            | yes early ↦
                value
                ∙ ground (arith, rest, early)
                ∙ place_lem m buf q a
                ∙ joined_early a (b' ' ∷ others) buf q (m q) early
            | no late ↦
                let unplaced : m2 q ≡ (if q == buf + length a then b' ' else m q) =
                  ground (arith, place_lem m buf q a, late) in
                value
                ∙ rest
                ∙ joined_late a others buf q (m q) (m2 q) (omega (arith, late)) unplaced
          ],
    )
