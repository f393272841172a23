-- ===== src/User/Cat.antt =====
-- What `cat` of syscalls/ece391cat.c writes.
use mpf_cker_os.Base.{
  ◌≤◌, IsBytes, ℕ, zero, suc, ◌+◌, ◌<◌, min, ◌≡◌, refl, sym, ap, ap₂, ◌∙◌, ◌≢◌, some, List, [], ◌∷◌,
  ◌++◌, arith, minus_one, Mem, length, bytes_at, dec_lt,
}
use mathlib.Core.List.{append_assoc, append-nil}
use mpf_cker_os.User.Calls.{Calls, again, exits, forever}
use mpf_cker_os.User.Programs.{cat_round, cat}

length-append : {A : Type 0} (xs ys : List A) → length (xs ++ ys) ≡ length xs + length ys
length-append [] ys = omega arith
length-append (x ∷ xs) ys = ground (arith, length-append xs ys)

pub length-bytes_at : (m : Mem) (p n : ℕ) → length (bytes_at m p n) ≡ n
length-bytes_at m p zero = refl
length-bytes_at m p (suc n) = ground (arith, length-bytes_at m (p + 1) n)

-- The descriptor `fd` is that of a file, of which `left` is what has not been read: as long as there is
-- something left, a read gives the next bytes, as many as are asked for or left, and then it gives
-- nothing. What is written to descriptor 1 is appended to `shown`. This holds of the states in `Good`, which
-- the calls keep, but for the last read.
pub record Serves {W : Type 0} (c : Calls W) (fd : ℕ) (Good : W → Type 0) (left shown : W → List ℕ)
    : Type 0 where
  pub reads :
      (m : Mem) (w : W)
      → Good w
      → IsBytes m
      → 0 < length (left w)
      → (m' : Mem) × (w' : W) × (c.ece391_read fd 1024 m w
          ≡ some (m', w', min 1024 (length (left w))))
        × (bytes_at m' 0 (min 1024 (length (left w))) ++ left w' ≡ left w)
        × (shown w' ≡ shown w)
        × Good w'
        × IsBytes m'
  pub at_end :
      (m : Mem) (w : W)
      → Good w
      → IsBytes m
      → length (left w) ≡ 0
      → (m' : Mem) × (w' : W) × (c.ece391_read fd 1024 m w ≡ some (m', w', 0))
        × (shown w' ≡ shown w)
  pub writes :
      (m : Mem) (n : ℕ) (w : W)
      → Good w
      → IsBytes m
      → n ≤ 1024
      → (w' : W) × (r : ℕ) × (c.ece391_write 1 (bytes_at m 0 n) w ≡ some (w', r))
        × (r ≢ minus_one)
        × (shown w' ≡ shown w ++ bytes_at m 0 n)
        × (left w' ≡ left w)
        × Good w'

empty-of-length : {A : Type 0} (xs : List A) → length xs ≡ 0 → xs ≡ []
empty-of-length [] e = refl
empty-of-length (x ∷ xs) e = absurd (omega arith)

module _ {W : Type 0} (c : Calls W) (fd : ℕ) (Good : W → Type 0) (left shown : W → List ℕ)
    (file : Serves c fd Good left shown) where
  -- a round of the loop while something is left
  cat_round_more :
      (m : Mem) (w : W)
      → Good w
      → IsBytes m
      → 0 < length (left w)
      → (m' : Mem) × (w' : W) × (cat_round c fd m w ≡ some (again m' w'))
        × (length (left w') < length (left w))
        × (shown w' ++ left w' ≡ shown w ++ left w)
        × Good w'
        × IsBytes m'
  unfolding cat_round
  cat_round_more m w good is_bytes more =
      let n : ℕ = min 1024 (length (left w)) in
      let (m1, w1, read, next, kept, good1, is_bytes1) = file.reads m w good is_bytes more in
      let bytes = bytes_at m1 0 n in
      let (w2, r, wrote, fine, said, same, good2) =
        file.writes m1 n w1 good1 is_bytes1 (omega arith) in
      let size : length bytes + length (left w1) ≡ length (left w) =
        sym (length-append bytes (left w1)) ∙ ap length next in
      let n_lt : n ≢ minus_one = omega arith in
      (
        m1,
        w2,
        ground (arith, read, wrote, fine, n_lt, more),
        ground (arith, size, same, length-bytes_at m1 0 n),
        ap₂ (λ a b. a ++ b) said same
            ∙ append_assoc (shown w1) bytes (left w1)
            ∙ ap₂ (λ a b. a ++ b) kept next,
        good2,
        is_bytes1,
      )

  cat_round_end :
      (m : Mem) (w : W)
      → Good w
      → IsBytes m
      → length (left w) ≡ 0
      → (w' : W) × (cat_round c fd m w ≡ some (exits 0 w')) × (shown w' ≡ shown w)
  unfolding cat_round
  cat_round_end m w good is_bytes e =
      let (m1, w1, read, kept) = file.at_end m w good is_bytes e in (w1, ground (arith, read), kept)

  cat_loop_lem :
      (f : ℕ) (m : Mem) (w : W)
      → Good w
      → IsBytes m
      → length (left w) < f
      → (w' : W) × (forever c f (cat_round c fd) m w ≡ some (w', 0))
        × (shown w' ≡ shown w ++ left w)
  unfolding forever
  cat_loop_lem zero m w good is_bytes fuel = absurd (omega arith)
  cat_loop_lem (suc f) m w good is_bytes fuel = elim (dec_lt 0 (length (left w))) [
    | yes more ↦
        let (m1, w1, round, less, same, good1, is_bytes1) = cat_round_more m w good is_bytes more in
        let (w', ran, said) = cat_loop_lem f m1 w1 good1 is_bytes1 (omega (arith, less, fuel)) in
        (w', ground (arith, round, ran), said ∙ same)
    | no none_left ↦
        let (w', round, kept) = cat_round_end m w good is_bytes (omega arith) in
        (
          w',
          ground (arith, round),
          kept
              ∙ sym (append-nil (shown w))
              ∙ ap (λ l. shown w ++ l) (sym (empty-of-length (left w) (omega arith))),
        )
  ]

  -- `cat`, with its argument read into a buffer of bytes and the file opened, ends with status 0 once its fuel is more than the
  -- bytes of the file, and has written all of them, in order and nothing else.
  pub cat_lem :
      (f : ℕ) (buf m : Mem) (w w1 w2 : W)
      → c.ece391_getargs 1024 buf w ≡ (m, w1, 0)
      → c.ece391_open m w1 ≡ (w2, fd)
      → fd ≢ minus_one
      → IsBytes m
      → Good w2
      → length (left w2) < f
      → (w' : W) × (cat c f buf w ≡ some (w', 0)) × (shown w' ≡ shown w2 ++ left w2)
  unfolding cat
  cat_lem f buf m w w1 w2 args opens real is_bytes good fuel =
      let (w', ran, said) = cat_loop_lem f m w2 good is_bytes fuel in
      (w', ground (arith, args, opens, real, ran), said)
