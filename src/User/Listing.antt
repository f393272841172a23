-- ===== src/User/Listing.antt =====
-- What `ls` of syscalls/ece391ls.c writes.
use mpf_cker_os.Base.{
  ℕ, zero, suc, ◌+◌, ◌≤◌, ◌<◌, ◌≡◌, refl, sym, ap, ap₂, ◌∙◌, ◌≢◌, some, List, [], ◌∷◌, ◌++◌, arith,
  u32, minus_one, Mem, update, length, bytes_at, bytes_at-eq, IsBytes,
}
use mathlib.Core.List.{append_assoc, append-nil}
use mpf_cker_os.User.Calls.{Calls, again, exits, text, forever}
use mpf_cker_os.User.Programs.{ls_round, ls}

-- The descriptor `fd` is that of a directory, with `names` still to be read: as long as there is one, a read
-- gives it, of 1 to 31 bytes, and then it gives nothing. What is written to descriptor 1 is appended to
-- `shown`. This holds of the states in `Good`, which the calls keep, but for the last read.
pub record Lists {W : Type 0} (c : Calls W) (fd : ℕ) (Good : W → Type 0) (names : W → List (List ℕ))
    (shown : W → List ℕ) : Type 0 where
  pub reads :
      (m : Mem) (w : W) (n : List ℕ) (ns : List (List ℕ))
      → Good w
      → IsBytes m
      → names w ≡ n ∷ ns
      → (m' : Mem) × (w' : W) × (c.ece391_read fd 32 m w ≡ some (m', w', length n))
        × (bytes_at m' 0 (length n) ≡ n)
        × (0 < length n)
        × (length n < 32)
        × (names w' ≡ ns)
        × (shown w' ≡ shown w)
        × Good w'
        × IsBytes m'
  pub at_end :
      (m : Mem) (w : W)
      → Good w
      → IsBytes m
      → names w ≡ []
      → (m' : Mem) × (w' : W) × (c.ece391_read fd 32 m w ≡ some (m', w', 0)) × (shown w' ≡ shown w)
  pub writes :
      (m : Mem) (n : ℕ) (w : W)
      → Good w
      → IsBytes m
      → n ≤ 1024
      → (w' : W) × (r : ℕ) × (c.ece391_write 1 (bytes_at m 0 n) w ≡ some (w', r))
        × (r ≢ minus_one)
        × (shown w' ≡ shown w ++ bytes_at m 0 n)
        × (names w' ≡ names w)
        × Good w'

-- the names, each on a line
abbrev pub listing : List (List ℕ) → List ℕ
listing [] = []
listing (n ∷ ns) = n ++ (b'\n' ∷ listing ns)

bytes_at-snoc : (m : Mem) (p n : ℕ) → bytes_at m p (n + 1) ≡ bytes_at m p n ++ (m (p + n) ∷ [])
bytes_at-snoc m p zero = ground arith
bytes_at-snoc m p (suc n) = ground (arith, bytes_at-snoc m (p + 1) n)

-- the bytes with a line end stored after them
bytes_at-line :
    (m : Mem) (n : ℕ) → bytes_at (update m n b'\n') 0 (n + 1) ≡ bytes_at m 0 n ++ (b'\n' ∷ [])
bytes_at-line m n =
    let before : bytes_at (update m n b'\n') 0 n ≡ bytes_at m 0 n =
      bytes_at-eq m (update m n b'\n') 0 n (λ i p. ground arith) in
    let last : update m n b'\n' (0 + n) ≡ b'\n' = ground arith in
    bytes_at-snoc (update m n b'\n') 0 n ∙ ap₂ (λ l x. l ++ (x ∷ [])) before last

module _ {W : Type 0} (c : Calls W) (fd : ℕ) (Good : W → Type 0) (names : W → List (List ℕ))
    (shown : W → List ℕ) (dir : Lists c fd Good names shown) where
  ls_round_end :
      (m : Mem) (w : W)
      → Good w
      → IsBytes m
      → names w ≡ []
      → (w' : W) × (ls_round c fd m w ≡ some (exits 0 w')) × (shown w' ≡ shown w)
  unfolding ls_round
  ls_round_end m w good is_bytes e =
      let (m1, w1, read, kept) = dir.at_end m w good is_bytes e in (w1, ground (arith, read), kept)

  ls_round_more :
      (m : Mem) (w : W) (n : List ℕ) (ns : List (List ℕ))
      → Good w
      → IsBytes m
      → names w ≡ n ∷ ns
      → (m' : Mem) × (w' : W) × (ls_round c fd m w ≡ some (again m' w'))
        × (names w' ≡ ns)
        × (shown w' ≡ shown w ++ (n ++ (b'\n' ∷ [])))
        × Good w'
        × IsBytes m'
  unfolding ls_round
  ls_round_more m w n ns good is_bytes e =
      let (m1, w1, read, bytes, some_bytes, short, next, kept, good1, is_bytes1) =
        dir.reads m w n ns good is_bytes e in
      let ended : Mem = update m1 (length n) b'\n' in
      let ended-IsBytes : IsBytes ended = λ q. ground (arith, is_bytes1 q) in
      let (w2, r, wrote, fine, said, same, good2) =
        dir.writes ended (length n + 1) w1 good1 ended-IsBytes (omega (arith, short)) in
      let wide : u32 (length n + 1) ≡ length n + 1 = omega (arith, short) in
      let is_line : bytes_at ended 0 (length n + 1) ≡ n ++ (b'\n' ∷ []) =
        bytes_at-line m1 (length n) ∙ ap (λ l. l ++ (b'\n' ∷ [])) bytes in
      (
        ended,
        w2,
        ground (arith, read, short, some_bytes, wrote, fine, wide),
        same ∙ next,
        said ∙ ap₂ (λ a b. a ++ b) kept is_line,
        good2,
        ended-IsBytes,
      )

  ls_loop_lem :
      (f : ℕ) (ns : List (List ℕ)) (m : Mem) (w : W)
      → Good w
      → IsBytes m
      → names w ≡ ns
      → length ns < f
      → (w' : W) × (forever c f (ls_round c fd) m w ≡ some (w', 0))
        × (shown w' ≡ shown w ++ listing ns)
  unfolding forever
  ls_loop_lem zero ns m w good is_bytes e fuel = absurd (omega arith)
  ls_loop_lem (suc f) [] m w good is_bytes e fuel =
      let (w', round, kept) = ls_round_end m w good is_bytes e in
      (w', ground (arith, round), kept ∙ sym (append-nil (shown w)))
  ls_loop_lem (suc f) (n ∷ ns) m w good is_bytes e fuel =
      let (m1, w1, round, next, kept, good1, is_bytes1) = ls_round_more m w n ns good is_bytes e in
      let (w', ran, said) = ls_loop_lem f ns m1 w1 good1 is_bytes1 next (omega arith) in
      (
        w',
        ground (arith, round, ran),
        said
            ∙ ap (λ l. l ++ listing ns) kept
            ∙ append_assoc (shown w) (n ++ (b'\n' ∷ [])) (listing ns)
            ∙ ap (λ l. shown w ++ l) (append_assoc n (b'\n' ∷ []) (listing ns)),
      )

  -- `ls`, with the directory opened, ends with status 0 once its fuel is more than the names, and has
  -- written the names, in order and each on a line, and nothing else.
  pub ls_lem :
      (f : ℕ) (buf : Mem) (w w1 : W)
      → c.ece391_open (text ".") w ≡ (w1, fd)
      → fd ≢ minus_one
      → Good w1
      → IsBytes buf
      → length (names w1) < f
      → (w' : W) × (ls c f buf w ≡ some (w', 0)) × (shown w' ≡ shown w1 ++ listing (names w1))
  unfolding ls
  ls_lem f buf w w1 opens far good is_bytes fuel =
      let (w', ran, said) = ls_loop_lem f (names w1) buf w1 good is_bytes refl fuel in
      (w', ground (arith, opens, far, ran), said)
