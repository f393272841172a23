-- ===== src/Screen/Output.antt =====
-- `puts` of student-distrib/lib.c against the console.
use mpf_cker_os.Base.{
  ℕ, zero, suc, ◌+◌, ◌≤◌, ◌<◌, ◌≡◌, refl, ◌∙◌, subst, ◌⊎◌, false, some, List, [], ◌∷◌, arith,
  inside, bytes_at, bytes_at-eq,
}
use mpf_cker_os.Strings.Length.{IsString}
use mpf_cker_os.Screen.{Screen, putc, puts_from, puts, video}
use mpf_cker_os.Screen.Bounds.{putc_outside}
use mpf_cker_os.Screen.Refine.{OnScreen, view, putc-OnScreen, putc_refines}
use mpf_cker_os.Screen.Console.{Console, Same, next_line, put, put-Same, put_all}

pub Same-trans : {a b c : Console} → Same a b → Same b c → Same a c
Same-trans p q = record {
  col = p.col ∙ q.col;
  row = p.row ∙ q.row;
  grid = λ r k h l. p.grid r k h l ∙ q.grid r k h l;
}

put-row : (ch : ℕ) (t : Console) → t.row < 25 → (put ch t).row < 25
unfolding put next_line
put-row ch t h = ground arith

pub put_all-Same :
    (cs : List ℕ) {a b : Console} → a.row < 25 → Same a b → Same (put_all cs a) (put_all cs b)
unfolding put_all
put_all-Same [] h s = s
put_all-Same (c ∷ cs) {a} h s = put_all-Same cs (put-row c a h) (put-Same c h s)

module _ (p n : ℕ) (away : (p + n < video) ⊎ (video + 4000 ≤ p)) where
  -- the loop at index `i`, `a` being the address that it reads
  puts_from_lem :
      (f i k a : ℕ) (s : Screen)
      → i + k ≡ n
      → p + i ≡ a
      → IsString s.mem a k
      → k < f
      → OnScreen s
      → (t : Screen) × (puts_from f p i s ≡ some (n, t))
        × OnScreen t
        × Same (view t) (put_all (bytes_at s.mem a k) (view s))
        × ((q : ℕ) → inside video 4000 q ≡ false → t.mem q ≡ s.mem q)
  unfolding puts_from put_all
  puts_from_lem zero i k a s e e' str h v = absurd (omega arith)
  puts_from_lem (suc f) i zero a s e e' str h v = (
    s,
    ground (arith, str.ends),
    v,
    record { col = refl; row = refl; grid = λ r c h l. refl },
    λ q o. refl,
  )
  puts_from_lem (suc f) i (suc k) a s e e' str h v =
      let keeps : (j : ℕ) → p ≤ j → j ≤ p + n → (putc (s.mem a) s).mem j ≡ s.mem j =
        λ j lo hi. putc_outside (s.mem a) j v (ground arith) in
      let (t, ran, on, shows, outside) =
        puts_from_lem f (i + 1) k (a + 1) (putc (s.mem a) s) (omega arith) (omega arith)
          (record {
            ends = ground (arith, keeps (a + 1 + k), str.ends);
            before = λ j l. ground (arith, keeps (a + 1 + j), str.before (suc j));
          })
          (omega arith) (putc-OnScreen (s.mem a) v) in
      let same_bytes : bytes_at (putc (s.mem a) s).mem (a + 1) k ≡ bytes_at s.mem (a + 1) k =
        bytes_at-eq s.mem _ (a + 1) k (λ j l. keeps (a + 1 + j) (omega arith) (omega arith)) in
      let shows' : Same (view t) (put_all (bytes_at s.mem (a + 1) k) (view (putc (s.mem a) s))) =
        subst (λ cs. Same (view t) (put_all cs (view (putc (s.mem a) s)))) same_bytes shows in
      (
        t,
        ground (arith, str.before 0, ran),
        on,
        Same-trans shows' (
            put_all-Same (bytes_at s.mem (a + 1) k) (putc-OnScreen (s.mem a) v).row
              (putc_refines (s.mem a) v)),
        λ q o. outside q o ∙ putc_outside (s.mem a) q v o,
      )

  -- `puts` of a string that does not lie in the video memory ends with fuel for its length, returns
  -- that length, leaves the console as after its characters, and changes no memory off the screen.
  pub puts_lem :
      (f : ℕ) (s : Screen)
      → IsString s.mem p n
      → n < f
      → OnScreen s
      → (t : Screen) × (puts f p s ≡ some (n, t))
        × OnScreen t
        × Same (view t) (put_all (bytes_at s.mem p n) (view s))
        × ((q : ℕ) → inside video 4000 q ≡ false → t.mem q ≡ s.mem q)
  unfolding puts
  puts_lem f s str h v = puts_from_lem f 0 n p s (omega arith) (omega arith) str h v
