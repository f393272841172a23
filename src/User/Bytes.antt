-- ===== src/User/Bytes.antt =====
-- Runs of bytes in memory, as the programs of syscalls/ read and write them.
use mpf_cker_os.Base.{
  ℕ, zero, suc, ◌+◌, ◌<◌, ◌≡◌, refl, ap, ap₂, ◌∙◌, ◌∷◌, ◌++◌, arith, Mem, bytes_at, place, IsBytes,
}

pub zero_add : (j : ℕ) → 0 + j ≡ j
zero_add j = omega arith

pub bytes_at-split :
    (m : Mem) (p a b : ℕ) → bytes_at m p (a + b) ≡ bytes_at m p a ++ bytes_at m (p + a) b
bytes_at-split m p zero b =
    let here : p ≡ p + 0 = omega arith in
    let none_first : 0 + b ≡ b = omega arith in
    ap (bytes_at m p) none_first ∙ ap (λ q. bytes_at m q b) here
bytes_at-split m p (suc a) b =
    let next : p + 1 + a ≡ p + suc a = omega arith in
    let more : suc a + b ≡ suc (a + b) = omega arith in
    ap (bytes_at m p) more
    ∙ ap (λ l. m p ∷ l)
        (bytes_at-split m (p + 1) a b ∙ ap (λ q. bytes_at m (p + 1) a ++ bytes_at m q b) next)

pub bytes_at-same :
    (m m' : Mem) (p q n : ℕ)
    → ((j : ℕ) → j < n → m (p + j) ≡ m' (q + j))
    → bytes_at m p n ≡ bytes_at m' q n
bytes_at-same m m' p q zero h = refl
bytes_at-same m m' p q (suc n) h =
    ap₂ (λ x l. x ∷ l) (ground (arith, h 0))
      (bytes_at-same m m' (p + 1) (q + 1) n (λ j l. ground (arith, h (suc j))))

pub place-IsBytes :
    (m m' : Mem) (p q n a : ℕ) → IsBytes m → IsBytes m' → place m p (bytes_at m' q n) a < 256
place-IsBytes m m' p q zero a h h' = h a
place-IsBytes m m' p q (suc n) a h h' =
    ground (arith, place-IsBytes m m' (p + 1) (q + 1) n a h h', h' q)
