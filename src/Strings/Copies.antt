-- ===== src/Strings/Copies.antt =====
-- What `strcpy` and `strncpy` of student-distrib/lib.c leave in memory.
use mpf_cker_os.Base.{
  ℕ, zero, suc, ◌+◌, ◌-◌, ◌≤◌, ◌<◌, ◌≡◌, ◌≢◌, ◌⊎◌, some, arith, ltb, if◌then◌else◌, Mem, update,
  inside,
}
use mpf_cker_os.Memory.Copy.{moved}
use mpf_cker_os.Strings.{strcpy_from, strcpy, strncpy_pad, strncpy_from, strncpy}
use mpf_cker_os.Strings.Length.{IsString}

strcpy_from_lem :
    (f : ℕ) (m : Mem) (dest src i n : ℕ)
    → IsString m (src + i) n
    → n < f
    → (dest + n < src) ⊎ (src + n < dest)
    → (m' : Mem) × (strcpy_from f m dest src i ≡ some m')
      × ((q : ℕ) → m' q ≡ moved m (dest + i) (src + i) (n + 1) q)
unfolding strcpy_from
strcpy_from_lem zero m dest src i n h p q = absurd (omega arith)
strcpy_from_lem (suc f) m dest src i zero h p q =
    (update m (dest + i) 0, ground (arith, h.ends), λ a. ground (arith, h.ends))
strcpy_from_lem (suc f) m dest src i (suc n) h p d =
    let (m', e, at) =
      strcpy_from_lem f (update m (dest + i) (m (src + i))) dest src (i + 1) n
        (record { ends = ground (arith, h.ends); before = λ j q. ground (arith, h.before (suc j)) })
        (omega arith) (ground arith) in
    (m', ground (arith, h.before 0), λ a. ground (arith, at a))

-- `strcpy` between strings that do not overlap copies the string with its null byte, and changes no
-- other byte.
pub strcpy_lem :
    (f : ℕ) (m : Mem) (dest src n : ℕ)
    → IsString m src n
    → n < f
    → (dest + n < src) ⊎ (src + n < dest)
    → (m' : Mem) × (strcpy f m dest src ≡ some m') × ((q : ℕ) → m' q ≡ moved m dest src (n + 1) q)
unfolding strcpy
strcpy_lem f m dest src n h p d =
    let (m', e, at) =
      strcpy_from_lem f m dest src 0 n
        (record { ends = ground (arith, h.ends); before = λ j q. ground (arith, h.before j) }) p
        d in
    (m', e, λ a. ground (arith, at a))

-- the bytes that `strncpy` stores: `k` of the source, then null bytes
abbrev pub padded : Mem → ℕ → ℕ → ℕ → ℕ → ℕ → ℕ
padded m dest src k n q =
    if inside dest n q then (if ltb q (dest + k) then m (src + q - dest) else 0) else m q

strncpy_pad_lem :
    (m : Mem) (dest i n q : ℕ)
    → strncpy_pad m dest i n q ≡ (if inside (dest + i) n q then 0 else m q)
unfolding strncpy_pad
strncpy_pad_lem m dest i zero q = ground arith
strncpy_pad_lem m dest i (suc n) q =
    ground (arith, strncpy_pad_lem (update m (dest + i) 0) dest (i + 1) n q)

strncpy_from_lem :
    (m : Mem) (dest src i k n q : ℕ)
    → k ≤ n
    → ((j : ℕ) → j < k → m (src + i + j) ≢ 0)
    → (k ≡ n) ⊎ (m (src + i + k) ≡ 0)
    → (dest + n ≤ src) ⊎ (src + n ≤ dest)
    → strncpy_from m dest src i n q ≡ padded m (dest + i) (src + i) k n q
unfolding strncpy_from
strncpy_from_lem m dest src i k zero q h b e d = ground arith
strncpy_from_lem m dest src i zero (suc n) q h b e d =
    ground (arith, strncpy_pad_lem m dest i (suc n) q)
strncpy_from_lem m dest src i (suc k) (suc n) q h b e d = ground (
  arith,
  b 0,
  strncpy_from_lem (update m (dest + i) (m (src + i))) dest src (i + 1) k n q (omega arith)
      (λ j p. ground (arith, b (suc j))) (ground arith) (ground arith),
)

-- `strncpy` between blocks that do not overlap stores the `k` bytes before the null byte, or all `n`
-- if there is none among them, then null bytes up to `n`, and changes no other byte.
pub strncpy_lem :
    (m : Mem) (dest src k n q : ℕ)
    → k ≤ n
    → ((j : ℕ) → j < k → m (src + j) ≢ 0)
    → (k ≡ n) ⊎ (m (src + k) ≡ 0)
    → (dest + n ≤ src) ⊎ (src + n ≤ dest)
    → strncpy m dest src n q ≡ padded m dest src k n q
unfolding strncpy
strncpy_lem m dest src k n q h b e d =
    ground
      (arith, strncpy_from_lem m dest src 0 k n q h (λ j p. ground (arith, b j)) (ground arith) d)
