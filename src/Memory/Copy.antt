-- ===== src/Memory/Copy.antt =====
-- What the block operations of student-distrib/lib.c leave at each address.
use mpf_cker_os.Base.{ℕ, zero, suc, ◌+◌, ◌-◌, ◌*◌, ◌/◌, ◌%◌, ◌≤◌, ◌≡◌, ◌⊎◌, arith}
use mpf_cker_os.Base.{Mem, update, inside, if◌then◌else◌}
use mpf_cker_os.Memory.{copy_bytes, copy_back, move_dword, copy_dwords, memcpy_aligned, memcpy}
use mpf_cker_os.Memory.{memmove, fill_bytes, fill_dwords, memset_aligned, memset_loop, memset}

-- the memory after a move of `n` bytes from `s` to `d`
abbrev pub moved : Mem → ℕ → ℕ → ℕ → Mem
moved m d s n q = if inside d n q then m (s + q - d) else m q

abbrev Clear : ℕ → ℕ → ℕ → Type 0
Clear d s n = (d ≤ s) ⊎ (s + n ≤ d)

pub copy_bytes-moved :
    (m : Mem) (d s n q : ℕ) → (d ≤ s) ⊎ (s + n ≤ d) → copy_bytes m d s n q ≡ moved m d s n q
unfolding copy_bytes
copy_bytes-moved m d s zero q h = ground arith
copy_bytes-moved m d s (suc n) q h =
    ground (arith, copy_bytes-moved (update m d (m s)) (d + 1) (s + 1) n q)

copy_back-moved : (m : Mem) (d s n q : ℕ) → s ≤ d → copy_back m d s n q ≡ moved m d s n q
unfolding copy_back
copy_back-moved m d s zero q h = ground arith
copy_back-moved m d s (suc n) q h =
    ground (arith, copy_back-moved (update m (d + n) (m (s + n))) d s n q)

-- `memmove` moves the block whatever the overlap, and changes no other byte.
pub memmove_lem : (m : Mem) (d s n q : ℕ) → memmove m d s n q ≡ moved m d s n q
unfolding memmove
memmove_lem m d s n q = ground (arith, copy_bytes-moved m d s n q, copy_back-moved m d s n q)

move_dword-moved :
    (m : Mem) (d s q : ℕ) → (d ≤ s) ⊎ (s + 4 ≤ d) → move_dword m d s q ≡ moved m d s 4 q
unfolding move_dword
move_dword-moved m d s q h = ground arith

copy_dwords-moved :
    (m : Mem) (d s k q : ℕ)
    → (d ≤ s) ⊎ (s + 4 * k ≤ d)
    → copy_dwords m d s k q ≡ moved m d s (4 * k) q
unfolding copy_dwords
copy_dwords-moved m d s zero q h = ground arith
copy_dwords-moved m d s (suc k) q h = ground (
  arith,
  copy_dwords-moved (move_dword m d s) (d + 4) (s + 4) k q,
  move_dword-moved m d s q,
  move_dword-moved m d s (s + q - d),
)

memcpy_aligned-moved :
    (m : Mem) (d s n q : ℕ) → (d ≤ s) ⊎ (s + n ≤ d) → memcpy_aligned m d s n q ≡ moved m d s n q
unfolding memcpy_aligned
memcpy_aligned-moved m d s n q h = ground (
  arith,
  copy_bytes-moved (copy_dwords m d s (n / 4)) (d + 4 * (n / 4)) (s + 4 * (n / 4)) (n % 4) q,
  copy_dwords-moved m d s (n / 4) q,
  copy_dwords-moved m d s (n / 4) (s + q - d),
)

-- `memcpy` moves the block if it does not overlap its source from above, and changes no other byte.
pub memcpy_lem :
    (m : Mem) (d s n q : ℕ) → (d ≤ s) ⊎ (s + n ≤ d) → memcpy m d s n q ≡ moved m d s n q
unfolding memcpy
memcpy_lem m d s zero q h = ground arith
memcpy_lem m d s (suc n) q h =
    ground (
      arith,
      memcpy_aligned-moved m d s (suc n) q,
      memcpy_lem (update m d (m s)) (d + 1) (s + 1) n q,
    )

fill_bytes_lem : (m : Mem) (d c n q : ℕ) → fill_bytes m d c n q ≡ (if inside d n q then c else m q)
unfolding fill_bytes
fill_bytes_lem m d c zero q = ground arith
fill_bytes_lem m d c (suc n) q = ground (arith, fill_bytes_lem (update m d c) (d + 1) c n q)

fill_dwords_lem :
    (m : Mem) (d c k q : ℕ) → fill_dwords m d c k q ≡ (if inside d (4 * k) q then c else m q)
unfolding fill_dwords
fill_dwords_lem m d c zero q = ground arith
fill_dwords_lem m d c (suc k) q = ground (
  arith,
  fill_dwords_lem (update (update (update (update m d c) (d + 1) c) (d + 2) c) (d + 3) c) (d + 4) c
      k q,
)

memset_loop_lem :
    (m : Mem) (d c n q : ℕ) → memset_loop m d c n q ≡ (if inside d n q then c else m q)
unfolding memset_loop memset_aligned
memset_loop_lem m d c zero q = ground arith
memset_loop_lem m d c (suc n) q = ground (
  arith,
  fill_bytes_lem (fill_dwords m d c (suc n / 4)) (d + 4 * (suc n / 4)) c (suc n % 4) q,
  fill_dwords_lem m d c (suc n / 4) q,
  memset_loop_lem (update m d c) (d + 1) c n q,
)

-- `memset` writes the low byte of its argument to the block, and changes no other byte.
pub memset_lem :
    (m : Mem) (d c n q : ℕ) → memset m d c n q ≡ (if inside d n q then c % 256 else m q)
unfolding memset
memset_lem m d c n q = memset_loop_lem m d (c % 256) n q
