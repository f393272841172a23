-- ===== src/Memory.antt =====
-- `memset`, `memcpy` and `memmove` of student-distrib/lib.c, which are loops in inline assembly: a
-- loop of the assembly is a function over the registers that it changes. Addresses do not wrap.
pub mod Copy
pub mod Words
mod Tests
use mpf_cker_os.Base.{ℕ, zero, suc, ◌+◌, ◌*◌, ◌/◌, ◌%◌, ◌==◌, ltb, if◌then◌else◌, u8, Mem, update}

-- `rep movsb` with the direction flag clear, also the loop at `.memcpy_bottom`.
unfoldable pub copy_bytes : Mem → ℕ → ℕ → ℕ → Mem
copy_bytes m d s zero = m
copy_bytes m d s (suc n) = copy_bytes (update m d (m s)) (d + 1) (s + 1) n

-- `rep movsb` with the direction flag set, from the last byte down.
unfoldable pub copy_back : Mem → ℕ → ℕ → ℕ → Mem
copy_back m d s zero = m
copy_back m d s (suc n) = copy_back (update m (d + n) (m (s + n))) d s n

-- one `movsl`: four bytes are read, then four are written
unfoldable pub move_dword : Mem → ℕ → ℕ → Mem
move_dword m d s =
    update (update (update (update m d (m s)) (d + 1) (m (s + 1))) (d + 2) (m (s + 2))) (d + 3)
      (m (s + 3))

-- `rep movsl` over `k` words
unfoldable pub copy_dwords : Mem → ℕ → ℕ → ℕ → Mem
copy_dwords m d s zero = m
copy_dwords m d s (suc k) = copy_dwords (move_dword m d s) (d + 4) (s + 4) k

-- from `.memcpy_aligned` on, with `n` bytes left
unfoldable pub memcpy_aligned : Mem → ℕ → ℕ → ℕ → Mem
memcpy_aligned m d s n =
    copy_bytes (copy_dwords m d s (n / 4)) (d + 4 * (n / 4)) (s + 4 * (n / 4)) (n % 4)

-- the loop at `.memcpy_top`
unfoldable pub memcpy : Mem → ℕ → ℕ → ℕ → Mem
memcpy m d s zero = m
memcpy m d s (suc n) =
    let byte_first = memcpy (update m d (m s)) (d + 1) (s + 1) n in
    if d % 4 == 0 then memcpy_aligned m d s (suc n) else byte_first

unfoldable pub memmove : Mem → ℕ → ℕ → ℕ → Mem
memmove m d s n = if ltb s d then copy_back m d s n else copy_bytes m d s n

-- the byte stores of `memset`
unfoldable pub fill_bytes : Mem → ℕ → ℕ → ℕ → Mem
fill_bytes m d c zero = m
fill_bytes m d c (suc n) = fill_bytes (update m d c) (d + 1) c n

-- `rep stosl` of the byte `c` four times over
unfoldable pub fill_dwords : Mem → ℕ → ℕ → ℕ → Mem
fill_dwords m d c zero = m
fill_dwords m d c (suc k) =
    fill_dwords (update (update (update (update m d c) (d + 1) c) (d + 2) c) (d + 3) c) (d + 4) c k

unfoldable pub memset_aligned : Mem → ℕ → ℕ → ℕ → Mem
memset_aligned m d c n = fill_bytes (fill_dwords m d c (n / 4)) (d + 4 * (n / 4)) c (n % 4)

-- the loop at `.memset_top`, `c` a byte
unfoldable pub memset_loop : Mem → ℕ → ℕ → ℕ → Mem
memset_loop m d c zero = m
memset_loop m d c (suc n) =
    let byte_first = memset_loop (update m d c) (d + 1) c n in
    if d % 4 == 0 then memset_aligned m d c (suc n) else byte_first

unfoldable pub memset : Mem → ℕ → ℕ → ℕ → Mem
memset m d c n = memset_loop m d (u8 c) n

-- `rep stosw` with `n` words to go
unfoldable pub fill_words : Mem → ℕ → ℕ → ℕ → Mem
fill_words m d c zero = m
fill_words m d c (suc n) =
    fill_words (update (update m d (c % 256)) (d + 1) (c / 256 % 256)) (d + 2) c n

unfoldable pub memset_word : Mem → ℕ → ℕ → ℕ → Mem
memset_word m s c n = fill_words m s c n

-- `rep stosl` with `n` words of four bytes to go
unfoldable pub fill_longs : Mem → ℕ → ℕ → ℕ → Mem
fill_longs m d c zero = m
fill_longs m d c (suc n) =
    fill_longs
      (update
        (update (update (update m d (c % 256)) (d + 1) (c / 256 % 256)) (d + 2) (c / 65536 % 256))
        (d + 3) (c / 16777216 % 256))
      (d + 4) c n

unfoldable pub memset_dword : Mem → ℕ → ℕ → ℕ → Mem
memset_dword m s c n = fill_longs m s c n
