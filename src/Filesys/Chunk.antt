-- ===== src/Filesys/Chunk.antt =====
-- How much one round of `read_data` of student-distrib/filesys.c copies.
use mpf_cker_os.Base.{ℕ, suc, ◌+◌, ◌-◌, ◌*◌, ◌^◌, ◌≤◌, ◌<◌, min, ◌≡◌, arith, length}
use mpf_cker_os.Filesys.{curr_length}

-- A round copies something, and at most what is left to copy.
pub curr_length_bounds :
    (length offset eof : ℕ)
    → 0 < length
    → length < 2 ^ 32
    → offset < eof
    → eof < 2 ^ 32
    → (0 < curr_length length offset eof) × (curr_length length offset eof ≤ length)
unfolding curr_length
curr_length_bounds length offset eof pos word before end = ground arith

-- Less than a block is cut at the end of the file.
pub curr_length_short :
    (length offset eof : ℕ)
    → 0 < length
    → length < 4096
    → length + offset < 2 ^ 32
    → offset < eof
    → eof < 2 ^ 32
    → curr_length length offset eof ≡ min length (eof - offset)
unfolding curr_length
curr_length_short length offset eof pos short word before end = ground arith

-- A whole number of blocks goes block by block.
pub curr_length_blocks : (k offset eof : ℕ) → curr_length (4096 * suc k) offset eof ≡ 4096
unfolding curr_length
curr_length_blocks k offset eof = ground arith
