-- ===== src/Filesys/Blocks.antt =====
-- Copying blocks out of the file system image of student-distrib/filesys.c, one after the other.
use mpf_cker_os.Base.{ℕ, ◌+◌, ◌-◌, ◌*◌, ◌≤◌, ◌<◌, ◌≡◌, ◌⊎◌, arith, if◌then◌else◌, Mem, inside}
use mpf_cker_os.Memory.{memcpy}
use mpf_cker_os.Memory.Copy.{memcpy_lem}

-- The image is the addresses from `lo` up to `hi`, and `count` blocks of room lie off it at `dest`.
module _ (m : Mem) (lo hi dest count : ℕ) (byte : ℕ → ℕ)
    (apart : (dest + 4096 * count ≤ lo) ⊎ (hi ≤ dest)) where
  -- the first `j` blocks have been copied
  pub Copied : Mem → ℕ → Type 0
  Copied mj j = (q : ℕ) → mj q ≡ (if inside dest (4096 * j) q then byte (q - dest) else m q)

  pub kept : (mj : Mem) (j a : ℕ) → Copied mj j → j ≤ count → lo ≤ a → a < hi → mj a ≡ m a
  unfolding Copied
  kept mj j a c room above below = ground (arith, c a)

  pub Copied-start : Copied m 0
  unfolding Copied
  Copied-start q = ground arith

  pub Copied-suc :
      (mj : Mem) (j pos : ℕ)
      → Copied mj j
      → j < count
      → lo ≤ pos
      → pos + 4096 ≤ hi
      → ((r : ℕ) → r < 4096 → byte (4096 * j + r) ≡ m (pos + r))
      → Copied (memcpy mj (dest + 4096 * j) pos 4096) (j + 1)
  unfolding Copied
  Copied-suc mj j pos c room above below is_byte q = ground (
    arith,
    memcpy_lem mj (dest + 4096 * j) pos 4096 q,
    is_byte (q - (dest + 4096 * j)),
    kept mj j (pos + (q - (dest + 4096 * j))) c,
    c q,
  )

  pub Copied-at :
      (mj : Mem) (j : ℕ)
      → Copied mj j
      → (q : ℕ) → mj q ≡ (if inside dest (4096 * j) q then byte (q - dest) else m q)
  unfolding Copied
  Copied-at mj j c q = c q
