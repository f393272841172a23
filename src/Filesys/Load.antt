-- ===== src/Filesys/Load.antt =====
-- `read_data` of student-distrib/filesys.c from the start of a file by whole blocks, as when a program
-- is loaded.
use mpf_cker_os.Base.{
  ℕ, zero, suc, ◌+◌, ◌-◌, ◌*◌, ◌/◌, ◌%◌, ◌^◌, ◌≤◌, ◌<◌, min, ◌≡◌, sym, ap, ap₂, ◌∙◌, subst, ◌⊎◌,
  some, arith, if◌then◌else◌, Mem, inside, dec_lt,
}
use mpf_cker_os.Memory.{memcpy}
use mpf_cker_os.Filesys.{
  Filesys, read_loop, read_data, file_length, block_addr, block_num, inode_addr, load32,
}
use mpf_cker_os.Filesys.Chunk.{curr_length_blocks}
use mpf_cker_os.Filesys.Read.{file_byte}
use mpf_cker_os.Filesys.Blocks.{Copied, kept, Copied-start, Copied-suc, Copied-at}

-- the end of the file system image
abbrev pub image_end : Filesys → ℕ
image_end fs = fs.start_addr + 4096 * (1 + fs.numinodes + fs.numblocks)

-- the blocks that a file of `eof` bytes takes
abbrev pub blocks : ℕ → ℕ
blocks eof = (eof + 4095) / 4096

-- The index node and the blocks of a file lie in the image, and the `count` blocks of memory at
-- `dest` lie off it.
pub record IsLaid (m : Mem) (fs : Filesys) (inode dest count : ℕ) : Type 0 where
  pub bytes : (q : ℕ) → m q < 256
  pub known : inode < fs.numinodes
  pub most : blocks (file_length m fs inode) ≤ 1023
  pub block : (k : ℕ) → k < blocks (file_length m fs inode) → block_num m fs inode k < fs.numblocks
  pub apart : (dest + 4096 * count ≤ fs.start_addr) ⊎ (image_end fs ≤ dest)
  pub words : 4096 * count < 2 ^ 32

module _ (m : Mem) (fs : Filesys) (inode dest count : ℕ) (laid : IsLaid m fs inode dest count) where
  abbrev eof : ℕ
  eof = file_length m fs inode

  abbrev Done : Mem → ℕ → Type 0
  Done mj j =
      Copied m fs.start_addr (image_end fs) dest count (file_byte m fs inode) laid.apart mj j

  image_kept :
      (mj : Mem) (j a : ℕ)
      → Done mj j
      → j ≤ count
      → fs.start_addr ≤ a
      → a < image_end fs
      → mj a ≡ m a
  image_kept mj j a =
      kept m fs.start_addr (image_end fs) dest count (file_byte m fs inode) laid.apart mj j a

  word_kept :
      (mj : Mem) (j a : ℕ)
      → Done mj j
      → j ≤ count
      → fs.start_addr ≤ a
      → a + 4 ≤ image_end fs
      → load32 mj a ≡ load32 m a
  word_kept mj j a d room lo hi = omega (
    arith,
    image_kept mj j a d room lo (omega arith),
    image_kept mj j (a + 1) d room (omega arith) (omega arith),
    image_kept mj j (a + 2) d room (omega arith) (omega arith),
    image_kept mj j (a + 3) d room (omega arith) (omega arith),
  )

  block_num_kept :
      (mj : Mem) (j k : ℕ)
      → Done mj j
      → j ≤ count
      → k < 1023
      → block_num mj fs inode k ≡ block_num m fs inode k
  block_num_kept mj j k d room h =
      word_kept mj j (inode_addr fs inode + 4 + 4 * k) d room (omega arith)
        (let n = laid.known in omega arith)

  -- the position in memory of the file's block `j`
  abbrev block_at : ℕ → ℕ
  block_at j = block_addr fs (block_num m fs inode j)

  file_byte-block : (j r : ℕ) → r < 4096 → file_byte m fs inode (4096 * j + r) ≡ m (block_at j + r)
  file_byte-block j r h =
      let whole : (4096 * j + r) / 4096 ≡ j = omega arith in
      let rest : (4096 * j + r) % 4096 ≡ r = omega arith in
      ap₂ (λ k o. m (block_addr fs (block_num m fs inode k) + o)) whole rest

  abbrev from_disk : Mem → ℕ → ℕ
  from_disk mj j = block_addr fs (block_num mj fs inode (4096 * j / 4096)) + 0 % 4096

  from_disk-block_at :
      (mj : Mem) (j : ℕ) → Done mj j → j ≤ count → j < 1023 → from_disk mj j ≡ block_at j
  from_disk-block_at mj j d room h =
      let whole : 4096 * j / 4096 ≡ j = omega arith in
      let same : block_num mj fs inode (4096 * j / 4096) ≡ block_num m fs inode j =
        ap (block_num mj fs inode) whole ∙ block_num_kept mj j j d room h in
      omega (arith, ap (block_addr fs) same)

  Done-suc :
      (mj : Mem) (j : ℕ)
      → Done mj j
      → j < count
      → j < blocks eof
      → Done (memcpy mj (dest + 4096 * j) (from_disk mj j) 4096) (j + 1)
  Done-suc mj j d room more =
      let few : j < 1023 = (let b = laid.most in omega arith) in
      let in_image = laid.block j more in
      subst (λ p. Done (memcpy mj (dest + 4096 * j) p 4096) (j + 1))
        (sym (from_disk-block_at mj j d (omega arith) few))
        (Copied-suc m fs.start_addr (image_end fs) dest count (file_byte m fs inode) laid.apart mj j
          (block_at j) d room (omega arith) (omega arith) (file_byte-block j))

  read_loop-suc :
      (f k j : ℕ) (mj : Mem)
      → 4096 * j < eof
      → j + suc k ≤ count
      → read_loop (suc f) mj fs inode 0 eof (dest + 4096 * j) (4096 * suc k) (4096 * j)
        ≡ read_loop f
            (memcpy mj (dest + 4096 * j) (from_disk mj j) 4096)
            fs
            inode
            0
            eof
            (dest + 4096 * (j + 1))
            (4096 * k)
            (4096 * (j + 1))
  unfolding read_loop
  read_loop-suc f k j mj h room = let w = laid.words in ground (arith, curr_length_blocks k 0 eof)

  load_loop :
      (f k j : ℕ) (mj : Mem)
      → Done mj j
      → j + k ≡ count
      → k < f
      → j ≤ blocks eof
      → (m' : Mem) × (b : ℕ) × (read_loop f mj fs inode 0 eof
            (dest + 4096 * j)
            (4096 * k)
            (4096 * j)
          ≡ some (m', 4096 * b))
        × (b ≡ min count (blocks eof))
        × Done m' b
  load_loop zero k j mj d e p below = absurd (omega arith)
  load_loop (suc f) zero j mj d e p below =
      (mj, j, unfold read_loop in ground arith, omega arith, d)
  load_loop (suc f) (suc k) j mj d e p below = elim (dec_lt (4096 * j) eof) [
    | yes more ↦
        let (m', b, ran, few, d') =
          load_loop f k (j + 1) (memcpy mj (dest + 4096 * j) (from_disk mj j) 4096)
            (Done-suc mj j d (omega arith) (omega arith)) (omega arith) (omega arith)
            (omega arith) in
        (m', b, read_loop-suc f k j mj more (omega arith) ∙ ran, few, d')
    | no over ↦ (mj, j, unfold read_loop in ground arith, omega arith, d)
  ]

  -- A read of `count` blocks from the start of a file ends, with fuel for the blocks, and copies the
  -- blocks of the file in order, as many as fit. The result is the size of these blocks, not that of
  -- the file; no other memory is changed.
  pub read_data-blocks :
      (f : ℕ)
      → count < f
      → (m' : Mem) × (b : ℕ) × (read_data f m fs inode 0 dest (4096 * count) ≡ some (m', 4096 * b))
        × (b ≡ min count (blocks eof))
        × ((q : ℕ)
            → m' q ≡ (if inside dest (4096 * b) q then file_byte m fs inode (q - dest) else m q))
  unfolding read_data
  read_data-blocks f p =
      let (m', b, ran, few, d) =
        load_loop f count 0 m
          (Copied-start m fs.start_addr (image_end fs) dest count (file_byte m fs inode) laid.apart)
          (omega arith) p (omega arith) in
      let w = laid.words in
      let n = laid.known in
      let ran' : read_loop f m fs inode 0 eof dest (4096 * count) 0 ≡ some (m', 4096 * b) =
        ground arith in
      (
        m',
        b,
        ground (arith, ran'),
        few,
        Copied-at m fs.start_addr (image_end fs) dest count (file_byte m fs inode) laid.apart m' b
            d,
      )
