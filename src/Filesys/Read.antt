-- ===== src/Filesys/Read.antt =====
-- `read_data` of student-distrib/filesys.c: it ends, its error cases, and a read of less than a block.
use native.Mathlib.Nat.{add_assoc}
use mpf_cker_os.Base.{
  ℕ, zero, suc, ◌+◌, ◌-◌, ◌/◌, ◌%◌, ◌^◌, ◌≤◌, ◌<◌, min, ◌≡◌, sym, ap, ap₂, ◌∙◌, ◌⊎◌, inl, inr, not,
  ◌&&◌, some, arith, ltb, ◌==◌, if◌then◌else◌, Bool-cases, u32, sub32, minus_one, Mem, inside,
  length, dec_lt,
}
use mpf_cker_os.Memory.{memcpy}
use mpf_cker_os.Memory.Copy.{memcpy_lem}
use mpf_cker_os.Filesys.{
  Filesys, read_loop, read_data, curr_length, file_length, block_addr, block_num, load32,
  inode_addr,
}
use mpf_cker_os.Filesys.Chunk.{curr_length_bounds, curr_length_short}

module _ (fs : Filesys) (inode offset eof : ℕ) (end : eof < 2 ^ 32) where
  read_loop_total :
      (f : ℕ) (m : Mem) (buf length eof_count : ℕ)
      → length < f
      → length < 2 ^ 32
      → offset < eof
      → (r : Mem × ℕ) × (read_loop f m fs inode offset eof buf length eof_count ≡ some r)
  unfolding read_loop
  read_loop_total zero m buf length eof_count p word before = absurd (omega arith)
  read_loop_total (suc f) m buf length eof_count p word before =
      elim (Bool-cases (not (length == 0) && ltb eof_count eof)) [
        | inl more ↦
            let n = curr_length length offset eof in
            let (pos, most) = curr_length_bounds length offset eof (ground arith) word before end in
            let (r, e) =
              read_loop_total f
                (memcpy m buf
                  (block_addr fs (block_num m fs inode (eof_count / 4096)) + offset % 4096) n)
                (buf + n) (sub32 length n) (u32 (eof_count + n)) (omega arith) (omega arith)
                before in
            (r, rw more e)
        | inr done ↦ ((m, eof_count), rw done)
      ]

  read_loop_past_end :
      (f : ℕ) (m : Mem) (buf length : ℕ)
      → eof ≤ offset
      → read_loop (suc f) m fs inode offset eof buf length offset ≡ some (m, offset)
  unfolding read_loop
  read_loop_past_end f m buf length h = ground arith

pub load32-lt : (m : Mem) (a : ℕ) → ((q : ℕ) → m q < 256) → load32 m a < 2 ^ 32
load32-lt m a bytes = omega (arith, bytes a, bytes (a + 1), bytes (a + 2), bytes (a + 3))

-- the byte at position `k` of a file
abbrev pub file_byte : Mem → Filesys → ℕ → ℕ → ℕ
file_byte m fs inode k = m (block_addr fs (block_num m fs inode (k / 4096)) + k % 4096)

module _ (m : Mem) (fs : Filesys) (inode : ℕ) where
  -- An index node beyond the count in the boot block is refused with -1.
  pub read_data_bad_inode :
      (f offset buf length : ℕ)
      → fs.numinodes < inode
      → read_data f m fs inode offset buf length ≡ some (m, minus_one)
  unfolding read_data
  read_data_bad_inode f offset buf length h = ground arith

  module _ (bytes : (q : ℕ) → m q < 256) (known : inode ≤ fs.numinodes) where
    -- At the end of the file or past it `read_data` returns 0 and copies nothing.
    pub read_data_past_end :
        (f offset buf length : ℕ)
        → file_length m fs inode ≤ offset
        → read_data (suc f) m fs inode offset buf length ≡ some (m, 0)
    unfolding read_data
    read_data_past_end f offset buf length h = ground (
      arith,
      read_loop_past_end fs inode offset (file_length m fs inode)
          (load32-lt m (inode_addr fs inode) bytes) f m buf length h,
    )

    -- `read_data` ends, with fuel for the number of bytes that are asked for.
    pub read_data_total :
        (f offset buf length : ℕ)
        → length < f
        → length < 2 ^ 32
        → (r : Mem × ℕ) × (read_data f m fs inode offset buf length ≡ some r)
    unfolding read_data
    read_data_total f offset buf length p word = elim (dec_lt offset (file_length m fs inode)) [
      | yes before ↦
          let (r, e) =
            read_loop_total fs inode offset (file_length m fs inode)
              (load32-lt m (inode_addr fs inode) bytes) f m buf length offset p word before in
          ((r.0, sub32 r.1 offset), ground (arith, e))
      | no after ↦ (
        (m, 0),
        ground (
          arith,
          read_loop_past_end fs inode offset (file_length m fs inode)
              (load32-lt m (inode_addr fs inode) bytes) (f - 1) m buf length,
        ),
      )
    ]

-- where the block that holds position `offset` of the file continues
abbrev pub position : Mem → Filesys → ℕ → ℕ → ℕ
position m fs inode offset = block_addr fs (block_num m fs inode (offset / 4096)) + offset % 4096

file_byte-position :
    (m : Mem) (fs : Filesys) (inode offset r : ℕ)
    → offset % 4096 + r < 4096
    → file_byte m fs inode (offset + r) ≡ m (position m fs inode offset + r)
file_byte-position m fs inode offset r h =
    let same_block : (offset + r) / 4096 ≡ offset / 4096 = omega arith in
    let further : (offset + r) % 4096 ≡ offset % 4096 + r = omega arith in
    ap₂ (λ k o. m (block_addr fs (block_num m fs inode k) + o)) same_block further
    ∙ ap m
        (sym (add_assoc (block_addr fs (block_num m fs inode (offset / 4096))) (offset % 4096) r))

copied :
    (m : Mem) (from buf n : ℕ) (byte : ℕ → ℕ)
    → n ≤ 4096
    → (buf + 4096 ≤ from) ⊎ (from + 4096 ≤ buf)
    → ((r : ℕ) → r < n → byte r ≡ m (from + r))
    → (q : ℕ) → memcpy m buf from n q ≡ (if inside buf n q then byte (q - buf) else m q)
copied m from buf n byte fits apart is_byte q =
    ground (arith, memcpy_lem m buf from n q, is_byte (q - buf))

-- a copy of `n` bytes of the block puts the file's bytes in the buffer
pub copied_block :
    (m : Mem) (fs : Filesys) (inode offset buf n : ℕ)
    → offset % 4096 + n ≤ 4096
    → (buf + 4096 ≤ position m fs inode offset) ⊎ (position m fs inode offset + 4096 ≤ buf)
    → (q : ℕ)
    → memcpy m buf (position m fs inode offset) n q
      ≡ (if inside buf n q then file_byte m fs inode (offset + (q - buf)) else m q)
copied_block m fs inode offset buf n fits apart =
    copied m (position m fs inode offset) buf n (λ r. file_byte m fs inode (offset + r))
      (omega arith) apart (λ r h. file_byte-position m fs inode offset r (omega arith))

module _ (m : Mem) (fs : Filesys) (inode offset buf length : ℕ) (bytes : (q : ℕ) → m q < 256)
    (known : inode ≤ fs.numinodes) (word : length + offset < 2 ^ 32) (short : length < 4096)
    (some_bytes : 0 < length) (before : offset < file_length m fs inode) where
  abbrev count : ℕ
  count = min length (file_length m fs inode - offset)

  read_loop_short :
      (f eof : ℕ)
      → offset < eof
      → eof < 2 ^ 32
      → let n = min length (eof - offset) in
        read_loop (suc (suc f)) m fs inode offset eof buf length offset
        ≡ some (memcpy m buf (position m fs inode offset) n, offset + n)
  unfolding read_loop
  read_loop_short f eof h end =
      ground (arith, curr_length_short length offset eof some_bytes short word h end)

  -- A read of less than a block before the end of the file is one copy, of the bytes that follow the
  -- position in memory, up to the end of the file.
  pub read_data_short :
      (f : ℕ)
      → read_data (suc (suc f)) m fs inode offset buf length
        ≡ some (memcpy m buf (position m fs inode offset) count, count)
  unfolding read_data
  read_data_short f = ground (
    arith,
    load32-lt m (inode_addr fs inode) bytes,
    read_loop_short f (file_length m fs inode) before,
  )

  -- A read that stays in one block returns the number of bytes asked for or left in the file,
  -- whichever is less, has the file's bytes in the buffer and changes no other memory, if the buffer
  -- does not overlap what is read.
  pub read_data_in_block :
      (f : ℕ)
      → offset % 4096 + length ≤ 4096
      → (buf + 4096 ≤ position m fs inode offset) ⊎ (position m fs inode offset + 4096 ≤ buf)
      → (m' : Mem) × (read_data (suc (suc f)) m fs inode offset buf length ≡ some (m', count))
        × ((q : ℕ)
            → m' q
              ≡ (if inside buf count q then file_byte m fs inode (offset + (q - buf)) else m q))
  read_data_in_block f fits apart = (
    memcpy m buf (position m fs inode offset) count,
    read_data_short f,
    copied_block m fs inode offset buf count (omega arith) apart,
  )
