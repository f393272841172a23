-- ===== src/Filesys/Same.antt =====
-- What of the image in memory a file depends on, student-distrib/filesys.c.
use mpf_cker_os.Base.{ℕ, ◌+◌, ◌*◌, ◌/◌, ◌%◌, ◌≤◌, ◌<◌, ◌≡◌, ap, ◌∙◌, arith, Mem}
use mpf_cker_os.Filesys.{Filesys, file_length, inode_addr, block_addr, load32}
use mpf_cker_os.Filesys.Read.{file_byte, position}

load32-eq :
    (m m' : Mem) (a : ℕ) → ((j : ℕ) → j < 4 → m' (a + j) ≡ m (a + j)) → load32 m' a ≡ load32 m a
load32-eq m m' a h = ground (arith, h 0, h 1, h 2, h 3)

-- the index node of file `i` and its blocks lie between the start of the image and `limit`
pub record IsImage (m : Mem) (fs : Filesys) (i limit : ℕ) : Type 0 where
  pub known : i ≤ fs.numinodes
  pub size : file_length m fs i ≤ 4096 * 1023
  pub node : inode_addr fs i + 4096 ≤ limit
  pub blocks : (p : ℕ) → p < file_length m fs i → position m fs i p + 4096 ≤ limit

-- `m'` has the image of `m`
pub record SameImage (m : Mem) (fs : Filesys) (limit : ℕ) (m' : Mem) : Type 0 where
  pub same : (q : ℕ) → fs.start_addr ≤ q → q < limit → m' q ≡ m q

module _ (m : Mem) (fs : Filesys) (i limit : ℕ) (image : IsImage m fs i limit) (m' : Mem)
    (h : SameImage m fs limit m') where
  pub file_length-eq : file_length m' fs i ≡ file_length m fs i
  file_length-eq =
      load32-eq m m' (inode_addr fs i)
        (λ j p. h.same (inode_addr fs i + j) (omega arith) (omega (arith, image.node)))

  module _ (p : ℕ) (before : p < file_length m fs i) where
    pub position-eq : position m' fs i p ≡ position m fs i p
    position-eq =
        let low : p / 4096 < 1023 = omega (arith, image.size) in
        ap (λ b. block_addr fs b + p % 4096)
          (load32-eq m m' (inode_addr fs i + 4 + 4 * (p / 4096)) (λ j l.
            h.same (inode_addr fs i + 4 + 4 * (p / 4096) + j) (omega arith)
              (omega (arith, image.node, low))))

    pub file_byte-eq : file_byte m' fs i p ≡ file_byte m fs i p
    file_byte-eq =
        ap m' position-eq
        ∙ h.same (position m fs i p) (omega arith) (omega (arith, image.blocks p before))
