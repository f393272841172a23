-- ===== src/Filesys/Image.antt =====
-- A small image of a file system, as the boot loader leaves it.
use mpf_cker_os.Base.{ℕ, ◌<◌, [], ◌∷◌, arith, Mem, place}
use mpf_cker_os.Strings.{codes}
use mpf_cker_os.Filesys.{Filesys, no_dentry}

-- the image at 4096: two entries, one index node, two blocks; the file "a" is 5 bytes in block 1
abbrev image : Mem
image =
    place
      (place
        (place
          (place
            (place (place (λ q. 0) 4096 (2 ∷ 0 ∷ 0 ∷ 0 ∷ 1 ∷ 0 ∷ 0 ∷ 0 ∷ 2 ∷ [])) 4160 (codes "."))
            4192 (1 ∷ []))
          4224 (97 ∷ []))
        4256 (2 ∷ []))
      8192 (5 ∷ 0 ∷ 0 ∷ 0 ∷ 1 ∷ [])

abbrev pub disk : Mem
disk = place (place image 16384 (codes "hello")) 100 (codes "a")

abbrev pub fs : Filesys
fs = record {
  start_addr = 4096;
  numdentries = 2;
  numinodes = 1;
  numblocks = 2;
  startdentry = 4160;
  curfile = 1;
  curr_dentry = no_dentry;
}

pub disk_bytes : (q : ℕ) → disk q < 256
disk_bytes q = ground arith
