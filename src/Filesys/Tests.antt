-- ===== src/Filesys/Tests.antt =====
-- A small image and concrete runs of the file system.
use mpf_cker_os.Base.{
  ℕ, ◌+◌, ◌-◌, ◌*◌, ◌≡◌, refl, ◌↔◌, inl, inr, true, Option, none, some, List, [], ◌∷◌, ◌++◌, arith,
  if◌then◌else◌, minus_one, Mem, inside, bytes_at,
}
use mpf_cker_os.Memory.{memcpy, memcpy_aligned, copy_bytes, copy_dwords, move_dword}
use mpf_cker_os.Strings.{codes}
use mpf_cker_os.Filesys.{filesys_init, read_dentry_by_name, read_dentry_by_index}
use mpf_cker_os.Filesys.{read_data, read_loop, curr_length, dir_read, match_name}
use mpf_cker_os.Filesys.{copy_dentry}
use mpf_cker_os.Filesys.Image.{disk, fs, disk_bytes}
use mpf_cker_os.Filesys.Names.{SameName, match_name_iff}
use mpf_cker_os.Filesys.Lookup.{Found, read_dentry_by_name-Found}
use mpf_cker_os.Filesys.Read.{file_byte, read_data_total, read_data_past_end, read_data_bad_inode}
use mpf_cker_os.Filesys.Load.{IsLaid, read_data-blocks}
use mpf_cker_os.Filesys.Listing.{HasLength, read_dentry_by_index_lem, dir_read_lem}

init_reads_boot_block : filesys_init disk 4096 ≡ fs
unfolding filesys_init
init_reads_boot_block = refl

bytes_read : Option (Mem × ℕ) → ℕ → List ℕ
bytes_read none p = []
bytes_read (some (m, n)) p = n ∷ bytes_at m p 6

read_runs : bytes_read (read_data 9 disk fs 0 1 200 8) 200 ≡ 4 ∷ codes "ello" ++ (0 ∷ 0 ∷ [])
unfolding bytes_read read_data read_loop curr_length memcpy memcpy_aligned copy_bytes copy_dwords
    move_dword
read_runs = refl

a-SameName : SameName disk 4224 100
a-SameName = record {
  last = 1;
  fits = omega arith;
  agree = λ j h. ground arith;
  inner = λ j h. ground arith;
  ends = inl refl;
}

laid : IsLaid disk fs 0 20480 2
laid = record {
  bytes = disk_bytes;
  known = omega arith;
  most = omega arith;
  block = λ k h. let e : k ≡ 0 = omega arith in rw e (omega arith);
  apart = inr (omega arith);
  words = omega arith;
}

read_data_total_example : (r : Mem × ℕ) × (read_data 9 disk fs 0 1 200 8 ≡ some r)
read_data_total_example =
    read_data_total disk fs 0 disk_bytes (omega arith) 9 1 200 8 (omega arith) (omega arith)

read_data_past_end_example : read_data 9 disk fs 0 5 200 8 ≡ some (disk, 0)
read_data_past_end_example =
    read_data_past_end disk fs 0 disk_bytes (omega arith) 8 5 200 8 (omega arith)

read_data_bad_inode_example : read_data 9 disk fs 2 0 200 8 ≡ some (disk, minus_one)
read_data_bad_inode_example = read_data_bad_inode disk fs 2 9 0 200 8 (omega arith)

read_data-blocks_example :
    (m' : Mem) × (b : ℕ) × (read_data 9 disk fs 0 0 20480 8192 ≡ some (m', 4096 * b))
    × (b ≡ 1)
    × ((q : ℕ)
        → m' q ≡ (if inside 20480 (4096 * b) q then file_byte disk fs 0 (q - 20480) else disk q))
read_data-blocks_example = read_data-blocks disk fs 0 20480 2 laid 9 (omega arith)

match_name_iff_example : (match_name disk 4224 100 0 32 ≡ true) ↔ SameName disk 4224 100
match_name_iff_example = match_name_iff disk 4224 100

read_dentry_by_name-Found_example : Found disk fs 100 0 64 (read_dentry_by_name disk fs 100)
read_dentry_by_name-Found_example = read_dentry_by_name-Found disk fs 100

a-HasLength : HasLength (λ j. disk (4224 + j)) 1
a-HasLength = record { short = omega arith; ends = refl; inner = λ j h. ground arith }

read_dentry_by_index_lem_example : read_dentry_by_index disk fs 1 ≡ some (copy_dentry disk 4224, 1)
read_dentry_by_index_lem_example = read_dentry_by_index_lem disk fs 1 1 a-HasLength

dir_read_lem_example :
    let (m', fs', r) = dir_read 300 disk fs 200 32 in (r ≡ 0) × (fs'.curfile ≡ 0) × (m' 200 ≡ 97)
dir_read_lem_example =
    dir_read_lem 300 disk fs 200 32 1 (omega arith) a-HasLength (omega arith) (omega arith)
      (inl (omega arith)) (inl (omega arith)) 200 refl
