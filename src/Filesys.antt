-- ===== src/Filesys.antt =====
-- The read-only file system of student-distrib/filesys.c: the boot block with its directory entries,
-- the index nodes and the data blocks lie in memory from `start_addr` on. The globals of the file are
-- a record. Addresses do not wrap: the image lies below 2 ^ 32.
pub mod Names
pub mod Lookup
pub mod Chunk
pub mod Blocks
pub mod Read
pub mod Same
pub mod Load
pub mod Listing
pub mod Image
mod Tests
use mpf_cker_os.Memory.{memcpy}
use mpf_cker_os.Strings.{strncpy}
use mpf_cker_os.Base.{
  ℕ, zero, suc, ◌+◌, ◌-◌, ◌*◌, ◌/◌, ◌%◌, ◌==◌, ltb, leb, if◌then◌else◌, u8, u32, sub32, minus_one,
  Mem, update, Bool, true, false, not, ◌&&◌, ◌||◌, Option, none, some,
}

pub record Dentry : Type 0 where
  pub name : Mem
  pub file_type : ℕ
  pub inode_num : ℕ

pub record Filesys : Type 0 where
  pub start_addr : ℕ
  pub numdentries : ℕ
  pub numinodes : ℕ
  pub numblocks : ℕ
  pub startdentry : ℕ
  pub curfile : ℕ
  pub curr_dentry : Dentry

abbrev pub name_size : ℕ
name_size = 32

abbrev pub sizeof_dentry : ℕ
sizeof_dentry = 64

abbrev pub num_dentries : ℕ
num_dentries = 64

abbrev pub datablock_size : ℕ
datablock_size = 4096

-- a little-endian word
abbrev pub load32 : Mem → ℕ → ℕ
load32 m a = m a + m (a + 1) * 256 + m (a + 2) * 65536 + m (a + 3) * 16777216

-- the 4 bytes of a word
abbrev pub store32 : Mem → ℕ → ℕ → Mem
store32 m a w =
    update (update (update (update m a (u8 w)) (a + 1) (u8 (w / 256))) (a + 2) (u8 (w / 65536)))
      (a + 3) (u8 (w / 16777216))

-- the entry that is current before any file has been opened is all zero
abbrev pub no_dentry : Dentry
no_dentry = record { name = λ q. 0; file_type = 0; inode_num = 0 }

unfoldable pub filesys_init : Mem → ℕ → Filesys
filesys_init m mod_start = record {
  start_addr = mod_start;
  numdentries = load32 m mod_start;
  numinodes = load32 m (mod_start + 4);
  numblocks = load32 m (mod_start + 8);
  startdentry = mod_start + sizeof_dentry;
  curfile = 1;
  curr_dentry = no_dentry;
}

-- the address of the directory entry `i`
abbrev pub dentry_addr : Filesys → ℕ → ℕ
dentry_addr fs i = fs.startdentry + sizeof_dentry * i

-- the name, the type and the index node of an entry are copied out
abbrev pub copy_dentry : Mem → ℕ → Dentry
copy_dentry m a = record {
  name = λ i. m (a + i);
  file_type = load32 m (a + 32);
  inode_num = load32 m (a + 36);
}

-- the inner loop of `read_dentry_by_name`, `count` being both `count` and `nameIndex`
unfoldable pub match_name : Mem → ℕ → ℕ → ℕ → ℕ → Bool
match_name m a fname count zero = false
match_name m a fname count (suc left) =
    let rest = match_name m a fname (count + 1) left in
    if m (a + count) == m (fname + count)
    then if (m (a + count) == 0) || (count == 31) then true else rest
    else false

-- the outer loop, from the entry `i` on with `left` entries to go
unfoldable pub find_dentry : Mem → Filesys → ℕ → ℕ → ℕ → Option Dentry
unfolding match_name
find_dentry m fs fname i zero = none
find_dentry m fs fname i (suc left) =
    let rest = find_dentry m fs fname (i + 1) left in
    if match_name m (dentry_addr fs i) fname 0 name_size
    then some (copy_dentry m (dentry_addr fs i))
    else rest

-- `none` is the result -1, `some` is 0 with the entry filled in.
unfoldable pub read_dentry_by_name : Mem → Filesys → ℕ → Option Dentry
unfolding find_dentry
read_dentry_by_name m fs fname = find_dentry m fs fname 0 num_dentries

-- `strlen` of a name that is cut at 32: what follows the name in the structure does not matter
unfoldable pub name_length : Mem → ℕ → ℕ → ℕ
name_length name i zero = i
name_length name i (suc left) =
    let rest = name_length name (i + 1) left in if name i == 0 then i else rest

-- `none` is the result -1; otherwise the entry and the length of its name
unfoldable pub read_dentry_by_index : Mem → Filesys → ℕ → Option (Dentry × ℕ)
read_dentry_by_index m fs index =
    if leb num_dentries index
    then none
    else (let d = copy_dentry m (dentry_addr fs index) in some (d, name_length d.name 0 name_size))

-- `file_open` and `dir_open`: the entry is copied to the global `currDentry`
unfoldable pub file_open : Mem → Filesys → ℕ → Filesys × ℕ
file_open m fs fname = elim (read_dentry_by_name m fs fname) [
  | none ↦ (fs, minus_one)
  | some d ↦ (record fs { curr_dentry = d }, 0)
]

unfoldable pub dir_open : Mem → Filesys → ℕ → Filesys × ℕ
dir_open m fs fname = elim (read_dentry_by_name m fs fname) [
  | none ↦ (fs, minus_one)
  | some d ↦ (record fs { curr_dentry = d }, 0)
]

-- `(inode_t *) start_addr + inode + 1`
abbrev pub inode_addr : Filesys → ℕ → ℕ
inode_addr fs inode = fs.start_addr + datablock_size * (inode + 1)

-- `(dataBlock_t *) start_addr + numinodes + 1 + n`
abbrev pub block_addr : Filesys → ℕ → ℕ
block_addr fs n = fs.start_addr + datablock_size * (fs.numinodes + 1 + n)

-- `inodeBlock->length`
abbrev pub file_length : Mem → Filesys → ℕ → ℕ
file_length m fs inode = load32 m (inode_addr fs inode)

-- `inodeBlock->dataBlockNums[k]`
abbrev pub block_num : Mem → Filesys → ℕ → ℕ → ℕ
block_num m fs inode k = load32 m (inode_addr fs inode + 4 + 4 * k)

-- `currLength`, what one round of `read_data` copies
unfoldable pub curr_length : ℕ → ℕ → ℕ → ℕ
curr_length length offset eof =
    if (length % datablock_size == 0) || ltb datablock_size length
    then datablock_size
    else if ltb eof (u32 (length + offset))
    then sub32 eof offset
    else length

-- the loop of `read_data` with fuel: memory and `eofCount` at its end
unfoldable pub read_loop : ℕ → Mem → Filesys → ℕ → ℕ → ℕ → ℕ → ℕ → ℕ → Option (Mem × ℕ)
read_loop zero m fs inode offset eof buf length eof_count = none
read_loop (suc f) m fs inode offset eof buf length eof_count =
    let n = curr_length length offset eof in
    let position =
      block_addr fs (block_num m fs inode (eof_count / datablock_size)) + offset % datablock_size in
    let rest =
      read_loop f (memcpy m buf position n) fs inode offset eof (buf + n) (sub32 length n)
        (u32 (eof_count + n)) in
    if not (length == 0) && ltb eof_count eof then rest else some (m, eof_count)

-- memory afterwards and the value returned
unfoldable pub read_data : ℕ → Mem → Filesys → ℕ → ℕ → ℕ → ℕ → Option (Mem × ℕ)
read_data f m fs inode offset buf length =
    let eof = file_length m fs inode in
    let ran = read_loop f m fs inode offset eof buf length offset in
    if ltb fs.numinodes inode then some (m, minus_one) else elim ran [
      | none ↦ none
      | some (m', eof_count) ↦ some (m', if leb eof offset then 0 else sub32 eof_count offset)
    ]

unfoldable pub file_load : ℕ → Mem → Filesys → ℕ → ℕ → Option (Mem × ℕ)
file_load f m fs buf nbytes = read_data f m fs fs.curr_dentry.inode_num 0 buf nbytes

unfoldable pub file_write : ℕ
file_write = minus_one

unfoldable pub file_close : ℕ
file_close = minus_one

unfoldable pub dir_write : ℕ
dir_write = minus_one

unfoldable pub dir_close : ℕ
dir_close = minus_one

-- the loop that clears the first 32 bytes of the buffer
unfoldable pub clear_name : Mem → ℕ → ℕ → ℕ → Mem
clear_name m buf i zero = m
clear_name m buf i (suc left) = clear_name (update m (buf + i) 0) buf (i + 1) left

-- the bytes of the name of the local entry, from index `i` on, stored at `a`
unfoldable pub store_name : Mem → ℕ → Mem → ℕ → ℕ → Mem
store_name m a name i zero = m
store_name m a name i (suc left) = store_name (update m (a + i) (name i)) a name (i + 1) left

-- The local `dentry` lies at the address `local`. When the index is out of range it stays as it is.
unfoldable pub dir_read : ℕ → Mem → Filesys → ℕ → ℕ → Mem × Filesys × ℕ
dir_read local m fs buf nbytes =
    let cleared = clear_name m buf 0 name_size in
    let next = u32 (fs.curfile + 1) in
    let (m1, retval) =
      let r : Mem × ℕ = elim (read_dentry_by_index cleared fs fs.curfile) [
        | none ↦ (cleared, minus_one)
        | some (d, n) ↦ (
          store32 (store32 (store_name cleared local d.name 0 name_size) (local + 32) d.file_type)
              (local + 36) d.inode_num,
          n,
        )
      ] in
      r in
    if next == fs.numdentries
    then (strncpy m1 buf local nbytes, record fs { curfile = 0 }, 0)
    else (strncpy m1 buf local nbytes, record fs { curfile = next }, retval)
