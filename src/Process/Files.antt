-- ===== src/Process/Files.antt =====
-- Opening and reading a file by descriptor, student-distrib/pcb.c and filesys.c.
use mpf_cker_os.Base.{
  ℕ, zero, suc, ◌+◌, ◌-◌, ◌%◌, ◌^◌, ◌≤◌, ◌<◌, min, ◌≡◌, refl, ◌≢◌, ◌⊎◌, none, some, arith, ltb,
  ◌==◌, if◌then◌else◌, minus_one, Mem, update, inside,
}
use mpf_cker_os.Filesys.{Filesys, Dentry, file_open, find_dentry, read_dentry_by_name, file_length}
use mpf_cker_os.Filesys.Read.{read_data_past_end, read_data_in_block, file_byte, position}
use mpf_cker_os.Process.{
  FdEntry, Pcb, Pcbs, get_fd_avail, insert_fdt, fop_of, file_read, set_fd, init_pcb, init_from,
  init_one, clear_present, terminal_struct,
}
use mpf_cker_os.Process.Slots.{get_fd_avail_lem}

find_dentry-curr :
    (m : Mem) (fs : Filesys) (d : Dentry) (fname i n : ℕ)
    → find_dentry m (record fs { curr_dentry = d }) fname i n ≡ find_dentry m fs fname i n
unfolding find_dentry
find_dentry-curr m fs d fname i zero = refl
find_dentry-curr m fs d fname i (suc n) = rw (find_dentry-curr m fs d fname (i + 1) n)

pub read_dentry_by_name-curr :
    (m : Mem) (fs : Filesys) (d : Dentry) (fname : ℕ)
    → read_dentry_by_name m (record fs { curr_dentry = d }) fname ≡ read_dentry_by_name m fs fname
unfolding read_dentry_by_name
read_dentry_by_name-curr m fs d fname = find_dentry-curr m fs d fname 0 64

-- the entry of a descriptor that has just been opened
abbrev pub opened : FdEntry → Dentry → FdEntry
opened e d = record e {
  present = 0;
  inode_number = d.inode_num;
  file_type = d.file_type;
  jump_start_idx = fop_of d.file_type e.jump_start_idx;
}

-- Opening a name of the directory with a free descriptor returns the first free one, which gets the
-- index node, the type and the jump table of the file and keeps its old position; the other
-- descriptors are as they were, and the file is the current one of the file system.
pub insert_fdt_lem :
    (m : Mem) (fs : Filesys) (b : Pcb) (filename j : ℕ) (d : Dentry)
    → read_dentry_by_name m fs filename ≡ some d
    → (get_fd_avail b).1 ≢ minus_one
    → j < 8
    → let (fs', b', r) = insert_fdt m fs b filename in
      (r ≡ (get_fd_avail b).1)
      × (b'.fd_table j ≡ (if j == r then opened (b.fd_table j) d else b.fd_table j))
      × (fs' ≡ record fs { curr_dentry = d })
unfolding insert_fdt file_open
insert_fdt_lem m fs b filename j d found room h =
    ground (arith, get_fd_avail_lem b j h, read_dentry_by_name-curr m fs d filename)

-- Opening a name that is not in the directory returns -1 and changes nothing; without a free
-- descriptor it returns -1 too and leaves the first eight descriptors as they were.
pub insert_fdt_fails :
    (m : Mem) (fs : Filesys) (b : Pcb) (filename j : ℕ)
    → (read_dentry_by_name m fs filename ≡ none) ⊎ ((get_fd_avail b).1 ≡ minus_one)
    → j < 8
    → let (fs', b', r) = insert_fdt m fs b filename in
      (r ≡ minus_one) × (b'.fd_table j ≡ b.fd_table j)
unfolding insert_fdt file_open
insert_fdt_fails m fs b filename j h k = ground (arith, get_fd_avail_lem b j k)

clear_present_lem :
    (t : ℕ → FdEntry) (i n j : ℕ)
    → clear_present t i n j ≡ (if inside i n j then record (t j) { present = minus_one } else t j)
unfolding clear_present
clear_present_lem t i zero j = ground arith
clear_present_lem t i (suc n) j =
    ground
      (arith, clear_present_lem (update t i (record (t i) { present = minus_one })) (i + 1) n j)

init_one_lem :
    (b : Pcb) (k : ℕ)
    → k < 8
    → ((init_one b).pcb_in_use ≡ minus_one)
      × (((init_one b).fd_table k).present ≡ minus_one)
      × (((init_one b).fd_table k).jump_start_idx
          ≡ (if ltb k 2 then terminal_struct else (b.fd_table k).jump_start_idx))
unfolding init_one
init_one_lem b k h = ground (
  arith,
  clear_present_lem b.fd_table 0 8 k,
  clear_present_lem b.fd_table 0 8 0,
  clear_present_lem b.fd_table 0 8 1,
)

init_from_lem :
    (p : Pcbs) (i n j : ℕ) → init_from p i n j ≡ (if inside i n j then init_one (p j) else p j)
unfolding init_from
init_from_lem p i zero j = ground arith
init_from_lem p i (suc n) j =
    ground (arith, init_from_lem (update p i (init_one (p i))) (i + 1) n j)

-- `init_PCB` leaves the six processes free, with their eight descriptors free and the first two bound
-- to the terminal.
pub init_pcb_lem :
    (p : Pcbs) (j k : ℕ)
    → j < 6
    → k < 8
    → ((init_pcb p j).pcb_in_use ≡ minus_one)
      × (((init_pcb p j).fd_table k).present ≡ minus_one)
      × (((init_pcb p j).fd_table k).jump_start_idx
          ≡ (if ltb k 2 then terminal_struct else ((p j).fd_table k).jump_start_idx))
unfolding init_pcb
init_pcb_lem p j k h l = ground (arith, init_from_lem p 0 6 j, init_one_lem (p j) k l)

module _ (m : Mem) (fs : Filesys) (b : Pcb) (fd : ℕ) (bytes : (q : ℕ) → m q < 256)
    (known : (b.fd_table fd).inode_number ≤ fs.numinodes) (is_fd : fd < 8) where
  abbrev inode : ℕ
  inode = (b.fd_table fd).inode_number

  abbrev pos : ℕ
  pos = (b.fd_table fd).file_pos

  -- At the end of the file `file_read` returns 0 and takes the position back to the start.
  pub file_read_end :
      (f buf nbytes : ℕ)
      → file_length m fs inode ≤ pos
      → file_read (suc f) m fs b fd buf nbytes
        ≡ some (m, set_fd b fd (record (b.fd_table fd) { file_pos = 0 }), 0)
  unfolding file_read
  file_read_end f buf nbytes h =
      ground (arith, read_data_past_end m fs inode bytes known f pos buf nbytes h)

  -- Before the end, a read that stays in one block returns the number of bytes `n` asked for or left,
  -- puts the bytes of the file from the descriptor's position on into the buffer, and moves the
  -- position on by `n`.
  pub file_read_next :
      (f buf nbytes : ℕ)
      → nbytes + pos < 2 ^ 32
      → nbytes < 4096
      → 0 < nbytes
      → pos < file_length m fs inode
      → pos % 4096 + nbytes ≤ 4096
      → (buf + 4096 ≤ position m fs inode pos) ⊎ (position m fs inode pos + 4096 ≤ buf)
      → let n = min nbytes (file_length m fs inode - pos) in
        (m' : Mem) × (file_read (suc (suc f)) m fs b fd buf nbytes
          ≡ some (m', set_fd b fd (record (b.fd_table fd) { file_pos = pos + n }), n))
        × ((q : ℕ)
            → m' q ≡ (if inside buf n q then file_byte m fs inode (pos + (q - buf)) else m q))
  unfolding file_read
  file_read_next f buf nbytes word short some_bytes before fits apart =
      let (m', ran, holds) =
        read_data_in_block m fs inode pos buf nbytes bytes known word short some_bytes before f fits
          apart in
      (m', ground (arith, ran), holds)
