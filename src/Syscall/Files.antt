-- ===== src/Syscall/Files.antt =====
-- The system calls with the drivers for files and directories of student-distrib/filesys.c behind them.
use mpf_cker_os.Base.{
  ℕ, suc, ◌+◌, ◌-◌, ◌≤◌, ◌<◌, min, ◌≡◌, sym, ap, ap₂, ◌∙◌, ◌≢◌, ◌⊎◌, Option, none, some, arith,
  if◌then◌else◌, minus_one, update, inside,
}
use mpf_cker_os.Filesys.{Dentry, read_dentry_by_name, file_write, dir_read, dir_write, file_length}
use mpf_cker_os.Filesys.Read.{file_byte, position}
use mpf_cker_os.Process.{
  Fop, null, rtc_struct, dir_struct, file_struct, terminal_struct, get_fd_avail, file_read, set_fd,
  fop_of,
}
use mpf_cker_os.Process.Files.{opened, insert_fdt_lem, file_read_next}
use mpf_cker_os.Syscall.{Kernel, Drivers, sys_open, sys_read}
use mpf_cker_os.Syscall.Dispatch.{fd_range, sys_open_lem, sys_read-sys_open}

-- `file_struct` in the kernel, with fuel for the loop of `read_data`
unfoldable pub read_file : ℕ → ℕ → ℕ → ℕ → Kernel → Option (Kernel × ℕ)
read_file f fd buf nbytes k = elim (file_read f k.mem k.fs (k.pcbs k.curr_process) fd buf nbytes) [
  | none ↦ none
  | some (m, b, n) ↦ some (record k { mem = m; pcbs = update k.pcbs k.curr_process b }, n)
]

-- `dir_struct`; `local` is where the entry of `dir_read` lies
unfoldable pub read_dir : ℕ → ℕ → ℕ → Kernel → Option (Kernel × ℕ)
read_dir local buf nbytes k =
    let (m, fs', n) = dir_read local k.mem k.fs buf nbytes in
    some (record k { mem = m; fs = fs' }, n)

unfoldable pub file_drivers_read : ℕ → ℕ → Drivers → Fop → ℕ → ℕ → ℕ → Kernel → Option (Kernel × ℕ)
file_drivers_read f local d file_struct fd buf nbytes k = read_file f fd buf nbytes k
file_drivers_read f local d dir_struct fd buf nbytes k = read_dir local buf nbytes k
file_drivers_read f local d rtc_struct fd buf nbytes k = d.read rtc_struct fd buf nbytes k
file_drivers_read f local d terminal_struct fd buf nbytes k = d.read terminal_struct fd buf nbytes k
file_drivers_read f local d null fd buf nbytes k = d.read null fd buf nbytes k

unfoldable pub file_drivers_write : Drivers → Fop → ℕ → ℕ → ℕ → Kernel → Option (Kernel × ℕ)
file_drivers_write d file_struct fd buf nbytes k = some (k, file_write)
file_drivers_write d dir_struct fd buf nbytes k = some (k, dir_write)
file_drivers_write d rtc_struct fd buf nbytes k = d.write rtc_struct fd buf nbytes k
file_drivers_write d terminal_struct fd buf nbytes k = d.write terminal_struct fd buf nbytes k
file_drivers_write d null fd buf nbytes k = d.write null fd buf nbytes k

-- the drivers of files and directories, and those given for the clock and the terminal
abbrev pub file_drivers : ℕ → ℕ → Drivers → Drivers
file_drivers f local d = record { read = file_drivers_read f local d; write = file_drivers_write d }

-- a read from the start of a file by a descriptor of the current process
read_file_start :
    (k : Kernel) (f fd i buf nbytes : ℕ)
    → ((k.pcbs k.curr_process).fd_table fd).inode_number ≡ i
    → ((k.pcbs k.curr_process).fd_table fd).file_pos ≡ 0
    → ((q : ℕ) → k.mem q < 256)
    → i ≤ k.fs.numinodes
    → fd < 8
    → nbytes < 4096
    → 0 < nbytes
    → 0 < file_length k.mem k.fs i
    → (buf + 4096 ≤ position k.mem k.fs i 0) ⊎ (position k.mem k.fs i 0 + 4096 ≤ buf)
    → let n = min nbytes (file_length k.mem k.fs i) in
      (k' : Kernel) × (read_file (suc (suc f)) fd buf nbytes k ≡ some (k', n))
      × ((q : ℕ)
          → k'.mem q ≡ (if inside buf n q then file_byte k.mem k.fs i (q - buf) else k.mem q))
      × (((k'.pcbs k.curr_process).fd_table fd).file_pos ≡ n)
unfolding read_file
read_file_start k f fd i buf nbytes e p bytes known is_fd short some_bytes full apart =
    let b = k.pcbs k.curr_process in
    let len : file_length k.mem k.fs (b.fd_table fd).inode_number ≡ file_length k.mem k.fs i =
      ap (file_length k.mem k.fs) e in
    let at : position k.mem k.fs (b.fd_table fd).inode_number (b.fd_table fd).file_pos
        ≡ position k.mem k.fs i 0 =
      ap₂ (position k.mem k.fs) e p in
    let (m', ran, holds) =
      file_read_next k.mem k.fs b fd bytes (omega (arith, e)) is_fd f buf nbytes (omega (arith, p))
        short some_bytes (omega (arith, p, len)) (omega (arith, p)) (ground (arith, at, apart)) in
    let n =
      min nbytes (file_length k.mem k.fs (b.fd_table fd).inode_number - (b.fd_table fd).file_pos) in
    let count : n ≡ min nbytes (file_length k.mem k.fs i) = ground (arith, len, p) in
    (
      record k {
        mem = m';
        pcbs =
            update k.pcbs k.curr_process
              (set_fd b fd (record (b.fd_table fd) { file_pos = (b.fd_table fd).file_pos + n }));
      },
      ground (arith, ran, count),
      λ q.
          let here : file_byte k.mem k.fs (b.fd_table fd).inode_number
                ((b.fd_table fd).file_pos + (q - buf))
              ≡ file_byte k.mem k.fs i (q - buf) =
            ap₂ (file_byte k.mem k.fs) e (omega (arith, p)) in
          ground (arith, holds q, here, count),
      ground (arith, p, count),
    )

module _ (k : Kernel) (filename : ℕ) (dentry : Dentry) (named : k.mem filename ≢ 0)
    (found : read_dentry_by_name k.mem k.fs filename ≡ some dentry)
    (room : (get_fd_avail (k.pcbs k.curr_process)).1 ≢ minus_one) where
  abbrev fd : ℕ
  fd = (get_fd_avail (k.pcbs k.curr_process)).1

  -- memory and the image, once the file is open
  pub sys_open_keeps :
      let k' = (sys_open filename k).0 in
      (k'.mem ≡ k.mem) × (k'.fs ≡ record k.fs { curr_dentry = dentry })
  unfolding sys_open
  sys_open_keeps = ground (
    arith,
    insert_fdt_lem k.mem k.fs (k.pcbs k.curr_process) filename 0 dentry found room (omega arith),
  )

  -- A regular file that is opened on a descriptor below 6 whose position is 0 is read from its start:
  -- `sys_read` of less than a block, into a buffer apart from the first block, returns the count or the
  -- length of the file, whichever is less, puts that many bytes of the file into the buffer, and moves
  -- the position of the descriptor on.
  pub sys_read-file :
      (f local buf nbytes : ℕ) (d : Drivers)
      → dentry.file_type ≡ 2
      → fd < 6
      → ((k.pcbs k.curr_process).fd_table fd).file_pos ≡ 0
      → ((q : ℕ) → k.mem q < 256)
      → dentry.inode_num ≤ k.fs.numinodes
      → nbytes < 4096
      → 0 < nbytes
      → 0 < file_length k.mem k.fs dentry.inode_num
      → buf ≢ 0
      → (buf + 4096 ≤ position k.mem k.fs dentry.inode_num 0)
        ⊎ (position k.mem k.fs dentry.inode_num 0 + 4096 ≤ buf)
      → let n = min nbytes (file_length k.mem k.fs dentry.inode_num) in
        let (k1, r) = sys_open filename k in
        (k2 : Kernel) × (sys_read (file_drivers (suc (suc f)) local d) r buf nbytes k1
          ≡ some (k2, n))
        × ((q : ℕ)
            → k2.mem q ≡ (
                if inside buf n q
                then file_byte k.mem k.fs dentry.inode_num (q - buf)
                else k.mem q))
        × (((k2.pcbs k.curr_process).fd_table fd).file_pos ≡ n)
  unfolding file_drivers_read fop_of
  sys_read-file f local buf nbytes d regular low start bytes known short some_bytes full real
        apart =
      let k1 = (sys_open filename k).0 in
      let (mem, image) = sys_open_keeps in
      let range = fd_range k filename dentry named found room in
      let (r, current, pid, same, table) =
        sys_open_lem k filename dentry named found room fd (omega arith) in
      let entry : (k1.pcbs k1.curr_process).fd_table fd
          ≡ opened ((k.pcbs k.curr_process).fd_table fd) dentry =
        ground (arith, same, table) in
      let len : file_length k1.mem k1.fs dentry.inode_num
          ≡ file_length k.mem k.fs dentry.inode_num =
        ap₂ (λ m fs. file_length m fs dentry.inode_num) mem image in
      let at : position k1.mem k1.fs dentry.inode_num 0 ≡ position k.mem k.fs dentry.inode_num 0 =
        ap₂ (λ m fs. position m fs dentry.inode_num 0) mem image in
      let (k2, ran, holds, moved) =
        read_file_start k1 f fd dentry.inode_num buf nbytes (ap (λ e. e.inode_number) entry)
          (ap (λ e. e.file_pos) entry ∙ start) (λ q. ground (arith, bytes q, ap (λ m. m q) mem))
          (ground (arith, known, image)) (omega (arith, range)) short some_bytes
          (ground (arith, len)) (ground (arith, at, apart)) in
      let drivers : Drivers = file_drivers (suc (suc f)) local d in
      let fop : fop_of dentry.file_type ((k.pcbs k.curr_process).fd_table fd).jump_start_idx
          ≡ file_struct =
        ground (arith, regular) in
      let call : sys_read drivers (sys_open filename k).1 buf nbytes k1
          ≡ read_file (suc (suc f)) fd buf nbytes k1 =
        ap (λ j. sys_read drivers j buf nbytes k1) r
        ∙ sys_read-sys_open k filename dentry named found room drivers fd buf nbytes
            (omega (arith, range)) low real
        ∙ ap (λ z. drivers.read z fd buf nbytes k1) fop in
      let count = ap (min nbytes) len in
      (
        k2,
        call ∙ ran ∙ ap (λ n. some (k2, n)) count,
        λ q.
            let byte : file_byte k1.mem k1.fs dentry.inode_num (q - buf)
                ≡ file_byte k.mem k.fs dentry.inode_num (q - buf) =
              ap₂ (λ m fs. file_byte m fs dentry.inode_num (q - buf)) mem image in
            ground (arith, holds q, byte, count, ap (λ m. m q) mem),
        ap (λ c. ((k2.pcbs c).fd_table fd).file_pos) (sym same) ∙ moved ∙ count,
      )
