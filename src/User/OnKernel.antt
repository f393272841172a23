-- ===== src/User/OnKernel.antt =====
-- A file that is open on the kernel of student-distrib, as a user program reads it.
use mpf_cker_os.Base.{
  ℕ, suc, ◌+◌, ◌-◌, ◌*◌, ◌%◌, ◌^◌, ◌≤◌, ◌<◌, min, ◌≡◌, ap, ap₂, ◌∙◌, ◌≢◌, ◌⊎◌, inr, some, arith,
  minus_one, Mem, update, IsBytes,
}
use mpf_cker_os.Filesys.{Filesys, file_length}
use mpf_cker_os.Filesys.Read.{file_byte, position}
use mpf_cker_os.Filesys.Same.{IsImage, SameImage, file_length-eq, position-eq, file_byte-eq}
use mpf_cker_os.Process.{FdEntry, file_struct, terminal_struct, set_fd}
use mpf_cker_os.Process.Files.{file_read_next, file_read_end}
use mpf_cker_os.Syscall.{Kernel, Drivers, sys_read, sys_write, current_entry}
use mpf_cker_os.Syscall.Files.{read_file, file_drivers, file_drivers_read, file_drivers_write}
use mpf_cker_os.User.Kernel.{overlay}

abbrev pub entry_of : ℕ → Kernel → FdEntry
entry_of fd k = (k.pcbs k.curr_process).fd_table fd

-- What `terminal_write` does to the rest of the kernel: it ends, and changes the video memory at most.
pub record IsConsole (d : Drivers) : Type 0 where
  pub writes :
      (buf n : ℕ) (k : Kernel)
      → IsBytes k.mem
      → (m : Mem) × (r : ℕ) × (d.write terminal_struct 1 buf n k ≡ some (record k { mem = m }, r))
        × (r ≢ minus_one)
        × IsBytes m
        × ((q : ℕ) → (q < 0xb8000) ⊎ (0xb9000 ≤ q) → m q ≡ k.mem q)

module _ (m0 : Mem) (fs : Filesys) (i limit : ℕ) (image : IsImage m0 fs i limit) (fd page : ℕ)
    (is_fd : (2 ≤ fd) × (fd < 6)) (apart : limit ≤ page) (word : page + 4096 < 2 ^ 32)
    (real : 0 < page) where
  abbrev pub size : ℕ
  size = file_length m0 fs i

  -- the file `i` is the one that is open on `fd`, and reads by whole pieces have come to its position
  pub record IsOpen (k : Kernel) : Type 0 where
    pub same_fs : k.fs ≡ fs
    pub same_process : k.curr_pid ≡ k.curr_process
    pub same_fd : k.curr_fd ≡ fd
    pub present : (entry_of fd k).present ≡ 0
    pub table : (entry_of fd k).jump_start_idx ≡ file_struct
    pub inode : (entry_of fd k).inode_number ≡ i
    pub within : (entry_of fd k).file_pos ≤ size
    pub aligned : ((entry_of fd k).file_pos % 1024 ≡ 0) ⊎ ((entry_of fd k).file_pos ≡ size)
    pub bytes : IsBytes k.mem
    pub same_image : SameImage m0 fs limit k.mem

  pub overlay-IsBytes : (buf m : Mem) → IsBytes buf → IsBytes m → IsBytes (overlay page buf m)
  overlay-IsBytes buf m h h' q = ground (arith, h (q - page), h' q)

  pub overlay-SameImage :
      (buf m : Mem) → SameImage m0 fs limit m → SameImage m0 fs limit (overlay page buf m)
  overlay-SameImage buf m h = record { same = λ q lo hi. ground (arith, h.same q lo hi) }

  -- the memory of a kernel changes outside of the image
  pub IsOpen-memory :
      (k : Kernel) (m : Mem)
      → IsOpen k
      → IsBytes m
      → SameImage m0 fs limit m
      → IsOpen (record k { mem = m })
  IsOpen-memory k m h bytes same = record {
    same_fs = h.same_fs;
    same_process = h.same_process;
    same_fd = h.same_fd;
    present = h.present;
    table = h.table;
    inode = h.inode;
    within = h.within;
    aligned = h.aligned;
    bytes = bytes;
    same_image = same;
  }

  module _ (k : Kernel) (h : IsOpen k) where
    length-same : file_length k.mem k.fs (entry_of fd k).inode_number ≡ size
    length-same =
        ap₂ (file_length k.mem) h.same_fs h.inode
        ∙ file_length-eq m0 fs i limit image k.mem h.same_image

    position-same :
        (p : ℕ) → p < size → position k.mem k.fs (entry_of fd k).inode_number p ≡ position m0 fs i p
    position-same p before =
        ap₂ (λ s j. position k.mem s j p) h.same_fs h.inode
        ∙ position-eq m0 fs i limit image k.mem h.same_image p before

    byte-same :
        (p : ℕ)
        → p < size
        → file_byte k.mem k.fs (entry_of fd k).inode_number p ≡ file_byte m0 fs i p
    byte-same p before =
        ap₂ (λ s j. file_byte k.mem s j p) h.same_fs h.inode
        ∙ file_byte-eq m0 fs i limit image k.mem h.same_image p before

    known-same : (entry_of fd k).inode_number ≤ k.fs.numinodes
    known-same = ground (arith, image.known, h.same_fs, h.inode)

    -- a read while something is left, of a whole piece
    pub read_file_next :
        (f : ℕ)
        → (entry_of fd k).file_pos < size
        → let n = min 1024 (size - (entry_of fd k).file_pos) in
          (k' : Kernel) × (read_file (suc (suc f)) fd page 1024 k ≡ some (k', n))
          × ((entry_of fd k').file_pos ≡ (entry_of fd k).file_pos + n)
          × ((j : ℕ) → j < n → k'.mem (page + j) ≡ file_byte m0 fs i ((entry_of fd k).file_pos + j))
          × IsOpen k'
    unfolding read_file
    read_file_next f before =
        let b = k.pcbs k.curr_process in
        let p = (entry_of fd k).file_pos in
        let piece : p % 1024 ≡ 0 = ground (arith, h.aligned, before) in
        let fits : p % 4096 + 1024 ≤ 4096 = omega (arith, piece) in
        let most : size ≤ 4096 * 1023 = image.size in
        let at = position-same p before in
        let (m', ran, holds) =
          file_read_next k.mem k.fs b fd h.bytes known-same (omega (arith, is_fd)) f page 1024
            (omega (arith, before, most)) (omega arith) (omega arith)
            (omega (arith, before, length-same)) fits
            (inr (omega (arith, at, image.blocks p before, apart))) in
        let from_file : (j : ℕ) → file_byte k.mem k.fs (entry_of fd k).inode_number j < 256 =
          λ j. h.bytes _ in
        let n = min 1024 (size - p) in
        let count : min 1024 (file_length k.mem k.fs (entry_of fd k).inode_number - p) ≡ n =
          ap (λ l. min 1024 (l - p)) length-same in
        let k' = record k {
          mem = m';
          pcbs =
              update k.pcbs k.curr_process
                (set_fd b fd (record (b.fd_table fd) { file_pos = p + n }));
        } in
        (
          k',
          ground (arith, ran, count),
          ground arith,
          λ j l. ground (arith, holds (page + j), count, byte-same (p + j) (omega arith)),
          record {
            same_fs = h.same_fs;
            same_process = h.same_process;
            same_fd = h.same_fd;
            present = ground (arith, h.present);
            table = ground (arith, h.table);
            inode = ground (arith, h.inode);
            within = ground (arith, h.within);
            aligned = ground (arith, piece);
            bytes = λ q. ground (arith, holds q, h.bytes q, from_file (p + (q - page)));
            same_image = record {
              same = λ q lo hi. ground (arith, holds q, h.same_image.same q lo hi);
            };
          },
        )

    -- a read at the end of the file
    pub read_file_end :
        (f : ℕ)
        → (entry_of fd k).file_pos ≡ size
        → (k' : Kernel) × (read_file (suc f) fd page 1024 k ≡ some (k', 0))
    unfolding read_file
    read_file_end f e =
        let b = k.pcbs k.curr_process in
        let ran =
          file_read_end k.mem k.fs b fd h.bytes known-same (omega (arith, is_fd)) f page 1024
            (omega (arith, e, length-same)) in
        (
          record k {
            pcbs =
                update k.pcbs k.curr_process
                  (set_fd b fd (record (b.fd_table fd) { file_pos = 0 }));
          },
          ground (arith, ran),
        )

    -- the calls that come to the drivers of files and of the terminal
    pub sys_read-open :
        (f local : ℕ) (d : Drivers)
        → sys_read (file_drivers f local d) fd page 1024 k ≡ read_file f fd page 1024 k
    unfolding sys_read file_drivers_read
    sys_read-open f local d =
        let current : current_entry k ≡ entry_of fd k =
          ap₂ (λ p j. (k.pcbs p).fd_table j) h.same_process h.same_fd in
        let in_use : (current_entry k).present ≡ 0 = ap (λ e. e.present) current ∙ h.present in
        let table : (current_entry k).jump_start_idx ≡ file_struct =
          ap (λ e. e.jump_start_idx) current ∙ h.table in
        let called : sys_read (file_drivers f local d) fd page 1024 k
            ≡ file_drivers_read f local d (current_entry k).jump_start_idx fd page 1024 k =
          ground (arith, in_use, h.same_fd, is_fd, real) in
        called ∙ ap (λ z. file_drivers_read f local d z fd page 1024 k) table

  pub sys_write-console :
      (f local n : ℕ) (d : Drivers) (k : Kernel)
      → sys_write (file_drivers f local d) 1 page n k ≡ d.write terminal_struct 1 page n k
  unfolding sys_write file_drivers_write
  sys_write-console f local n d k = ground arith
