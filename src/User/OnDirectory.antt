-- ===== src/User/OnDirectory.antt =====
-- A directory that is open on the kernel of student-distrib, as a user program reads it.
use mpf_cker_os.Base.{
  ℕ, zero, suc, ◌+◌, ◌-◌, ◌≤◌, ◌<◌, ◌≡◌, refl, sym, ap, ap₂, ◌∙◌, ◌⊎◌, inr, some, List, [], ◌∷◌,
  arith, ◌==◌, if◌then◌else◌, u32, Mem, length, bytes_at, IsBytes,
}
use mpf_cker_os.Filesys.{Filesys, dentry_addr, dir_read}
use mpf_cker_os.Filesys.Listing.{HasLength, dir_read_lem, dir_read_shape, dir_read-IsBytes}
use mpf_cker_os.Process.{dir_struct}
use mpf_cker_os.Syscall.{Kernel, Drivers, sys_read, current_entry}
use mpf_cker_os.Syscall.Files.{read_dir, file_drivers, file_drivers_read}
use mpf_cker_os.User.OnKernel.{entry_of}

-- The directory has at most 64 entries, whose names have the lengths `len` and at least one byte, and lies below
-- the page of the program and apart from the local entry of `dir_read` and the page of video memory.
pub record IsDirectory (m : Mem) (fs : Filesys) (len : ℕ → ℕ) (page local : ℕ) : Type 0 where
  pub most : fs.numdentries ≤ 64
  pub named : (j : ℕ) → j < fs.numdentries → HasLength (λ i. m (dentry_addr fs j + i)) (len j)
  pub some_bytes : (j : ℕ) → j < fs.numdentries → 0 < len j
  pub below : dentry_addr fs fs.numdentries ≤ page
  pub off_local : (local + 64 ≤ fs.startdentry) ⊎ (dentry_addr fs fs.numdentries ≤ local)
  pub page_local : (page + 4096 ≤ local) ⊎ (local + 64 ≤ page)
  pub off_video : (dentry_addr fs fs.numdentries ≤ 0xb8000) ⊎ (0xb9000 ≤ fs.startdentry)
  pub real : 0 < page

-- the names of `n` entries from the entry `c` on
abbrev pub names_from : Mem → Filesys → (ℕ → ℕ) → ℕ → ℕ → List (List ℕ)
names_from m fs len c zero = []
names_from m fs len c (suc n) =
    bytes_at m (dentry_addr fs c) (len c) ∷ names_from m fs len (c + 1) n

pub names_from-more :
    (m : Mem) (fs : Filesys) (len : ℕ → ℕ) (c n : ℕ)
    → 0 < n
    → names_from m fs len c n
      ≡ bytes_at m (dentry_addr fs c) (len c) ∷ names_from m fs len (c + 1) (n - 1)
names_from-more m fs len c zero h = absurd (omega arith)
names_from-more m fs len c (suc n) h =
    let same : n ≡ suc n - 1 = omega arith in
    ap (λ k. bytes_at m (dentry_addr fs c) (len c) ∷ names_from m fs len (c + 1) k) same

pub length-names_from :
    (m : Mem) (fs : Filesys) (len : ℕ → ℕ) (c n : ℕ) → length (names_from m fs len c n) ≡ n
length-names_from m fs len c zero = refl
length-names_from m fs len c (suc n) = ground (arith, length-names_from m fs len (c + 1) n)

module _ (m0 : Mem) (fs : Filesys) (len : ℕ → ℕ) (page local : ℕ)
    (dir : IsDirectory m0 fs len page local) (fd : ℕ) (is_fd : (2 ≤ fd) × (fd < 6)) where
  -- the directory is open on `fd`
  pub record IsDirOpen (k : Kernel) : Type 0 where
    pub same_fs : k.fs ≡ record fs { curfile = k.fs.curfile }
    pub in_range : k.fs.curfile < fs.numdentries
    pub same_process : k.curr_pid ≡ k.curr_process
    pub same_fd : k.curr_fd ≡ fd
    pub present : (entry_of fd k).present ≡ 0
    pub table : (entry_of fd k).jump_start_idx ≡ dir_struct
    pub bytes : IsBytes k.mem
    pub same_dir : (q : ℕ) → fs.startdentry ≤ q → q < dentry_addr fs fs.numdentries → k.mem q ≡ m0 q

  -- the memory of a kernel changes outside of the directory
  pub IsDirOpen-memory :
      (k : Kernel) (m : Mem)
      → IsDirOpen k
      → IsBytes m
      → ((q : ℕ) → fs.startdentry ≤ q → q < dentry_addr fs fs.numdentries → m q ≡ m0 q)
      → IsDirOpen (record k { mem = m })
  IsDirOpen-memory k m h bytes same = record {
    same_fs = h.same_fs;
    in_range = h.in_range;
    same_process = h.same_process;
    same_fd = h.same_fd;
    present = h.present;
    table = h.table;
    bytes = bytes;
    same_dir = same;
  }

  module _ (k : Kernel) (h : IsDirOpen k) where
    abbrev c : ℕ
    c = k.fs.curfile

    same_entry : dentry_addr k.fs c ≡ dentry_addr fs c
    same_entry = ap (λ z. dentry_addr z c) h.same_fs

    same_count : k.fs.numdentries ≡ fs.numdentries
    same_count = ap (λ z. z.numdentries) h.same_fs

    entry_bytes : (j : ℕ) → j < 64 → k.mem (dentry_addr k.fs c + j) ≡ m0 (dentry_addr fs c + j)
    entry_bytes j l =
        ap (λ a. k.mem (a + j)) same_entry
        ∙ h.same_dir (dentry_addr fs c + j) (omega arith) (omega (arith, h.in_range))

    entry-HasLength : HasLength (λ j. k.mem (dentry_addr k.fs c + j)) (len c)
    entry-HasLength =
        let n = dir.named c h.in_range in
        let s = n.short in
        record {
          short = s;
          ends = entry_bytes (len c) (omega arith) ∙ n.ends;
          inner = λ j l e. n.inner j l (sym (entry_bytes j (omega arith)) ∙ e);
        }

    -- a read gives the name of the entry, and 0 for the last one, where the directory starts over
    pub read_dir_lem :
        let last = c + 1 == fs.numdentries in
        (k' : Kernel) × (read_dir local page 32 k ≡ some (k', if last then 0 else len c))
        × (k'.fs.curfile ≡ (if last then 0 else c + 1))
        × ((j : ℕ) → j < len c → k'.mem (page + j) ≡ m0 (dentry_addr fs c + j))
        × IsDirOpen k'
    unfolding read_dir
    read_dir_lem =
        let low : c < 64 = omega (arith, h.in_range, dir.most) in
        let short = entry-HasLength.short in
        let off_stack : (page + 32 ≤ local) ⊎ (local + 64 ≤ page) =
          ground (arith, dir.page_local) in
        let off_entry : (page + 32 ≤ dentry_addr k.fs c) ⊎ (dentry_addr k.fs c + 64 ≤ page) =
          inr (omega (arith, same_entry, dir.below, h.in_range)) in
        let few : len c ≤ 32 = omega (arith, short) in
        let read =
          dir_read_lem local k.mem k.fs page 32 (len c) low entry-HasLength few (omega arith)
            off_stack off_entry in
        let shape =
          dir_read_shape local k.mem k.fs page 32 (len c) low entry-HasLength few (omega arith)
            off_stack off_entry in
        let is_bytes =
          dir_read-IsBytes local k.mem k.fs page 32 (len c) low entry-HasLength few (omega arith)
            off_stack off_entry h.bytes in
        let (m', fs', r) = dir_read local k.mem k.fs page 32 in
        let next : (u32 (c + 1) == k.fs.numdentries) ≡ (c + 1 == fs.numdentries) =
          ground (arith, same_count) in
        let index : fs' ≡ record k.fs { curfile = if c + 1 == fs.numdentries then 0 else c + 1 } =
          ap (λ z. z.1) shape ∙ ap (λ b. record k.fs { curfile = if b then 0 else c + 1 }) next in
        let current : fs'.curfile ≡ (if c + 1 == fs.numdentries then 0 else c + 1) =
          ap (λ z. z.curfile) index in
        let count : r ≡ (if c + 1 == fs.numdentries then 0 else len c) =
          ap (λ z. z.2) shape ∙ ap (λ b. if b then 0 else len c) next in
        (
          record k { mem = m'; fs = fs' },
          ap (λ n. some (record k { mem = m'; fs = fs' }, n)) count,
          current,
          λ j l.
              let stored = (read (page + j) (ground (arith, dir.page_local, l, few))).2 in
              let index : page + j - page ≡ j = omega arith in
              let byte : k.mem (dentry_addr k.fs c + (page + j - page))
                  ≡ m0 (dentry_addr fs c + j) =
                ap (λ i. k.mem (dentry_addr k.fs c + i)) index
                ∙ entry_bytes j (omega (arith, few)) in
              ground (arith, stored, byte, l, few),
          record {
            same_fs =
                index
                ∙ ap {A = Filesys}
                    (λ z. record z { curfile = if c + 1 == fs.numdentries then 0 else c + 1 })
                    h.same_fs
                ∙ ap (λ i. record fs { curfile = i }) (sym current);
            in_range = ground (arith, current, h.in_range);
            same_process = h.same_process;
            same_fd = h.same_fd;
            present = h.present;
            table = h.table;
            bytes = is_bytes;
            same_dir = λ q lo hi.
                let kept = (read q (ground (arith, dir.off_local, lo, hi))).2 in
                ground (arith, kept, dir.below, lo, hi, h.same_dir q lo hi);
          },
        )

    -- the call that comes to the driver of directories
    pub sys_read-dir :
        (f : ℕ) (d : Drivers)
        → sys_read (file_drivers f local d) fd page 32 k ≡ read_dir local page 32 k
    unfolding sys_read file_drivers_read
    sys_read-dir f d =
        let current : current_entry k ≡ entry_of fd k =
          ap₂ (λ p j. (k.pcbs p).fd_table j) h.same_process h.same_fd in
        let in_use : (current_entry k).present ≡ 0 = ap (λ e. e.present) current ∙ h.present in
        let table : (current_entry k).jump_start_idx ≡ dir_struct =
          ap (λ e. e.jump_start_idx) current ∙ h.table in
        let called : sys_read (file_drivers f local d) fd page 32 k
            ≡ file_drivers_read f local d (current_entry k).jump_start_idx fd page 32 k =
          ground (arith, in_use, h.same_fd, is_fd, dir.real) in
        called ∙ ap (λ z. file_drivers_read f local d z fd page 32 k) table
