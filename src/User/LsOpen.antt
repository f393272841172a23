-- ===== src/User/LsOpen.antt =====
-- `ls` of syscalls/ece391ls.c with the directory of student-distrib/filesys.c.
use mpf_cker_os.Base.{
  ℕ, zero, suc, ◌+◌, ◌-◌, ◌^◌, ◌≤◌, ◌<◌, ◌≡◌, refl, sym, ap, ap₂, ◌∙◌, ◌≢◌, some, List, ◌++◌, arith,
  minus_one, Mem, length, IsBytes,
}
use mpf_cker_os.Filesys.{Filesys, Dentry, read_dentry_by_name}
use mpf_cker_os.Process.{get_fd_avail, fop_of}
use mpf_cker_os.Process.Files.{opened}
use mpf_cker_os.Syscall.{Kernel, Drivers, sys_open}
use mpf_cker_os.Syscall.Dispatch.{sys_open_lem}
use mpf_cker_os.Syscall.Files.{file_drivers, sys_open_keeps}
use mpf_cker_os.Syscall.Handler.{with_kernel}
use mpf_cker_os.User.Calls.{text}
use mpf_cker_os.User.CatFile.{do_open, with_dentry}
use mpf_cker_os.User.Kernel.{World, Setting, kernel_calls, kernel_open, do_call, with_buffer}
use mpf_cker_os.User.Listing.{listing, ls_lem}
use mpf_cker_os.User.LsKernel.{kernel-Lists}
use mpf_cker_os.User.OnDirectory.{IsDirectory, IsDirOpen, names_from, length-names_from}
use mpf_cker_os.User.OnKernel.{IsConsole, entry_of}
use mpf_cker_os.User.Programs.{ls}

dot-IsBytes : IsBytes (text ".")
dot-IsBytes zero = omega arith
dot-IsBytes (suc q) = omega arith

-- the index with another last opened entry has the same directory
with_dentry-IsDirectory :
    (m : Mem) (fs : Filesys) (len : ℕ → ℕ) (page local : ℕ) (dentry : Dentry)
    → IsDirectory m fs len page local
    → IsDirectory m (with_dentry fs dentry) len page local
with_dentry-IsDirectory m fs len page local dentry h = record {
  most = h.most;
  named = h.named;
  some_bytes = h.some_bytes;
  below = h.below;
  off_local = h.off_local;
  page_local = h.page_local;
  off_video = h.off_video;
  real = h.real;
}

module _ (e : Setting) (d : Drivers) (f local : ℕ) (len : ℕ → ℕ)
    (drivers : e.drivers ≡ file_drivers f local d) (console : IsConsole d)
    (word : e.page + 4096 < 2 ^ 32) (w : World) (dentry : Dentry)
    (dir : IsDirectory w.caller.kernel.mem w.caller.kernel.fs len e.page local)
    (in_range : w.caller.kernel.fs.curfile < w.caller.kernel.fs.numdentries)
    (is_bytes : IsBytes w.caller.kernel.mem) where
  abbrev k : Kernel
  k = (with_buffer e (text ".") w).kernel

  abbrev fd : ℕ
  fd = (get_fd_avail (k.pcbs k.curr_process)).1

  -- the names that are still to be read, all but that of the last entry
  abbrev pub names_left : List (List ℕ)
  names_left =
      let fs = w.caller.kernel.fs in
      names_from w.caller.kernel.mem fs len fs.curfile (fs.numdentries - (fs.curfile + 1))

  opened_dir :
      IsDirectory w.caller.kernel.mem (with_dentry w.caller.kernel.fs dentry) len e.page local
  opened_dir =
      with_dentry-IsDirectory w.caller.kernel.mem w.caller.kernel.fs len e.page local dentry dir

  module _ (found : read_dentry_by_name k.mem k.fs e.page ≡ some dentry)
      (is_fd : (2 ≤ fd) × (fd < 6)) (is_dir : dentry.file_type ≡ 1) where
    kernel_open_dir :
        (w2 : World) × (kernel_open e (text ".") w ≡ (w2, fd))
        × IsDirOpen w.caller.kernel.mem
            (with_dentry w.caller.kernel.fs dentry)
            len
            e.page
            local
            opened_dir
            fd
            is_fd
            w2.caller.kernel
        × (w2.caller.kernel.fs.curfile ≡ w.caller.kernel.fs.curfile)
        × (w2.console ≡ w.console)
    unfolding kernel_open fop_of
    kernel_open_dir =
        let s = with_buffer e (text ".") w in
        let k2 = (sys_open e.page k).0 in
        let far : fd ≢ minus_one = omega (arith, is_fd) in
        let first : k.mem e.page ≡ 46 =
          let at : e.page - e.page ≡ 0 = omega arith in ground (arith, ap (text ".") at) in
        let named : k.mem e.page ≢ 0 = omega (arith, first) in
        let (r, current, pid, same, table) =
          sys_open_lem k e.page dentry named found far fd (omega (arith, is_fd)) in
        let (mem, index) = sys_open_keeps k e.page dentry named found far in
        let entry : entry_of fd k2 ≡ opened ((k.pcbs k.curr_process).fd_table fd) dentry =
          ground (arith, same, table) in
        let call : do_call e 5 e.page 0 0 s ≡ some (with_kernel s k2, fd) =
          do_open e s ∙ ap (λ j. some (with_kernel s k2, j)) r in
        let at : k2.fs.curfile ≡ w.caller.kernel.fs.curfile = ap (λ z. z.curfile) index in
        (
          record w { caller = with_kernel s k2 },
          ground (arith, call),
          record {
            same_fs =
                index
                ∙ ap {A = ℕ} (λ c. record (with_dentry w.caller.kernel.fs dentry) { curfile = c })
                    (sym at);
            in_range = omega (arith, at, in_range);
            same_process = pid ∙ sym same;
            same_fd = current;
            present = ap (λ z. z.present) entry;
            table = ap (λ z. z.jump_start_idx) entry ∙ ground (arith, is_dir);
            bytes = λ q. ground (arith, ap (λ m. m q) mem, dot-IsBytes (q - e.page), is_bytes q);
            same_dir = λ q lo hi. ap (λ m. m q) mem ∙ ground (arith, dir.below, lo, hi);
          },
          at,
          refl,
        )

    -- With an entry for the name "." of the type of directories, the first free descriptor below 6, a directory
    -- whose names have 1 to 31 bytes and whose entries lie below the page of the program and beside the local
    -- entry of `dir_read` and the page of video memory, and memory made of bytes, `ls` ends with status 0 once its
    -- fuel is at least the entries, and has written to descriptor 1 the names from the current entry on, but
    -- for that of the last entry, in order and each on a line, and nothing else.
    pub ls-kernel_open :
        (fuel : ℕ) (buf : Mem)
        → IsBytes buf
        → w.caller.kernel.fs.numdentries ≤ fuel
        → (w' : World) × (ls (kernel_calls e) fuel buf w ≡ some (w', 0))
          × (w'.console ≡ w.console ++ listing names_left)
    ls-kernel_open fuel buf bytes enough =
        let (w2, opens, h, at, kept) = kernel_open_dir in
        let m0 = w.caller.kernel.mem in
        let fs = with_dentry w.caller.kernel.fs dentry in
        let read : ℕ → List (List ℕ) = λ c. names_from m0 fs len c (fs.numdentries - (c + 1)) in
        let all : read w2.caller.kernel.fs.curfile ≡ read fs.curfile = ap read at in
        let size : length (read fs.curfile) ≡ fs.numdentries - (fs.curfile + 1) =
          length-names_from m0 fs len fs.curfile (fs.numdentries - (fs.curfile + 1)) in
        let unchanged : read fs.curfile ≡ names_left = refl in
        let (w', ran, said) =
          ls_lem (kernel_calls e) fd _ _ (λ v. v.console)
            (kernel-Lists m0 fs len e d f local drivers console word opened_dir fd is_fd) fuel buf w
            w2 opens (omega (arith, is_fd)) h bytes
            (omega (arith, ap (λ l. length l) all, size, enough, in_range)) in
        (w', ran, said ∙ ap₂ (λ a l. a ++ listing l) kept (all ∙ unchanged))
