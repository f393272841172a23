-- ===== src/User/CatFile.antt =====
-- `cat` of syscalls/ece391cat.c with a file of the image of student-distrib/filesys.c.
use mpf_cker_os.Base.{
  ℕ, suc, ◌+◌, ◌-◌, ◌^◌, ◌≤◌, ◌<◌, ◌≡◌, refl, sym, ap, ◌∙◌, ◌≢◌, ◌⊎◌, inl, some, ◌++◌, arith,
  minus_one, Mem, bytes_at, IsBytes,
}
use mpf_cker_os.Filesys.{Filesys, Dentry, read_dentry_by_name, file_length}
use mpf_cker_os.Filesys.Read.{file_byte}
use mpf_cker_os.Filesys.Same.{IsImage, SameImage}
use mpf_cker_os.Process.{get_fd_avail, fop_of}
use mpf_cker_os.Process.Files.{opened}
use mpf_cker_os.Syscall.{Kernel, Drivers, sys_open}
use mpf_cker_os.Syscall.Dispatch.{sys_open_lem}
use mpf_cker_os.Syscall.Files.{file_drivers, sys_open_keeps}
use mpf_cker_os.Syscall.Handler.{Caller, syscall_handler_asm, syscall_open, with_kernel}
use mpf_cker_os.User.Programs.{cat}
use mpf_cker_os.User.Kernel.{
  World, Setting, kernel_calls, kernel_open, kernel_getargs, do_call, overlay, with_buffer,
}
use mpf_cker_os.User.OnKernel.{IsConsole, IsOpen, entry_of}
use mpf_cker_os.User.CatKernel.{cat-kernel}

pub do_open :
    (e : Setting) (s : Caller)
    → do_call e 5 e.page 0 0 s
      ≡ some (with_kernel s (sys_open e.page s.kernel).0, (sys_open e.page s.kernel).1)
unfolding do_call syscall_handler_asm syscall_open
do_open e s = refl

-- the index of the image, with the entry of the file that was opened last
abbrev pub with_dentry : Filesys → Dentry → Filesys
with_dentry fs dentry = record fs { curr_dentry = dentry }

module _ (e : Setting) (d : Drivers) (f local limit : ℕ)
    (drivers : e.drivers ≡ file_drivers (suc (suc f)) local d) (console : IsConsole d)
    (apart : limit ≤ e.page) (word : e.page + 4096 < 2 ^ 32) (real : 0 < e.page) (name : Mem)
    (w : World) (dentry : Dentry) where
  abbrev k : Kernel
  k = (with_buffer e name w).kernel

  abbrev fd : ℕ
  fd = (get_fd_avail (k.pcbs k.curr_process)).1

  module _ (named : k.mem e.page ≢ 0) (found : read_dentry_by_name k.mem k.fs e.page ≡ some dentry)
      (is_fd : (2 ≤ fd) × (fd < 6)) (regular : dentry.file_type ≡ 2)
      (start : ((k.pcbs k.curr_process).fd_table fd).file_pos ≡ 0)
      (image : IsImage w.caller.kernel.mem w.caller.kernel.fs dentry.inode_num limit)
      (is_bytes : IsBytes w.caller.kernel.mem) (name_bytes : IsBytes name) where
    opened_image :
        IsImage w.caller.kernel.mem (with_dentry w.caller.kernel.fs dentry) dentry.inode_num limit
    opened_image = record {
      known = image.known;
      size = image.size;
      node = image.node;
      blocks = image.blocks;
    }

    kernel_open_lem :
        (w2 : World) × (kernel_open e name w ≡ (w2, fd))
        × IsOpen w.caller.kernel.mem
            (with_dentry w.caller.kernel.fs dentry)
            dentry.inode_num
            limit
            opened_image
            fd
            e.page
            is_fd
            apart
            word
            real
            w2.caller.kernel
        × ((entry_of fd w2.caller.kernel).file_pos ≡ 0)
        × (w2.console ≡ w.console)
    unfolding kernel_open fop_of
    kernel_open_lem =
        let s = with_buffer e name w in
        let k2 = (sys_open e.page k).0 in
        let far : fd ≢ minus_one = omega (arith, is_fd) in
        let (r, current, pid, same, table) =
          sys_open_lem k e.page dentry named found far fd (omega (arith, is_fd)) in
        let (mem, index) = sys_open_keeps k e.page dentry named found far in
        let entry : entry_of fd k2 ≡ opened ((k.pcbs k.curr_process).fd_table fd) dentry =
          ground (arith, same, table) in
        let at_start : (entry_of fd k2).file_pos ≡ 0 = ap (λ z. z.file_pos) entry ∙ start in
        let same_image : SameImage w.caller.kernel.mem (with_dentry w.caller.kernel.fs dentry) limit
            (overlay e.page name w.caller.kernel.mem) =
          record { same = λ q lo hi. ground (arith, hi, apart) } in
        let call : do_call e 5 e.page 0 0 s ≡ some (with_kernel s k2, fd) =
          do_open e s ∙ ap (λ j. some (with_kernel s k2, j)) r in
        (
          record w { caller = with_kernel s k2 },
          ground (arith, call),
          record {
            same_fs = index;
            same_process = pid ∙ sym same;
            same_fd = current;
            present = ap (λ z. z.present) entry;
            table = ap (λ z. z.jump_start_idx) entry ∙ ground (arith, regular);
            inode = ap (λ z. z.inode_number) entry;
            within = omega (arith, at_start);
            aligned = inl (omega (arith, at_start));
            bytes = λ q. ground (arith, ap (λ m. m q) mem, name_bytes (q - e.page), is_bytes q);
            same_image = record { same = λ q lo hi. ap (λ m. m q) mem ∙ same_image.same q lo hi };
          },
          at_start,
          refl,
        )

    -- With the argument read, a regular file of that name, the first free descriptor below 6 and at position 0, the
    -- image below the page of the program and beside the page of video memory, and memory made of bytes, `cat`
    -- ends with status 0 once its fuel is more than the bytes of the file, and has written to descriptor 1 the
    -- bytes of the file, all of them in order and nothing else.
    pub cat-kernel_open :
        (fuel : ℕ) (buf : Mem) (w0 : World)
        → kernel_getargs e 1024 buf w0 ≡ (name, w, 0)
        → (limit ≤ 0xb8000) ⊎ (0xb9000 ≤ w.caller.kernel.fs.start_addr)
        → file_length w.caller.kernel.mem w.caller.kernel.fs dentry.inode_num < fuel
        → (w' : World) × (cat (kernel_calls e) fuel buf w0 ≡ some (w', 0))
          × (w'.console
              ≡ w0.console
                ++ bytes_at
                    (file_byte w.caller.kernel.mem w.caller.kernel.fs dentry.inode_num)
                    0
                    (file_length w.caller.kernel.mem w.caller.kernel.fs dentry.inode_num))
    unfolding kernel_getargs
    cat-kernel_open fuel buf w0 args video enough =
        let (w2, opens, h, at_start, kept) = kernel_open_lem in
        let (w', ran, said) =
          cat-kernel w.caller.kernel.mem (with_dentry w.caller.kernel.fs dentry) dentry.inode_num
            limit opened_image fd is_fd e d f local drivers console apart word real video fuel buf
            name w0 w w2 args opens name_bytes h at_start enough in
        let before : w0.console ≡ w.console = ap (λ z. z.1.console) args in
        let index : Filesys = w.caller.kernel.fs in
        let written =
          bytes_at (file_byte w.caller.kernel.mem index dentry.inode_num) 0
            (file_length w.caller.kernel.mem index dentry.inode_num) in
        (w', ran, said ∙ ap (λ c. c ++ written) (kept ∙ sym before))
