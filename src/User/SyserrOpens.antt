-- ===== src/User/SyserrOpens.antt =====
-- `err_open_lots` of syscalls/ece391syserr.c on the kernel of student-distrib.
use mpf_cker_os.Base.{
  ℕ, zero, suc, ◌+◌, ◌^◌, ◌≤◌, ◌<◌, ◌≡◌, refl, sym, ap, ap₂, ◌∙◌, subst, ◌≢◌, inr, ◌&&◌, some, ◌++◌,
  arith, ltb, ◌==◌, if◌then◌else◌, minus_one, Mem, inside,
}
use mathlib.Core.Path.{fun_ext}
use mpf_cker_os.Filesys.{Dentry, read_dentry_by_name}
use mpf_cker_os.Process.{Pcb, get_fd_avail}
use mpf_cker_os.Process.Files.{insert_fdt_fails, read_dentry_by_name-curr}
use mpf_cker_os.Process.Slots.{get_fd_avail_lem, remove_fd_entry_lem}
use mpf_cker_os.Strings.{codes}
use mpf_cker_os.Syscall.{Kernel, sys_open, sys_close}
use mpf_cker_os.Syscall.Dispatch.{sys_open_lem}
use mpf_cker_os.Syscall.Files.{sys_open_keeps}
use mpf_cker_os.Syscall.Handler.{syscall_handler_asm, syscall_close, with_kernel}
use mpf_cker_os.User.Calls.{text}
use mpf_cker_os.User.CatFile.{do_open}
use mpf_cker_os.User.Kernel.{
  World, Setting, kernel_open, kernel_close, do_call, overlay, with_buffer,
}
use mpf_cker_os.User.Syserr.{AllCalls, open_lots, close_all, err_open_lots}
use mpf_cker_os.User.SyserrKernel.{kernel_all, Answers, shown, say-kernel}

abbrev pub process_of : World → Pcb
process_of w = w.caller.kernel.pcbs w.caller.kernel.curr_process

-- `present` of a descriptor of the current process
abbrev pub present_at : World → ℕ → ℕ
present_at w i = ((process_of w).fd_table i).present

-- the descriptors below `n` are in use, and the others are free
pub record InUse (n : ℕ) (w : World) : Type 0 where
  pub used : (i : ℕ) → 2 ≤ i → i < n → present_at w i ≡ 0
  pub free : (i : ℕ) → n ≤ i → i < 8 → present_at w i ≡ minus_one

get_fd_avail-InUse :
    (n : ℕ) (w : World) → 2 ≤ n → n < 8 → InUse n w → (get_fd_avail (process_of w)).1 ≡ n
get_fd_avail-InUse n w lo hi h =
    let first = (get_fd_avail_lem (process_of w) 0 (omega arith)).0 in
    let r = (get_fd_avail (process_of w)).1 in
    let last : r ≤ n = ground (arith, first.before n lo hi, h.free n (omega arith) hi) in
    ground (arith, first.found, h.used r)

get_fd_avail-full : (w : World) → InUse 8 w → (get_fd_avail (process_of w)).1 ≡ minus_one
get_fd_avail-full w h =
    let first = (get_fd_avail_lem (process_of w) 0 (omega arith)).0 in
    ground (arith, first.found, h.used (get_fd_avail (process_of w)).1)

module _ (e : Setting) where
  -- the directory has an entry for ".", whatever lies in the page of the program
  Named : Dentry → World → Type 0
  Named dentry w =
      read_dentry_by_name (overlay e.page (text ".") w.caller.kernel.mem) w.caller.kernel.fs e.page
      ≡ some dentry

  -- the kernel at a call of `open` for "."
  abbrev asked : World → Kernel
  asked w = (with_buffer e (text ".") w).kernel

  abbrev after_open : World → World
  after_open w = record w {
    caller = with_kernel (with_buffer e (text ".") w) (sys_open e.page (asked w)).0;
  }

  kernel_open_eq :
      (w : World) → kernel_open e (text ".") w ≡ (after_open w, (sys_open e.page (asked w)).1)
  unfolding kernel_open
  kernel_open_eq w = ground (arith, do_open e (with_buffer e (text ".") w))

  asked_name : (w : World) → (asked w).mem e.page ≢ 0
  asked_name w = ground arith

  overlay-overlay :
      (m : Mem)
      → overlay e.page (text ".") (overlay e.page (text ".") m) ≡ overlay e.page (text ".") m
  overlay-overlay m = fun_ext (λ q. ground arith)

  open_round :
      (n : ℕ) (w : World) (dentry : Dentry)
      → 2 ≤ n
      → n < 8
      → InUse n w
      → Named dentry w
      → ((sys_open e.page (asked w)).1 ≡ n)
        × InUse (suc n) (after_open w)
        × Named dentry (after_open w)
  unfolding Named
  open_round n w dentry lo hi h found =
      let k = asked w in
      let k' = (sys_open e.page k).0 in
      let first = get_fd_avail-InUse n w lo hi h in
      let room : (get_fd_avail (k.pcbs k.curr_process)).1 ≢ minus_one = omega (arith, first) in
      let opens = sys_open_lem k e.page dentry (asked_name w) found room in
      let (mem, index) = sys_open_keeps k e.page dentry (asked_name w) found room in
      let (r, fd_now, pid_now, same, at) = opens 0 (omega arith) in
      let table : (j : ℕ)
          → j < 8
          → present_at (after_open w) j ≡ (if j == n then 0 else present_at w j) =
        λ j l.
          let (r', fd', pid', same', at') = opens j l in
          ap (λ c. ((k'.pcbs c).fd_table j).present) same' ∙ ground (arith, at', first) in
      (
        r ∙ first,
        record {
          used = λ i l u. ground (arith, table i (omega arith), h.used i l);
          free = λ i l u. ground (arith, table i u, h.free i (omega arith) u);
        },
        ap₂ (λ m s. read_dentry_by_name m s e.page)
              (ap (overlay e.page (text ".")) mem ∙ overlay-overlay w.caller.kernel.mem) index
            ∙ read_dentry_by_name-curr (overlay e.page (text ".") w.caller.kernel.mem)
                w.caller.kernel.fs dentry e.page
            ∙ found,
      )

  open_full :
      (w : World) → InUse 8 w → ((sys_open e.page (asked w)).1 ≡ minus_one) × InUse 8 (after_open w)
  unfolding sys_open
  open_full w h =
      let k = asked w in
      let fails = insert_fdt_fails k.mem k.fs (k.pcbs k.curr_process) e.page in
      let full = get_fd_avail-full w h in
      (
        ground (arith, fails 0 (inr full)),
        record {
          used = λ i l u. ground (arith, fails i (inr full) u, h.used i l u);
          free = λ i l u. absurd (omega arith);
        },
      )

  module _ (answers : Answers e.drivers) (real : 0 < e.page) (word : e.page + 4096 < 2 ^ 32)
      (ebx ecx edx : ℕ) where
    abbrev c : AllCalls World
    c = kernel_all e ebx ecx edx

    open_lots_next :
        (left cnt : ℕ) (w : World)
        → (sys_open e.page (asked w)).1 ≢ minus_one
        → open_lots c (suc left) cnt w ≡ open_lots c left cnt (after_open w)
    unfolding open_lots
    open_lots_next left cnt w h = ground (arith, kernel_open_eq w, h)

    -- the loop of the calls of `open`, with one round more than there are descriptors
    open_lots_lem :
        (left n : ℕ) (w : World) (dentry : Dentry)
        → 2 ≤ n
        → n + left ≡ 8
        → InUse n w
        → Named dentry w
        → let (w', cnt) = open_lots c (suc left) 0 w in
          (cnt ≡ 1) × InUse 8 w' × (w'.console ≡ w.console)
    unfolding open_lots
    open_lots_lem zero n w dentry lo hi h found =
        let (r, h') = open_full w (subst (λ i. InUse i w) (omega arith) h) in
        ground (arith, kernel_open_eq w, r, h')
    open_lots_lem (suc left) n w dentry lo hi h found =
        let (r, h', found') = open_round n w dentry lo (omega arith) h found in
        let rest =
          open_lots_lem left (suc n) (after_open w) dentry (omega arith) (omega arith) h' found' in
        let next = open_lots_next (suc left) 0 w (omega (arith, r, hi)) in
        subst (λ z. (z.1 ≡ 1) × InUse 8 z.0 × (z.0.console ≡ w.console)) (sym next) rest

    -- a call of `close` for a descriptor in use
    close_round :
        (i : ℕ) (w : World)
        → i < 8
        → present_at w i ≡ 0
        → let w' = (kernel_close e i w).0 in
          (w'.console ≡ w.console)
          × ((j : ℕ)
              → present_at w' j
                ≡ (if (j == i) && ltb 2 i && ltb i 6 then minus_one else present_at w j))
    unfolding kernel_close do_call syscall_handler_asm syscall_close sys_close
    close_round i w lo h = (refl, λ j. ground (arith, remove_fd_entry_lem (process_of w) i j, h))

    close_all_lem :
        (i left : ℕ) (w : World)
        → i + left ≤ 8
        → ((j : ℕ) → i ≤ j → j < i + left → present_at w j ≡ 0)
        → let w' = close_all c i left w in
          (w'.console ≡ w.console)
          × ((j : ℕ)
              → present_at w' j
                ≡ (if inside i left j && ltb 2 j && ltb j 6 then minus_one else present_at w j))
    unfolding close_all
    close_all_lem i zero w bound h = (refl, λ j. ground arith)
    close_all_lem i (suc left) w bound h =
        let w1 = (kernel_close e i w).0 in
        let (kept, at) = close_round i w (omega (arith, bound)) (h i (omega arith) (omega arith)) in
        let (kept', at') =
          close_all_lem (i + 1) left w1 (omega (arith, bound))
            (λ j l u. ground (arith, at j, h j (omega (arith, l)) (omega (arith, u)))) in
        (kept' ∙ kept, λ j. ground (arith, at' j, at j))

    -- In a process that has opened nothing, with an entry for "." in the directory, `err_open_lots` passes, and
    -- of the descriptors from 2 to 7 it leaves 3, 4 and 5 free and 2, 6 and 7 in use.
    pub err_open_lots-kernel :
        (w : World) (dentry : Dentry)
        → InUse 2 w
        → read_dentry_by_name
            (overlay e.page (text ".") w.caller.kernel.mem)
            w.caller.kernel.fs
            e.page
          ≡ some dentry
        → (w' : World) × (err_open_lots c w ≡ some (w', 0))
          × (w'.console ≡ w.console ++ codes "err_open_lots: PASS\n")
          × ((j : ℕ)
              → 2 ≤ j
              → j < 8
              → present_at w' j ≡ (if ltb 2 j && ltb j 6 then minus_one else 0))
    unfolding err_open_lots Named
    err_open_lots-kernel w dentry fresh found =
        let w1 = (open_lots c 7 0 w).0 in
        let (one, all, kept) = open_lots_lem 6 2 w dentry (omega arith) refl fresh found in
        let w2 = close_all c 2 6 w1 in
        let (kept', at) =
          close_all_lem 2 6 w1 (omega arith) (λ j l u. all.used j l (omega (arith, u))) in
        let (m, said) = say-kernel e answers real word ebx ecx edx "err_open_lots: PASS\n" w2 in
        (
          shown m "err_open_lots: PASS\n" w2,
          ground (arith, one, said),
          ap (λ l. l ++ codes "err_open_lots: PASS\n") (kept' ∙ kept),
          λ j l u. ground (arith, at j, all.used j l (omega (arith, u))),
        )
