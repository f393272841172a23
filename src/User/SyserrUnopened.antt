-- ===== src/User/SyserrUnopened.antt =====
-- `err_unopened` and `err_open` of syscalls/ece391syserr.c on the kernel of student-distrib.
use mpf_cker_os.Base.{
  ℕ, zero, suc, ◌+◌, ◌-◌, ◌^◌, ◌≤◌, ◌<◌, ◌≡◌, refl, ap, ◌∙◌, ◌≢◌, true, ◌||◌, none, some, ◌++◌,
  arith, ◌==◌, minus_one, Mem, update,
}
use Prim.Native.String.{String}
use mathlib.Core.Path.{fun_ext}
use mpf_cker_os.Filesys.{Filesys, file_open, read_dentry_by_name}
use mpf_cker_os.Process.{Pcb, Pcbs, remove_fd_entry, insert_fdt}
use mpf_cker_os.Strings.{codes}
use mpf_cker_os.Syscall.{Kernel, sys_close, sys_open, current_entry}
use mpf_cker_os.Syscall.Handler.{syscall_handler_asm, syscall_close, with_kernel}
use mpf_cker_os.User.Calls.{text}
use mpf_cker_os.User.CatFile.{do_open}
use mpf_cker_os.User.Kernel.{
  World, Setting, kernel_open, kernel_close, do_call, overlay, with_buffer,
}
use mpf_cker_os.User.Syserr.{
  AllCalls, refuse_open, refuse_close, expect_refused, err_open, err_unopened, close_unopened,
  read_unopened, write_unopened,
}
use mpf_cker_os.User.SyserrKernel.{
  kernel_all, Answers, with_memory, shown, verdict-kernel, refuse_read-kernel, refuse_write-kernel,
}
use mpf_cker_os.User.SyserrOpens.{present_at}

update_same : (p : Pcbs) (i : ℕ) → update p i (p i) ≡ p
update_same p i = fun_ext (λ j. ground arith)

-- the world with another process table
abbrev with_pcbs : World → Pcbs → World
with_pcbs w p = record w { caller = with_kernel w.caller (record w.caller.kernel { pcbs = p }) }

insert_fdt_absent :
    (m : Mem) (fs : Filesys) (b : Pcb) (f : ℕ)
    → read_dentry_by_name m fs f ≡ none
    → insert_fdt m fs b f ≡ (fs, b, minus_one)
unfolding insert_fdt file_open
insert_fdt_absent m fs b f absent = ground (arith, absent)

sys_open_absent :
    (k : Kernel) (f : ℕ)
    → k.mem f ≢ 0
    → read_dentry_by_name k.mem k.fs f ≡ none
    → sys_open f k ≡ (record k { curr_fd = minus_one; curr_pid = k.curr_process }, minus_one)
unfolding sys_open
sys_open_absent k f named absent =
    let none_opened = insert_fdt_absent k.mem k.fs (k.pcbs k.curr_process) f absent in
    let same = update_same k.pcbs k.curr_process in ground (arith, none_opened, same)

-- nothing is read or written for a descriptor from 2 on
abbrev pub NoFile : World → Type 0
NoFile w =
    ((current_entry w.caller.kernel).present == minus_one) || (w.caller.kernel.curr_fd == minus_one)
    ≡ true

module _ (e : Setting) (answers : Answers e.drivers) (real : 0 < e.page)
    (word : e.page + 4096 < 2 ^ 32) (ebx ecx edx : ℕ) where
  abbrev c : AllCalls World
  c = kernel_all e ebx ecx edx

  refuse_close-unopened :
      (i : ℕ) (s : String) (w : World)
      → i < 8
      → present_at w i ≢ 0
      → refuse_close c i s 0 w ≡ some (w, 0)
  unfolding refuse_close expect_refused kernel_close do_call syscall_handler_asm syscall_close
      sys_close remove_fd_entry
  refuse_close-unopened i s w lo h =
      let same : with_pcbs w (
            update w.caller.kernel.pcbs w.caller.kernel.curr_process
              (w.caller.kernel.pcbs w.caller.kernel.curr_process))
          ≡ w =
        ap (with_pcbs w) (update_same w.caller.kernel.pcbs w.caller.kernel.curr_process) in
      ground (arith, h, same)

  close_unopened-kernel :
      (i left : ℕ) (w : World)
      → i + left ≤ 8
      → ((j : ℕ) → j < 8 → present_at w j ≢ 0)
      → close_unopened c i left 0 w ≡ some (w, 0)
  unfolding close_unopened
  close_unopened-kernel i zero w bound h = refl
  close_unopened-kernel i (suc left) w bound h = ground (
    arith,
    refuse_close-unopened i "close unopened or invalid fd fail\n" w (omega (arith, bound))
        (h i (omega (arith, bound))),
    close_unopened-kernel (i + 1) left w (omega (arith, bound)) h,
  )

  read_unopened-kernel :
      (i left : ℕ) (buf : Mem) (w : World)
      → 2 ≤ i
      → i + left ≤ 8
      → NoFile w
      → (buf' m : Mem) × (read_unopened c i left 0 buf w ≡ some (buf', with_memory m w, 0))
  unfolding read_unopened
  read_unopened-kernel i zero buf w lo bound h = (buf, w.caller.kernel.mem, refl)
  read_unopened-kernel i (suc left) buf w lo bound h =
      let (buf1, m1, ran1) =
        refuse_read-kernel e answers real word ebx ecx edx i "read from unopened fd fail\n" buf w
          (omega (arith, bound)) (ground (arith, h, lo)) in
      let (buf2, m2, ran2) =
        read_unopened-kernel (i + 1) left buf1 (with_memory m1 w) (omega (arith, lo))
          (omega (arith, bound)) h in
      (buf2, m2, ground (arith, ran1, ran2))

  write_unopened-kernel :
      (i left : ℕ) (buf : Mem) (w : World)
      → 2 ≤ i
      → NoFile w
      → (m : Mem) × (write_unopened c i left 0 buf w ≡ some (with_memory m w, 0))
  unfolding write_unopened
  write_unopened-kernel i zero buf w lo h = (w.caller.kernel.mem, refl)
  write_unopened-kernel i (suc left) buf w lo h =
      let (m1, ran1) =
        refuse_write-kernel e answers real word ebx ecx edx i "write to unopened fd fail\n" buf w
          (ground (arith, h, lo)) in
      let (m2, ran2) =
        write_unopened-kernel (i + 1) left buf (with_memory m1 w) (omega (arith, lo)) h in
      (m2, ground (arith, ran1, ran2))

  -- In a process that has no descriptor in use and no current file `err_unopened` returns 0, prints its message
  -- alone and changes nothing of the kernel but memory.
  pub err_unopened-kernel :
      (buf : Mem) (w : World)
      → ((j : ℕ) → j < 8 → present_at w j ≢ 0)
      → NoFile w
      → (m : Mem) × (err_unopened c buf w ≡ some (shown m "err_unopened: PASS\n" w, 0))
  unfolding err_unopened
  err_unopened-kernel buf w closed h =
      let ran1 = close_unopened-kernel 0 8 w (omega arith) closed in
      let (buf2, m2, ran2) = read_unopened-kernel 2 6 buf w (omega arith) (omega arith) h in
      let (m3, ran3) = write_unopened-kernel 2 6 buf2 (with_memory m2 w) (omega arith) h in
      let (m4, ran4) =
        verdict-kernel e answers real word ebx ecx edx "err_unopened: PASS\n" "err_unopened: FAIL\n"
          (with_memory m3 w) in
      (m4, ground (arith, ran1, ran2, ran3, ran4))

  -- a name that the directory does not have, for any memory that differs in the page of the program alone
  abbrev pub Absent : String → World → Type 0
  Absent name w =
      read_dentry_by_name (overlay e.page (text name) w.caller.kernel.mem) w.caller.kernel.fs e.page
      ≡ none

  -- the world after a name has been refused
  abbrev pub unopened : String → World → World
  unopened name w = record w {
    caller = with_kernel w.caller (record w.caller.kernel {
      mem = overlay e.page (text name) w.caller.kernel.mem;
      curr_fd = minus_one;
      curr_pid = w.caller.kernel.curr_process;
    });
  }

  refuse_open-Absent :
      (name s : String) (w : World)
      → text name 0 ≢ 0
      → Absent name w
      → refuse_open c name s 0 w ≡ some (unopened name w, 0)
  unfolding refuse_open expect_refused kernel_open
  refuse_open-Absent name s w named absent =
      let before = with_buffer e (text name) w in
      let at_page : before.kernel.mem e.page ≡ text name (e.page - e.page) = ground arith in
      let first : text name (e.page - e.page) ≡ text name 0 = ap (text name) (omega arith) in
      let named' : before.kernel.mem e.page ≢ 0 = omega (arith, at_page, first, named) in
      let result = sys_open_absent before.kernel e.page named' absent in
      let call : do_call e 5 e.page 0 0 before
          ≡ some (
            with_kernel before (record before.kernel {
              curr_fd = minus_one;
              curr_pid = before.kernel.curr_process;
            }),
            minus_one,
          ) =
        do_open e before ∙ ap (λ z. some (with_kernel before z.0, z.1)) result in
      ground (arith, call)

  refuse_open-empty :
      (s : String) (w : World)
      → refuse_open c "" s 0 w
        ≡ some (with_memory (overlay e.page (text "") w.caller.kernel.mem) w, 0)
  unfolding refuse_open expect_refused kernel_open sys_open
  refuse_open-empty s w =
      let before = with_buffer e (text "") w in
      let at_page : before.kernel.mem e.page ≡ text "" (e.page - e.page) = ground arith in
      let start : e.page - e.page ≡ 0 = omega arith in
      let first : text "" (e.page - e.page) ≡ 0 = ap (text "") start in
      ground (arith, do_open e before, at_page, first)

  overlay-overlay : (a b m : Mem) → overlay e.page a (overlay e.page b m) ≡ overlay e.page a m
  overlay-overlay a b m = fun_ext (λ q. ground arith)

  -- With neither "helloo" nor "shel" in the directory `err_open` returns 0 and prints its message alone; the
  -- process has no current file afterwards.
  pub err_open-kernel :
      (w : World)
      → Absent "helloo" w
      → Absent "shel" w
      → (w' : World) × (err_open c w ≡ some (w', 0))
        × (w'.console ≡ w.console ++ codes "err_open: PASS\n")
        × (w'.caller.kernel.pcbs ≡ w.caller.kernel.pcbs)
        × (w'.caller.kernel.curr_fd ≡ minus_one)
  unfolding err_open
  err_open-kernel w absent absent' =
      let w1 = unopened "helloo" w in
      let w2 = unopened "shel" w1 in
      let w3 = with_memory (overlay e.page (text "") w2.caller.kernel.mem) w2 in
      let ran1 = refuse_open-Absent "helloo" "'helloo' fail\n" w (omega arith) absent in
      let still : Absent "shel" w1 =
        ap (λ m. read_dentry_by_name m w.caller.kernel.fs e.page)
          (overlay-overlay (text "shel") (text "helloo") w.caller.kernel.mem)
        ∙ absent' in
      let ran2 = refuse_open-Absent "shel" "'shel' fail\n" w1 (omega arith) still in
      let ran3 = refuse_open-empty "empty string fail\n" w2 in
      let (m, ran4) =
        verdict-kernel e answers real word ebx ecx edx "err_open: PASS\n" "err_open: FAIL\n" w3 in
      (shown m "err_open: PASS\n" w3, ground (arith, ran1, ran2, ran3, ran4), refl, refl, refl)
