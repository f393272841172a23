-- ===== src/Execute/Return.antt =====
-- What a process leaves when it ends, and programs that are not found, student-distrib/execute.c and
-- halt.c.
use mpf_cker_os.Base.{
  ℕ, zero, suc, ◌+◌, ◌*◌, ◌≤◌, ◌<◌, bit_or, ◌≡◌, refl, true, none, some, arith, ◌==◌, if◌then◌else◌,
  all_below, all_below_sound, u32, minus_one, Mem, update, inside,
}
use mpf_cker_os.Memory.{memmove}
use mpf_cker_os.Filesys.{Filesys, read_dentry_by_name, file_open}
use mpf_cker_os.Paging.{Paging, map_page, flush_tlb}
use mpf_cker_os.Process.{FdEntry}
use mpf_cker_os.Execute.{
  Machine, Regs, refused, returns_to, curr_process, fill_pcb, fill_tss, read_elf, execute,
  clear_fds, free_entry, clear_args, halt,
}

clear_fds_lem :
    (t : ℕ → FdEntry) (i n j : ℕ)
    → (clear_fds t i n j).present ≡ (if inside i n j then minus_one else (t j).present)
unfolding clear_fds
clear_fds_lem t i zero j = ground arith
clear_fds_lem t i (suc n) j = ground (arith, clear_fds_lem (update t i free_entry) (i + 1) n j)

clear_args_lem : (m : Mem) (i n q : ℕ) → clear_args m i n q ≡ (if inside i n q then 0 else m q)
unfolding clear_args
clear_args_lem m i zero q = ground arith
clear_args_lem m i (suc n) q = ground (arith, clear_args_lem (update m i 0) (i + 1) n q)

-- the directory entry of each process's page
page_entries :
    all_below 6 (λ p. bit_or (u32 ((p + 2) * 4194304)) 0x87 == (p + 2) * 4194304 + 0x87) ≡ true
unfolding all_below
page_entries = refl

map_program_lem :
    (pid : ℕ) (t : Paging)
    → pid < 6
    → (map_page (u32 ((pid + 2) * 4194304)) 0x8000000 0x87 t).page_directory 32
      ≡ (pid + 2) * 4194304 + 0x87
unfolding map_page flush_tlb
map_program_lem pid t h = ground (arith, all_below_sound 6 _ pid page_entries h)

-- A process that was started by another one, whatever memory and file system it leaves, returns to the
-- registers that were saved; the task state and the current process are those of its caller again, the
-- program page is the caller's, and the process and its descriptors from 2 on are free.
pub halt-fill_pcb :
    (s : Machine) (pid fd q : ℕ) (r : Regs) (m : Mem) (fs : Filesys)
    → curr_process s < 6
    → 2 ≤ fd
    → fd < 8
    → q < 1023
    → let parent = curr_process s in
      let (u, out) = halt (fill_tss pid (record (fill_pcb pid r s) { mem = m; fs = fs })) in
      (out ≡ returns_to r.esp r.ebp r.return_label)
      × (u.tss ≡ s.tss)
      × (curr_process u ≡ parent)
      × (u.paging.page_directory 32 ≡ (parent + 2) * 4194304 + 0x87)
      × ((u.pcbs pid).pcb_in_use ≡ minus_one)
      × (((u.pcbs pid).fd_table fd).present ≡ minus_one)
      × ((u.pcbs pid).args q ≡ 0)
unfolding halt fill_pcb fill_tss
halt-fill_pcb s pid fd q r m fs known l h k =
    let mapped =
      map_program_lem (curr_process s)
        (map_page (u32 ((pid + 2) * 4194304)) 0x8000000 0x87 s.paging) known in
    (
      ground arith,
      ground arith,
      ground arith,
      ground (arith, mapped),
      ground arith,
      ground (arith, clear_fds_lem (s.pcbs pid).fd_table 2 6 fd),
      ground (arith, clear_args_lem (s.pcbs pid).args 0 1023 q),
    )

-- `execute` of a name that is not in the directory is refused, and only the copy of the name has been
-- made.
pub execute_unknown :
    (f fname temp buf : ℕ) (r : Regs) (s : Machine)
    → read_dentry_by_name (memmove s.mem temp fname 128) s.fs fname ≡ none
    → execute f fname temp buf r s ≡ some (record s { mem = memmove s.mem temp fname 128 }, refused)
unfolding execute read_elf file_open
execute_unknown f fname temp buf r s h = ground (arith, h)
