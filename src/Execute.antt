-- ===== src/Execute.antt =====
-- Starting and ending a process, student-distrib/execute.c and halt.c. Memory is physical, so the image
-- of a program goes to the page that the directory has for it; the local arrays lie at `temp` and
-- `buf`. The registers that the assembly saves are arguments, and the jump to the user is a result.
pub mod Restart
pub mod Return
pub mod Sample
mod Tests
mod RestartTests
use mpf_cker_os.Base.{
  ℕ, zero, suc, ◌+◌, ◌-◌, ◌*◌, ◌/◌, ◌%◌, ◌^◌, ◌≤◌, ◌<◌, min, bit_and, bit_or, ◌≡◌, refl, sym, ap,
  ap₂, ◌∙◌, subst, ◌≢◌, ◌↔◌, ◌⊎◌, inl, inr, Bool, true, false, not, ◌&&◌, ◌||◌, Option, none, some,
  List, [], ◌∷◌, ◌++◌, arith, ltb, leb, ◌==◌, if◌then◌else◌, ==_iff, Bool-cases, all_below,
  all_below_sound, u8, u16, u32, sub32, minus_one, is_negative, signed_ltb, Mem, update, inside,
  length, get_or, bytes_at, bytes_at-eq, place, ℕ_discrete, dec_lt,
}
use mpf_cker_os.Memory.{memmove}
use mpf_cker_os.Pic.{Pic, send_eoi}
use mpf_cker_os.Paging.{Paging, map_page}
use mpf_cker_os.Filesys.{Filesys, file_open, file_load}
use mpf_cker_os.Process.{FdEntry, Fop, null, Pcb, Pcbs, get_pid, file_read}

-- the two fields of the task state that the kernel sets
pub record Tss : Type 0 where
  pub ss0 : ℕ
  pub esp0 : ℕ

-- what is saved of the caller: the stack, the frame and the address of `ret_label`
pub record Regs : Type 0 where
  pub esp : ℕ
  pub ebp : ℕ
  pub return_label : ℕ

pub record Machine : Type 0 where
  pub mem : Mem
  pub fs : Filesys
  pub pcbs : Pcbs
  -- `terminals[i].curr_process`
  pub running : ℕ → ℕ
  pub cur_terminal : ℕ
  pub tss : Tss
  pub paging : Paging
  pub pic : Pic
  pub first_instruct : ℕ

abbrev pub curr_process : Machine → ℕ
curr_process s = s.running s.cur_terminal

abbrev pub four_mb : ℕ
four_mb = 4194304

abbrev pub vaddr_prog_page : ℕ
vaddr_prog_page = 0x8000000

-- the physical address of `VADDRPROGIMG`
abbrev pub image_addr : Paging → ℕ
image_addr p = p.page_directory 32 / four_mb * four_mb + 0x48000

-- `read_ELF` for the descriptor `fd`: memory, the file system, the process table and the result
unfoldable pub read_elf : ℕ → ℕ → ℕ → ℕ → Machine → Option (Machine × ℕ)
read_elf f fname buf fd s =
    let (fs', i) = file_open s.mem s.fs fname in
    let ran = file_read f s.mem fs' (s.pcbs (curr_process s)) fd buf 28 in
    if i == minus_one then some (record s { fs = fs' }, minus_one) else elim ran [
      | none ↦ none
      | some (m', b', n) ↦
          some (record s { mem = m'; fs = fs'; pcbs = update s.pcbs (curr_process s) b' }, n)
    ]

unfoldable pub load : ℕ → ℕ → ℕ → Machine → Option (Machine × ℕ)
load f fname buf s =
    let (fs', i) = file_open s.mem s.fs fname in
    elim (file_load f s.mem fs' buf 0x3b8000) [
      | none ↦ none
      | some (m', n) ↦ some (record s { mem = m'; fs = fs' }, n)
    ]

-- the fields of the new process, its parent, and its page
unfoldable pub fill_pcb : ℕ → Regs → Machine → Machine
fill_pcb pid r s =
    let b = record (s.pcbs pid) {
      esp = r.esp;
      ebp = r.ebp;
      return_label_add = r.return_label;
      esp0 = s.tss.esp0;
      ss0 = s.tss.ss0;
      parent_pid = curr_process s;
    } in
    record s {
      pcbs = update s.pcbs pid b;
      running = update s.running s.cur_terminal pid;
      paging = map_page (u32 ((pid + 2) * four_mb)) vaddr_prog_page 0x87 s.paging;
    }

unfoldable pub is_elf : Mem → ℕ → Bool
is_elf m buf =
    (m buf == 0x7f) && (m (buf + 1) == 0x45) && (m (buf + 2) == 0x4c) && (m (buf + 3) == 0x46)

-- the little-endian word at 24 of the header
unfoldable pub entry_point : Mem → ℕ → ℕ
entry_point m buf =
    bit_or
      (bit_or (bit_or (u32 (m (buf + 27) * 2 ^ 24)) (m (buf + 26) * 2 ^ 16)) (m (buf + 25) * 2 ^ 8))
      (m (buf + 24))

-- `tss` as the new process has it
unfoldable pub fill_tss : ℕ → Machine → Machine
fill_tss pid s = record s {
  tss = record { ss0 = 0x18; esp0 = sub32 (sub32 0x800000 (u32 (pid * 0x2000))) 4 };
}

pub data Outcome : Type 0 where
  refused : Outcome
  -- the jump to the first instruction of the program
  enters : ℕ → Outcome

-- `execute` up to the jump; -1 is `refused`
unfoldable pub execute : ℕ → ℕ → ℕ → ℕ → Regs → Machine → Option (Machine × Outcome)
unfolding read_elf load fill_pcb is_elf entry_point fill_tss
execute f fname temp buf r s =
    let s0 = record s { mem = memmove s.mem temp fname 128 } in
    elim (read_elf f fname buf minus_one s0) [
      | none ↦ none
      | some (s1, error) ↦
          let (pcbs', pid) = get_pid s1.pcbs in
          let s2 = fill_pcb pid r (record s1 { pcbs = pcbs' }) in
          let s3 = record s2 { first_instruct = entry_point s2.mem buf } in
          let loaded = load f temp (image_addr s3.paging) s3 in
          if error == minus_one
          then some (s1, refused)
          else if pid == minus_one
          then some (record s1 { pcbs = pcbs' }, refused)
          else if is_elf s2.mem buf
          then elim loaded [
            | none ↦ none
            | some (s4, n) ↦
                let s5 = fill_tss pid s4 in
                some (record s5 { pic = send_eoi 0 s5.pic }, enters s5.first_instruct)
          ]
          else some (s2, refused)
    ]

-- what a descriptor is set to
abbrev pub free_entry : FdEntry
free_entry = record {
  file_pos = 0;
  file_type = minus_one;
  present = minus_one;
  inode_number = minus_one;
  jump_start_idx = null;
}

-- the loop over the descriptors with `left` of them to go
unfoldable pub clear_fds : (ℕ → FdEntry) → ℕ → ℕ → ℕ → FdEntry
clear_fds t i zero = t
clear_fds t i (suc left) = clear_fds (update t i free_entry) (i + 1) left

-- the loop over the arguments
unfoldable pub clear_args : Mem → ℕ → ℕ → Mem
clear_args m i zero = m
clear_args m i (suc left) = clear_args (update m i 0) (i + 1) left

pub data Halt : Type 0 where
  -- the endless loop that executes the shell anew, with the process that has ended
  restarts : ℕ → Halt
  -- the jump to `ret_label` with the stack and the frame of the caller
  returns_to : ℕ → ℕ → ℕ → Halt

unfoldable pub halt : Machine → Machine × Halt
halt s =
    let p = curr_process s in
    let b = s.pcbs p in
    let b' = record b {
      fd_table = clear_fds b.fd_table 2 6;
      pcb_in_use = minus_one;
      args = clear_args b.args 0 1023;
      esp = minus_one;
      ebp = minus_one;
      return_label_add = minus_one;
      parent_pid = minus_one;
    } in
    if b.parent_pid == minus_one then (s, restarts p) else (
      record s {
        pcbs = update s.pcbs p b';
        tss = record { ss0 = b.ss0; esp0 = b.esp0 };
        running = update s.running s.cur_terminal b.parent_pid;
        paging = map_page (u32 ((b.parent_pid + 2) * four_mb)) vaddr_prog_page 0x87 s.paging;
      },
      returns_to b.esp b.ebp b.return_label_add,
    )
