-- ===== src/Process.antt =====
-- The process table of student-distrib/pcb.c and pcb.h, with `file_read` of filesys.c, which moves the
-- position of a descriptor. An index outside of an array has a cell of its own.
pub mod Slots
pub mod Files
mod Tests
use mpf_cker_os.Filesys.{Filesys, Dentry, file_open, read_dentry_by_name, read_data}
use mpf_cker_os.Base.{
  ℕ, zero, suc, ◌+◌, ◌-◌, ◌==◌, if◌then◌else◌, u32, minus_one, is_negative, Bool, not, ◌||◌, Mem,
  update, Option, none, some,
}

-- the jump tables; `null` is the pointer before any has been set
pub data Fop : Type 0 where
  null rtc_struct dir_struct file_struct terminal_struct : Fop

-- `fd_table_entry_t`; `present` is 0 in use and -1 free
pub record FdEntry : Type 0 where
  pub present : ℕ
  pub file_pos : ℕ
  pub inode_number : ℕ
  pub jump_start_idx : Fop
  pub file_type : ℕ

pub record Pcb : Type 0 where
  pub fd_table : ℕ → FdEntry
  pub pcb_in_use : ℕ
  pub esp : ℕ
  pub ebp : ℕ
  pub task_esp : ℕ
  pub task_ebp : ℕ
  pub esp0 : ℕ
  pub ss0 : ℕ
  pub return_label_add : ℕ
  pub parent_pid : ℕ
  pub args : Mem

abbrev pub num_pcbs : ℕ
num_pcbs = 6

abbrev pub num_fdt_entries : ℕ
num_fdt_entries = 8

abbrev pub first_file_fd : ℕ
first_file_fd = 2

-- `PCB_array`
abbrev pub Pcbs : Type 0
Pcbs = ℕ → Pcb

abbrev pub set_fd : Pcb → ℕ → FdEntry → Pcb
set_fd b i e = record b { fd_table = update b.fd_table i e }

-- the inner loop of `init_PCB`
unfoldable pub clear_present : (ℕ → FdEntry) → ℕ → ℕ → ℕ → FdEntry
clear_present t i zero = t
clear_present t i (suc left) =
    clear_present (update t i (record (t i) { present = minus_one })) (i + 1) left

-- the entry of the keyboard and of the screen, but for `present`
abbrev pub terminal_fd : FdEntry → FdEntry
terminal_fd e = record e {
  file_pos = 0;
  inode_number = 0;
  jump_start_idx = terminal_struct;
  file_type = 3;
}

unfoldable pub init_one : Pcb → Pcb
unfolding clear_present
init_one b =
    let t = clear_present b.fd_table 0 num_fdt_entries in
    let t0 = update t 0 (terminal_fd (t 0)) in
    record b { fd_table = update t0 1 (terminal_fd (t0 1)); pcb_in_use = minus_one }

unfoldable pub init_from : Pcbs → ℕ → ℕ → Pcbs
init_from p j zero = p
init_from p j (suc left) = init_from (update p j (init_one (p j))) (j + 1) left

unfoldable pub init_pcb : Pcbs → Pcbs
init_pcb p = init_from p 0 num_pcbs

-- the loop of `getPID`: the table and the result
unfoldable pub get_pid_from : Pcbs → ℕ → ℕ → Pcbs × ℕ
get_pid_from p i zero = (p, minus_one)
get_pid_from p i (suc left) =
    let rest = get_pid_from p (i + 1) left in
    if (p i).pcb_in_use == minus_one
    then (update p i (record (p i) { pcb_in_use = 0 }), i)
    else rest

unfoldable pub get_pid : Pcbs → Pcbs × ℕ
get_pid p = get_pid_from p 0 num_pcbs

-- the loop of `get_fdAvail` over the table of one process
unfoldable pub get_fd_from : Pcb → ℕ → ℕ → Pcb × ℕ
get_fd_from b i zero = (b, minus_one)
get_fd_from b i (suc left) =
    let rest = get_fd_from b (i + 1) left in
    if (b.fd_table i).present == minus_one
    then (set_fd b i (record (b.fd_table i) { present = 0 }), i)
    else rest

unfoldable pub get_fd_avail : Pcb → Pcb × ℕ
get_fd_avail b = get_fd_from b first_file_fd (num_fdt_entries - first_file_fd)

-- the `switch` on the type of the file; another type leaves the pointer as it is
unfoldable pub fop_of : ℕ → Fop → Fop
fop_of file_type old =
    if file_type == 0
    then rtc_struct
    else if file_type == 1
    then dir_struct
    else if file_type == 2
    then file_struct
    else old

-- `insert_fdt` for the table of the process `curr_process`
unfoldable pub insert_fdt : Mem → Filesys → Pcb → ℕ → Filesys × Pcb × ℕ
unfolding fop_of
insert_fdt m fs b filename =
    let (fs', opened) = file_open m fs filename in
    let (b', fd) = get_fd_avail b in
    if opened == minus_one
    then (fs', b, minus_one)
    else if fd == minus_one
    then (fs', b', minus_one)
    else elim (read_dentry_by_name m fs' filename) [
      | none ↦ (fs', b', minus_one)
      | some d ↦
          let e = b'.fd_table fd in
          (
            fs',
            set_fd b' fd (record e {
              file_type = d.file_type;
              inode_number = d.inode_num;
              jump_start_idx = fop_of d.file_type e.jump_start_idx;
              present = 0;
            }),
            fd,
          )
    ]

unfoldable pub remove_fd_entry : Pcb → ℕ → Pcb × ℕ
remove_fd_entry b fd =
    if (b.fd_table fd).present == 0
    then (set_fd b fd (record (b.fd_table fd) { present = minus_one }), 0)
    else (b, minus_one)

-- `file_read` of filesys.c: memory, the table of the current process and the result. The pointer that
-- `get_current_PCB` returns is never null.
unfoldable pub file_read : ℕ → Mem → Filesys → Pcb → ℕ → ℕ → ℕ → Option (Mem × Pcb × ℕ)
file_read f m fs b fd buf nbytes =
    let e = b.fd_table fd in
    let on_fd = read_data f m fs e.inode_number e.file_pos buf nbytes in
    let on_current = read_data f m fs fs.curr_dentry.inode_num 0 buf nbytes in
    if is_negative fd
    then elim on_current [ none ↦ none | some (m', n) ↦ some (m', b, n) ]
    else elim on_fd [
      | none ↦ none
      | some (m', n) ↦
          let pos = if n == 0 then 0 else u32 (e.file_pos + n) in
          some (m', set_fd b fd (record e { file_pos = pos }), n)
    ]
