-- ===== src/Boot/Report.antt =====
-- What `entry` of student-distrib/kernel.c prints of the Multiboot information, and `entry` as a whole. `f` is
-- fuel for each string that is printed and for the loop over the memory map, and `conv` the frame of
-- `printf`.
use mpf_cker_os.Base.{
  ℕ, zero, suc, ◌+◌, ◌*◌, ◌^◌, bit_and, Bool, not, ◌&&◌, Option, none, some, List, [], ◌∷◌, ltb,
  ◌==◌, if◌then◌else◌, u32, get_or,
}
use Prim.Native.String.{String}
use mpf_cker_os.Strings.{codes, sign_extend}
use mpf_cker_os.Screen.{Screen, clear}
use mpf_cker_os.Printf.{printf}
use mpf_cker_os.Filesys.{load32}
use mpf_cker_os.Boot.{KernelState, Places, set_up}

infixl 5 ◌>>=◌
abbrev pub ◌>>=◌ {ℓ κ} : {A : Type ℓ} {B : Type κ} → Option A → (A → Option B) → Option B
none >>= g = none
some a >>= g = g a

abbrev pub magic_number : ℕ
magic_number = 0x2badb002

-- the screen before paging is on
abbrev pub raw_screen : KernelState → Screen
raw_screen k = record {
  x = k.system.x;
  y = k.system.y;
  mem = k.system.mem;
  ports = k.system.pic.ports;
}

abbrev pub with_raw : KernelState → Screen → KernelState
with_raw k s = record k {
  system = record k.system {
    x = s.x;
    y = s.y;
    mem = s.mem;
    pic = record k.system.pic { ports = s.ports };
  };
}

unfoldable pub print : ℕ → ℕ → String → List ℕ → KernelState → Option KernelState
print f conv format args k = do
  (n, s) ← printf f (λ i. get_or (codes format) i 0) (λ i. get_or args i 0) conv (raw_screen k)
  some (with_raw k s)

-- `CHECK_FLAG`
abbrev pub check_flag : ℕ → ℕ → Bool
check_flag flags bit = not (bit_and flags (2 ^ bit) == 0)

abbrev pub print_if : Bool → ℕ → ℕ → String → List ℕ → KernelState → Option KernelState
print_if b f conv format args k = if b then print f conv format args k else some k

-- the first bytes of a module, with `left` to go
unfoldable pub print_bytes : ℕ → ℕ → ℕ → ℕ → ℕ → KernelState → Option KernelState
print_bytes f conv start i zero k = some k
print_bytes f conv start i (suc left) k = do
  k1 ← print f conv "0x%x " (sign_extend (k.system.mem (start + i)) ∷ []) k
  print_bytes f conv start (i + 1) left k1

-- the modules, `mods_count - mod_count` being `left`
unfoldable pub print_modules : ℕ → ℕ → ℕ → ℕ → ℕ → KernelState → Option KernelState
print_modules f conv mod_count md zero k = some k
print_modules f conv mod_count md (suc left) k = do
  let start = load32 k.system.mem md
  k1 ← print f conv "Module %d loaded at address: 0x%#x\n" (mod_count ∷ start ∷ []) k
  k2 ←
      print f conv "Module %d ends at address: 0x%#x\n"
        (mod_count ∷ load32 k1.system.mem (md + 4) ∷ []) k1
  k3 ← print f conv "First few bytes of module:\n" [] k2
  k4 ← print_bytes f conv start 0 16 k3
  k5 ← print f conv "\n" [] k4
  print_modules f conv (mod_count + 1) (md + 16) left k5

-- the memory map from `mmap` up to `last`
unfoldable pub print_map : ℕ → ℕ → ℕ → ℕ → KernelState → Option KernelState
print_map zero conv mmap last k = none
print_map (suc f) conv mmap last k =
    let word : ℕ → ℕ = λ i. load32 k.system.mem (mmap + i) in
    let line =
      print (suc f) conv
        "    size = 0x%x, base_addr = 0x%#x%#x\n    type = 0x%x,  length    = 0x%#x%#x\n"
        (word 0 ∷ word 8 ∷ word 4 ∷ word 20 ∷ word 16 ∷ word 12 ∷ []) k in
    let rest = line >>= print_map f conv (u32 (mmap + word 0 + 4)) last in
    if ltb mmap last then rest else some k

-- the fields of `multiboot_info_t` at `mbi`
abbrev pub info : KernelState → ℕ → ℕ → ℕ
info k mbi i = load32 k.system.mem (mbi + 4 * i)

-- the modules, the first of which is the file system
unfoldable pub find_modules : ℕ → ℕ → ℕ → KernelState → Option KernelState
find_modules f conv mbi k =
    let md = info k mbi 6 in
    let k' = record k { mod_start_temp = load32 k.system.mem md } in
    if check_flag (info k mbi 0) 3 then print_modules f conv 0 md (info k mbi 5) k' else some k

unfoldable pub show_map : ℕ → ℕ → ℕ → KernelState → Option KernelState
show_map f conv mbi k =
    let shown =
      print f conv "mmap_addr = 0x%#x, mmap_length = 0x%x\n" (info k mbi 12 ∷ info k mbi 11 ∷ [])
        k in
    let all = shown >>= print_map f conv (info k mbi 12) (u32 (info k mbi 12 + info k mbi 11)) in
    if check_flag (info k mbi 0) 6 then all else some k

-- how `entry` ends
pub data Ending : Type 0 where
  returns halts : KernelState → Ending

-- a message, and the return from `entry`
unfoldable pub refuse : ℕ → ℕ → String → List ℕ → KernelState → Option Ending
refuse f conv format args k = do k1 ← print f conv format args k; some (returns k1)

-- the set-up, and the loop of `hlt`
unfoldable pub boot : Places → KernelState → Option Ending
boot a k = do k1 ← set_up a k; some (halts k1)

-- the information up to the modules
unfoldable pub describe : ℕ → ℕ → ℕ → KernelState → Option KernelState
describe f conv mbi k = do
  let flags = info k mbi 0
  k1 ← print f conv "flags = 0x%#x\n" (flags ∷ []) k
  k2 ←
      print_if (check_flag flags 0) f conv "mem_lower = %uKB, mem_upper = %uKB\n"
        (info k1 mbi 1 ∷ info k1 mbi 2 ∷ []) k1
  k3 ← print_if (check_flag flags 1) f conv "boot_device = 0x%#x\n" (info k2 mbi 3 ∷ []) k2
  k4 ← print_if (check_flag flags 2) f conv "cmdline = %s\n" (info k3 mbi 4 ∷ []) k3
  find_modules f conv mbi k4

-- the section headers and the memory map
unfoldable pub describe_tables : ℕ → ℕ → ℕ → KernelState → Option KernelState
describe_tables f conv mbi k = do
  k1 ←
      print_if (check_flag (info k mbi 0) 5) f conv
        "elf_sec: num = %u, size = 0x%#x, addr = 0x%#x, shndx = 0x%#x\n"
        (info k mbi 7 ∷ info k mbi 8 ∷ info k mbi 9 ∷ info k mbi 10 ∷ []) k
  show_map f conv mbi k1

-- what follows the modules
unfoldable pub go_on : ℕ → ℕ → ℕ → Places → KernelState → Option Ending
go_on f conv mbi a k =
    let flags = info k mbi 0 in
    let refused = refuse f conv "Both bits 4 and 5 are set.\n" [] k in
    let started = describe_tables f conv mbi k >>= boot a in
    if check_flag flags 4 && check_flag flags 5 then refused else started

unfoldable pub entry : ℕ → ℕ → ℕ → ℕ → Places → KernelState → Option Ending
entry f conv magic mbi a k =
    let k0 = with_raw k (clear (raw_screen k)) in
    let refused = refuse f conv "Invalid magic number: 0x%#x\n" (magic ∷ []) k0 in
    let started = describe f conv mbi k0 >>= go_on f conv mbi a in
    if not (magic == magic_number) then refused else started
