-- ===== src/Idt.antt =====
-- The interrupt table of student-distrib/idt.c: the exception handlers, the entries of idt_desc_t of
-- x86_desc.h, and `setup_idt_inplace`. Where the linker puts a handler is an argument.
pub mod Table
mod Tests
use mpf_cker_os.Base.{
  ℕ, zero, suc, ◌+◌, ◌-◌, ◌*◌, ◌/◌, ◌%◌, ◌^◌, ◌≤◌, ◌<◌, min, bit_and, bit_or, ◌≡◌, refl, sym, ap,
  ap₂, ◌∙◌, subst, ◌≢◌, ◌↔◌, ◌⊎◌, inl, inr, Bool, true, false, not, ◌&&◌, ◌||◌, Option, none, some,
  List, [], ◌∷◌, ◌++◌, arith, ltb, leb, ◌==◌, if◌then◌else◌, ==_iff, Bool-cases, all_below,
  all_below_sound, u8, u16, u32, sub32, minus_one, is_negative, signed_ltb, Mem, update, inside,
  length, get_or, bytes_at, bytes_at-eq, place, ℕ_discrete, dec_lt,
}

-- the handlers; the last four of them are assembly
pub data Handler : Type 0 where
  de db nmi bp of br ud nm df cpso ts np ssf gp pf ir mf ac mc xf gen_purp : Handler
  pit_asm keyboard_asm rtc_asm syscall_handler_asm : Handler

pub record Descriptor : Type 0 where
  pub offset_15_00 : ℕ
  pub seg_selector : ℕ
  pub reserved3 : ℕ
  pub reserved2 : ℕ
  pub reserved1 : ℕ
  pub size : ℕ
  pub reserved0 : ℕ
  pub dpl : ℕ
  pub present : ℕ
  pub offset_31_16 : ℕ

-- `idt`
abbrev pub Idt : Type 0
Idt = ℕ → Descriptor

abbrev pub syscall_num : ℕ
syscall_num = 128

abbrev pub num_idt_entries : ℕ
num_idt_entries = 47

abbrev pub kernel_cs : ℕ
kernel_cs = 0x10

abbrev pub killed_by_exception : ℕ
killed_by_exception = 256

-- what a handler in C does: the number in the message that it prints, if it prints one and the message
-- has a number, and the status that it gives to `halt`
pub data Message : Type 0 where
  silent page_fault : Message
  error : ℕ → Message

unfoldable pub message_of : Handler → Message
message_of de = error 1
message_of db = error 2
message_of nmi = error 3
message_of bp = error 4
message_of of = error 5
message_of br = error 6
message_of ud = error 7
message_of nm = error 8
message_of df = error 9
message_of cpso = error 10
message_of ts = error 11
message_of np = error 12
message_of ssf = error 13
message_of gp = error 14
message_of pf = page_fault
message_of ir = error 16
message_of mf = error 17
message_of ac = error 18
message_of mc = error 19
message_of xf = error 20
message_of gen_purp = silent
message_of pit_asm = silent
message_of keyboard_asm = silent
message_of rtc_asm = silent
message_of syscall_handler_asm = silent

-- the message and the status of an exception handler, `halt` taking a `uint8_t`
unfoldable pub exception : Handler → Message × ℕ
unfolding message_of
exception h = (message_of h, u8 killed_by_exception)

unfoldable pub set_entry : ℕ → Idt → Idt
set_entry i t =
    let e = record (t i) {
      seg_selector = kernel_cs;
      dpl = 0;
      reserved0 = 0;
      reserved1 = 1;
      reserved2 = 1;
      reserved3 = 0;
      present = 1;
      size = 1;
    } in
    update t i (if i == syscall_num then record e { dpl = 3; reserved3 = 1 } else e)

-- the macro `SET_IDT_ENTRY` with the address of a handler
unfoldable pub set_idt_entry : ℕ → ℕ → Idt → Idt
set_idt_entry i address t =
    update t i
      (record (t i) { offset_31_16 = address / 65536 % 65536; offset_15_00 = address % 65536 })

-- the loop of `setup_idt_inplace` with `left` rounds to go
unfoldable pub set_entries : ℕ → ℕ → Idt → Idt
set_entries i zero t = t
set_entries i (suc left) t = set_entries (i + 1) left (set_entry i t)

-- the handlers of the entries from 0 to 47
unfoldable pub handlers : List Handler
handlers =
    de ∷ db ∷ nmi ∷ bp ∷ of ∷ br ∷ ud ∷ nm ∷ df ∷ cpso ∷ ts ∷ np ∷ ssf ∷ gp ∷ pf ∷ ir ∷ mf ∷ ac ∷ mc
    ∷ xf ∷ gen_purp ∷ gen_purp ∷ gen_purp ∷ gen_purp ∷ gen_purp ∷ gen_purp ∷ gen_purp ∷ gen_purp
    ∷ gen_purp ∷ gen_purp ∷ gen_purp ∷ gen_purp ∷ pit_asm ∷ keyboard_asm ∷ gen_purp ∷ gen_purp
    ∷ gen_purp ∷ gen_purp ∷ gen_purp ∷ gen_purp ∷ rtc_asm ∷ gen_purp ∷ gen_purp ∷ gen_purp
    ∷ gen_purp ∷ gen_purp ∷ gen_purp ∷ gen_purp ∷ []

-- the statements that set them, one after the other
unfoldable pub set_handlers : (Handler → ℕ) → ℕ → List Handler → Idt → Idt
set_handlers address i [] t = t
set_handlers address i (h ∷ hs) t = set_handlers address (i + 1) hs (set_idt_entry i (address h) t)

unfoldable pub setup_idt_inplace : (Handler → ℕ) → Idt → Idt
setup_idt_inplace address t =
    let t1 = set_entry syscall_num (set_entries 0 num_idt_entries t) in
    set_idt_entry syscall_num (address syscall_handler_asm) (set_handlers address 0 handlers t1)
