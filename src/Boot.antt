-- ===== src/Boot.antt =====
-- The start of the kernel, `entry` of student-distrib/kernel.c, with the descriptors of the global table of
-- x86_desc.h. What the ports of the clock answer, where the tables lie and how long the local one is are
-- fields of `Places`. The screen is not mapped before paging is set up.
pub mod Descriptors
pub mod Machine
mod Tests
pub mod Report
pub mod Entry
use mpf_cker_os.Base.{
  ℕ, zero, suc, ◌+◌, ◌-◌, ◌*◌, ◌/◌, ◌%◌, ◌^◌, ◌≤◌, ◌<◌, min, bit_and, bit_or, ◌≡◌, refl, sym, ap,
  ap₂, ◌∙◌, subst, ◌≢◌, ◌↔◌, ◌⊎◌, inl, inr, Bool, true, false, not, ◌&&◌, ◌||◌, Option, none, some,
  List, [], ◌∷◌, ◌++◌, arith, ltb, leb, ◌==◌, if◌then◌else◌, ==_iff, Bool-cases, all_below,
  all_below_sound, u8, u16, u32, sub32, minus_one, is_negative, signed_ltb, Mem, update, inside,
  length, get_or, bytes_at, bytes_at-eq, place, ℕ_discrete, dec_lt, if_rule, some-inversion,
  Option-cases,
}
use Prim.Native.String.{String}
use mpf_cker_os.Strings.{codes}
use mpf_cker_os.Screen.{Screen, clear}
use mpf_cker_os.Printf.{printf}
use mpf_cker_os.Pic.{Pic, i8259_init}
use mpf_cker_os.Rtc.{Rtc, init_rtc, rtc_write}
use mpf_cker_os.Filesys.{Filesys, load32, filesys_init, sizeof_dentry}
use mpf_cker_os.Paging.{init_paging}
use mpf_cker_os.Process.{Pcbs, init_pcb}
use mpf_cker_os.Execute.{Tss}
use mpf_cker_os.Keyboard.{init_keyboard}
use mpf_cker_os.Schedule.{System, init_terminals, init_pit}
use mpf_cker_os.Idt.{Idt, Handler, setup_idt_inplace}

pub record SegDesc : Type 0 where
  pub seg_lim_15_00 : ℕ
  pub base_15_00 : ℕ
  pub base_23_16 : ℕ
  pub kind : ℕ
  pub sys : ℕ
  pub dpl : ℕ
  pub present : ℕ
  pub seg_lim_19_16 : ℕ
  pub avail : ℕ
  pub reserved : ℕ
  pub opsize : ℕ
  pub granularity : ℕ
  pub base_31_24 : ℕ

abbrev pub kernel_ds : ℕ
kernel_ds = 0x18

abbrev pub kernel_tss : ℕ
kernel_tss = 0x30

abbrev pub kernel_ldt : ℕ
kernel_ldt = 0x38

abbrev pub tss_bytes : ℕ
tss_bytes = 104

unfoldable pub set_ldt_params : ℕ → ℕ → SegDesc → SegDesc
set_ldt_params addr lim d = record d {
  base_31_24 = u8 (addr / 16777216);
  base_23_16 = addr / 65536 % 256;
  base_15_00 = addr % 65536;
  seg_lim_19_16 = lim / 65536 % 16;
  seg_lim_15_00 = lim % 65536;
}

unfoldable pub set_tss_params : ℕ → ℕ → SegDesc → SegDesc
set_tss_params addr lim d = record d {
  base_31_24 = u8 (addr / 16777216);
  base_23_16 = addr / 65536 % 256;
  base_15_00 = addr % 65536;
  seg_lim_19_16 = lim / 65536 % 16;
  seg_lim_15_00 = lim % 65536;
}

-- `the_ldt_desc`, from what is on the stack
unfoldable pub the_ldt_desc : ℕ → ℕ → SegDesc → SegDesc
the_ldt_desc ldt ldt_size d = set_ldt_params ldt ldt_size (record d {
  granularity = 0;
  opsize = 1;
  reserved = 0;
  avail = 0;
  present = 1;
  dpl = 0;
  sys = 0;
  kind = 2;
})

unfoldable pub the_tss_desc : ℕ → ℕ → SegDesc → SegDesc
the_tss_desc tss tss_size d = set_tss_params tss tss_size (record d {
  granularity = 0;
  opsize = 0;
  reserved = 0;
  avail = 0;
  seg_lim_19_16 = bit_and tss_bytes 0xf0000 % 16;
  present = 1;
  dpl = 0;
  sys = 0;
  kind = 9;
  seg_lim_15_00 = bit_and tss_bytes 0xffff;
})

-- the state of the whole kernel
pub record KernelState : Type 0 where
  pub system : System
  pub rate : ℕ
  pub waiting : ℕ
  pub idt : Idt
  pub pcbs : Pcbs
  pub fs : Filesys
  pub tss : Tss
  pub ldt_desc_ptr : SegDesc
  pub tss_desc_ptr : SegDesc
  -- the selectors that `lldt` and `ltr` load, and the one in the task state
  pub ldtr : ℕ
  pub tr : ℕ
  pub ldt_segment_selector : ℕ
  pub interrupts_on : Bool
  pub mod_start_temp : ℕ

-- what the linker and the devices decide
pub record Places : Type 0 where
  pub ldt : ℕ
  pub ldt_size : ℕ
  pub tss : ℕ
  pub tss_size : ℕ
  pub handler : Handler → ℕ
  pub page_directory : ℕ
  pub page_table : ℕ
  -- the registers A and B of the clock
  pub reg_a : ℕ
  pub reg_b : ℕ
  -- what the stack holds where the descriptors are built
  pub garbage : SegDesc

-- the two descriptors are stored and loaded
unfoldable pub load_descriptors : Places → KernelState → KernelState
load_descriptors a k = record k {
  ldt_desc_ptr = the_ldt_desc a.ldt a.ldt_size a.garbage;
  ldtr = kernel_ldt;
  tss_desc_ptr = the_tss_desc a.tss a.tss_size a.garbage;
  ldt_segment_selector = kernel_ldt;
  tss = record { ss0 = kernel_ds; esp0 = 0x800000 };
  tr = kernel_tss;
}

-- the controllers, the clock at 2 Hz, and the keyboard
unfoldable pub start_devices : Places → KernelState → Option KernelState
start_devices a k =
    let clock =
      init_rtc a.reg_b
        (record { rate = k.rate; waiting = k.waiting; pic = i8259_init k.system.pic }) in
    elim (rtc_write 2 a.reg_a clock) [
      | none ↦ none
      | some (r, clock') ↦
          let (pic', keyboard', flag) = init_keyboard clock'.pic k.system.keyboard in
          let shown = k.system.visible in
          some (record k {
            rate = clock'.rate;
            waiting = clock'.waiting;
            system = record k.system {
              pic = pic';
              keyboard = keyboard';
              terminals =
                  update k.system.terminals shown
                    (record (k.system.terminals shown) { enter_flag = flag });
            };
          })
    ]

unfoldable pub pcb_filesys_init : Mem → ℕ → Filesys → Filesys
pcb_filesys_init m mod_start fs = record fs {
  start_addr = mod_start;
  numdentries = load32 m mod_start;
  numinodes = load32 m (mod_start + 4);
  numblocks = load32 m (mod_start + 8);
  startdentry = mod_start + sizeof_dentry;
}

-- paging, interrupts, the file system, the processes, the terminals and the timer
unfoldable pub start_system : Places → KernelState → KernelState
start_system a k =
    let s = record k.system {
      paging = init_paging a.page_directory a.page_table k.system.paging;
    } in
    record k {
      interrupts_on = true;
      fs = pcb_filesys_init s.mem k.mod_start_temp (filesys_init s.mem k.mod_start_temp);
      pcbs = init_pcb k.pcbs;
      system = init_pit 20 (init_terminals s);
    }

-- from the descriptors on, up to the loop of `hlt`
unfoldable pub set_up : Places → KernelState → Option KernelState
set_up a k =
    let k1 = load_descriptors a k in
    elim (start_devices a (record k1 { idt = setup_idt_inplace a.handler k1.idt })) [
      | none ↦ none
      | some k2 ↦ some (start_system a k2)
    ]
