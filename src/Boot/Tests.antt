-- ===== src/Boot/Tests.antt =====
-- The start of a concrete kernel.
use mpf_cker_os.Base.{ℕ, ◌<◌, ◌≡◌, refl, true, false, some, arith, minus_one}
use mpf_cker_os.Boot.{SegDesc, KernelState, Places, set_up}
use mpf_cker_os.Boot.Machine.{IsFresh, set_up_lem}
use mpf_cker_os.Boot.Report.{check_flag}
use mpf_cker_os.Pic.Masks.{masked}
use mpf_cker_os.Filesys.Image.{fs}
use mpf_cker_os.Idt.{Descriptor}
use mpf_cker_os.Keyboard.Line.{LineFits}
use mpf_cker_os.Schedule.{System}
use mpf_cker_os.Schedule.Sample.{running}
use mpf_cker_os.Execute.Sample.{pcb}

abbrev no_desc : SegDesc
no_desc = record {
  seg_lim_15_00 = 7;
  base_15_00 = 7;
  base_23_16 = 7;
  kind = 7;
  sys = 1;
  dpl = 3;
  present = 0;
  seg_lim_19_16 = 7;
  avail = 1;
  reserved = 1;
  opsize = 0;
  granularity = 1;
  base_31_24 = 7;
}

abbrev no_gate : Descriptor
no_gate = record {
  offset_15_00 = 0;
  seg_selector = 0;
  reserved3 = 0;
  reserved2 = 0;
  reserved1 = 0;
  size = 0;
  reserved0 = 0;
  dpl = 0;
  present = 0;
  offset_31_16 = 0;
}

abbrev places : Places
places = record {
  ldt = 0x412344;
  ldt_size = 24;
  tss = 0x412380;
  tss_size = 104;
  handler = λ h. 0x401000;
  page_directory = 0x408000;
  page_table = 0x409000;
  reg_a = 0x26;
  reg_b = 0x02;
  garbage = no_desc;
}

abbrev system : System
system = record running { keyboard = record running.keyboard { num_chars = 0; curr_idx = 0 } }

abbrev loaded : KernelState
loaded = record {
  system = system;
  rate = 0;
  waiting = 0;
  idt = λ i. no_gate;
  pcbs = λ i. pcb;
  fs = fs;
  tss = record { ss0 = 0; esp0 = 0 };
  ldt_desc_ptr = no_desc;
  tss_desc_ptr = no_desc;
  ldtr = 0;
  tr = 0;
  ldt_segment_selector = 0;
  interrupts_on = false;
  mod_start_temp = 4096;
}

loaded-IsFresh : IsFresh loaded
loaded-IsFresh = record { master = refl; slave = refl; index = refl; count = refl; previous = refl }

set_up_lem_example :
    (k' : KernelState) × (set_up places loaded ≡ some k')
    × (masked k'.system.pic 8 ≡ 0)
    × (k'.rate ≡ 14)
    × ((j : ℕ) → j < 6 → (k'.pcbs j).pcb_in_use ≡ minus_one)
    × ((k'.tss.ss0 ≡ 0x18) × (k'.tss.esp0 ≡ 0x800000))
    × LineFits k'.system
set_up_lem_example = set_up_lem places loaded 8 loaded-IsFresh (omega arith)

check_flag_runs : (check_flag 0x4f 6 ≡ true) × (check_flag 0x4f 5 ≡ false)
check_flag_runs = (refl, refl)
