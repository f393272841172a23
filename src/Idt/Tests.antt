-- ===== src/Idt/Tests.antt =====
-- A concrete interrupt table.
use mpf_cker_os.Base.{ℕ, ◌≤◌, ◌≡◌, ◌≢◌, arith}
use mpf_cker_os.Idt.{Handler, Descriptor, setup_idt_inplace}
use mpf_cker_os.Idt.Table.{setup_idt_inplace_lem, target}

abbrev blank : Descriptor
blank = record {
  offset_15_00 = 0;
  seg_selector = 0;
  reserved3 = 0;
  reserved2 = 0;
  reserved1 = 0;
  size = 0;
  reserved0 = 0;
  dpl = 0;
  present = 0;
  offset_31_16 = 0;
}

-- every handler at one address
abbrev address : Handler → ℕ
address h = 0x401234

setup_idt_inplace_lem_example :
    let e = setup_idt_inplace address (λ i. blank) 33 in
    (e.present ≡ 1)
    × (e.dpl ≡ 0)
    × (e.seg_selector ≡ 0x10)
    × (e.size ≡ 1)
    × (e.reserved0 ≡ 0)
    × (e.reserved1 ≡ 1)
    × (e.reserved2 ≡ 1)
    × (e.reserved3 ≡ 0)
    × (target e ≡ 0x401234)
    × (48 ≤ 33 → ◌≢◌ {A = ℕ} 33 128 → e ≡ blank)
setup_idt_inplace_lem_example = setup_idt_inplace_lem address (λ i. blank) 33 (λ h. omega arith)
