-- ===== src/Boot/Descriptors.antt =====
-- The descriptors of the local table and of the task state.
use mpf_cker_os.Base.{ℕ, ◌+◌, ◌*◌, ◌^◌, ◌<◌, ◌≡◌, refl, arith}
use mpf_cker_os.Boot.{SegDesc, set_ldt_params, set_tss_params, the_ldt_desc, the_tss_desc}

-- the base and the limit that the processor reads from a descriptor
abbrev pub base : SegDesc → ℕ
base d = d.base_15_00 + d.base_23_16 * 65536 + d.base_31_24 * 16777216

abbrev pub limit : SegDesc → ℕ
limit d = d.seg_lim_15_00 + d.seg_lim_19_16 * 65536

-- The descriptors that `entry` builds have the address of the table or of the task state as their base and
-- its size as their limit, if the addresses are words and the sizes below 2 ^ 20; both are present and for the kernel, the one of the type
-- of a local table and the other of a task state.
pub the_tss_desc_lem :
    (ldt ldt_size tss tss_size : ℕ) (d : SegDesc)
    → ldt < 2 ^ 32
    → tss < 2 ^ 32
    → ldt_size < 2 ^ 20
    → tss_size < 2 ^ 20
    → let l = the_ldt_desc ldt ldt_size d in
      let t = the_tss_desc tss tss_size d in
      (base l ≡ ldt)
      × (limit l ≡ ldt_size)
      × (base t ≡ tss)
      × (limit t ≡ tss_size)
      × (l.present ≡ 1)
      × (l.dpl ≡ 0)
      × (l.kind ≡ 2)
      × (t.present ≡ 1)
      × (t.dpl ≡ 0)
      × (t.kind ≡ 9)
unfolding the_ldt_desc the_tss_desc set_ldt_params set_tss_params
the_tss_desc_lem ldt ldt_size tss tss_size d h h' k k' =
    (ground arith, ground arith, ground arith, ground arith, refl, refl, refl, refl, refl, refl)
