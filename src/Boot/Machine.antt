-- ===== src/Boot/Machine.antt =====
-- The state in which the kernel waits for interrupts.
use mpf_cker_os.Base.{
  ℕ, ◌-◌, ◌/◌, ◌%◌, ◌^◌, ◌<◌, bit_and, ◌≡◌, refl, ap, ap₂, ◌∙◌, Bool, true, ◌||◌, none, some, arith,
  leb, ◌==◌, if◌then◌else◌, ==_iff, all_below, all_below_sound, u8, minus_one,
}
use mpf_cker_os.Pic.{Pic, not32, fresh_pic, outb, i8259_init, enable_irq}
use mpf_cker_os.Pic.Masks.{masked, IsByteMasks, enable_irq_lem, enable_irq-IsByteMasks}
use mpf_cker_os.Rtc.{init_rtc, rtc_write, new_rate, is_rate, count_rate, clamp_rate}
use mpf_cker_os.Keyboard.{init_keyboard}
use mpf_cker_os.Keyboard.Line.{LineFits}
use mpf_cker_os.Keyboard.Reach.{init_terminals-LineFits}
use mpf_cker_os.Schedule.{System, init_pit, init_terminals}
use mpf_cker_os.Process.Files.{init_pcb_lem}
use mpf_cker_os.Idt.{setup_idt_inplace}
use mpf_cker_os.Paging.{init_paging}
use mpf_cker_os.Boot.{KernelState, Places, load_descriptors, start_devices, start_system, set_up}

-- what the devices leave of the state
record Started (k k' : KernelState) : Type 0 where
  master : k'.system.pic.master_mask ≡ (enable_irq 1 (enable_irq 8 k.system.pic)).master_mask
  slave : k'.system.pic.slave_mask ≡ (enable_irq 1 (enable_irq 8 k.system.pic)).slave_mask
  rate : k'.rate ≡ 14
  index : k'.system.keyboard.curr_idx ≡ k.system.keyboard.curr_idx
  count : k'.system.keyboard.num_chars ≡ k.system.keyboard.num_chars
  previous : k'.system.keyboard.previous_num_chars ≡ k.system.keyboard.previous_num_chars
  rest : (k'.tss ≡ k.tss) × (k'.pcbs ≡ k.pcbs)

start_devices_lem :
    (a : Places) (k : KernelState)
    → (k' : KernelState) × (start_devices a k ≡ some k') × Started k k'
unfolding start_devices init_rtc rtc_write is_rate init_keyboard enable_irq outb i8259_init new_rate
    count_rate clamp_rate
start_devices_lem a k = (
  _,
  refl,
  record {
    master = refl;
    slave = refl;
    rate = refl;
    index = refl;
    count = refl;
    previous = refl;
    rest = (refl, refl);
  },
)

-- the lines of the timer, the keyboard, the second controller and the clock
abbrev pub is_used : ℕ → Bool
is_used i = (i == 0) || (i == 1) || (i == 2) || (i == 8)

fresh_table : all_below 16 (λ i. masked fresh_pic i == (if i == 2 then 0 else 1)) ≡ true
unfolding all_below
fresh_table = refl

used_lem :
    (i : ℕ)
    → ◌≡◌ {A = ℕ}
        (if i == 0 then 0 else if i == 1 then 0 else if i == 8 then 0 else if i == 2 then 0 else 1)
        (if is_used i then 0 else 1)
used_lem i = ground arith

same_masked :
    (p q : Pic) (i : ℕ)
    → p.master_mask ≡ q.master_mask
    → p.slave_mask ≡ q.slave_mask
    → masked p i ≡ masked q i
same_masked p q i m s =
    ap₂ (λ (a b : ℕ). if leb 8 i then b / 2 ^ (i - 8) % 2 else a / 2 ^ i % 2) m s

-- the three lines that are enabled, from the masks before the set-up
enabled_lem :
    (p : Pic) (i : ℕ)
    → p.master_mask ≡ 0xfb
    → p.slave_mask ≡ 0xff
    → i < 16
    → masked (enable_irq 0 (enable_irq 1 (enable_irq 8 p))) i ≡ (if is_used i then 0 else 1)
enabled_lem p i m s h =
    let v : IsByteMasks p = record { master = omega (arith, m); slave = omega (arith, s) } in
    let v1 = enable_irq-IsByteMasks 8 v in
    enable_irq_lem 0 i (omega arith) h (enable_irq-IsByteMasks 1 v1)
    ∙ ap (λ (b : ℕ). if i == 0 then 0 else b)
        (enable_irq_lem 1 i (omega arith) h v1
          ∙ ap (λ (b : ℕ). if i == 1 then 0 else b)
              (enable_irq_lem 8 i (omega arith) h v
                ∙ ap (λ (b : ℕ). if i == 8 then 0 else b)
                    (same_masked p fresh_pic i m s
                      ∙ (==_iff _ _).0 (all_below_sound 16 _ i fresh_table h))))
    ∙ used_lem i

-- the clock's answers, the controller and the line as they are before the kernel starts
pub record IsFresh (k : KernelState) : Type 0 where
  pub master : k.system.pic.master_mask ≡ 0xfb
  pub slave : k.system.pic.slave_mask ≡ 0xff
  pub index : k.system.keyboard.curr_idx ≡ 0
  pub count : k.system.keyboard.num_chars ≡ 0
  pub previous : k.system.keyboard.previous_num_chars ≡ 0

init_pit-LineFits : (frequency : ℕ) (s : System) → LineFits s → LineFits (init_pit frequency s)
unfolding init_pit
init_pit-LineFits frequency s h = record {
  same_index = h.same_index;
  within = h.within;
  previous = h.previous;
  visible = h.visible;
  kept_index = h.kept_index;
  kept_within = h.kept_within;
  kept_previous = h.kept_previous;
}

init_pit_masks :
    (frequency : ℕ) (s : System) (p : Pic)
    → s.pic.master_mask ≡ p.master_mask
    → s.pic.slave_mask ≡ p.slave_mask
    → ((init_pit frequency s).pic.master_mask ≡ (enable_irq 0 p).master_mask)
      × ((init_pit frequency s).pic.slave_mask ≡ (enable_irq 0 p).slave_mask)
unfolding init_pit enable_irq outb
init_pit_masks frequency s p m t = (ap (λ a. u8 (bit_and a (not32 (2 ^ 0)))) m, t)

init_terminals_keeps : (s : System) → ((init_terminals s).pic ≡ s.pic)
unfolding init_terminals
init_terminals_keeps s = refl

-- With the masks of controllers that have not been set up and an empty line of the keyboard the set-up
-- ends, whatever the devices answer: of the
-- interrupt lines exactly those of the timer, the keyboard, the second controller and the clock are
-- enabled, the clock has the rate 14, all six processes are free, the stack of the kernel is at 8 MB, and
-- the line of the keyboard fits its buffer.
pub set_up_lem :
    (a : Places) (k : KernelState) (i : ℕ)
    → IsFresh k
    → i < 16
    → (k' : KernelState) × (set_up a k ≡ some k')
      × (masked k'.system.pic i ≡ (if is_used i then 0 else 1))
      × (k'.rate ≡ 14)
      × ((j : ℕ) → j < 6 → (k'.pcbs j).pcb_in_use ≡ minus_one)
      × ((k'.tss.ss0 ≡ 0x18) × (k'.tss.esp0 ≡ 0x800000))
      × LineFits k'.system
unfolding set_up load_descriptors start_system
set_up_lem a k i fresh h =
    let k1 = record (load_descriptors a k) {
      idt = setup_idt_inplace a.handler (load_descriptors a k).idt;
    } in
    let (k2, ran, st) = start_devices_lem a k1 in
    let s = record k2.system {
      paging = init_paging a.page_directory a.page_table k2.system.paging;
    } in
    let p = enable_irq 1 (enable_irq 8 k.system.pic) in
    let same = init_terminals_keeps s in
    let (m, t) =
      init_pit_masks 20 (init_terminals s) p (ap (λ q. q.master_mask) same ∙ st.master)
        (ap (λ q. q.slave_mask) same ∙ st.slave) in
    (
      start_system a k2,
      ap (λ o. elim o [ none ↦ none | some k3 ↦ some (start_system a k3) ]) ran,
      same_masked (start_system a k2).system.pic (enable_irq 0 p) i m t
          ∙ enabled_lem k.system.pic i fresh.master fresh.slave h,
      st.rate,
      λ j l. (init_pcb_lem k2.pcbs j 0 l (omega arith)).0,
      (ap (λ z. z.ss0) st.rest.0, ap (λ z. z.esp0) st.rest.0),
      init_pit-LineFits 20 (init_terminals s) (
          init_terminals-LineFits s (st.index ∙ fresh.index) (st.count ∙ fresh.count)
            (st.previous ∙ fresh.previous)),
    )
