-- ===== src/Idt/Table.antt =====
-- What the interrupt table holds once it is set up, student-distrib/idt.c.
use mpf_cker_os.Base.{
  ℕ, zero, suc, ◌+◌, ◌-◌, ◌*◌, ◌^◌, ◌≤◌, ◌<◌, ◌≡◌, ◌≢◌, refl, ◌||◌, List, [], ◌∷◌, arith, ltb, ◌==◌,
  if◌then◌else◌, inside, length, get_or,
}
use mpf_cker_os.Idt.{
  Idt, Handler, Descriptor, set_entry, set_idt_entry, set_entries, set_handlers, setup_idt_inplace,
  handlers, gen_purp, syscall_handler_asm,
}

set_entries_lem :
    (i n : ℕ) (t : Idt) (j : ℕ)
    → set_entries i n t j ≡ (if inside i n j then set_entry j t j else t j)
unfolding set_entries set_entry
set_entries_lem i zero t j = ground arith
set_entries_lem i (suc n) t j = ground (arith, set_entries_lem (i + 1) n (set_entry i t) j)

set_handlers_lem :
    (address : Handler → ℕ) (i : ℕ) (hs : List Handler) (t : Idt) (j : ℕ)
    → set_handlers address i hs t j ≡ (
        if inside i (length hs) j
        then set_idt_entry j (address (get_or hs (j - i) gen_purp)) t j
        else t j)
unfolding set_handlers set_idt_entry
set_handlers_lem address i [] t j = ground arith
set_handlers_lem address i (h ∷ hs) t j =
    ground (arith, set_handlers_lem address (i + 1) hs (set_idt_entry i (address h) t) j)

-- the address that an entry points to
abbrev pub target : Descriptor → ℕ
target e = e.offset_31_16 * 65536 + e.offset_15_00

length-handlers : length handlers ≡ 48
unfolding handlers
length-handlers = refl

set_handlers_at :
    (address : Handler → ℕ) (t : Idt) (j : ℕ)
    → set_handlers address 0 handlers t j
      ≡ (if ltb j 48 then set_idt_entry j (address (get_or handlers j gen_purp)) t j else t j)
set_handlers_at address t j =
    ground (arith, length-handlers, set_handlers_lem address 0 handlers t j)

-- After the set-up the entries below 47 are present interrupt gates of 32 bits for the kernel alone, that
-- point to the handler of their line in the code segment of the kernel; the one of the system call is a
-- trap gate that the user may call. Entry 47 points to its handler and is otherwise as it was, and so
-- present only if it was before; every other entry is wholly as it was.
pub setup_idt_inplace_lem :
    (address : Handler → ℕ) (t : Idt) (j : ℕ)
    → ((h : Handler) → address h < 2 ^ 32)
    → let e = setup_idt_inplace address t j in
      let gate = ltb j 47 || (j == 128) in
      (e.present ≡ (if gate then 1 else (t j).present))
      × (e.dpl ≡ (if j == 128 then 3 else if ltb j 47 then 0 else (t j).dpl))
      × (e.seg_selector ≡ (if gate then 0x10 else (t j).seg_selector))
      × (e.size ≡ (if gate then 1 else (t j).size))
      × (e.reserved0 ≡ (if gate then 0 else (t j).reserved0))
      × (e.reserved1 ≡ (if gate then 1 else (t j).reserved1))
      × (e.reserved2 ≡ (if gate then 1 else (t j).reserved2))
      × (e.reserved3 ≡ (if j == 128 then 1 else if ltb j 47 then 0 else (t j).reserved3))
      × (target e ≡ (
          if j == 128
          then address syscall_handler_asm
          else if ltb j 48
          then address (get_or handlers j gen_purp)
          else target (t j)))
      × (48 ≤ j → j ≢ 128 → e ≡ t j)
unfolding setup_idt_inplace set_idt_entry set_entry
setup_idt_inplace_lem address t j word =
    let start = set_entry 128 (set_entries 0 47 t) in
    let each = set_handlers_at address start j in
    let entry = set_entries_lem 0 47 t j in
    (
      ground (arith, each, entry),
      ground (arith, each, entry),
      ground (arith, each, entry),
      ground (arith, each, entry),
      ground (arith, each, entry),
      ground (arith, each, entry),
      ground (arith, each, entry),
      ground (arith, each, entry),
      ground (arith, each, entry, word syscall_handler_asm, word (get_or handlers j gen_purp)),
      λ l h. ground (arith, each, entry, l, h),
    )
