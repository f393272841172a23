-- ===== src/Boot/Entry.antt =====
-- When `entry` of student-distrib/kernel.c starts the kernel.
use mpf_cker_os.Base.{
  ℕ, ◌≡◌, refl, ◌≢◌, inl, inr, false, ◌&&◌, Option, none, some, List, [], ◌∷◌, arith, ◌==◌,
  Bool-cases,
}
use Prim.Native.String.{String}
use mpf_cker_os.Screen.{clear}
use mpf_cker_os.Boot.{KernelState, Places, set_up}
use mpf_cker_os.Boot.Report.{
  ◌>>=◌, returns, halts, check_flag, info, magic_number, raw_screen, with_raw, refuse, boot, print,
  describe, describe_tables, go_on, entry,
}

bind-inversion :
    {A B : Type 0} (o : Option A) (g : A → Option B) (b : B)
    → (o >>= g) ≡ some b
    → (x : A) × (o ≡ some x) × (g x ≡ some b)
bind-inversion none g b e = absurd (ground (arith, e))
bind-inversion (some x) g b e = (x, refl, e)

refuse_halts :
    (f conv : ℕ) (format : String) (args : List ℕ) (k k' : KernelState)
    → refuse f conv format args k ≢ some (halts k')
unfolding refuse
refuse_halts f conv format args k k' e =
    let (k1, ran, end) =
      bind-inversion (print f conv format args k) (λ k1. some (returns k1)) (halts k') e in
    ground (arith, end)

go_on_halts :
    (f conv mbi : ℕ) (a : Places) (k k' : KernelState)
    → go_on f conv mbi a k ≡ some (halts k')
    → (check_flag (info k mbi 0) 4 && check_flag (info k mbi 0) 5 ≡ false)
      × (k1 : KernelState) × (describe_tables f conv mbi k ≡ some k1)
      × (set_up a k1 ≡ some k')
unfolding go_on boot
go_on_halts f conv mbi a k k' e =
    elim (Bool-cases (check_flag (info k mbi 0) 4 && check_flag (info k mbi 0) 5)) [
      | inl both ↦
          absurd
            (refuse_halts f conv "Both bits 4 and 5 are set.\n" [] k k' (ground (arith, e, both)))
      | inr fine ↦
          let started : (describe_tables f conv mbi k >>= boot a) ≡ some (halts k') =
            ground (arith, e, fine) in
          let (k1, told, up) =
            bind-inversion (describe_tables f conv mbi k) (boot a) (halts k') started in
          let (k2, ran, end) = bind-inversion (set_up a k1) (λ z. some (halts z)) (halts k') up in
          (fine, k1, told, ground (arith, ran, end))
    ]

-- `entry` comes to wait for interrupts only if it was given the number of a Multiboot loader and, after the
-- modules have been printed, not both of the flags 4 and 5 are set; the kernel is then as the set-up
-- leaves it after the rest of the information has been printed.
entry_halts :
    (f conv magic mbi : ℕ) (a : Places) (k k' : KernelState)
    → entry f conv magic mbi a k ≡ some (halts k')
    → (magic ≡ 0x2badb002)
      × (k1 : KernelState) × (describe f conv mbi (with_raw k (clear (raw_screen k))) ≡ some k1)
      × (check_flag (info k1 mbi 0) 4 && check_flag (info k1 mbi 0) 5 ≡ false)
      × (k2 : KernelState) × (describe_tables f conv mbi k1 ≡ some k2)
      × (set_up a k2 ≡ some k')
unfolding entry
entry_halts f conv magic mbi a k k' e =
    let k0 = with_raw k (clear (raw_screen k)) in
    elim (Bool-cases (magic == magic_number)) [
      | inr other ↦ absurd (
          refuse_halts f conv "Invalid magic number: 0x%#x\n" (magic ∷ []) k0 k'
            (ground (arith, e, other)))
      | inl known ↦
          let started : (describe f conv mbi k0 >>= go_on f conv mbi a) ≡ some (halts k') =
            ground (arith, e, known) in
          let (k1, told, went) =
            bind-inversion (describe f conv mbi k0) (go_on f conv mbi a) (halts k') started in
          let (flags, k2, told', up) = go_on_halts f conv mbi a k1 k' went in
          (ground (arith, known), k1, told, flags, k2, told', up)
    ]
