-- ===== src/Rtc.antt =====
-- The real-time clock of student-distrib/rtc.c: `rate`, `waiting`, and the interrupt controllers with
-- the log of port writes. What `inb` reads is an argument.
pub mod Rate
pub mod Wait
mod Tests
use mpf_cker_os.Pic.{Pic, outb, enable_irq, send_eoi}
use mpf_cker_os.Base.{
  ℕ, zero, suc, ◌+◌, ◌*◌, ◌==◌, ltb, if◌then◌else◌, u8, u32, signed_ltb, minus_one, bit_and, bit_or,
  Bool, true, false, not, ◌||◌, Option, none, some, List, [], ◌∷◌,
}

pub record Rtc : Type 0 where
  pub rate : ℕ
  pub waiting : ℕ
  pub pic : Pic

abbrev pub rtc_data : ℕ
rtc_data = 0x70

abbrev pub rtc_cmd : ℕ
rtc_cmd = 0x71

abbrev pub irq_rtc : ℕ
irq_rtc = 8

abbrev pub max_freq : ℕ
max_freq = 16384

abbrev pub nmi : ℕ
nmi = 0x80

-- `prev` is the byte that is read from register B
unfoldable pub init_rtc : ℕ → Rtc → Rtc
init_rtc prev s =
    let p = outb (bit_or nmi 0xb) rtc_data s.pic in
    let q = outb (u8 (bit_or prev 0x40)) rtc_cmd (outb (bit_or nmi 0xb) rtc_data p) in
    record s { pic = enable_irq irq_rtc q }

unfoldable pub rtc_handler : Rtc → Rtc
rtc_handler s = record s { waiting = 0; pic = send_eoi irq_rtc (outb 0x0c rtc_data s.pic) }

-- the frequencies that `rtc_write` accepts
unfoldable pub is_rate : ℕ → Bool
is_rate f =
    (f == 2)
    || (f == 4)
    || (f == 8)
    || (f == 16)
    || (f == 32)
    || (f == 64)
    || (f == 128)
    || (f == 256)
    || (f == 512)
    || (f == 1024)

-- `while (input_freq <= MAX_FREQ)` with fuel; it ends after at most 15 doublings
unfoldable pub count_rate : ℕ → ℕ → ℕ → Option ℕ
count_rate zero freq rate = none
count_rate (suc f) freq rate =
    let rest = count_rate f (u32 (freq * 2)) (rate + 1) in
    if signed_ltb max_freq freq then some rate else rest

unfoldable pub clamp_rate : ℕ → ℕ
clamp_rate rate = if ltb rate 4 then 4 else if ltb 15 rate then 15 else rate

-- the rate that is written for an accepted frequency
unfoldable pub new_rate : ℕ → Option ℕ
new_rate freq =
    if freq == 0
    then some 0
    else elim (count_rate 32 freq 0) [ none ↦ none | some r ↦ some (bit_and (clamp_rate r) 0x0f) ]

-- `prev` is the byte that is read from register A. The result is the value returned.
unfoldable pub rtc_write : ℕ → ℕ → Rtc → Option (ℕ × Rtc)
rtc_write freq prev s =
    if is_rate freq
    then elim (new_rate freq) [
      | none ↦ none
      | some r ↦
          let p = outb 0x8a rtc_data (outb (bit_or nmi 0xa) rtc_data s.pic) in
          some (0, record s { rate = r; pic = outb (bit_or (bit_and prev 0xf0) r) rtc_cmd p })
    ]
    else some (minus_one, s)

-- `b` and `a` are the bytes that are read from the registers B and A
unfoldable pub rtc_open : ℕ → ℕ → Rtc → Option (ℕ × Rtc)
rtc_open b a s = elim (rtc_write 2 a (init_rtc b s)) [ none ↦ none | some (_, t) ↦ some (0, t) ]

unfoldable pub rtc_close : ℕ → Rtc → Option (ℕ × Rtc)
rtc_close a s = elim (rtc_write 0 a s) [ none ↦ none | some (_, t) ↦ some (0, t) ]

-- An interrupt that arrives while a process waits: that of the clock, or another one with what has happened to
-- the clock and the controllers when the process runs again, such as an end of interrupt, or what other
-- processes have done that ran in the meantime.
pub data Irq : Type 0 where
  clock : Irq
  other : (Rtc → Rtc) → Irq

unfoldable pub interrupt : Irq → Rtc → Rtc
unfolding rtc_handler
interrupt clock s = rtc_handler s
interrupt (other h) s = h s

-- `while (waiting);` under the interrupts that arrive; `none` is a wait that has not ended
unfoldable pub wait : List Irq → Rtc → Option (Rtc × List Irq)
unfolding interrupt
wait [] s = if s.waiting == 0 then some (s, []) else none
wait (i ∷ is) s =
    let rest = wait is (interrupt i s) in if s.waiting == 0 then some (s, i ∷ is) else rest

unfoldable pub rtc_read : List Irq → Rtc → Option (ℕ × Rtc × List Irq)
unfolding wait
rtc_read is s = elim (wait is (record s { waiting = 1 })) [
  | none ↦ none
  | some (t, r) ↦ some (0, t, r)
]
