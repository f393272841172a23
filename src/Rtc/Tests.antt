-- ===== src/Rtc/Tests.antt =====
-- Concrete runs of the clock.
use mpf_cker_os.Base.{
  ℕ, ◌+◌, ◌*◌, ◌/◌, ◌^◌, ◌≤◌, ◌≡◌, refl, ◌↔◌, true, none, some, [], ◌∷◌, arith, minus_one,
}
use mpf_cker_os.Pic.{fresh_pic, send_eoi}
use mpf_cker_os.Rtc.{Rtc, is_rate, rtc_write, rtc_close, rtc_read, clock, other, rtc_handler}
use mpf_cker_os.Rtc.{new_rate, count_rate, clamp_rate}
use mpf_cker_os.Rtc.Rate.{rtc_write_lem, rtc_write_refused, is_rate_iff, rtc_close_lem}
use mpf_cker_os.Rtc.Wait.{rtc_read_lem, rtc_read_blocked, KeepsWaiting, keeps, none_left, after}

abbrev idle : Rtc
idle = record { rate = 0; waiting = 0; pic = fresh_pic }

rate_of_1024 : new_rate 1024 ≡ some 5
unfolding new_rate count_rate clamp_rate
rate_of_1024 = refl

rtc_write_lem_example :
    (r : ℕ) × (1024 * 2 ^ r ≡ 2 ^ 15)
    × (5 ≤ r)
    × (r ≤ 14)
    × (rtc_write 1024 0x26 idle
        ≡ some (
          0,
          record idle {
            rate = r;
            pic = record fresh_pic {
              ports = (0x26 / 16 * 16 + r, 0x71) ∷ (0x8a, 0x70) ∷ (0x8a, 0x70) ∷ [];
            };
          },
        ))
unfolding is_rate
rtc_write_lem_example = rtc_write_lem 1024 0x26 idle refl (omega arith)

rtc_write_refused_example : rtc_write 3 0x26 idle ≡ some (minus_one, idle)
unfolding is_rate
rtc_write_refused_example = rtc_write_refused 3 0x26 idle refl

is_rate_iff_example : (is_rate 64 ≡ true) ↔ ((k : ℕ) × (1 ≤ k) × (k ≤ 10) × (64 ≡ 2 ^ k))
is_rate_iff_example = is_rate_iff 64

rtc_close_lem_example : rtc_close 0x26 idle ≡ some (0, idle)
rtc_close_lem_example = rtc_close_lem 0x26 idle

-- the end of the timer's interrupt
abbrev timer : Rtc → Rtc
timer s = record s { pic = send_eoi 0 s.pic }

-- a process that reads the clock has run in the meantime, and waits
abbrev reader : Rtc → Rtc
reader s = record s { waiting = 1; pic = send_eoi 0 s.pic }

both_keep : KeepsWaiting (timer ∷ reader ∷ [])
both_keep = keeps timer (reader ∷ []) (λ s h. h) (keeps reader [] (λ s h. omega arith) none_left)

rtc_read_lem_example :
    let t = rtc_handler (after (timer ∷ reader ∷ []) (record idle { waiting = 1 })) in
    (rtc_read (other timer ∷ other reader ∷ clock ∷ clock ∷ []) idle ≡ some (0, t, clock ∷ []))
    × (t.waiting ≡ 0)
rtc_read_lem_example = rtc_read_lem (timer ∷ reader ∷ []) (clock ∷ []) idle both_keep

rtc_read_blocked_example : rtc_read (other timer ∷ other reader ∷ []) idle ≡ none
rtc_read_blocked_example = rtc_read_blocked (timer ∷ reader ∷ []) idle both_keep
