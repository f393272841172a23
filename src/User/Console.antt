-- ===== src/User/Console.antt =====
-- A driver behind descriptor 1 for which the hypothesis on the terminal of the theorems on programs holds: it runs
-- terminal_write of student-distrib/terminal.c with the cursor that is given for each write.
use mpf_cker_os.Base.{
  ℕ, zero, suc, ◌+◌, ◌*◌, ◌<◌, ◌≡◌, refl, ◌∙◌, false, Option, some, [], arith, if◌then◌else◌,
  is_negative, Mem, inside, IsBytes,
}
use mpf_cker_os.Process.{Fop, terminal_struct, file_struct, dir_struct, rtc_struct, null}
use mpf_cker_os.Screen.{Screen, store_cell, line_feed, update_cursor, putc, video}
use mpf_cker_os.Screen.Cells.{store_cell_lem, scroll_lem, scrolled}
use mpf_cker_os.Screen.Bounds.{putc_outside}
use mpf_cker_os.Screen.Refine.{OnScreen, putc-OnScreen}
use mpf_cker_os.Syscall.{Kernel, Drivers}
use mpf_cker_os.Terminal.{terminal_write_from, terminal_write}
use mpf_cker_os.User.OnKernel.{IsConsole}

-- the screen on which a write to the terminal begins, with the cursor at `x` and `y`
abbrev pub screen_of : ℕ → ℕ → Kernel → Screen
screen_of x y k = record { x = x; y = y; mem = k.mem; ports = [] }

unfoldable pub write_terminal : ℕ → ℕ → ℕ → ℕ → Kernel → Kernel × ℕ
write_terminal x y buf n k =
    let (t, r) = terminal_write buf n (screen_of x y k) in (record k { mem = t.mem }, r)

unfoldable pub console_write :
    (Kernel → ℕ) → (Kernel → ℕ) → Drivers → Fop → ℕ → ℕ → ℕ → Kernel → Option (Kernel × ℕ)
console_write x y d terminal_struct fd buf n k = some (write_terminal (x k) (y k) buf n k)
console_write x y d file_struct fd buf n k = d.write file_struct fd buf n k
console_write x y d dir_struct fd buf n k = d.write dir_struct fd buf n k
console_write x y d rtc_struct fd buf n k = d.write rtc_struct fd buf n k
console_write x y d null fd buf n k = d.write null fd buf n k

-- drivers with the terminal of `terminal_write`, whose cursor is given
abbrev pub console_drivers : (Kernel → ℕ) → (Kernel → ℕ) → Drivers → Drivers
console_drivers x y d = record { read = d.read; write = console_write x y d }

scroll-IsBytes : (m : Mem) (q : ℕ) → IsBytes m → scrolled m q < 256
scroll-IsBytes m q h = ground (arith, h q, h (q + 160))

putc-IsBytes :
    (ch : ℕ) (s : Screen) → OnScreen s → ch < 256 → IsBytes s.mem → IsBytes (putc ch s).mem
unfolding putc line_feed update_cursor
putc-IsBytes ch s v is_byte h q =
    let stored = store_cell s.mem (80 * s.y + s.x) ch in
    let stored_bytes : IsBytes stored =
      λ a. ground (arith, store_cell_lem s.mem (80 * s.y + s.x) ch a, h a, is_byte) in
    ground (
      arith,
      scroll_lem s.mem q,
      scroll_lem stored q,
      scroll-IsBytes s.mem q h,
      scroll-IsBytes stored q stored_bytes,
      stored_bytes q,
      h q,
    )

terminal_write_from-IsBytes :
    (buf i k count : ℕ) (s : Screen)
    → OnScreen s
    → IsBytes s.mem
    → let (t, r) = terminal_write_from buf i count k s in
      (r ≡ count + k) × IsBytes t.mem × ((q : ℕ) → inside video 4000 q ≡ false → t.mem q ≡ s.mem q)
unfolding terminal_write_from
terminal_write_from-IsBytes buf i zero count s v h = (omega arith, h, λ q o. refl)
terminal_write_from-IsBytes buf i (suc k) count s v h =
    let ch = s.mem (buf + i) in
    let (ran, bytes, outside) =
      terminal_write_from-IsBytes buf (i + 1) k (count + 1) (putc ch s) (putc-OnScreen ch v)
        (putc-IsBytes ch s v (h (buf + i)) h) in
    (omega (arith, ran), bytes, λ q o. outside q o ∙ putc_outside ch q v o)

-- with the cursor on the screen
pub console_drivers-IsConsole :
    (x y : Kernel → ℕ) (d : Drivers)
    → ((k : Kernel) → (x k < 80) × (y k < 25))
    → IsConsole (console_drivers x y d)
unfolding console_write write_terminal terminal_write
console_drivers-IsConsole x y d range = record {
  writes = λ buf n k bytes.
      let s = screen_of (x k) (y k) k in
      let (ran, keeps, outside) =
        terminal_write_from-IsBytes buf 0 (if is_negative n then 0 else n) 0 s
          (record { col = (range k).0; row = (range k).1 }) bytes in
      (
        (terminal_write buf n s).0.mem,
        (terminal_write buf n s).1,
        refl,
        ground (arith, ran),
        keeps,
        λ q o. outside q (ground (arith, o)),
      );
}
