-- ===== src/Screen/Tests.antt =====
-- Concrete runs of the screen.
use mpf_cker_os.Base.{
  ℕ, ◌+◌, ◌-◌, ◌*◌, ◌<◌, ◌≡◌, refl, inl, false, some, [], ◌∷◌, arith, Mem, inside, bytes_at, place,
}
use mpf_cker_os.Memory.{memmove, copy_bytes}
use mpf_cker_os.Strings.{codes}
use mpf_cker_os.Strings.Length.{IsString}
use mpf_cker_os.Screen.{Screen, store_cell, line_feed, update_cursor, putc, backspace, video, puts}
use mpf_cker_os.Screen.{clear, blank_row}
use mpf_cker_os.Screen.Console.{Same, put, put_all}
use mpf_cker_os.Screen.Cells.{at}
use mpf_cker_os.Screen.Refine.{OnScreen, view, putc_refines, clear_refines}
use mpf_cker_os.Screen.Bounds.{putc_outside, update_cursor_bytes}
use mpf_cker_os.Screen.Erase.{backspace_corner}
use mpf_cker_os.Screen.Output.{puts_lem}

abbrev memory : Mem
memory = place (λ q. 0) 100 (codes "ls")

-- the cursor in the bottom right corner
abbrev corner : Screen
corner = record { x = 79; y = 24; mem = memory; ports = [] }

abbrev origin : Screen
origin = record { x = 0; y = 0; mem = memory; ports = [] }

corner-OnScreen : OnScreen corner
corner-OnScreen = omega arith

origin-OnScreen : OnScreen origin
origin-OnScreen = omega arith

ls-IsString : IsString memory 100 2
ls-IsString = record { ends = refl; before = λ i h. ground arith }

-- the last character of the screen scrolls with its line
corner_scrolls : ((putc b'$' corner).mem (at 23 79) ≡ b'$') × ((putc b'$' corner).x ≡ 0)
unfolding putc line_feed store_cell update_cursor blank_row memmove copy_bytes
corner_scrolls = (refl, refl)

putc_refines_example : Same (view (putc b'$' corner)) (put b'$' (view corner))
putc_refines_example = putc_refines b'$' corner-OnScreen

putc_outside_example : (putc b'$' corner).mem 100 ≡ b'l'
putc_outside_example = putc_outside b'$' 100 corner-OnScreen refl

puts_lem_example :
    (t : Screen) × (puts 9 100 origin ≡ some (2, t))
    × OnScreen t
    × Same (view t) (put_all (bytes_at memory 100 2) (view origin))
    × ((q : ℕ) → inside video 4000 q ≡ false → t.mem q ≡ memory q)
puts_lem_example =
    puts_lem 100 2 (inl (omega arith)) 9 origin ls-IsString (omega arith) origin-OnScreen

clear_refines_example : Same (view (clear corner)) (record { col = 0; row = 0; grid = λ r c. b' ' })
clear_refines_example = clear_refines corner

backspace_corner_example :
    ((backspace origin).mem (video - 2) ≡ b' ') × ((backspace origin).mem (video - 1) ≡ 7)
backspace_corner_example = backspace_corner origin refl refl

update_cursor_bytes_example :
    (low : ℕ) × (high : ℕ) × ((update_cursor 79 24 corner).ports
      ≡ (high, 0x3d5) ∷ (0x0e, 0x3d4) ∷ (low, 0x3d5) ∷ (0x0f, 0x3d4) ∷ [])
    × (low < 256)
    × (high < 256)
    × (high * 256 + low ≡ 80 * 24 + 79)
update_cursor_bytes_example = update_cursor_bytes corner corner-OnScreen
