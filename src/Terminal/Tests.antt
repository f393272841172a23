-- ===== src/Terminal/Tests.antt =====
-- Concrete lines and writes of the terminal.
use mpf_cker_os.Base.{
  ℕ, ◌+◌, ◌-◌, ◌≡◌, refl, some, [], ◌∷◌, ◌++◌, arith, ltb, if◌then◌else◌, Mem, inside, place,
}
use mpf_cker_os.Strings.{codes}
use mpf_cker_os.Terminal.{Line, terminal_read, terminal_getargs}
use mpf_cker_os.Terminal.Reading.{IsLine, IsTaken, terminal_read_word, terminal_read_command}
use mpf_cker_os.Terminal.Copying.{terminal_getargs_lem}
use mpf_cker_os.Screen.{Screen}
use mpf_cker_os.Screen.Refine.{OnScreen}

terminal_getargs_lem_example : terminal_getargs (λ q. 97) 100 4 (λ q. 0) 103 ≡ 0xa
terminal_getargs_lem_example = terminal_getargs_lem (λ q. 97) 100 4 (λ q. 0) 103 (omega arith)

-- " cat a" and an end of line
abbrev typed : Line
typed = record {
  buf_kb = place (λ q. 0) 0 (codes " cat a" ++ (0xa ∷ []));
  storeargs = λ q. 7;
  enter_flag = 0;
}

typed-IsLine : IsLine typed.buf_kb 1 (1 + 5)
typed-IsLine = record { ends = refl; before = λ j l h. ground arith }

terminal_read_command_example :
    (m' : Mem) × (l' : Line) × (terminal_read 200 100 128 (λ q. 0) typed ≡ some (m', l', 3))
    × IsTaken l' (λ q. if ltb q 1 then typed.buf_kb (1 + (4 + q)) else 0)
    × ((q : ℕ) → m' q ≡ (if inside 100 3 q then typed.buf_kb (1 + (q - 100)) else 0))
terminal_read_command_example =
    terminal_read_command typed 1 5 (omega arith) typed-IsLine (λ j l h. ground arith)
      (ground arith) 200 100 128 3 (λ q. 0) (omega arith) (omega arith) (omega arith) (omega arith)
      (λ j h. ground arith) refl

-- "ls" and an end of line
abbrev listing : Line
listing = record {
  buf_kb = place (λ q. 0) 0 (codes "ls" ++ (0xa ∷ []));
  storeargs = λ q. 7;
  enter_flag = 0;
}

listing-IsLine : IsLine listing.buf_kb 0 (0 + 2)
listing-IsLine = record { ends = refl; before = λ j l h. ground arith }

terminal_read_word_example :
    (m' : Mem) × (l' : Line) × (terminal_read 200 100 128 (λ q. 0) listing ≡ some (m', l', 3))
    × IsTaken l' (λ q. 0)
    × ((q : ℕ) → m' q ≡ (if inside 100 3 q then listing.buf_kb (0 + (q - 100)) else 0))
terminal_read_word_example =
    terminal_read_word listing 0 2 (omega arith) listing-IsLine (λ j l h. absurd (omega arith))
      (ground arith) 200 100 128 (λ q. 0) (omega arith) (omega arith) (omega arith)
      (λ j h. ground arith)

-- an empty screen whose memory holds "ls" at address 100
abbrev console : Screen
console = record { x = 0; y = 0; mem = place (λ q. 0) 100 (codes "ls"); ports = [] }

console-OnScreen : OnScreen console
console-OnScreen = omega arith
