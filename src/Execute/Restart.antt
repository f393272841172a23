-- ===== src/Execute/Restart.antt =====
-- The endless loop of `halt` in student-distrib/halt.c, which starts the shell of a terminal anew.
use mpf_cker_os.Base.{ℕ, zero, suc, Option, none, some, List, minus_one, Mem, update, get_or}
use mpf_cker_os.Execute.{Machine, Regs, Outcome, refused, enters, execute}
use mpf_cker_os.Printf.{printf}
use mpf_cker_os.Schedule.{seen, put_back}
use mpf_cker_os.Strings.{codes}

-- the machine with the cursor of the screen
pub record Tty : Type 0 where
  pub machine : Machine
  pub x : ℕ
  pub y : ℕ
  pub ports : List (ℕ × ℕ)

-- the two statements before the message, for the process that has ended
unfoldable pub free_shell : ℕ → Machine → Machine
free_shell p s = record s {
  pcbs = update s.pcbs p (record (s.pcbs p) { pcb_in_use = minus_one });
  running = update s.running p minus_one;
}

abbrev pub message : Mem
message = λ i. get_or (codes "Ree-") i 0

-- `printf` of the message, through the mapping of the video page
unfoldable pub print_message : ℕ → Tty → Option Tty
print_message f t =
    let p = t.machine.paging in
    elim (printf f message (λ i. 0) 0
      (record { x = t.x; y = t.y; mem = seen p t.machine.mem; ports = t.ports })) [
        | none ↦ none
        | some (n, s) ↦ some (record {
          machine = record t.machine { mem = put_back p t.machine.mem s.mem };
          x = s.x;
          y = s.y;
          ports = s.ports;
        })
      ]

-- a round of the loop; `fname` is where "shell" lies
unfoldable pub restart_round : ℕ → ℕ → ℕ → ℕ → Regs → ℕ → Tty → Option (Tty × Outcome)
restart_round f fname temp buf r p t =
    elim (print_message f (record t { machine = free_shell p t.machine })) [
      | none ↦ none
      | some t1 ↦ elim (execute f fname temp buf r t1.machine) [
        | none ↦ none
        | some (s, out) ↦ some (record t1 { machine = s }, out)
      ]
    ]

-- the loop, with fuel for its rounds: it is left by the jump to the shell alone
unfoldable pub restart_loop : ℕ → ℕ → ℕ → ℕ → ℕ → Regs → ℕ → Tty → Option (Tty × ℕ)
restart_loop zero f fname temp buf r p t = none
restart_loop (suc g) f fname temp buf r p t = elim (restart_round f fname temp buf r p t) [
  | none ↦ none
  | some (t', refused) ↦ restart_loop g f fname temp buf r p t'
  | some (t', enters a) ↦ some (t', a)
]
