-- ===== src/Schedule/Timer.antt =====
-- `pit_handler` of student-distrib/schedule.c. The registers that its assembly reads are arguments, and
-- those that it leaves are its result.
use mpf_cker_os.Base.{ℕ, ◌+◌, ◌*◌, ◌%◌, ltb, ◌==◌, if◌then◌else◌, u8, u32, update}
use mpf_cker_os.Pic.{send_eoi}
use mpf_cker_os.Paging.{map_page, map_video_page}
use mpf_cker_os.Process.{Pcbs}
use mpf_cker_os.Execute.{Tss, four_mb, vaddr_prog_page}
use mpf_cker_os.Screen.{test_interrupts, clear}
use mpf_cker_os.Schedule.{System, num_terminals, on_screen, switch_terminal}

pub record Timer : Type 0 where
  pub system : System
  pub pcbs : Pcbs
  pub tss : Tss
  -- `terminals[i].save_tss`
  pub save_tss : ℕ → Tss

pub data Outcome : Type 0 where
  -- `execute("shell")`, which ends in the shell if it does not fail
  starts_shell : Outcome
  -- the end of the handler, with `esp` and `ebp`
  resumes : ℕ → ℕ → Outcome

abbrev pub process_of : System → ℕ → ℕ
process_of s i = (s.terminals i).curr_process

abbrev pub save_cursor : System → System
save_cursor s = record s {
  terminals =
      update s.terminals s.cur_terminal
        (record (s.terminals s.cur_terminal) { screen_x = u8 s.x; screen_y = u8 s.y });
}

-- the interrupt is counted, and the state of the running terminal is saved
unfoldable pub save_running : ℕ → ℕ → Timer → Timer
save_running esp ebp t =
    let counted = record t.system { pit_intr_count = u8 (t.system.pit_intr_count + 1) } in
    let s = on_screen (test_interrupts counted.pit_intr_count) counted in
    let p = process_of s s.cur_terminal in
    record t {
      system = save_cursor s;
      pcbs = update t.pcbs p (record (t.pcbs p) { task_esp = esp; task_ebp = ebp });
      save_tss = update t.save_tss s.cur_terminal t.tss;
    }

-- the next terminal in turn
unfoldable pub next_terminal : System → System
next_terminal s = record s { cur_terminal = (s.cur_terminal + 1) % num_terminals }

-- the terminal in turn takes over
unfoldable pub resume : Timer → Timer × Outcome
resume t =
    let s = t.system in
    let c = s.cur_terminal in
    let p = process_of s c in
    let b = t.pcbs p in
    (
      record t {
        tss = t.save_tss c;
        system = record s {
          paging =
              map_page (u32 ((p + 2) * four_mb)) vaddr_prog_page 0x87
                (map_video_page (if c == s.visible then 0 else 1 + c) s.paging);
          x = (s.terminals c).screen_x;
          y = (s.terminals c).screen_y;
          pic = send_eoi 0 s.pic;
        };
      },
      resumes b.task_esp b.task_ebp,
    )

-- one of the first three interrupts, up to `execute`
unfoldable pub start_shell : System → System
start_shell s =
    let cleared = save_cursor (on_screen clear (switch_terminal s.pit_count s)) in
    record cleared { pit_count = u8 (cleared.pit_count + 1); pic = send_eoi 0 cleared.pic }

-- `resume` is also what follows if `execute` fails
unfoldable pub pit_handler : ℕ → ℕ → Timer → Timer × Outcome
unfolding save_running next_terminal resume
pit_handler esp ebp t0 =
    let t = save_running esp ebp t0 in
    let s = next_terminal t.system in
    let first = switch_terminal 0 s in
    if ltb s.pit_count num_terminals
    then (record t { system = start_shell s }, starts_shell)
    else if s.pit_count == num_terminals
    then resume (record t { system = record first { pit_count = u8 (first.pit_count + 1) } })
    else resume (record t { system = s })
