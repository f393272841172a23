-- ===== src/Keyboard/Reach.antt =====
-- Keys and timer interrupts in any order, student-distrib/keyboard.c and schedule.c.
use mpf_cker_os.Base.{
  ℕ, ◌+◌, ◌<◌, ◌≡◌, refl, sym, subst, some, arith, ltb, ◌==◌, if◌then◌else◌, u8, Mem, inside,
  if_rule,
}
use mpf_cker_os.Keyboard.Handler.{keyboard_handler}
use mpf_cker_os.Keyboard.Line.{LineFits, keyboard_handler-LineFits, switch_terminal-LineFits}
use mpf_cker_os.Schedule.{
  System, switch_terminal, init_terminals, reset_from, reset_terminal, with_buffer,
}
use mpf_cker_os.Schedule.Setup.{reset_from_terminals}
use mpf_cker_os.Process.{Pcbs}
use mpf_cker_os.Execute.{Tss}
use mpf_cker_os.Schedule.Timer.{
  Timer, Outcome, pit_handler, save_running, next_terminal, resume, start_shell, save_cursor,
}

-- the same keyboard counters, and the same line kept in each terminal
pub record SameLines (s t : System) : Type 0 where
  pub keyboard : t.keyboard ≡ s.keyboard
  pub visible : t.visible ≡ s.visible
  pub index : (i : ℕ) → (t.terminals i).curr_idx ≡ (s.terminals i).curr_idx
  pub count : (i : ℕ) → (t.terminals i).num_chars ≡ (s.terminals i).num_chars
  pub previous : (i : ℕ) → (t.terminals i).prev_num_chars ≡ (s.terminals i).prev_num_chars

SameLines-LineFits : {s t : System} → SameLines s t → LineFits s → LineFits t
SameLines-LineFits same h = record {
  same_index = ground (arith, same.keyboard, h.same_index);
  within = ground (arith, same.keyboard, h.within);
  previous = ground (arith, same.keyboard, h.previous);
  visible = ground (arith, same.visible, h.visible);
  kept_index = λ i p. ground (arith, same.index i, same.count i, h.kept_index i);
  kept_within = λ i p. ground (arith, same.count i, h.kept_within i);
  kept_previous = λ i p. ground (arith, same.previous i, h.kept_previous i);
}

save_cursor-SameLines : (s : System) → SameLines s (save_cursor s)
save_cursor-SameLines s = record {
  keyboard = refl;
  visible = refl;
  index = λ i. ground arith;
  count = λ i. ground arith;
  previous = λ i. ground arith;
}

save_running-SameLines :
    (esp ebp : ℕ) (t : Timer) → SameLines t.system (next_terminal (save_running esp ebp t).system)
unfolding save_running next_terminal
save_running-SameLines esp ebp t = record {
  keyboard = refl;
  visible = refl;
  index = λ i. ground arith;
  count = λ i. ground arith;
  previous = λ i. ground arith;
}

start_shell-LineFits : (s : System) → s.pit_count < 3 → LineFits s → LineFits (start_shell s)
unfolding start_shell
start_shell-LineFits s few h =
    let w = switch_terminal s.pit_count s in
    SameLines-LineFits {s = w}
      (record {
        keyboard = refl;
        visible = refl;
        index = λ i. ground arith;
        count = λ i. ground arith;
        previous = λ i. ground arith;
      })
      (switch_terminal-LineFits s.pit_count s few h)

resume-LineFits : (t : Timer) → LineFits t.system → LineFits (resume t).0.system
unfolding resume
resume-LineFits t h =
    SameLines-LineFits {s = t.system}
      (record {
        keyboard = refl;
        visible = refl;
        index = λ i. refl;
        count = λ i. refl;
        previous = λ i. refl;
      })
      h

-- A timer interrupt keeps the invariant, also while it starts the shells.
pub pit_handler-LineFits :
    (esp ebp : ℕ) (t : Timer) → LineFits t.system → LineFits (pit_handler esp ebp t).0.system
unfolding pit_handler
pit_handler-LineFits esp ebp t h =
    let w = save_running esp ebp t in
    let s = next_terminal w.system in
    let fits : LineFits s =
      SameLines-LineFits {s = t.system} (save_running-SameLines esp ebp t) h in
    let first = switch_terminal 0 s in
    let counted = record first { pit_count = u8 (first.pit_count + 1) } in
    let first_fits : LineFits counted =
      SameLines-LineFits {s = first}
        (record {
          keyboard = refl;
          visible = refl;
          index = λ i. refl;
          count = λ i. refl;
          previous = λ i. refl;
        })
        (switch_terminal-LineFits 0 s (omega arith) fits) in
    let P : Timer × Outcome → Type 0 = λ z. LineFits z.0.system in
    if_rule P (ltb s.pit_count 3) (λ few. start_shell-LineFits s (ground arith) fits)
      λ e1.
        if_rule P (s.pit_count == 3)
          (λ last. resume-LineFits (record w { system = counted }) first_fits)
          λ e2. resume-LineFits (record w { system = s }) fits

-- What can happen: a key, whatever the loops of the up key are given; an interrupt of the timer; a line
-- that is read, whose buffer is cleared; and anything that leaves the lines alone, such as a program.
pub data Step : Timer → Timer → Type 0 where
  press :
      (f : ℕ) (stack : Mem) (conv speaker scan : ℕ) (t : Timer) (s : System)
      → keyboard_handler f stack conv speaker scan t.system ≡ some s
      → Step t (record t { system = s })
  tick : (esp ebp : ℕ) (t : Timer) → Step t (pit_handler esp ebp t).0
  take :
      (t : Timer) (m : Mem) (s : System)
      → s ≡ record t.system { keyboard = record t.system.keyboard { buf_kb = m } }
      → Step t (record t { system = s })
  elsewhere : (t u : Timer) → SameLines t.system u.system → Step t u

pub data Reach (t : Timer) : Timer → Type 0 where
  here : Reach t t
  next : {u v : Timer} → Reach t u → Step u v → Reach t v

Step-LineFits : {t u : Timer} → Step t u → LineFits t.system → LineFits u.system
Step-LineFits (press f stack conv speaker scan t s ran) h =
    keyboard_handler-LineFits f stack conv speaker scan t.system s h ran
Step-LineFits (tick esp ebp t) h = pit_handler-LineFits esp ebp t h
Step-LineFits (take t m s e) h = subst LineFits (sym e) (record {
  same_index = h.same_index;
  within = h.within;
  previous = h.previous;
  visible = h.visible;
  kept_index = h.kept_index;
  kept_within = h.kept_within;
  kept_previous = h.kept_previous;
})
Step-LineFits (elsewhere t u same) h = SameLines-LineFits same h

Reach-LineFits : {t u : Timer} → Reach t u → LineFits t.system → LineFits u.system
Reach-LineFits here h = h
Reach-LineFits (next r st) h = Step-LineFits st (Reach-LineFits r h)

pub init_terminals-LineFits :
    (s : System)
    → s.keyboard.curr_idx ≡ 0
    → s.keyboard.num_chars ≡ 0
    → s.keyboard.previous_num_chars ≡ 0
    → LineFits (init_terminals s)
unfolding init_terminals
init_terminals-LineFits s index count previous =
    let ts = with_buffer 2 (with_buffer 1 (with_buffer 0 s.terminals)) in
    let at : (m : Mem) (i : ℕ)
        → (reset_from ts m 0 3).0 i ≡ (if inside 0 3 i then reset_terminal i (ts i) else ts i) =
      λ m i. reset_from_terminals ts m 0 3 i in
    record {
      same_index = ground arith;
      within = ground arith;
      previous = ground arith;
      visible = ground arith;
      kept_index = λ i p. ground (arith, at _ i);
      kept_within = λ i p. ground (arith, at _ i);
      kept_previous = λ i p. ground (arith, at _ i);
    }

-- From the terminals as they are set up, with an empty line, whatever keys, interrupts, reads and
-- programs follow: the index of the line is the number of its characters and at most 127, so that the end
-- of line that the enter key stores lies in the buffer, in every terminal.
pub init_terminals-Reach :
    (s : System) (pcbs : Pcbs) (tss : Tss) (save_tss : ℕ → Tss) (u : Timer)
    → s.keyboard.curr_idx ≡ 0
    → s.keyboard.num_chars ≡ 0
    → s.keyboard.previous_num_chars ≡ 0
    → Reach (record { system = init_terminals s; pcbs = pcbs; tss = tss; save_tss = save_tss }) u
    → LineFits u.system
init_terminals-Reach s pcbs tss save_tss u index count previous r =
    Reach-LineFits r (init_terminals-LineFits s index count previous)
