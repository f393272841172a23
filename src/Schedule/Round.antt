-- ===== src/Schedule/Round.antt =====
-- The timer takes the terminals in turn, student-distrib/schedule.c.
use mpf_cker_os.Base.{
  ℕ, ◌+◌, ◌%◌, ◌<◌, ◌≡◌, refl, ap, ap₂, ◌∙◌, ◌≢◌, arith, ◌==◌, if◌then◌else◌, u8,
}
use mpf_cker_os.Screen.{test_interrupts}
use mpf_cker_os.Schedule.{System}
use mpf_cker_os.Schedule.Timer.{
  Timer, Outcome, resumes, process_of, save_running, next_terminal, resume, pit_handler,
}

-- what one interrupt does after the shells have been started
pub record Ticks (esp ebp : ℕ) (t u : Timer) : Type 0 where
  pub turn : u.system.cur_terminal ≡ (t.system.cur_terminal + 1) % 3
  pub count : u.system.pit_count ≡ t.system.pit_count
  pub view : u.system.visible ≡ t.system.visible
  pub process : (i : ℕ) → process_of u.system i ≡ process_of t.system i
  pub stacks :
      (j : ℕ)
      → (u.pcbs j).task_esp
        ≡ (if process_of t.system t.system.cur_terminal == j then esp else (t.pcbs j).task_esp)
  pub frames :
      (j : ℕ)
      → (u.pcbs j).task_ebp
        ≡ (if process_of t.system t.system.cur_terminal == j then ebp else (t.pcbs j).task_ebp)
  pub tasks : (i : ℕ) → u.save_tss i ≡ (if t.system.cur_terminal == i then t.tss else t.save_tss i)
  pub task : u.tss ≡ u.save_tss u.system.cur_terminal
  pub columns :
      (i : ℕ)
      → (u.system.terminals i).screen_x
        ≡ (if t.system.cur_terminal == i then u8 t.system.x else (t.system.terminals i).screen_x)
  pub rows :
      (i : ℕ)
      → (u.system.terminals i).screen_y
        ≡ (if t.system.cur_terminal == i then u8 t.system.y else (t.system.terminals i).screen_y)
  pub x : u.system.x ≡ (u.system.terminals u.system.cur_terminal).screen_x
  pub y : u.system.y ≡ (u.system.terminals u.system.cur_terminal).screen_y

-- the registers of the process of the running terminal
abbrev pub saved_regs : Timer → Outcome
saved_regs t =
    let b = t.pcbs (process_of t.system t.system.cur_terminal) in resumes b.task_esp b.task_ebp

resume_outcome : (t : Timer) → (resume t).1 ≡ saved_regs (resume t).0
unfolding resume
resume_outcome t = refl

-- the handler without its branches for the first interrupts
abbrev later : ℕ → ℕ → Timer → Timer
later esp ebp t = let w = save_running esp ebp t in record w { system = next_terminal w.system }

later_lem :
    (esp ebp : ℕ) (t : Timer)
    → 3 < t.system.pit_count
    → pit_handler esp ebp t ≡ resume (later esp ebp t)
unfolding pit_handler
later_lem esp ebp t h = ground arith

resume-later-Ticks : (esp ebp : ℕ) (t : Timer) → Ticks esp ebp t (resume (later esp ebp t)).0
unfolding resume save_running next_terminal test_interrupts
resume-later-Ticks esp ebp t = record {
  turn = refl;
  count = refl;
  view = refl;
  process = λ i. ground arith;
  stacks = λ j. ground arith;
  frames = λ j. ground arith;
  tasks = λ i. refl;
  task = refl;
  columns = λ i. ground arith;
  rows = λ i. ground arith;
  x = refl;
  y = refl;
}

-- Past the first four interrupts the handler saves the running terminal and resumes the next one.
pub pit_handler-Ticks :
    (esp ebp : ℕ) (t : Timer)
    → 3 < t.system.pit_count
    → let (u, out) = pit_handler esp ebp t in Ticks esp ebp t u × (out ≡ saved_regs u)
pit_handler-Ticks esp ebp t h =
    rw (later_lem esp ebp t h) (resume-later-Ticks esp ebp t, resume_outcome (later esp ebp t))

-- the cursor fits the bytes in which it is kept
pub record CursorFits (s : System) : Type 0 where
  pub x : s.x < 256
  pub y : s.y < 256

-- the terminals run three processes
pub record OwnProcesses (s : System) : Type 0 where
  pub distinct : (i j : ℕ) → i < 3 → j < 3 → i ≢ j → process_of s i ≢ process_of s j

-- After three interrupts in a row, past the first four, the terminal that was interrupted first runs
-- again: with its stack and frame, its task state and its cursor, if the three terminals run processes
-- of their own.
pub pit_handler_round :
    (e1 b1 e2 b2 e3 b3 : ℕ) (t : Timer)
    → 3 < t.system.pit_count
    → t.system.cur_terminal < 3
    → OwnProcesses t.system
    → CursorFits t.system
    → let (t1, out1) = pit_handler e1 b1 t in
      let (t2, out2) = pit_handler e2 b2 t1 in
      let (u, out) = pit_handler e3 b3 t2 in
      (out ≡ resumes e1 b1)
      × (u.system.cur_terminal ≡ t.system.cur_terminal)
      × (u.tss ≡ t.tss)
      × (u.system.x ≡ t.system.x)
      × (u.system.y ≡ t.system.y)
pit_handler_round e1 b1 e2 b2 e3 b3 t h c own fits =
    let t1 = (pit_handler e1 b1 t).0 in
    let t2 = (pit_handler e2 b2 t1).0 in
    let u = (pit_handler e3 b3 t2).0 in
    let (k1, o1) = pit_handler-Ticks e1 b1 t h in
    let (k2, o2) = pit_handler-Ticks e2 b2 t1 (omega (arith, k1.count)) in
    let (k3, o3) = pit_handler-Ticks e3 b3 t2 (omega (arith, k1.count, k2.count)) in
    let p : ℕ → ℕ = λ i. process_of t.system i in
    let c0 = t.system.cur_terminal in
    let p1 : process_of t1.system t1.system.cur_terminal ≡ p ((c0 + 1) % 3) =
      k1.process t1.system.cur_terminal ∙ ap p k1.turn in
    let turn2 : t2.system.cur_terminal ≡ (c0 + 2) % 3 = omega (arith, k1.turn, k2.turn) in
    let p2 : process_of t2.system t2.system.cur_terminal ≡ p ((c0 + 2) % 3) =
      k2.process t2.system.cur_terminal ∙ k1.process t2.system.cur_terminal ∙ ap p turn2 in
    let back : u.system.cur_terminal ≡ c0 = omega (arith, turn2, k3.turn) in
    let p3 : process_of u.system u.system.cur_terminal ≡ p c0 =
      k3.process u.system.cur_terminal
      ∙ k2.process u.system.cur_terminal
      ∙ k1.process u.system.cur_terminal
      ∙ ap p back in
    let other1 = own.distinct c0 ((c0 + 1) % 3) c (omega arith) (omega arith) in
    let other2 = own.distinct c0 ((c0 + 2) % 3) c (omega arith) (omega arith) in
    let stack : (u.pcbs (p c0)).task_esp ≡ e1 =
      ground
        (arith, p1, p2, other1, other2, k3.stacks (p c0), k2.stacks (p c0), k1.stacks (p c0)) in
    let frame : (u.pcbs (p c0)).task_ebp ≡ b1 =
      ground
        (arith, p1, p2, other1, other2, k3.frames (p c0), k2.frames (p c0), k1.frames (p c0)) in
    let task : u.save_tss c0 ≡ t.tss =
      ground (arith, turn2, k1.turn, k3.tasks c0, k2.tasks c0, k1.tasks c0) in
    let col : (u.system.terminals c0).screen_x ≡ t.system.x =
      ground (arith, turn2, k1.turn, k3.columns c0, k2.columns c0, k1.columns c0, fits.x) in
    let row : (u.system.terminals c0).screen_y ≡ t.system.y =
      ground (arith, turn2, k1.turn, k3.rows c0, k2.rows c0, k1.rows c0, fits.y) in
    (
      o3 ∙ ap (λ q. resumes (u.pcbs q).task_esp (u.pcbs q).task_ebp) p3 ∙ ap₂ resumes stack frame,
      back,
      k3.task ∙ ap u.save_tss back ∙ task,
      k3.x ∙ ap (λ i. (u.system.terminals i).screen_x) back ∙ col,
      k3.y ∙ ap (λ i. (u.system.terminals i).screen_y) back ∙ row,
    )
