-- ===== src/Schedule/Tests.antt =====
-- Concrete terminals.
use mpf_cker_os.Base.{ℕ, ◌+◌, ◌*◌, ◌%◌, ◌≤◌, ◌<◌, ◌≡◌, refl, arith, minus_one}
use mpf_cker_os.Pic.{outb, enable_irq, fresh_pic}
use mpf_cker_os.Paging.{video_mem}
use mpf_cker_os.Schedule.{buffer_of, switch_terminal, init_terminals, init_pit, video_frame}
use mpf_cker_os.Schedule.Switch.{
  IsPlaced, FitsBytes, SameKeyboard, exchanged, switch_terminal_memory,
  switch_terminal-switch_terminal,
}
use mpf_cker_os.Schedule.Sample.{running, timer}
use mpf_cker_os.Schedule.Timer.{pit_handler, resumes}
use mpf_cker_os.Schedule.Round.{OwnProcesses, CursorFits, pit_handler_round}
use mpf_cker_os.Schedule.Setup.{init_terminals_lem, init_pit_lem}

running-IsPlaced : IsPlaced running
running-IsPlaced = record { mapped = refl; buffers = λ i h. refl }

running-FitsBytes : FitsBytes running
running-FitsBytes = record {
  x = omega arith;
  y = omega arith;
  num_chars = omega arith;
  curr_idx = omega arith;
  save_x = omega arith;
  save_y = omega arith;
  previous_num_chars = omega arith;
}

switch_terminal_memory_example :
    let t = switch_terminal 1 running in
    (t.visible ≡ 1)
    × (t.mem 0xb9000 ≡ exchanged running.mem (buffer_of 0) (buffer_of 1) 0xb9000)
    × (video_frame t.paging ≡ video_mem)
    × ((i : ℕ) → i < 3 → (t.terminals i).video_buffer ≡ buffer_of i)
switch_terminal_memory_example =
    switch_terminal_memory running running-IsPlaced (omega arith) 1 0xb9000 (omega arith)
      (omega arith)

switch_terminal-switch_terminal_example :
    let u = switch_terminal 0 (switch_terminal 1 running) in
    (u.visible ≡ 0)
    × (u.x ≡ 8)
    × (u.y ≡ 2)
    × SameKeyboard u.keyboard running.keyboard
    × (u.mem 0xb8000 ≡ 97)
switch_terminal-switch_terminal_example =
    switch_terminal-switch_terminal running 1 0xb8000 running-IsPlaced running-FitsBytes
      (omega arith) (omega arith) (omega arith) refl

init_terminals_lem_example :
    let t = init_terminals running in
    (t.visible ≡ 0)
    × ((t.terminals 2).video_buffer ≡ buffer_of 2)
    × ((t.terminals 2).curr_process ≡ minus_one)
    × ((t.terminals 2).screen_x + (t.terminals 2).screen_y + (t.terminals 2).num_chars ≡ 0)
    × ((t.terminals 2).buf_kb (5 % 128) ≡ 0)
    × (t.mem 5 ≡ 32)
init_terminals_lem_example = init_terminals_lem running 2 5 (omega arith)

init_pit_lem_example :
    let t = init_pit 20 running in
    (low : ℕ) × (high : ℕ) × (t.pic
      ≡ enable_irq 0 (outb high 0x40 (outb low 0x40 (outb 0x36 0x43 fresh_pic))))
    × (low < 256)
    × (high < 256)
    × (20 * (256 * high + low) ≤ 1193180)
    × (1193180 < 20 * (256 * high + low + 1))
    × (t.pit_count ≡ 0)
    × (t.pit_intr_count ≡ 0)
init_pit_lem_example = init_pit_lem 20 running (omega arith) (omega arith)

timer-OwnProcesses : OwnProcesses timer.system
timer-OwnProcesses = record { distinct = λ i j h k n. n }

timer-CursorFits : CursorFits timer.system
timer-CursorFits = record { x = omega arith; y = omega arith }

pit_handler_round_example :
    let (t1, out1) = pit_handler 100 104 timer in
    let (t2, out2) = pit_handler 200 204 t1 in
    let (u, out) = pit_handler 300 304 t2 in
    (out ≡ resumes 100 104)
    × (u.system.cur_terminal ≡ 2)
    × (u.tss ≡ timer.tss)
    × (u.system.x ≡ 8)
    × (u.system.y ≡ 2)
pit_handler_round_example =
    pit_handler_round 100 104 200 204 300 304 timer (omega arith) (omega arith) timer-OwnProcesses
      timer-CursorFits
