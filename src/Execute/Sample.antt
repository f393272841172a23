-- ===== src/Execute/Sample.antt =====
-- A process for tests.
use mpf_cker_os.Base.{minus_one}
use mpf_cker_os.Process.{Pcb}
use mpf_cker_os.Execute.{free_entry}

abbrev pub pcb : Pcb
pcb = record {
  fd_table = λ i. free_entry;
  pcb_in_use = 0;
  esp = 0;
  ebp = 0;
  task_esp = 0;
  task_ebp = 0;
  esp0 = 0;
  ss0 = 0;
  return_label_add = 0;
  parent_pid = minus_one;
  args = λ q. 7;
}
