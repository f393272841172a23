-- ===== src/User/Kernel.antt =====
-- The system calls of student-distrib as the user programs reach them, through syscall_asm.S and the wrappers of
-- syscalls/ece391syscall.S. A buffer of a program is copied to the 4096 bytes from `page` on, and read
-- from there; beside the state of the kernel, `console` is what has been written to descriptor 1.
use mpf_cker_os.Base.{
  ℕ, ◌+◌, ◌-◌, not, ◌&&◌, Option, none, some, List, ◌++◌, ◌==◌, if◌then◌else◌, minus_one, Mem,
  inside, length, place,
}
use mpf_cker_os.Syscall.{Drivers}
use mpf_cker_os.Syscall.Handler.{
  Caller, Frame, halts, executes, prints, returns, syscall_handler_asm,
}
use mpf_cker_os.User.Calls.{Calls, ◌>>=◌}

pub record World : Type 0 where
  pub caller : Caller
  pub console : List ℕ

-- what the calls depend on: the drivers, where things lie, what a command does, and what EAX holds after the
-- message of `syscall_handler`
pub record Setting : Type 0 where
  pub drivers : Drivers
  pub frame : Frame
  pub page : ℕ
  pub run_command : Mem → World → Option (World × ℕ)
  pub after_message : ℕ

-- memory with a buffer in the page
abbrev pub overlay : ℕ → Mem → Mem → Mem
overlay page buf m q = if inside page 4096 q then buf (q - page) else m q

abbrev pub with_buffer : Setting → Mem → World → Caller
with_buffer e buf w = record w.caller {
  kernel = record w.caller.kernel { mem = overlay e.page buf w.caller.kernel.mem };
}

-- the buffer as the program sees it
abbrev pub in_page : Setting → Caller → Mem
in_page e s q = s.kernel.mem (e.page + q)

-- `INT $0x80` of a call that comes back
unfoldable pub do_call : Setting → ℕ → ℕ → ℕ → ℕ → Caller → Option (Caller × ℕ)
do_call e eax ebx ecx edx s = elim (syscall_handler_asm e.drivers e.frame eax ebx ecx edx s) [
  | none ↦ none
  | some (halts status s') ↦ none
  | some (executes command s') ↦ none
  | some (prints s') ↦ some (s', e.after_message)
  | some (returns r s') ↦ some (s', r)
]

-- the result of a call that always comes back
abbrev pub settled : Caller → Option (Caller × ℕ) → Caller × ℕ
settled s none = (s, minus_one)
settled s (some r) = r

unfoldable pub kernel_read : Setting → ℕ → ℕ → Mem → World → Option (Mem × World × ℕ)
kernel_read e fd n buf w = do
  (s, r) ← do_call e 3 fd e.page n (with_buffer e buf w)
  some (in_page e s, record w { caller = s }, r)

unfoldable pub kernel_write : Setting → ℕ → List ℕ → World → Option (World × ℕ)
kernel_write e fd bytes w = do
  (s, r) ←
      do_call e 4 fd e.page (length bytes)
        (with_buffer e (place (λ q. w.caller.kernel.mem (e.page + q)) 0 bytes) w)
  some (
    record {
      caller = s;
      console = if (fd == 1) && not (r == minus_one) then w.console ++ bytes else w.console;
    },
    r,
  )

unfoldable pub kernel_open : Setting → Mem → World → World × ℕ
kernel_open e name w =
    let s = with_buffer e name w in
    let (s', r) = settled s (do_call e 5 e.page 0 0 s) in (record w { caller = s' }, r)

unfoldable pub kernel_close : Setting → ℕ → World → World × ℕ
kernel_close e fd w =
    let (s', r) = settled w.caller (do_call e 6 fd 0 0 w.caller) in (record w { caller = s' }, r)

unfoldable pub kernel_getargs : Setting → ℕ → Mem → World → Mem × World × ℕ
kernel_getargs e n buf w =
    let s = with_buffer e buf w in
    let (s', r) = settled s (do_call e 7 e.page n 0 s) in
    (in_page e s', record w { caller = s' }, r)

abbrev pub kernel_calls : Setting → Calls World
kernel_calls e = record {
  ece391_read = kernel_read e;
  ece391_write = kernel_write e;
  ece391_open = kernel_open e;
  ece391_close = kernel_close e;
  ece391_getargs = kernel_getargs e;
  ece391_execute = e.run_command;
}
