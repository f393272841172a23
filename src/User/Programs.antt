-- ===== src/User/Programs.antt =====
-- The user programs of syscalls/: ece391hello.c, ece391testprint.c, ece391cat.c, ece391ls.c, ece391shell.c and
-- ece391counter.c, each up to its status, with fuel for its loop and for the strings in its buffer. Local
-- buffers are memories from 0 on, so that a write out of their bounds goes to a cell of its own.
use mpf_cker_os.Base.{
  ℕ, zero, suc, ◌+◌, ◌-◌, not, ◌&&◌, ◌||◌, Option, some, ltb, ◌==◌, if◌then◌else◌, u32, minus_one,
  signed_ltb, Mem, update, bytes_at,
}
use mpf_cker_os.User.{ece391_strlen, ece391_strcmp, ece391_itoa}
use mpf_cker_os.User.Calls.{
  Calls, Next, again, exits, ◌>>=◌, text, ece391_fdputs, say, complain, stops, forever,
}

-- the line without its end, as a string
unfoldable pub end_command : Mem → ℕ → Mem
end_command m cnt =
    let ended = signed_ltb 0 cnt && (m (cnt - 1) == b'\n') in
    update m (if ended then cnt - 1 else cnt) 0

-- how far `counter` counts for the first character of the answer
unfoldable pub count_limit : ℕ → ℕ
count_limit choice =
    if choice == b'0'
    then 100
    else if choice == b'1'
    then 10000
    else if choice == b'2'
    then 100000
    else 0

module _ {W : Type 0} (c : Calls W) where
  unfoldable pub testprint : W → Option (W × ℕ)
  testprint w = complain c "Hello, if this ran, the program was correct. Yay!\n" 0 w

  unfoldable pub hello : ℕ → Mem → W → Option (W × ℕ)
  hello f buf w = do
    w1 ← say c 1 "Hi, what's your name? " w
    (m, w2, cnt) ← c.ece391_read 0 1023 buf w1
    if cnt == minus_one then complain c "Can't read name from keyboard.\n" 3 w2 else do
      w3 ← say c 1 "Hello, " w2
      w4 ← ece391_fdputs c f 1 (update m cnt 0) 0 w3
      some (w4, 0)

  -- the loop of `cat`
  unfoldable pub cat_round : ℕ → Mem → W → Option (Next W)
  cat_round fd m w = do
    (m1, w1, cnt) ← c.ece391_read fd 1024 m w
    if cnt == 0
        then some (exits 0 w1)
        else if cnt == minus_one
        then stops c (complain c "file read failed\n" 3 w1)
        else do
          (w2, r) ← c.ece391_write 1 (bytes_at m1 0 cnt) w1
          some (if r == minus_one then exits 3 w2 else again m1 w2)

  unfoldable pub cat : ℕ → Mem → W → Option (W × ℕ)
  cat f buf w =
      let (m, w1, r) = c.ece391_getargs 1024 buf w in
      let (w2, fd) = c.ece391_open m w1 in
      if not (r == 0)
      then complain c "could not read arguments\n" 3 w1
      else if fd == minus_one
      then complain c "file not found\n" 2 w2
      else forever c f (cat_round fd) m w2

  -- the loop of `ls`
  unfoldable pub ls_round : ℕ → Mem → W → Option (Next W)
  ls_round fd m w = do
    (m1, w1, cnt) ← c.ece391_read fd 32 m w
    if cnt == 0
        then some (exits 0 w1)
        else if cnt == minus_one
        then stops c (complain c "directory entry read failed\n" 3 w1)
        else do
          (w2, r) ← c.ece391_write 1 (bytes_at (update m1 cnt b'\n') 0 (u32 (cnt + 1))) w1
          some (if r == minus_one then exits 3 w2 else again (update m1 cnt b'\n') w2)

  unfoldable pub ls : ℕ → Mem → W → Option (W × ℕ)
  ls f buf w =
      let (w1, fd) = c.ece391_open (text ".") w in
      if fd == minus_one
      then complain c "directory open failed\n" 2 w1
      else forever c f (ls_round fd) buf w1

  -- what the shell says of the status of a command
  unfoldable pub report : ℕ → W → Option W
  report rval w =
      if rval == minus_one
      then say c 1 "no such command\n" w
      else if rval == 256
      then say c 1 "program terminated by exception\n" w
      else if not (rval == 0)
      then say c 1 "program terminated abnormally\n" w
      else some w

  -- what the shell does with a line; `g` is the fuel of `ece391_strcmp`
  unfoldable pub run_line : ℕ → Mem → W → Option (Next W)
  run_line g line w = do
    cmp ← ece391_strcmp g line 0 (text "exit") 0
    if cmp == 0
        then some (exits 0 w)
        else if line 0 == 0
        then some (again line w)
        else do (w1, rval) ← c.ece391_execute line w; w2 ← report rval w1; some (again line w2)

  -- the loop of the shell
  unfoldable pub shell_round : ℕ → Mem → W → Option (Next W)
  shell_round g m w = do
    w1 ← say c 1 "391OS> " w
    (m1, w2, cnt) ← c.ece391_read 0 1023 m w1
    if cnt == minus_one
        then stops c (complain c "read from keyboard failed\n" 3 w2)
        else run_line g (end_command m1 cnt) w2

  unfoldable pub shell : ℕ → ℕ → Mem → W → Option (W × ℕ)
  shell f g buf w = do w1 ← say c 1 "Starting 391 Shell\n" w; forever c f (shell_round g) buf w1

  -- the loop of `counter`, with `left` rounds to go after `i`
  unfoldable pub count_from : ℕ → Mem → ℕ → ℕ → W → Option W
  count_from f buf i zero w = some w
  count_from f buf i (suc left) w = do
    m ← ece391_itoa f buf (i + 1) 0 10
    w1 ← ece391_fdputs c f 1 m 0 w
    w2 ← say c 1 "\n" w1
    count_from f m (i + 1) left w2

  unfoldable pub counter : ℕ → Mem → W → Option (W × ℕ)
  counter f buf w = do
    w1 ← say c 1 "Enter the Test Number: (0): 100, (1): 10000, (2): 100000\n" w
    (m1, w2, cnt) ← c.ece391_read 0 1023 buf w1
    if cnt == minus_one then complain c "Can't read the number from keyboard.\n" 3 w2 else do
      let m = update m1 cnt 0
      n ← ece391_strlen f m 0
      if ltb 2 n || ((n == 2) && (ltb (m 0) b'0' || ltb b'2' (m 0)))
          then complain c "Wrong Choice!\n" 0 w2
          else do w3 ← count_from f m 0 (count_limit (m 0)) w2; some (w3, 0)
