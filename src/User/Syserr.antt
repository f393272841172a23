-- ===== src/User/Syserr.antt =====
-- The tests of syscalls/ece391syserr.c. The buffer of a test is not initialised, so it is a parameter; a test
-- gives the sum of its failures, 0 when it passes.
use mpf_cker_os.Base.{
  ℕ, zero, suc, ◌+◌, Option, some, ◌==◌, if◌then◌else◌, minus_one, Mem, bytes_at,
}
use Prim.Native.String.{String}
use mpf_cker_os.User.Calls.{Calls, text, say, ◌>>=◌}

-- the calls of syscalls/ece391syscall.S with those of this program beside them
pub record AllCalls (W : Type 0) : Type 0 where
  pub calls : Calls W
  pub ece391_vidmap : ℕ → W → W × ℕ
  -- a call by its number alone
  pub call_sys : ℕ → W → Option (W × ℕ)

abbrev pub big_fd : ℕ
big_fd = 1073741823

-- -1073741823
abbrev pub neg_fd : ℕ
neg_fd = 3221225473

module _ {W : Type 0} (c : AllCalls W) where
  -- `if (-1 != r) { fail = 2; ece391_fdputs(1, s); }`
  unfoldable pub expect_refused : String → ℕ → ℕ → W → Option (W × ℕ)
  expect_refused s fail r w =
      let complained = (do w' ← say c.calls 1 s w; some (w', 2)) in
      if r == minus_one then some (w, fail) else complained

  -- the message at the end of a test
  unfoldable pub verdict : String → String → ℕ → W → Option (W × ℕ)
  verdict passed failed fail w =
      let good = (do w' ← say c.calls 1 passed w; some (w', fail)) in
      let bad = (do w' ← say c.calls 1 failed w; some (w', fail)) in if fail == 0 then good else bad

  unfoldable pub refuse_read : ℕ → String → ℕ → Mem → W → Option (Mem × W × ℕ)
  refuse_read fd s fail buf w = do
    (buf', w1, r) ← c.calls.ece391_read fd 31 buf w
    (w2, fail') ← expect_refused s fail r w1
    some (buf', w2, fail')

  unfoldable pub refuse_write : ℕ → String → ℕ → Mem → W → Option (W × ℕ)
  refuse_write fd s fail buf w = do
    (w1, r) ← c.calls.ece391_write fd (bytes_at buf 0 31) w
    expect_refused s fail r w1

  unfoldable pub refuse_close : ℕ → String → ℕ → W → Option (W × ℕ)
  refuse_close fd s fail w = let (w', r) = c.calls.ece391_close fd w in expect_refused s fail r w'

  -- what `err_neg_fd` and `err_big_fd` have in common
  unfoldable pub err_fd : ℕ → String → String → Mem → W → Option (W × ℕ)
  err_fd fd passed failed buf w = do
    (buf', w1, fail1) ← refuse_read fd "read fail\n" 0 buf w
    (w2, fail2) ← refuse_write fd "write fail\n" fail1 buf' w1
    (w3, fail3) ← refuse_close fd "close fail\n" fail2 w2
    verdict passed failed fail3 w3

  unfoldable pub err_neg_fd : Mem → W → Option (W × ℕ)
  err_neg_fd buf w = err_fd neg_fd "err_neg_fd: PASS\n" "err_neg_fd: FAIL\n" buf w

  unfoldable pub err_big_fd : Mem → W → Option (W × ℕ)
  err_big_fd buf w = err_fd big_fd "err_big_fd: PASS\n" "err_big_fd: FAIL\n" buf w

  -- the loop that opens ".", with `left` rounds to go, and the count of those that fail
  unfoldable pub open_lots : ℕ → ℕ → W → W × ℕ
  open_lots zero cnt w = (w, cnt)
  open_lots (suc left) cnt w =
      let (w', r) = c.calls.ece391_open (text ".") w in
      open_lots left (if r == minus_one then cnt + 1 else cnt) w'

  unfoldable pub close_all : ℕ → ℕ → W → W
  close_all i zero w = w
  close_all i (suc left) w = let (w', r) = c.calls.ece391_close i w in close_all (i + 1) left w'

  unfoldable pub err_open_lots : W → Option (W × ℕ)
  err_open_lots w =
      let (w1, cnt) = open_lots 7 0 w in
      let w2 = close_all 2 6 w1 in
      let passed = (do w' ← say c.calls 1 "err_open_lots: PASS\n" w2; some (w', 0)) in
      let failed = (do w' ← say c.calls 1 "err_open_lots: FAIL\n" w2; some (w', 2)) in
      if cnt == 1 then passed else failed

  unfoldable pub refuse_open : String → String → ℕ → W → Option (W × ℕ)
  refuse_open name s fail w =
      let (w', r) = c.calls.ece391_open (text name) w in expect_refused s fail r w'

  unfoldable pub err_open : W → Option (W × ℕ)
  err_open w = do
    (w1, fail1) ← refuse_open "helloo" "'helloo' fail\n" 0 w
    (w2, fail2) ← refuse_open "shel" "'shel' fail\n" fail1 w1
    (w3, fail3) ← refuse_open "" "empty string fail\n" fail2 w2
    verdict "err_open: PASS\n" "err_open: FAIL\n" fail3 w3

  -- the three loops of `err_unopened`, from descriptor `i` with `left` to go
  unfoldable pub close_unopened : ℕ → ℕ → ℕ → W → Option (W × ℕ)
  close_unopened i zero fail w = some (w, fail)
  close_unopened i (suc left) fail w = do
    (w', fail') ← refuse_close i "close unopened or invalid fd fail\n" fail w
    close_unopened (i + 1) left fail' w'

  unfoldable pub read_unopened : ℕ → ℕ → ℕ → Mem → W → Option (Mem × W × ℕ)
  read_unopened i zero fail buf w = some (buf, w, fail)
  read_unopened i (suc left) fail buf w = do
    (buf', w', fail') ← refuse_read i "read from unopened fd fail\n" fail buf w
    read_unopened (i + 1) left fail' buf' w'

  unfoldable pub write_unopened : ℕ → ℕ → ℕ → Mem → W → Option (W × ℕ)
  write_unopened i zero fail buf w = some (w, fail)
  write_unopened i (suc left) fail buf w = do
    (w', fail') ← refuse_write i "write to unopened fd fail\n" fail buf w
    write_unopened (i + 1) left fail' buf w'

  unfoldable pub err_unopened : Mem → W → Option (W × ℕ)
  err_unopened buf w = do
    (w1, fail1) ← close_unopened 0 8 0 w
    (buf', w2, fail2) ← read_unopened 2 6 fail1 buf w1
    (w3, fail3) ← write_unopened 2 6 fail2 buf' w2
    verdict "err_unopened: PASS\n" "err_unopened: FAIL\n" fail3 w3

  unfoldable pub refuse_vidmap : ℕ → String → ℕ → W → Option (W × ℕ)
  refuse_vidmap p s fail w = let (w', r) = c.ece391_vidmap p w in expect_refused s fail r w'

  unfoldable pub err_vidmap : W → Option (W × ℕ)
  err_vidmap w = do
    (w1, fail1) ← refuse_vidmap 0 "Null pointer fail\n" 0 w
    (w2, fail2) ← refuse_vidmap 0x400000 "Kernel pointer fail fail\n" fail1 w1
    verdict "err_vidmap: PASS\n" "err_vidmap: FAIL\n" fail2 w2

  unfoldable pub err_stdin_out : Mem → W → Option (W × ℕ)
  err_stdin_out buf w = do
    (w1, fail1) ← refuse_write 0 "write to stdin fail\n" 0 buf w
    (buf', w2, fail2) ← refuse_read 1 "read from stdout fail\n" fail1 buf w1
    verdict "err_stdin_out: PASS\n" "err_stdin_out: FAIL\n" fail2 w2

  unfoldable pub refuse_sys : ℕ → String → ℕ → W → Option (W × ℕ)
  refuse_sys num s fail w = do (w', r) ← c.call_sys num w; expect_refused s fail r w'

  unfoldable pub err_syscall_num : W → Option (W × ℕ)
  err_syscall_num w = do
    (w1, fail1) ← refuse_sys big_fd "syscall 0 fail\n" 0 w
    (w2, fail2) ← refuse_sys neg_fd "big num syscall fail\n" fail1 w1
    (w3, fail3) ← refuse_sys 0 "neg num syscall fail\n" fail2 w2
    verdict "err_syscall_num: PASS\n" "err_syscall_num: FAIL\n" fail3 w3

  -- `case 0` of the switch in `main`
  unfoldable pub err_all : Mem → W → Option (W × ℕ)
  err_all buf w = do
    (w1, fail1) ← err_neg_fd buf w
    (w2, fail2) ← err_big_fd buf w1
    (w3, fail3) ← err_open_lots w2
    (w4, fail4) ← err_open w3
    (w5, fail5) ← err_unopened buf w4
    (w6, fail6) ← err_vidmap w5
    (w7, fail7) ← err_stdin_out buf w6
    (w8, fail8) ← err_syscall_num w7
    verdict "\nOverall Tests: PASS\n" "\nOverall Tests: FAIL\n"
        (fail1 + fail2 + fail3 + fail4 + fail5 + fail6 + fail7 + fail8) w8

  abbrev pub prompt : String
  prompt = "Choose from tests 1-8. 0 to run all: "

  unfoldable pub run_test : ℕ → Mem → W → Option (W × ℕ)
  run_test select buf w =
      let all = err_all buf w in
      let one = err_neg_fd buf w in
      let two = err_big_fd buf w in
      let three = err_open_lots w in
      let four = err_open w in
      let five = err_unopened buf w in
      let six = err_vidmap w in
      let seven = err_stdin_out buf w in
      let eight = err_syscall_num w in
      let invalid = (do
        w' ← say c.calls 1 "Invalid test number. Choose from tests 1-8 or 0" w
        some (w', 0)) in
      if select == b'0'
      then all
      else if select == b'1'
      then one
      else if select == b'2'
      then two
      else if select == b'3'
      then three
      else if select == b'4'
      then four
      else if select == b'5'
      then five
      else if select == b'6'
      then six
      else if select == b'7'
      then seven
      else if select == b'8'
      then eight
      else invalid

  -- `main`, with the buffers of the tests and of the answer
  unfoldable pub syserr : Mem → Mem → W → Option (W × ℕ)
  syserr buf answer w = do
    w1 ← say c.calls 1 prompt w
    (answer', w2, cnt) ← c.calls.ece391_read 0 127 answer w1
    let unread = (do w' ← say c.calls 1 "Can't read test #\n" w2; some (w', 2))
    if cnt == minus_one then unread else run_test (answer' 0) buf w2
