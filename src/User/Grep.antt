-- ===== src/User/Grep.antt =====
-- The program syscalls/ece391grep.c. The line buffer is an array of its own, of which `last` bytes are in
-- use; `f` is fuel for the loops over reads and lines, and `g` for the loops over strings.
use mpf_cker_os.Base.{
  ℕ, zero, suc, ◌+◌, ◌-◌, Bool, true, false, not, ◌&&◌, Option, none, some, ltb, leb, ◌==◌,
  if◌then◌else◌, u32, minus_one, Mem, update,
}
use mpf_cker_os.User.{ece391_strlen, ece391_strcpy, ece391_strncmp}
use mpf_cker_os.User.Calls.{
  Calls, Next, again, exits, ◌>>=◌, text, ece391_fdputs, say, complain, stops, forever,
}

-- the loop that looks for the end of a line, with `left` rounds to go
unfoldable pub find_end : Mem → ℕ → ℕ → ℕ
find_end buf line_end zero = line_end
find_end buf line_end (suc left) =
    let rest = find_end buf (line_end + 1) left in if buf line_end == b'\n' then line_end else rest

-- The loop over the places of a line where the string may start, with `left` to go. The first byte of the
-- string is a signed character, and the one of the line is not: from 128 on they are never equal.
unfoldable pub finds : Mem → ℕ → Mem → ℕ → ℕ → Bool
finds s s_len buf check zero = false
finds s s_len buf check (suc left) =
    let rest = finds s s_len buf (check + 1) left in
    if ltb (s 0) 128 && (s 0 == buf check) && (ece391_strncmp buf check s 0 s_len == 0)
    then true
    else rest

module _ {W : Type 0} (c : Calls W) where
  -- a line with the string in it, after the name of the file
  unfoldable pub print_line : ℕ → Mem → Mem → ℕ → W → Option W
  print_line g fname buf line_start w = do
    w1 ← ece391_fdputs c g 1 fname 0 w
    w2 ← say c 1 ":" w1
    w3 ← ece391_fdputs c g 1 buf line_start w2
    say c 1 "\n" w3

  -- the search of a line that ends at `line_end`
  unfoldable pub search_line : ℕ → Mem → ℕ → Mem → Mem → ℕ → ℕ → W → Option W
  search_line g s s_len fname buf line_start line_end w =
      let found = print_line g fname buf line_start w in
      if finds s s_len buf line_start (line_end - line_start) then found else some w

  -- the loop over the lines of the buffer; the buffer and `last` afterwards
  unfoldable pub scan_lines : ℕ → ℕ → Mem → ℕ → Mem → ℕ → Mem → ℕ → ℕ → W → Option (Mem × ℕ × W)
  scan_lines zero g s s_len fname cnt buf last line_start w = none
  scan_lines (suc f) g s s_len fname cnt buf last line_start w =
      let line_end = find_end buf line_start (last - line_start) in
      let ended = update buf line_end 0 in
      let kept = (do
        moved ← ece391_strcpy g ended 0 line_start
        some (moved, last - line_start, w)) in
      let searched = (do
        w1 ← search_line g s s_len fname ended line_start line_end w
        if leb last (line_end + 1)
            then some (ended, 0, w1)
            else scan_lines f g s s_len fname cnt ended last (line_end + 1) w1) in
      if not (buf line_end == b'\n') && not (cnt == 0) && not (line_start == 0)
      then kept
      else searched

  -- what `do_one_file` has left when it gives up or has read the file
  unfoldable pub read_lines : ℕ → ℕ → Mem → ℕ → Mem → ℕ → Mem → ℕ → W → Option (W × ℕ)
  read_lines zero g s s_len fname fd buf last w = none
  read_lines (suc f) g s s_len fname fd buf last w = do
    (m, w1, cnt) ← c.ece391_read fd (1024 - last) (λ i. buf (last + i)) w
    if cnt == minus_one then complain c "file read failed\n" minus_one w1 else do
      let filled : Mem = λ q. if ltb q last then buf q else m (q - last)
      (buf', last', w2) ← scan_lines (suc f) g s s_len fname cnt filled (u32 (last + cnt)) 0 w1
      if cnt == 0 then some (w2, 0) else read_lines f g s s_len fname fd buf' last' w2

  unfoldable pub do_one_file : ℕ → ℕ → Mem → Mem → Mem → W → Option (W × ℕ)
  do_one_file f g s fname buf w = do
    s_len ← ece391_strlen g s 0
    let opened = c.ece391_open fname w
    if opened.1 == minus_one then complain c "file open failed\n" minus_one opened.0 else do
      (w1, r) ← read_lines f g s s_len fname opened.1 buf 0 opened.0
      let closed = c.ece391_close opened.1 w1
      if not (r == 0)
          then some (w1, r)
          else if closed.1 == minus_one
          then complain c "file close failed\n" minus_one closed.0
          else some (closed.0, 0)

  -- the loop of `grep` over the names of the directory
  unfoldable pub grep_round : ℕ → ℕ → Mem → Mem → ℕ → Mem → W → Option (Next W)
  grep_round f g search buf fd m w = do
    (m1, w1, cnt) ← c.ece391_read fd 32 m w
    if cnt == 0
        then some (exits 0 w1)
        else if cnt == minus_one
        then stops c (complain c "directory entry read failed\n" 3 w1)
        else if m1 0 == b'.'
        then some (again m1 w1)
        else do
          (w2, r) ← do_one_file f g search (update m1 cnt 0) buf w1
          some (if not (r == 0) then exits 3 w2 else again (update m1 cnt 0) w2)

  unfoldable pub grep : ℕ → ℕ → Mem → Mem → Mem → W → Option (W × ℕ)
  grep f g search buf name w =
      let (arg, w1, r) = c.ece391_getargs 1024 search w in
      let (w2, fd) = c.ece391_open (text ".") w1 in
      if not (r == 0)
      then complain c "could not read argument\n" 3 w1
      else if fd == minus_one
      then complain c "directory open failed\n" 2 w2
      else forever c f (grep_round f g arg buf fd) name w2
