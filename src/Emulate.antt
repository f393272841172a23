-- ===== src/Emulate.antt =====
-- The system calls on Linux, syscalls/ece391emulate.c, of which fish/ has a copy. What the programs get from
-- Linux is a record of operations over the state `W` of everything outside of the process.
pub mod Arguments
pub mod Directory
mod Tests
use mpf_cker_os.Base.{
  ℕ, zero, suc, ◌+◌, ◌-◌, ◌*◌, ◌/◌, ◌%◌, ◌^◌, ◌≤◌, ◌<◌, min, bit_and, bit_or, ◌≡◌, refl, sym, ap,
  ap₂, ◌∙◌, subst, ◌≢◌, ◌↔◌, ◌⊎◌, inl, inr, Bool, true, false, not, ◌&&◌, ◌||◌, Option, none, some,
  List, [], ◌∷◌, ◌++◌, arith, ltb, leb, ◌==◌, if◌then◌else◌, ==_iff, Bool-cases, all_below,
  all_below_sound, u8, u16, u32, sub32, minus_one, is_negative, signed_ltb, Mem, update, inside,
  length, get_or, bytes_at, bytes_at-eq, place, ℕ_discrete, dec_lt, if_rule, some-inversion,
  Option-cases, IsBytes,
}
use mpf_cker_os.User.{ece391_strlen, ece391_strcpy, ece391_strcmp}
use mpf_cker_os.User.Calls.{text, ◌>>=◌}

-- how a child process ends
pub data Status : Type 0 where
  exited : ℕ → Status
  signalled : ℕ → Status

pub record Linux (W : Type 0) : Type 0 where
  -- `INT $0x80` for a read, a write, an open and a close
  pub read : ℕ → ℕ → ℕ → Mem → W → Mem × W × ℕ
  pub write : ℕ → ℕ → ℕ → Mem → W → W × ℕ
  pub open_file : Mem → ℕ → W → W × ℕ
  pub close : ℕ → W → W × ℕ
  -- "." and "/dev/null"; whether the directory could be opened, and the descriptor
  pub opendir : W → W × Bool
  pub open_null : W → W × ℕ
  pub readdir : W → W × Option (List ℕ)
  pub closedir : W → W
  -- `fork`, `execv` and `wait` for the arguments at the addresses
  pub run : Mem → List ℕ → W → W × Status

-- the static variables `dir`, NULL or not, and `dir_fd`
pub record Emulated (W : Type 0) : Type 0 where
  pub dir : Bool
  pub dir_fd : ℕ
  pub linux : W

-- the errors of Linux are -1
unfoldable pub checked : ℕ → ℕ
checked r = if ltb 0xffffc000 r then minus_one else r

-- the scans over a word and over spaces, on fuel
unfoldable pub skip_word : ℕ → Mem → ℕ → Option ℕ
skip_word zero m p = none
skip_word (suc f) m p =
    let rest = skip_word f m (p + 1) in
    if (m p == 0) || (m p == b' ') || (m p == b'\n') then some p else rest

unfoldable pub skip_blanks : ℕ → Mem → ℕ → Option ℕ
skip_blanks zero m p = none
skip_blanks (suc f) m p = let rest = skip_blanks f m (p + 1) in if m p == b' ' then rest else some p

-- the loop over the arguments, on fuel: the buffer and where they start
unfoldable pub parse_args : ℕ → ℕ → Mem → ℕ → Option (Mem × List ℕ)
parse_args zero g m p = none
parse_args (suc f) g m p = do
  start ← skip_blanks g m p
  let more = do
    stop ← skip_word g m start
    let ended = parse_args f g m stop
    let cut = parse_args f g (update m stop 0) (stop + 1)
    (m', args) ← if m stop == 0 then ended else cut
    some (m', start ∷ args)
  if (m start == 0) || (m start == b'\n') then some (update m start 0, []) else more

-- the command with "./" before it, cut at its spaces
unfoldable pub command_args : ℕ → ℕ → Mem → ℕ → ℕ → Option (Mem × List ℕ)
command_args f g m buf command = do
  copied ← ece391_strcpy g (update (update m buf b'.') (buf + 1) b'/') (buf + 2) command
  scan ← skip_word g copied (buf + 2)
  let more = parse_args f g (update copied scan 0) (scan + 1)
  (m', args) ← if copied scan == 0 then some (copied, []) else more
  some (m', buf ∷ args)

abbrev pub status_result : Status → ℕ
status_result (exited status) = status
status_result (signalled n) = if n == 9 then minus_one else 256

module _ {W : Type 0} (x : Linux W) where
  unfoldable pub ece391_execute : ℕ → ℕ → Mem → ℕ → ℕ → Emulated W → Option (Emulated W × ℕ)
  ece391_execute f g m buf command s = do
    n ← ece391_strlen g m command
    let ran = do
      (m', args) ← command_args f g m buf command
      let (w', ending) = x.run m' args s.linux
      some (record s { linux = w' }, status_result ending)
    if ltb 1023 n then some (s, minus_one) else ran

  unfoldable pub ece391_open : ℕ → Mem → ℕ → Emulated W → Option (Emulated W × ℕ)
  ece391_open g m filename s = do
    compared ← ece391_strcmp g m filename (text ".") 0
    let (w1, opened) = x.opendir s.linux
    let (w2, fd) = x.open_null w1
    let (w3, r) = x.open_file m filename s.linux
    let directory : Emulated W × ℕ = (record { dir = opened; dir_fd = fd; linux = w2 }, fd)
    let file : Emulated W × ℕ = (record s { linux = w3 }, checked r)
    some (if compared == 0 then directory else file)

  unfoldable pub ece391_write : ℕ → ℕ → ℕ → Mem → Emulated W → Emulated W × ℕ
  ece391_write fd buf nbytes m s =
      let (w', r) = x.write fd buf nbytes m s.linux in
      if not s.dir || not (s.dir_fd == fd)
      then (record s { linux = w' }, checked r)
      else (s, minus_one)

  unfoldable pub ece391_close : ℕ → Emulated W → Emulated W × ℕ
  ece391_close fd s =
      let (w', r) = x.close fd s.linux in
      let (w'', r'') = x.close s.dir_fd (x.closedir s.linux) in
      if not s.dir || not (s.dir_fd == fd)
      then (record s { linux = w' }, checked r)
      else (record { dir = false; dir_fd = minus_one; linux = w'' }, 0)

-- the loop of `ece391_getargs` over the arguments after the first one: memory and the result
unfoldable pub ece391_getargs : List (List ℕ) → ℕ → ℕ → Mem → Mem × ℕ
ece391_getargs [] buf nbytes m = if signed_ltb nbytes 1 then (m, minus_one) else (update m buf 0, 0)
ece391_getargs (a ∷ []) buf nbytes m =
    let m1 = update (place m buf a) (buf + length a) 0 in
    let left = sub32 nbytes (length a) in
    if signed_ltb nbytes (length a)
    then (m, minus_one)
    else if signed_ltb left 1
    then (m1, minus_one)
    else (update m1 (buf + length a) 0, 0)
ece391_getargs (a ∷ b ∷ args) buf nbytes m =
    let m1 = update (place m buf a) (buf + length a) 0 in
    let left = sub32 nbytes (length a) in
    let spaced = update m1 (buf + length a) b' ' in
    let rest = ece391_getargs (b ∷ args) (buf + length a + 1) (sub32 left 1) spaced in
    if signed_ltb nbytes (length a)
    then (m, minus_one)
    else if signed_ltb left 1
    then (m1, minus_one)
    else rest

-- the loop of `ece391_read` over the name of an entry, and the one that fills up with null bytes, on fuel
unfoldable pub pad_entry : ℕ → ℕ → ℕ → ℕ → Mem → Mem × ℕ
pad_entry zero buf nbytes copied m = (m, copied)
pad_entry (suc f) buf nbytes copied m =
    let rest = pad_entry f buf nbytes (copied + 1) (update m (buf + copied) 0) in
    if signed_ltb copied nbytes && ltb copied 32 then rest else (m, copied)

unfoldable pub copy_entry : List ℕ → ℕ → ℕ → ℕ → Mem → Mem × ℕ
copy_entry [] buf nbytes copied m = pad_entry 32 buf nbytes copied m
copy_entry (c ∷ name) buf nbytes copied m =
    let m' = update m (buf + copied) c in
    let rest = copy_entry name buf nbytes (copied + 1) m' in
    if copied + 1 == nbytes then (m', nbytes) else if copied + 1 == 32 then (m', 32) else rest

module _ {W : Type 0} (x : Linux W) where
  unfoldable pub ece391_read : ℕ → ℕ → ℕ → Mem → Emulated W → Mem × Emulated W × ℕ
  ece391_read fd buf nbytes m s =
      let (m1, w1, r) = x.read fd buf nbytes m s.linux in
      let (w2, entry) = x.readdir s.linux in
      let copied : Mem × ℕ = elim entry [
        | none ↦ (m, 0)
        | some name ↦ copy_entry name buf nbytes 0 m
      ] in
      if not s.dir || not (s.dir_fd == fd)
      then (m1, record s { linux = w1 }, checked r)
      else (copied.0, record s { linux = w2 }, copied.1)
