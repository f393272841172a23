-- ===== src/Emulate/Tests.antt =====
-- The emulation on a concrete system.
use mpf_cker_os.Base.{
  ℕ, ◌+◌, ◌-◌, min, ◌≡◌, refl, true, none, some, List, [], ◌∷◌, arith, ◌==◌, if◌then◌else◌,
  minus_one, signed_ltb, Mem, inside, length, get_or, place,
}
use mpf_cker_os.Strings.{codes}
use mpf_cker_os.User.{ece391_strcpy, ece391_strcmp}
use mpf_cker_os.Emulate.{
  Linux, Emulated, exited, skip_word, skip_blanks, parse_args, command_args, ece391_getargs,
  ece391_read, ece391_close, ece391_open,
}
use mpf_cker_os.Emulate.Arguments.{joined, ece391_getargs_lem}
use mpf_cker_os.Emulate.Directory.{ece391_read_entry}

-- the names that are left of the directory
abbrev names : Linux (List (List ℕ))
names = record {
  read = λ fd buf n m w. (m, w, 0);
  write = λ fd buf n m w. (w, n);
  open_file = λ m p w. (w, 4);
  close = λ fd w. (w, 0);
  opendir = λ w. (w, true);
  open_null = λ w. (w, 3);
  readdir = λ w. (elim w [ [] ↦ ([], none) | n ∷ ns ↦ (ns, some n) ]);
  closedir = λ w. [];
  run = λ m args w. (w, exited (length args));
}

abbrev open_dir : Emulated (List (List ℕ))
open_dir = record { dir = true; dir_fd = 3; linux = codes "fish" ∷ codes "ls" ∷ [] }

abbrev zeros : Mem
zeros q = 0

ece391_read_entry_example :
    let (m', s', r) = ece391_read names 3 100 minus_one zeros open_dir in
    let n = if signed_ltb 0 minus_one then min minus_one 32 else min (length (codes "fish")) 32 in
    (r ≡ n)
    × (m' 101 ≡ (if inside 100 n 101 then get_or (codes "fish") (101 - 100) 0 else 0))
    × (s'.linux ≡ codes "ls" ∷ [])
ece391_read_entry_example =
    ece391_read_entry names open_dir 3 100 minus_one 101 zeros (codes "ls" ∷ []) (codes "fish") refl
      refl refl (omega arith)

ece391_getargs_lem_example :
    let (m', r) = ece391_getargs (codes "-n" ∷ codes "fish" ∷ []) 100 32 zeros in
    let l = joined (codes "-n" ∷ codes "fish" ∷ []) in
    (r ≡ (if signed_ltb (length l) 32 then 0 else minus_one))
    × (signed_ltb (length l) 32 ≡ true
        → m' 104 ≡ (
            if inside 100 (length l) 104
            then get_or l (104 - 100) 0
            else if 104 == 100 + length l
            then 0
            else 0))
ece391_getargs_lem_example =
    ece391_getargs_lem (codes "-n" ∷ codes "fish" ∷ []) 100 32 104 zeros (omega arith) (omega arith)

-- a command with two arguments and spaces after them
command_runs :
    (m' : Mem) × (command_args 9 20 (place zeros 500 (codes "cat  a b \n")) 100 500
      ≡ some (m', 100 ∷ 107 ∷ 109 ∷ []))
    × (m' 105 ≡ 0)
    × (m' 108 ≡ 0)
unfolding command_args ece391_strcpy skip_word skip_blanks parse_args
command_runs = (_, refl, refl, refl)

-- an end of line after the name is not the end of the command: what follows it is taken for arguments
after_line_end :
    (m' : Mem) × (command_args 9 20 (place zeros 500 (codes "a\nb")) 100 500
      ≡ some (m', 100 ∷ 104 ∷ []))
unfolding command_args ece391_strcpy skip_word skip_blanks parse_args
after_line_end = (_, refl)

open_runs :
    (s' : Emulated (List (List ℕ))) × (ece391_open names 3 (place zeros 7 (codes ".")) 7 open_dir
      ≡ some (s', 3))
unfolding ece391_open ece391_strcmp
open_runs = (_, refl)

close_runs : (ece391_close names 3 open_dir).1 ≡ 0
unfolding ece391_close
close_runs = refl
