-- ===== src/Process/Slots.antt =====
-- Free processes and descriptors, student-distrib/pcb.c.
use mpf_cker_os.Base.{
  ℕ, zero, suc, ◌+◌, ◌≤◌, ◌<◌, ◌≡◌, refl, ◌⊎◌, inl, inr, Bool, true, false, ◌&&◌, arith, ◌==◌,
  if◌then◌else◌, Bool-cases, minus_one, ℕ_discrete,
}
use mpf_cker_os.Process.{
  Pcb, Pcbs, get_pid_from, get_pid, get_fd_from, get_fd_avail, remove_fd_entry,
}

-- `r` is the first free slot from `lo` up to `hi`, or -1 if there is none
pub record IsFirstFree (free : ℕ → Bool) (lo hi r : ℕ) : Type 0 where
  pub before : (j : ℕ) → lo ≤ j → j < hi → j < r → free j ≡ false
  pub found : (r ≡ minus_one) ⊎ ((lo ≤ r) × (r < hi) × (free r ≡ true))

-- the process `j` is free
abbrev pub pid_free : Pcbs → ℕ → Bool
pid_free p j = (p j).pcb_in_use == minus_one

-- the descriptor `j` is free
abbrev pub fd_free : Pcb → ℕ → Bool
fd_free b j = (b.fd_table j).present == minus_one

get_pid_from-IsFirstFree :
    (p : Pcbs) (i n hi : ℕ) → i + n ≡ hi → IsFirstFree (pid_free p) i hi (get_pid_from p i n).1
unfolding get_pid_from
get_pid_from-IsFirstFree p i zero hi e = record {
  before = λ j l h k. absurd (omega arith);
  found = inl refl;
}
get_pid_from-IsFirstFree p i (suc n) hi e =
    let rest = get_pid_from-IsFirstFree p (i + 1) n hi (omega arith) in
    elim (Bool-cases (pid_free p i)) [
      | inl yes_free ↦ record { before = λ j l h k. absurd (ground arith); found = ground arith }
      | inr taken ↦ record {
        before = λ j l h k. elim (ℕ_discrete j i) [
          | yes same ↦ rw same taken
          | no other ↦ rest.before j (omega arith) h (ground arith)
        ];
        found = ground (arith, rest.found);
      }
    ]

get_pid_from_table :
    (p : Pcbs) (i n j : ℕ)
    → j < 6
    → ((get_pid_from p i n).0 j).pcb_in_use
      ≡ (if j == (get_pid_from p i n).1 then 0 else (p j).pcb_in_use)
unfolding get_pid_from
get_pid_from_table p i zero j h = ground arith
get_pid_from_table p i (suc n) j h = ground (arith, get_pid_from_table p (i + 1) n j h)

-- `getPID` returns the first of the six processes that is free, or -1 if none is, and marks that one
-- alone as in use.
pub get_pid_lem :
    (p : Pcbs) (j : ℕ)
    → j < 6
    → IsFirstFree (pid_free p) 0 6 (get_pid p).1
      × (((get_pid p).0 j).pcb_in_use ≡ (if j == (get_pid p).1 then 0 else (p j).pcb_in_use))
unfolding get_pid
get_pid_lem p j h = (get_pid_from-IsFirstFree p 0 6 6 refl, get_pid_from_table p 0 6 j h)

get_fd_from-IsFirstFree :
    (b : Pcb) (i n hi : ℕ) → i + n ≡ hi → IsFirstFree (fd_free b) i hi (get_fd_from b i n).1
unfolding get_fd_from
get_fd_from-IsFirstFree b i zero hi e = record {
  before = λ j l h k. absurd (omega arith);
  found = inl refl;
}
get_fd_from-IsFirstFree b i (suc n) hi e =
    let rest = get_fd_from-IsFirstFree b (i + 1) n hi (omega arith) in
    elim (Bool-cases (fd_free b i)) [
      | inl yes_free ↦ record { before = λ j l h k. absurd (ground arith); found = ground arith }
      | inr taken ↦ record {
        before = λ j l h k. elim (ℕ_discrete j i) [
          | yes same ↦ rw same taken
          | no other ↦ rest.before j (omega arith) h (ground arith)
        ];
        found = ground (arith, rest.found);
      }
    ]

get_fd_from_table :
    (b : Pcb) (i n j : ℕ)
    → j < 8
    → (get_fd_from b i n).0.fd_table j
      ≡ (if j == (get_fd_from b i n).1 then record (b.fd_table j) { present = 0 } else b.fd_table j)
unfolding get_fd_from
get_fd_from_table b i zero j h = ground arith
get_fd_from_table b i (suc n) j h = ground (arith, get_fd_from_table b (i + 1) n j h)

-- `get_fdAvail` returns the first free descriptor from 2 to 7, or -1 if none is free, and marks that
-- one alone as in use: its other fields, and all the other descriptors, are as they were.
pub get_fd_avail_lem :
    (b : Pcb) (j : ℕ)
    → j < 8
    → IsFirstFree (fd_free b) 2 8 (get_fd_avail b).1
      × ((get_fd_avail b).0.fd_table j ≡ (
          if j == (get_fd_avail b).1 then record (b.fd_table j) { present = 0 } else b.fd_table j))
unfolding get_fd_avail
get_fd_avail_lem b j h = (get_fd_from-IsFirstFree b 2 6 8 refl, get_fd_from_table b 2 6 j h)

-- A descriptor in use is freed by `remove_fd_entry`, with 0; a free one is refused with -1. Nothing
-- but `present` of that descriptor is changed.
pub remove_fd_entry_lem :
    (b : Pcb) (fd j : ℕ)
    → let used = (b.fd_table fd).present == 0 in
      let (b', r) = remove_fd_entry b fd in
      (r ≡ (if used then 0 else minus_one))
      × (b'.fd_table j ≡ (
          if (j == fd) && used
          then record (b.fd_table j) { present = minus_one }
          else b.fd_table j))
unfolding remove_fd_entry
remove_fd_entry_lem b fd j = ground arith
