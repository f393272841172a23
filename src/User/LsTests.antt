-- ===== src/User/LsTests.antt =====
-- `ls` on a concrete kernel with three entries in its directory.
use mpf_cker_os.Base.{ℕ, zero, suc, ◌+◌, ◌<◌, ◌≡◌, refl, inl, inr, some, arith, Mem, place, IsBytes}
use mpf_cker_os.Filesys.{
  Filesys, Dentry, read_dentry_by_name, find_dentry, match_name, copy_dentry, dentry_addr,
}
use mpf_cker_os.Filesys.Image.{disk, disk_bytes, fs}
use mpf_cker_os.Filesys.Listing.{HasLength}
use mpf_cker_os.Process.{get_fd_avail, get_fd_from}
use mpf_cker_os.Strings.{codes}
use mpf_cker_os.Syscall.{Kernel}
use mpf_cker_os.User.Calls.{text}
use mpf_cker_os.User.Console.{console_drivers-IsConsole}
use mpf_cker_os.User.Kernel.{World, kernel_calls, with_buffer}
use mpf_cker_os.User.LsOpen.{ls-kernel_open}
use mpf_cker_os.User.OnDirectory.{IsDirectory}
use mpf_cker_os.User.Programs.{ls}
use mpf_cker_os.User.Sample.{process, start, no_drivers, drivers, setting, zeros}

-- the entries ".", "a" and "b"
abbrev three : Mem
three = place disk 4288 (codes "b")

abbrev index : Filesys
index = record fs { numdentries = 3 }

abbrev world : World
world = record start {
  caller = record start.caller { kernel = record start.caller.kernel { mem = three; fs = index } };
}

abbrev k : Kernel
k = (with_buffer setting (text ".") world).kernel

abbrev dot : Dentry
dot = copy_dentry k.mem 4160

finds_dot : read_dentry_by_name k.mem k.fs 0x100000 ≡ some dot
unfolding read_dentry_by_name find_dentry match_name
finds_dot = refl

three-HasLength : (j : ℕ) → j < 3 → HasLength (λ i. three (dentry_addr index j + i)) 1
three-HasLength zero h = record { short = omega arith; ends = refl; inner = λ i l. ground arith }
three-HasLength (suc zero) h = record {
  short = omega arith;
  ends = refl;
  inner = λ i l. ground arith;
}
three-HasLength (suc (suc zero)) h = record {
  short = omega arith;
  ends = refl;
  inner = λ i l. ground arith;
}
three-HasLength (suc (suc (suc j))) h = absurd (omega arith)

three-IsDirectory : IsDirectory three index (λ j. 1) 0x100000 3000
three-IsDirectory = record {
  most = omega arith;
  named = three-HasLength;
  some_bytes = λ j h. omega arith;
  below = omega arith;
  off_local = inl (omega arith);
  page_local = inr (omega arith);
  off_video = inl (omega arith);
  real = omega arith;
}

three-IsBytes : IsBytes three
three-IsBytes q = ground (arith, disk_bytes q)

room : (get_fd_avail process).1 ≡ 2
unfolding get_fd_avail get_fd_from
room = refl

-- of the two files the last one is not listed
ls-kernel_open_example :
    (w' : World) × (ls (kernel_calls setting) 3 zeros world ≡ some (w', 0))
    × (w'.console ≡ codes "a\n")
ls-kernel_open_example =
    ls-kernel_open setting drivers 4 3000 (λ j. 1) refl
      (console_drivers-IsConsole (λ k. 0) (λ k. 0) no_drivers (λ k. (omega arith, omega arith)))
      (omega arith) world dot three-IsDirectory (omega arith) three-IsBytes finds_dot
      (omega (arith, room)) refl 3 zeros (λ q. omega arith) (omega arith)
