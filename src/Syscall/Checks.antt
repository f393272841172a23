-- ===== src/Syscall/Checks.antt =====
-- Which arguments the system calls refuse, student-distrib/syscall.c.
use mpf_cker_os.Base.{
  ℕ, ◌+◌, ◌*◌, ◌/◌, ◌%◌, ◌^◌, ◌≤◌, ◌<◌, bit_or, ◌≡◌, ◌≢◌, ◌↔◌, ◌⊎◌, true, ◌&&◌, ◌||◌, some, arith,
  leb, ◌==◌, if◌then◌else◌, minus_one, Mem, inside,
}
use mpf_cker_os.Filesys.{load32}
use mpf_cker_os.Paging.{Paging, vid_map}
use mpf_cker_os.Paging.Walk.{vid_map_lem}
use mpf_cker_os.Syscall.{Kernel, Drivers, sys_read, sys_write, sys_vidmap, current_entry}

-- Reads take the descriptors 0 and 2 to 5, writes 1 to 5; any other one, a null buffer, or a
-- descriptor from 2 on while the last opened one is not in use, is refused with -1 and no change.
pub sys_read_refused :
    (d : Drivers) (fd buf nbytes : ℕ) (k : Kernel)
    → ((fd == 1)
        || leb 6 fd
        || (buf == 0)
        || (leb 2 fd && (((current_entry k).present == minus_one) || (k.curr_fd == minus_one))))
      ≡ true
    → sys_read d fd buf nbytes k ≡ some (k, minus_one)
unfolding sys_read
sys_read_refused d fd buf nbytes k h = ground arith

pub sys_write_refused :
    (d : Drivers) (fd buf nbytes : ℕ) (k : Kernel)
    → ((fd == 0)
        || leb 6 fd
        || (buf == 0)
        || (leb 2 fd && (((current_entry k).present == minus_one) || (k.curr_fd == minus_one))))
      ≡ true
    → sys_write d fd buf nbytes k ≡ some (k, minus_one)
unfolding sys_write
sys_write_refused d fd buf nbytes k h = ground arith

-- the entry of the table of the user's video pages that an address of the 4 MB of that table goes through
abbrev pub user_entry : Paging → ℕ → ℕ
user_entry paging a = paging.user_video_page_table (a / 4096 % 1024)

-- `sys_vidmap`, of a terminal below 3, gives 0 exactly for a pointer that is neither null nor in the page
-- of the kernel from 4 MB to 8 MB. The address that it then stores at the pointer goes through the
-- directory entry of the table of the user's video pages and through the entry of the terminal there, to the
-- start of video memory, in a page that is present and that the user may use; the entries of the other terminals
-- and of the directory, and the bytes beside the four of the pointer, stay. Otherwise it gives -1
-- and changes nothing.
pub sys_vidmap_lem :
    (table terminal p j q : ℕ) (m : Mem) (paging : Paging)
    → terminal < 3
    → let (paging', m', r) = sys_vidmap table terminal p m paging in
      let a = load32 m' p in
      ((r ≡ 0) ↔ ((p ≢ 0) × ((p < 4 * 2 ^ 20) ⊎ (8 * 2 ^ 20 ≤ p))))
      × (r ≡ 0
          → (paging'.page_directory (a / 4194304) ≡ bit_or table 7)
            × (a / 4096 % 1024 ≡ terminal)
            × (user_entry paging' a / 4096 * 4096 + a % 4096 ≡ 0xb8000)
            × (user_entry paging' a % 8 ≡ 7)
            × (paging'.user_video_page_table j
                ≡ (if j == terminal then 0xb8007 else paging.user_video_page_table j))
            × (paging'.page_directory j
                ≡ (if j == a / 4194304 then bit_or table 7 else paging.page_directory j))
            × (m' q ≡ (if inside p 4 q then m' q else m q)))
      × (r ≢ 0 → (r ≡ minus_one) × (paging' ≡ paging) × (m' ≡ m))
unfolding sys_vidmap vid_map
sys_vidmap_lem table terminal p j q m paging t =
    let stored : load32 (vid_map table terminal p m paging).1 p ≡ 138412032 + terminal * 4096 =
      (vid_map_lem table terminal p j m paging t).0 in
    (
      ground arith,
      λ z. (
        ground (arith, stored, z),
        ground (arith, stored, z),
        ground (arith, stored, z),
        ground (arith, stored, z),
        ground (arith, stored, z),
        ground (arith, stored, z),
        ground (arith, z),
      ),
      λ z. (ground (arith, z), ground (arith, z), ground (arith, z)),
    )
