-- ===== src/Paging/Walk.antt =====
-- What the tables of student-distrib/paging.c translate an address to.
use mpf_cker_os.Base.{
  ℕ, zero, suc, ◌+◌, ◌*◌, ◌/◌, ◌%◌, ◌<◌, bit_or, ◌≡◌, refl, ◌≢◌, ◌⊎◌, true, ◌&&◌, arith, ltb, ◌==◌,
  if◌then◌else◌, ==_iff, all_below, all_below_sound, Mem, update, inside,
}
use mpf_cker_os.Filesys.{load32}
use mpf_cker_os.Paging.{
  Paging, fill_tables, set_flags, init_paging, map_page, map_video_page, vid_map,
}

abbrev pub present : ℕ → ℕ
present w = w % 2

-- the page of 4 KB that an entry points to
abbrev pub frame : ℕ → ℕ
frame w = w / 4096

fill_tables_lem :
    (p : Paging) (i n j : ℕ)
    → let q = fill_tables p i n in
      (q.page_directory j ≡ (if inside i n j then 2 else p.page_directory j))
      × (q.page_table j ≡ (if inside i n j then bit_or (j * 4096) 2 else p.page_table j))
unfolding fill_tables
fill_tables_lem p i zero j = ground arith
fill_tables_lem p i (suc n) j = ground (
  arith,
  fill_tables_lem
      (record p {
        page_directory = update p.page_directory i 2;
        page_table = update p.page_table i (bit_or (i * 4096) 2);
      })
      (i + 1) n j,
)

entry_table :
    all_below 1024 (λ j.
      (bit_or (j * 4096) 2 == j * 4096 + 2)
      && ((bit_or (j * 4096 + 2) 3 == j * 4096 + 3) && (bit_or (j * 4096 + 2) 7 == j * 4096 + 7)))
    ≡ true
unfolding all_below
entry_table = refl

entry_lem :
    (j : ℕ)
    → j < 1024
    → (bit_or (j * 4096) 2 ≡ j * 4096 + 2)
      × (bit_or (j * 4096 + 2) 3 ≡ j * 4096 + 3)
      × (bit_or (j * 4096 + 2) 7 ≡ j * 4096 + 7)
entry_lem j h = ground (arith, all_below_sound 1024 _ j entry_table h)

-- `init_paging` maps each of the first 1024 pages to itself; of these exactly the four pages of video
-- memory from 0xb8 on are present, the last three for the user too. The directory has the table at 0,
-- the 4 MB page of the kernel at 1, and nothing else present.
pub init_paging_lem :
    (directory_addr table_addr : ℕ) (p : Paging) (j : ℕ)
    → j < 1024
    → let q = init_paging directory_addr table_addr p in
      (frame (q.page_table j) ≡ j)
      × (present (q.page_table j) ≡ (if inside 0xb8 4 j then 1 else 0))
      × (q.page_table j % 8 / 4 ≡ (if inside 0xb9 3 j then 1 else 0))
      × (q.page_directory 0 ≡ bit_or table_addr 3)
      × (q.page_directory 1 ≡ 0x400083)
      × (present (q.page_directory (j + 2))
          ≡ (if ltb j 1022 then 0 else present (p.page_directory (j + 2))))
unfolding init_paging set_flags
init_paging_lem d t p j h =
    ground (arith, fill_tables_lem p 0 1024 j, fill_tables_lem p 0 1024 (j + 2), entry_lem j h)

-- the physical address of a virtual one that a 4 MB page maps
abbrev pub translate_big : Paging → ℕ → ℕ
translate_big p a = p.page_directory (a / 4194304) / 4194304 * 4194304 + a % 4194304

program_table :
    all_below 6 (λ pid. bit_or ((pid + 2) * 4194304) 0x87 == (pid + 2) * 4194304 + 0x87) ≡ true
unfolding all_below
program_table = refl

-- Mapping the program page of process `pid` sends the 4 MB at 0x8000000 to the process's own 4 MB of
-- memory, above the kernel's page and apart from those of the other processes; the page is present,
-- and no other directory entry is changed.
pub map_page_program :
    (pid off j : ℕ) (p : Paging)
    → pid < 6
    → off < 4194304
    → let q = map_page ((pid + 2) * 4194304) 0x8000000 0x87 p in
      (translate_big q (0x8000000 + off) ≡ (pid + 2) * 4194304 + off)
      × (present (q.page_directory 32) ≡ 1)
      × (q.page_directory j ≡ (if j == 32 then (pid + 2) * 4194304 + 0x87 else p.page_directory j))
unfolding map_page
map_page_program pid off j p h k =
    ground (arith, (==_iff _ _).0 (all_below_sound 6 _ pid program_table h))

-- An address that is not on a page boundary is refused, and nothing changes.
pub map_page_unaligned :
    (physaddr virtualaddr flags : ℕ) (p : Paging)
    → (physaddr % 4096 ≢ 0) ⊎ (virtualaddr % 4096 ≢ 0)
    → map_page physaddr virtualaddr flags p ≡ p
unfolding map_page
map_page_unaligned physaddr virtualaddr flags p h = ground arith

video_table : all_below 4 (λ t. bit_or ((0xb8 + t) * 4096) 3 == (0xb8 + t) * 4096 + 3) ≡ true
unfolding all_below
video_table = refl

-- `map_video_page` sends the kernel's video page to the screen or to one of the three buffers after
-- it, and leaves the other pages and the directory alone.
pub map_video_page_lem :
    (t j : ℕ) (p : Paging)
    → t < 4
    → let q = map_video_page t p in
      (frame (q.page_table 0xb8) ≡ 0xb8 + t)
      × (present (q.page_table 0xb8) ≡ 1)
      × (q.page_table j ≡ (if j == 0xb8 then (0xb8 + t) * 4096 + 3 else p.page_table j))
      × (q.page_directory j ≡ p.page_directory j)
unfolding map_video_page
map_video_page_lem t j p h = ground (arith, (==_iff _ _).0 (all_below_sound 4 _ t video_table h))

-- `vid_map` gives the user the address of the page of its terminal, and maps that page to the screen
-- itself, whichever terminal is on view; the pages of the other terminals stay as they are.
pub vid_map_lem :
    (table_addr t screen_start j : ℕ) (m : Mem) (p : Paging)
    → t < 3
    → let (q, m') = vid_map table_addr t screen_start m p in
      (load32 m' screen_start ≡ 138412032 + t * 4096)
      × (q.page_directory 33 ≡ bit_or table_addr 7)
      × (q.user_video_page_table j ≡ (if j == t then 0xb8007 else p.user_video_page_table j))
unfolding vid_map
vid_map_lem table_addr t screen_start j m p h = ground arith
