-- ===== src/Paging/Tests.antt =====
-- Concrete page tables.
use mpf_cker_os.Base.{◌/◌, ◌%◌, ◌≡◌, arith}
use mpf_cker_os.Filesys.{load32}
use mpf_cker_os.Paging.{Paging, init_paging, map_page, map_video_page, vid_map}
use mpf_cker_os.Paging.Walk.{
  init_paging_lem, map_page_program, map_video_page_lem, vid_map_lem, frame, present, translate_big,
}

abbrev blank : Paging
blank = record {
  page_directory = λ i. 0;
  page_table = λ i. 0;
  user_video_page_table = λ i. 0;
  cr3 = 0;
  flushes = 0;
  screen_starts = λ i. 0;
}

init_paging_lem_example :
    let q = init_paging 0x500000 0x501000 blank in
    (frame (q.page_table 0xba) ≡ 0xba)
    × (present (q.page_table 0xba) ≡ 1)
    × (q.page_table 0xba % 8 / 4 ≡ 1)
    × (q.page_directory 0 ≡ 0x501003)
    × (q.page_directory 1 ≡ 0x400083)
    × (present (q.page_directory 0xbc) ≡ 0)
init_paging_lem_example = init_paging_lem 0x500000 0x501000 blank 0xba (omega arith)

map_page_program_example :
    let q = map_page 0xc00000 0x8000000 0x87 blank in
    (translate_big q 0x8048000 ≡ 0xc48000)
    × (present (q.page_directory 32) ≡ 1)
    × (q.page_directory 1 ≡ 0)
map_page_program_example = map_page_program 1 0x48000 1 blank (omega arith) (omega arith)

map_video_page_lem_example :
    let q = map_video_page 2 blank in
    (frame (q.page_table 0xb8) ≡ 0xba)
    × (present (q.page_table 0xb8) ≡ 1)
    × (q.page_table 7 ≡ 0)
    × (q.page_directory 7 ≡ 0)
map_video_page_lem_example = map_video_page_lem 2 7 blank (omega arith)

vid_map_lem_example :
    let (q, m') = vid_map 0x502000 1 100 (λ q. 0) blank in
    (load32 m' 100 ≡ 138416128)
    × (q.page_directory 33 ≡ 0x502007)
    × (q.user_video_page_table 1 ≡ 0xb8007)
vid_map_lem_example = vid_map_lem 0x502000 1 100 1 (λ q. 0) blank (omega arith)
