-- ===== src/Paging.antt =====
-- The page tables of student-distrib/paging.c. The addresses of the two page tables, which the linker
-- chooses, are arguments; a flush of the translation buffer is counted, and `enable_paging`, which is
-- assembly, leaves the directory that it is given in `cr3`.
pub mod Walk
mod Tests
use mpf_cker_os.Filesys.{store32}
use mpf_cker_os.Base.{
  ℕ, zero, suc, ◌+◌, ◌*◌, ◌/◌, ◌%◌, ◌==◌, if◌then◌else◌, not, ◌||◌, Mem, update, bit_or,
}

pub record Paging : Type 0 where
  pub page_directory : ℕ → ℕ
  pub page_table : ℕ → ℕ
  pub user_video_page_table : ℕ → ℕ
  pub cr3 : ℕ
  pub flushes : ℕ
  -- `terminals[i].screen_start`
  pub screen_starts : ℕ → ℕ

abbrev pub four_kb : ℕ
four_kb = 4096

abbrev pub four_mb : ℕ
four_mb = 4194304

abbrev pub video_mem_index : ℕ
video_mem_index = 0xb8

abbrev pub video_mem : ℕ
video_mem = 0xb8000

abbrev pub user_map_loc : ℕ
user_map_loc = 138412032

unfoldable pub flush_tlb : Paging → Paging
flush_tlb p = record p { flushes = p.flushes + 1 }

-- the loop of `init_paging` with `left` rounds to go
unfoldable pub fill_tables : Paging → ℕ → ℕ → Paging
fill_tables p i zero = p
fill_tables p i (suc left) =
    fill_tables
      (record p {
        page_directory = update p.page_directory i 2;
        page_table = update p.page_table i (bit_or (i * four_kb) 2);
      })
      (i + 1) left

-- `page_table[i] |= flags`
unfoldable pub set_flags : ℕ → ℕ → Paging → Paging
set_flags i flags p = record p {
  page_table = update p.page_table i (bit_or (p.page_table i) flags);
}

unfoldable pub init_paging : ℕ → ℕ → Paging → Paging
init_paging directory_addr table_addr p =
    let q = set_flags (video_mem_index + 3) 7 (
      set_flags (video_mem_index + 2) 7
        (set_flags (video_mem_index + 1) 7 (set_flags video_mem_index 3 (fill_tables p 0 1024)))) in
    record q {
      page_directory =
          update (update q.page_directory 0 (bit_or table_addr 3)) 1 (bit_or four_mb 0x83);
      cr3 = directory_addr;
    }

unfoldable pub map_page : ℕ → ℕ → ℕ → Paging → Paging
unfolding flush_tlb
map_page physaddr virtualaddr flags p =
    let i = virtualaddr / four_mb in
    let entry = if p.page_directory i == 0 then bit_or physaddr 0x87 else bit_or physaddr flags in
    if not (physaddr % four_kb == 0) || not (virtualaddr % four_kb == 0)
    then p
    else flush_tlb (record p { page_directory = update p.page_directory i entry })

-- `vid_map` for the terminal `cur_terminal`: the new tables, and memory with the address that is stored
-- at `screen_start`
unfoldable pub vid_map : ℕ → ℕ → ℕ → Mem → Paging → Paging × Mem
unfolding flush_tlb
vid_map video_table_addr cur_terminal screen_start m p = (
  flush_tlb (record p {
    page_directory = update p.page_directory (user_map_loc / four_mb) (bit_or video_table_addr 7);
    user_video_page_table = update p.user_video_page_table cur_terminal (bit_or video_mem 7);
    screen_starts = update p.screen_starts cur_terminal screen_start;
  }),
  store32 m screen_start (user_map_loc + cur_terminal * four_kb),
)

unfoldable pub map_video_page : ℕ → Paging → Paging
unfolding flush_tlb
map_video_page terminal p = flush_tlb (record p {
  page_table =
      update p.page_table video_mem_index (bit_or ((video_mem_index + terminal) * four_kb) 3);
})
