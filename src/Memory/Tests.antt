-- ===== src/Memory/Tests.antt =====
-- Concrete runs of the block operations.
use mpf_cker_os.Base.{◌≡◌, refl, Mem}
use mpf_cker_os.Memory.{memcpy, memmove, memset, memcpy_aligned, copy_bytes, copy_back, copy_dwords}
use mpf_cker_os.Memory.{move_dword, memset_loop, memset_aligned, fill_bytes, fill_dwords}
use mpf_cker_os.Memory.Copy.{memset_lem}

-- each byte is its own address
abbrev ramp : Mem
ramp q = q

memmove_runs : (memmove ramp 10 8 5 14 ≡ 12) × (memmove ramp 8 10 5 12 ≡ 14)
unfolding memmove copy_bytes copy_back
memmove_runs = (refl, refl)

memcpy_runs : (memcpy ramp 101 3 11 111 ≡ 13) × (memcpy ramp 101 3 11 112 ≡ 112)
unfolding memcpy memcpy_aligned copy_bytes copy_dwords move_dword
memcpy_runs = (refl, refl)

memset_runs : (memset ramp 101 0x107 11 111 ≡ 7) × (memset ramp 101 0x107 11 112 ≡ 112)
unfolding memset memset_loop memset_aligned fill_bytes fill_dwords
memset_runs = (refl, refl)

memset_lem_example : memset ramp 101 0x107 11 111 ≡ 7
memset_lem_example = memset_lem ramp 101 0x107 11 111
