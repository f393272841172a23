-- ===== src/Base/Word.antt =====
-- Machine integers. An `int32_t` is its bit pattern, a number below 2 ^ 32, so that -1 is
-- 2 ^ 32 - 1; the signed order is the order of the patterns shifted by 2 ^ 31.
use Prim.Native.Nat.{ℕ, ◌+◌, ◌-◌, ◌%◌}
use mathlib.Core.Bool.{Bool}
use mpf_cker_os.Base.Tests.{ltb, leb}

-- the casts to uint32_t, uint16_t and uint8_t
abbrev pub u32 : ℕ → ℕ
u32 word = word % 0x1_0000_0000

abbrev pub u16 : ℕ → ℕ
u16 word = word % 0x1_0000

abbrev pub u8 : ℕ → ℕ
u8 word = word % 0x100

-- a - b on uint32_t and on int32_t
abbrev pub sub32 : ℕ → ℕ → ℕ
sub32 a b = u32 (a + 4294967296 - b)

abbrev pub minus_one : ℕ
minus_one = 4294967295

-- `w < 0` for the integer with the pattern `w`
abbrev pub is_negative : ℕ → Bool
is_negative w = leb 2147483648 w

-- `a < b` for the integers with the patterns `a` and `b`
abbrev pub signed_ltb : ℕ → ℕ → Bool
signed_ltb a b = ltb (u32 (a + 2147483648)) (u32 (b + 2147483648))
