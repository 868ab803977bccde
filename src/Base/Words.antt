-- ===== src/Base/Words.antt =====
-- The casts of data_types.h: UINT8, UINT16 and UINT32 are 8, 16 and 32 bits wide on the targets,
-- and an INT32 is kept as its 32-bit pattern.
use Prim.Native.Nat.{ℕ, ◌*◌, ◌/◌, ◌%◌, ◌^◌, ◌<◌}
use mathlib.Core.Bool.{Bool}
use mathlib.Core.List.{List}
use arduino_spider_l3s_libra.Base.Tests.{ltb}
use arduino_spider_l3s_libra.Base.Lists.{All}

abbrev pub u8 : ℕ → ℕ
u8 n = n % 256

abbrev pub u16 : ℕ → ℕ
u16 n = n % 65536

abbrev pub u32 : ℕ → ℕ
u32 n = n % 4294967296

infixl 75 ◌>>>◌ ◌<<<◌
abbrev pub ◌>>>◌ : ℕ → ℕ → ℕ
x >>> k = x / 2 ^ k

abbrev pub ◌<<<◌ : ℕ → ℕ → ℕ
x <<< k = x * 2 ^ k

-- `0 <= x` for the INT32 whose pattern is `w`.
abbrev pub is_nonneg32 : ℕ → Bool
is_nonneg32 w = ltb w 2147483648

abbrev pub IsByte : ℕ → Type 0
IsByte x = x < 256

abbrev pub IsBytes : List ℕ → Type 0
IsBytes = All IsByte
