-- ===== src/Base/Words.antt =====
-- Casts to the fixed widths of C.
use Prim.Native.Nat.{ℕ, ◌+◌, ◌-◌, ◌*◌, ◌/◌, ◌%◌, ◌^◌}

abbrev pub u8 : ℕ → ℕ
u8 n = n % 2 ^ 8

abbrev pub u16 : ℕ → ℕ
u16 n = n % 2 ^ 16

abbrev pub u32 : ℕ → ℕ
u32 n = n % 2 ^ 32

abbrev pub u64 : ℕ → ℕ
u64 n = n % 2 ^ 64

-- `a - b` in the unsigned 32-bit and 64-bit types, for operands of that type.
abbrev pub sub_u32 : ℕ → ℕ → ℕ
sub_u32 a b = (a + 2 ^ 32 - b) % 2 ^ 32

abbrev pub sub_u64 : ℕ → ℕ → ℕ
sub_u64 a b = (a + 2 ^ 64 - b) % 2 ^ 64

-- `(reg & ~(mask << lo)) | (v << lo)` for the field of bits `lo` to `hi - 1`, and a `v` of that
-- width.
abbrev pub splice : ℕ → ℕ → ℕ → ℕ → ℕ
splice reg lo hi v = reg / 2 ^ hi * 2 ^ hi + v * 2 ^ lo + reg % 2 ^ lo
