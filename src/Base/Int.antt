-- ===== src/Base/Int.antt =====
-- Signed integers of C: `negsuc n` is -(n + 1).
use Prim.Native.Nat.{ℕ, zero, suc, ◌+◌, ◌-◌, ◌*◌, ◌/◌, ◌%◌}
use be.Base.Tests.{ltb, if◌then◌else◌}

pub data ℤ : Type 0 where
  pos : ℕ → ℤ
  negsuc : ℕ → ℤ

-- The negative of a natural number.
abbrev pub neg : ℕ → ℤ
neg zero = pos 0
neg (suc n) = negsuc n

-- The product with a natural number.
abbrev pub scale : ℤ → ℕ → ℤ
scale (pos a) n = pos (a * n)
scale (negsuc a) n = neg (suc a * n)

-- `a - b`, for natural numbers.
abbrev pub minus : ℕ → ℕ → ℤ
minus a b = if ltb a b then neg (b - a) else pos (a - b)

abbrev pub add : ℤ → ℤ → ℤ
add (pos a) (pos b) = pos (a + b)
add (pos a) (negsuc b) = minus a (suc b)
add (negsuc a) (pos b) = minus b (suc a)
add (negsuc a) (negsuc b) = negsuc (suc (a + b))

-- C's quotient, towards 0, by a natural number.
abbrev pub quot : ℤ → ℕ → ℤ
quot (pos a) n = pos (a / n)
quot (negsuc a) n = neg (suc a / n)

-- The conversion to `int16_t`.
abbrev pub from_u16 : ℕ → ℤ
from_u16 m = if ltb m 32768 then pos m else negsuc (65535 - m)

abbrev pub i16 : ℤ → ℤ
i16 (pos a) = from_u16 (a % 65536)
i16 (negsuc a) = from_u16 (65535 - a % 65536)
