-- ===== src/Cmu.antt =====
-- The clock mask unit of src/hw/cmu.c.
use be.Base.{ℕ, ◌+◌, ◌*◌, ◌^◌, ◌||◌, ◌==◌, leb, if◌then◌else◌, u16}

pub record Cmu : Type 0 where
  pub sticky_bits : ℕ
  pub clkmsk : ℕ

unfoldable pub init : Cmu
init = record { sticky_bits = 0; clkmsk = 0 }

-- A read of 32 bits has the mask in both half-words.
unfoldable pub read : Cmu → ℕ → ℕ → ℕ
read s offset size =
    if offset == 0 || offset == 2
    then (if leb 4 size then s.clkmsk * 2 ^ 16 + s.clkmsk else s.clkmsk)
    else 0

unfoldable pub write : Cmu → ℕ → ℕ → Cmu
write s offset val = if offset == 0 || offset == 2 then record s { clkmsk = u16 val } else s
