-- ===== src/Cmcu.antt =====
-- The power-management microcontroller's watchdog window, src/hw/cmcu.c. Registers are 16 words of
-- 32 bits; offsets are reduced to the 64-byte window as the code masks them.
pub mod Watchdog
mod Tests
use be.Base.{
  ℕ, ◌*◌, ◌/◌, ◌%◌, Bool, true, false, not, ◌&&◌, ◌||◌, List, ◌==◌, ltb, if◌then◌else◌, get_or, set,
  replicate, u8, u16, sub_u64,
}

pub record Cmcu : Type 0 where
  pub regs : List ℕ
  pub running : Bool
  pub reloaded_ns : ℕ

abbrev pub cmd0 : ℕ
cmd0 = 0x00

abbrev pub arg0 : ℕ
arg0 = 0x04

abbrev pub cmd : ℕ
cmd = 0x08

abbrev pub arg : ℕ
arg = 0x0c

abbrev pub timeout : ℕ
timeout = 0x14

abbrev pub status : ℕ
status = 0x34

abbrev pub window_size : ℕ
window_size = 0x40

unfoldable pub init : Cmcu
init = record { regs = replicate 16 0; running = false; reloaded_ns = 0 }

abbrev pub reg : Cmcu → ℕ → ℕ
reg s off = get_or s.regs (off / 4) 0

unfoldable pub read : Cmcu → ℕ → ℕ
read s off =
    let at = off % window_size in if at == status then (if s.running then 3 else 0) else reg s at

-- The `switch` of `cmcu_write`, after the register has been stored.
command : Cmcu → ℕ → ℕ → ℕ → Cmcu
command s at val now =
    if at == cmd0
    then (if u8 val == 0x5c && u8 (reg s arg0) == 0x35 then record s { running = false } else s)
    else if at == cmd
    then (if u8 val == 0x3a && u8 (reg s arg) == 0x53
        then record s { running = true; reloaded_ns = now }
        else s)
    else if at == timeout
    then record s { reloaded_ns = now }
    else s

unfoldable pub write : Cmcu → ℕ → ℕ → ℕ → Cmcu
unfolding command
write s off val now =
    let at = off % window_size / 4 * 4 in
    command (record s { regs = set s.regs (at / 4) val }) at val now

abbrev pub seconds : Cmcu → ℕ
seconds s = u16 (reg s timeout)

unfoldable pub expired : Cmcu → ℕ → Bool × Cmcu
expired s now =
    if not s.running
      || seconds s == 0
      || ltb (sub_u64 now s.reloaded_ns) (seconds s * 1_000_000_000)
    then (false, s)
    else (true, record s { running = false })
