-- ===== src/Siu.antt =====
-- The VR4131 serial unit of src/hw/siu.c. `sent` keeps the characters given to
-- `host_io_emit_serial`, newest first; the copy to the standard output is not modelled.
pub mod Lines
mod Tests
use be.Base.{
  ℕ, ◌+◌, ◌*◌, ◌/◌, ◌%◌, ◌^◌, Bool, true, false, not, List, [], ◌∷◌, ◌==◌, if◌then◌else◌, u8,
  bit_or,
}
use be.Base.Bits.{and_not, has}

pub record Siu : Type 0 where
  pub ier : ℕ
  pub iir : ℕ
  pub fcr : ℕ
  pub lcr : ℕ
  pub mcr : ℕ
  pub lsr : ℕ
  pub msr : ℕ
  pub scr : ℕ
  pub divisor : ℕ
  pub rx_byte : ℕ
  pub rx_ready : Bool
  pub sent : List ℕ

unfoldable pub init : Siu
init = record {
  ier = 0;
  iir = 0x01;
  fcr = 0;
  lcr = 0;
  mcr = 0;
  lsr = 0x60;
  msr = 0;
  scr = 0;
  divisor = 1;
  rx_byte = 0;
  rx_ready = false;
  sent = [];
}

-- The divisor latch access bit.
abbrev pub dlab : Siu → Bool
dlab s = has s.lcr 0x80

-- Odd offsets alias the even ones below them.
abbrev lane : ℕ → ℕ
lane offset = offset / 2 * 2

-- A read of the receive buffer takes the byte.
abbrev read_rbr : Siu → ℕ × Siu
read_rbr s =
    if dlab s
    then (u8 s.divisor, s)
    else if s.rx_ready
    then (s.rx_byte, record s { rx_ready = false; lsr = and_not 8 s.lsr 0x01 })
    else (0, s)

abbrev read_register : Siu → ℕ → ℕ
read_register s at =
    if at == 0x02
    then (if dlab s then u8 (s.divisor / 2 ^ 8) else s.ier)
    else if at == 0x04
    then s.iir
    else if at == 0x06
    then s.lcr
    else if at == 0x08
    then s.mcr
    else if at == 0x0a
    then s.lsr
    else if at == 0x0c
    then bit_or s.msr 0xb0
    else if at == 0x0e
    then s.scr
    else 0

unfoldable pub read : Siu → ℕ → ℕ × Siu
read s offset = if lane offset == 0x00 then read_rbr s else (read_register s (lane offset), s)

abbrev write_thr : Siu → ℕ → Siu
write_thr s val =
    if dlab s
    then record s { divisor = s.divisor / 2 ^ 8 * 2 ^ 8 + u8 val }
    else record s { sent = u8 val ∷ s.sent }

abbrev pub write_ier : Siu → ℕ → Siu
write_ier s val =
    if dlab s
    then record s { divisor = u8 s.divisor + u8 val * 2 ^ 8 }
    else record s { ier = u8 val }

unfoldable pub write : Siu → ℕ → ℕ → Siu
write s offset val =
    if lane offset == 0x00
    then write_thr s val
    else if lane offset == 0x02
    then write_ier s val
    else if lane offset == 0x04
    then record s { fcr = u8 val }
    else if lane offset == 0x06
    then record s { lcr = u8 val }
    else if lane offset == 0x08
    then record s { mcr = u8 val }
    else if lane offset == 0x0e
    then record s { scr = u8 val }
    else s
