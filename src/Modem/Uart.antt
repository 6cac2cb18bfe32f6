-- ===== src/Modem/Uart.antt =====
-- The 16550 registers of src/hw/modem.c.
use be.Base.{
  ℕ, ◌+◌, ◌-◌, ◌/◌, ◌%◌, Bool, true, false, not, ◌&&◌, ◌||◌, List, [], ◌∷◌, ◌++◌, ◌==◌,
  if◌then◌else◌, bit_or,
}
use be.Modem.{Modem, sent, hang_up, rx_size}
use be.Modem.Line.{command_byte}

-- Bit 7 of the line control register.
abbrev pub dlab : Modem → Bool
dlab m = not (m.lcr / 128 % 2 == 0)

abbrev pub popped : Modem → Modem
popped m = record m { rx_head = (m.rx_head + 1) % rx_size; rx_count = m.rx_count - 1 }

unfoldable pub read_data : Modem → ℕ × Modem
read_data m =
    if dlab m then (m.dll, m) else if m.rx_count == 0 then (0, m) else (m.rx m.rx_head, popped m)

unfoldable pub read_iir : Modem → ℕ × Modem
read_iir m =
    let fifo = if m.fcr % 2 == 0 then 0 else 0xc0 in
    if not (m.ier % 2 == 0) && not (m.rx_count == 0)
    then (fifo + 4, m)
    else if not (m.ier / 2 % 2 == 0) && m.thre_irq
    then (fifo + 2, record m { thre_irq = false })
    else if not (m.ier / 8 % 2 == 0) && not (m.msr_delta == 0)
    then (fifo, m)
    else (fifo + 1, m)

abbrev modem_status : Modem → ℕ
modem_status m = bit_or (0x30 + (if m.online && not m.gps then 0x80 else 0)) m.msr_delta

unfoldable pub read : Modem → ℕ → ℕ × Modem
unfolding read_data read_iir
read m reg =
    let r = reg % 8 in
    if r == 0
    then read_data m
    else if r == 1
    then (if dlab m then (m.dlm, m) else (m.ier, m))
    else if r == 2
    then read_iir m
    else if r == 3
    then (m.lcr, m)
    else if r == 4
    then (m.mcr, m)
    else if r == 5
    then ((if m.rx_count == 0 then 0 else 1) + 0x60, m)
    else if r == 6
    then (modem_status m, record m { msr_delta = 0 })
    else (m.scr, m)

unfoldable pub write_data : (List ℕ → Bool) → Modem → ℕ → Modem
unfolding command_byte
write_data dial m value =
    if dlab m
    then record m { dll = value }
    else if m.online || m.gps
    then record m { calls = m.calls ++ (sent value ∷ []); thre_irq = true }
    else record (command_byte dial m value) { thre_irq = true }

unfoldable pub write_ier : Modem → ℕ → Modem
write_ier m value = if dlab m then record m { dlm = value } else record m {
  thre_irq = m.thre_irq || (not (value / 2 % 2 == 0) && m.ier / 2 % 2 == 0);
  ier = value % 16;
}

-- A line that falls from DTR hangs up.
unfoldable pub write_mcr : Modem → ℕ → Modem
unfolding hang_up
write_mcr m value =
    let t = record m { mcr = value } in
    if not m.gps && not (m.mcr % 2 == 0) && value % 2 == 0 then hang_up t true else t

unfoldable pub write : (List ℕ → Bool) → Modem → ℕ → ℕ → Modem
unfolding write_data write_ier write_mcr
write dial m reg value =
    let r = reg % 8 in
    if r == 0
    then write_data dial m value
    else if r == 1
    then write_ier m value
    else if r == 2
    then record m {
      fcr = value;
      rx_head = if value / 2 % 2 == 0 then m.rx_head else 0;
      rx_count = if value / 2 % 2 == 0 then m.rx_count else 0;
    }
    else if r == 3
    then record m { lcr = value }
    else if r == 4
    then write_mcr m value
    else if r == 7
    then record m { scr = value }
    else m
