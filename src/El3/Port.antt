-- ===== src/El3/Port.antt =====
-- The registers of the EtherLink III card in src/hw/el3.c, by window.
use be.Base.{
  ℕ, ◌+◌, ◌-◌, ◌*◌, ◌/◌, ◌%◌, ◌^◌, ◌&&◌, ◌==◌, ltb, leb, if◌then◌else◌, bit_or, length, drop,
  get_or, u8, u16,
}
use be.Base.Bits.{and_not}
use be.El3.{El3, command, fifo, fifo_read, fifo_write, status}

abbrev pub reg_window0 : El3 → ℕ → ℕ
reg_window0 s offset =
    if offset == 0x00
    then 0x6d50
    else if offset == 0x02
    then 0x9058
    else if offset == 0x04
    then s.config_ctrl
    else if offset == 0x06
    then s.addr_config
    else if offset == 0x08
    then s.resource
    else if offset == 0x0a
    then s.eeprom_cmd % 0x8000
    else if offset == 0x0c
    then s.eeprom (s.eeprom_cmd % 16)
    else 0

abbrev pub reg_window1 : El3 → ℕ → ℕ
reg_window1 s offset =
    if offset == 0x08
    then (if s.rx_count == 0 then 0x8000 else (s.rx s.rx_head).frame_length % 0x800)
    else if offset == 0x0a
    then get_or s.tx_status 0 0 * 2 ^ 8
    else if offset == 0x0c
    then (fifo + 2 ^ 16 - length s.tx) % 2 ^ 16
    else 0

unfoldable pub reg16 : El3 → ℕ → ℕ
reg16 s offset =
    if s.window == 0
    then reg_window0 s offset
    else if s.window == 1
    then reg_window1 s offset
    else if s.window == 2
    then (if ltb offset 6 then s.station offset + s.station (offset + 1) * 2 ^ 8 else 0)
    else if s.window == 4
    then (if offset == 0x0a then bit_or s.media 0x0800 else 0)
    else 0

unfoldable pub read : El3 → ℕ → ℕ → ℕ × El3
unfolding reg16
read s address size =
    let offset = address % 16 in
    let w = reg16 s (offset / 2 * 2) in
    if leb 0x0e offset
    then (status s / 2 ^ (8 * (offset - 0x0e)), s)
    else if s.window == 1 && ltb offset 4
    then fifo_read s size
    else if size == 1
    then ((if offset % 2 == 0 then w % 0x100 else w / 2 ^ 8), s)
    else (w, s)

abbrev pub popped_status : El3 → El3
popped_status s = record s {
  tx_status = drop 1 s.tx_status;
  latched = if leb (length s.tx_status) 1 then and_not 16 s.latched 4 else s.latched;
}

-- The station address with the bytes of `value` from `offset` on.
abbrev pub with_station : El3 → ℕ → ℕ → ℕ → El3
with_station s offset size value = record s {
  station = λ (i : ℕ).
      if leb offset i && ltb i (offset + size) && ltb i 6
      then u8 (value / 2 ^ (8 * (i - offset)))
      else s.station i;
}

abbrev pub write_window0 : El3 → ℕ → ℕ → El3
write_window0 s offset value = record s {
  config_ctrl = if offset == 0x04 then u16 value else s.config_ctrl;
  addr_config = if offset == 0x06 then u16 value else s.addr_config;
  resource = if offset == 0x08 then u16 value else s.resource;
  eeprom_cmd = if offset == 0x0a then u16 value else s.eeprom_cmd;
}

unfoldable pub write : El3 → ℕ → ℕ → ℕ → El3
write s address size value =
    let offset = address % 16 in
    if offset == 0x0e && leb 2 size
    then command s (u16 value)
    else if s.window == 1 && ltb offset 4
    then fifo_write s size value
    else if s.window == 1 && offset == 0x0b
    then popped_status s
    else if s.window == 2 && ltb offset 6
    then with_station s offset size value
    else if s.window == 0
    then write_window0 s offset value
    else if s.window == 4 && offset == 0x0a
    then record s { media = u16 value }
    else s
