-- ===== src/Piu/Registers.antt =====
-- The registers of the touch-panel interface of src/hw/piu.c: control, the interrupts and their
-- acknowledges, the A/D port, and what the guest reads.
use be.Base.{
  ℕ, ◌+◌, ◌-◌, ◌*◌, ◌/◌, ◌%◌, ◌^◌, Bool, false, not, ◌&&◌, ◌||◌, ◌==◌, ltb, leb, if◌then◌else◌,
  get_or, set, u8, u16, bit_and, bit_or,
}
use be.Base.Bits.{and_not, has}
use be.Piu.{
  Readings, Piu, penchg, page0_bit, page1_bit, adport_bit, any, pen_data, interval_delay_us,
  arm_sample, reset_registers, refresh_control_state, tick,
}

-- One conversion of the auxiliary input, finished at once.
abbrev pub convert_port : Piu → ℕ → Piu
convert_port p value =
    if has value 0x04 && bit_and value 0x18 == 0x08 && p.adc_on
    then record p { adport = p.aux_adc % 0x1000; ints = bit_or p.ints adport_bit }
    else p

unfoldable pub write_control : Piu → ℕ → ℕ → Piu
unfolding refresh_control_state reset_registers
write_control p value now_ns =
    if has value 0x01
    then reset_registers p
    else convert_port (refresh_control_state (record p { control = bit_and value 0x03fe }) now_ns)
        value

-- The interrupt register after a write: the acknowledged low bits cleared, the high byte replaced.
abbrev pub acked : ℕ → ℕ → ℕ
acked ints value = u8 (and_not 16 ints (bit_and (u8 value) any)) + u8 (value / 2 ^ 8) * 2 ^ 8

-- The pen change that was queued behind the acknowledged one takes its place.
abbrev pub next_penchg : Piu → Piu
next_penchg p =
    if p.queued_penchg
    then record p { penstc = p.queued_penstc; queued_penchg = false; ints = bit_or p.ints penchg }
    else record p { penstc = p.touch_down }

-- The acknowledged pages no longer hold data.
abbrev pub pages_acked : Piu → ℕ → Piu
pages_acked p value = record p {
  ints = acked p.ints value;
  page0_valid = p.page0_valid && not (has value page0_bit);
  page1_valid = p.page1_valid && not (has value page1_bit);
}

abbrev pub penchg_acked : Piu → ℕ → Piu
penchg_acked p value = if has value penchg then next_penchg p else p

unfoldable pub write_ints : Piu → ℕ → ℕ → Piu
write_ints p value now_ns =
    let data_acked = has (bit_and (u8 p.ints) (u8 value)) 0x18 in
    let r = penchg_acked (pages_acked p value) value in
    if data_acked && r.touch_down && leb pen_data r.padstate && not r.data_armed
    then arm_sample r now_ns (interval_delay_us r)
    else r

unfoldable pub write : Piu → ℕ → ℕ → ℕ → Piu
unfolding write_control write_ints
write p offset value now_ns =
    if ltb 0x18 offset || not (offset % 4 == 0)
    then p
    else if offset == 0x00
    then write_control p value now_ns
    else if offset == 0x04
    then write_ints p value now_ns
    else if offset == 0x08
    then record p { interval = value }
    else if offset == 0x0c
    then record p { stable = value }
    else record p { other_regs = set p.other_regs (offset / 4 - 4) value }

-- One of four readings, by the low digit of the offset.
abbrev pub reading : Readings → ℕ → ℕ
reading r low =
    if low == 0x00
    then r.x_plus
    else if low == 0x04
    then r.x_minus
    else if low == 0x08
    then r.y_minus
    else if low == 0x0c
    then r.y_plus
    else 0

-- What a page that holds no sample reads.
abbrev rest_readings : Readings
rest_readings = record { x_plus = 0x81e1; x_minus = 0x8e30; y_minus = 0x8300; y_plus = 0x8d1b }

read_page : Piu → ℕ → ℕ
read_page p offset =
    if leb 0x50 offset
    then reading (if p.page1_valid then p.page1_adc else rest_readings) (offset % 0x10)
    else reading (if p.page0_valid then p.page0_adc else rest_readings) (offset % 0x10)

abbrev read_control : Piu → ℕ
read_control p =
    bit_or (bit_or (p.control % 0x400) (p.padstate % 8 * 2 ^ 10))
      (if (if has p.ints penchg then p.penstc else p.touch_down) then 0x2000 else 0)

-- The value read after the tick, and the state after it.
unfoldable pub read : Piu → ℕ → ℕ → ℕ × Piu
unfolding read_page tick
read p offset now_ns =
    let t = tick p now_ns in
    let value =
      if offset == 0x00
      then u16 (read_control t)
      else if offset == 0x04
      then t.ints
      else if offset == 0x08
      then t.interval
      else if offset == 0x0c
      then t.stable
      else if leb offset 0x18 && offset % 4 == 0
      then get_or t.other_regs (offset / 4 - 4) 0
      else if offset == 0x90
      then t.adport
      else if (leb 0x20 offset && leb offset 0x2c) || (leb 0x50 offset && leb offset 0x5c)
      then read_page t offset
      else 0 in
    (value, t)

unfoldable pub irq_pending : Piu → Bool
irq_pending p = has p.ints (p.ints / 2 ^ 8)
