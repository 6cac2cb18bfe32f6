-- ===== src/Rtc.antt =====
-- The real-time clock of src/hw/rtc.c: the 48-bit elapsed-time counter, its compare interrupt, the
-- reload registers, and the start from a calendar date.
pub mod Calendar
pub mod Gregorian
pub mod Alarm
pub mod Registers
mod Tests
use Calendar.{Date, valid_time, seconds_of_day, days_since_epoch}
use be.Base.{
  ℕ, ◌+◌, ◌*◌, ◌/◌, ◌%◌, ◌^◌, Bool, true, false, not, ◌&&◌, ◌||◌, Option, none, some, ◌==◌, ltb,
  leb, if◌then◌else◌, u16, splice, bit_or,
}
use be.Base.Bits.{and_not}
use be.Base.Int.{ℤ, pos}

pub record Rtc : Type 0 where
  pub etime : ℕ
  pub ecmp : ℕ
  pub rtcl1 : ℕ
  pub rtcl2 : ℕ
  pub tclock : ℕ
  pub rtcint : ℕ
  pub armed : Bool
  pub fired : Bool
  pub etime_latched : ℕ

unfoldable pub init : Rtc
init = record {
  etime = 0;
  ecmp = 0;
  rtcl1 = 0;
  rtcl2 = 0;
  tclock = 0;
  rtcint = 0;
  armed = false;
  fired = false;
  etime_latched = 0;
}

unfoldable pub update_elapsed_irq : Rtc → Rtc
update_elapsed_irq s =
    if not s.armed
    then s
    else if ltb s.etime s.ecmp
    then s
    else if s.fired
    then s
    else record s { rtcint = bit_or s.rtcint 0x01; fired = true }

unfoldable pub rearm_elapsed_irq : Rtc → Rtc
rearm_elapsed_irq s = update_elapsed_irq (record s { armed = true; fired = false })

-- The low, middle and high half-words of a 48-bit register, at these offsets of either register.
unfoldable pub write_48bit : ℕ → ℕ → ℕ → ℕ → ℕ
write_48bit reg offset size val =
    if offset == 0x00 || offset == 0x08
    then (if leb 4 size then splice reg 0 32 val else splice reg 0 16 (u16 val)) % 2 ^ 48
    else if offset == 0x02 || offset == 0x0a
    then (if leb 4 size then splice reg 16 48 val else splice reg 16 32 (u16 val)) % 2 ^ 48
    else if offset == 0x04 || offset == 0x0c
    then splice reg 32 48 (u16 val) % 2 ^ 48
    else reg

-- `rtc_init_from_ymdhms` for fields that are not negative.
unfoldable pub init_from_fields : Date → ℕ → ℕ → ℕ → Option Rtc
init_from_fields date hour minute second =
    if not (valid_time hour minute second) then none else elim (days_since_epoch date) [
      | none ↦ none
      | some days ↦
          let ticks = (days * 86_400 + seconds_of_day hour minute second) * 32_768 % 2 ^ 48 in
          some (record init { etime = ticks; etime_latched = ticks })
    ]

-- The C `int` arguments, year first: the guards refuse any that is negative. `none` is the -1.
unfoldable pub init_from_ymdhms : ℤ → ℤ → ℤ → ℤ → ℤ → ℤ → Option Rtc
unfolding init_from_fields
init_from_ymdhms (pos y) (pos m) (pos d) (pos hour) (pos minute) (pos second) =
    init_from_fields (record { year = y; month = m; day = d }) hour minute second
init_from_ymdhms _ _ _ _ _ _ = none

read_etime : ℕ → ℕ → ℕ → ℕ
read_etime etime offset size =
    if leb 4 size
    then (if offset == 0x00
        then etime % 2 ^ 32
        else if offset == 0x02
        then etime / 2 ^ 16 % 2 ^ 32
        else etime / 2 ^ 32 % 2 ^ 32)
    else (if offset == 0x00
        then u16 etime
        else if offset == 0x02
        then u16 (etime / 2 ^ 16)
        else u16 (etime / 2 ^ 32))

-- The reload registers and the compare register, of half-words.
read_other : Rtc → ℕ → ℕ
read_other s offset =
    if offset == 0x08
    then u16 s.ecmp
    else if offset == 0x0a
    then u16 (s.ecmp / 2 ^ 16)
    else if offset == 0x0c
    then u16 (s.ecmp / 2 ^ 32)
    else if offset == 0x10
    then u16 s.rtcl1
    else if offset == 0x12
    then s.rtcl1 / 2 ^ 16 % 2 ^ 8
    else if offset == 0x18
    then u16 s.rtcl2
    else if offset == 0x1a
    then u16 (s.rtcl2 / 2 ^ 16)
    else if offset == 0x1c || offset == 0x24
    then u16 s.etime
    else if offset == 0x1e || offset == 0x26
    then u16 (s.etime / 2 ^ 16)
    else if offset == 0x20
    then u16 s.tclock
    else if offset == 0x22
    then u16 (s.tclock / 2 ^ 16)
    else if offset == 0x3e
    then s.rtcint
    else 0

unfoldable pub read : Rtc → ℕ → ℕ → ℕ
unfolding read_etime read_other
read s offset size =
    if offset == 0x00 || offset == 0x02 || offset == 0x04
    then read_etime s.etime offset size
    else read_other s offset

-- A write to one of the three half-words of ETIME or ECMP.
write_etime : Rtc → ℕ → ℕ → ℕ → Rtc
write_etime s offset size val =
    let e = write_48bit s.etime offset size val in
    update_elapsed_irq (record s { etime = e; etime_latched = e })

write_ecmp : Rtc → ℕ → ℕ → ℕ → Rtc
write_ecmp s offset size val =
    rearm_elapsed_irq (record s { ecmp = write_48bit s.ecmp offset size val })

write_other : Rtc → ℕ → ℕ → Rtc
write_other s offset val =
    if offset == 0x10
    then record s { rtcl1 = splice s.rtcl1 0 16 (u16 val) }
    else if offset == 0x12
    then record s { rtcl1 = val % 2 ^ 8 * 2 ^ 16 + u16 s.rtcl1 }
    else if offset == 0x18
    then record s { rtcl2 = splice s.rtcl2 0 16 (u16 val) }
    else if offset == 0x1a
    then record s { rtcl2 = u16 val * 2 ^ 16 + u16 s.rtcl2 }
    else if offset == 0x20
    then record s { tclock = splice s.tclock 0 16 (u16 val) }
    else if offset == 0x22
    then record s { tclock = u16 val * 2 ^ 16 + u16 s.tclock }
    else if offset == 0x3e
    then record s { rtcint = and_not 16 s.rtcint val }
    else s

unfoldable pub write : Rtc → ℕ → ℕ → ℕ → Rtc
unfolding write_etime write_ecmp write_other
write s offset size val =
    if offset == 0x00 || offset == 0x02 || offset == 0x04
    then write_etime s offset size val
    else if offset == 0x08 || offset == 0x0a || offset == 0x0c
    then write_ecmp s offset size val
    else write_other s offset val

unfoldable pub tick : Rtc → ℕ → Rtc
tick s ticks = update_elapsed_irq (record s { etime = (s.etime + ticks) % 2 ^ 64 % 2 ^ 48 })
