-- ===== src/Battery.antt =====
-- The battery, charger and A/D level of src/hw/battery.c. Times are 64-bit nanoseconds of emulated
-- time; the level is in thousandths of a percent, 0 to 100000.
pub mod Adc
pub mod Advance
mod Tests
use be.Base.{
  ℕ, ◌+◌, ◌-◌, ◌*◌, ◌/◌, Bool, true, false, not, ◌||◌, Option, none, some, List, ◌==◌, ltb, leb,
  if◌then◌else◌, u16, u32,
}
use be.Base.Bits.{and_not}
use Prim.Native.Nat.{bit_or}
use Prim.Native.String.{String}
use text.Mathlib.Text.{◌==◌ as str_eq}

pub data Mode : Type 0 where
  ac charging discharging : Mode

pub record Battery : Type 0 where
  pub mode : Mode
  pub milli_pct : ℕ
  pub drain_milli_per_min : ℕ
  pub last_ns : ℕ
  pub started : Bool

abbrev is_ac : Mode → Bool
is_ac ac = true
is_ac _ = false

unfoldable pub init : ℕ → Mode → ℕ → Battery
init pct mode drain_pct_per_min = record {
  mode = mode;
  milli_pct = (if ltb 100 pct then 100 else pct) * 1000;
  drain_milli_per_min = u32 (drain_pct_per_min * 1000);
  last_ns = 0;
  started = false;
}

-- `ns_per_step`, and the whole steps from `last_ns` to `now`.
abbrev pub ns_per_step : Battery → ℕ
ns_per_step s = 60_000_000_000 / s.drain_milli_per_min

abbrev pub steps : Battery → ℕ → ℕ
steps s now = (now - s.last_ns) / ns_per_step s

-- The end of `battery_advance`: `delta` steps drain or charge.
abbrev pub charge : Mode → Battery → ℕ → Battery
charge discharging s delta = record s {
  milli_pct = if leb s.milli_pct delta then 0 else s.milli_pct - u32 delta;
}
charge _ s delta =
    if leb (100_000 - s.milli_pct) delta
    then record s { milli_pct = 100_000; mode = ac }
    else record s { milli_pct = u32 (s.milli_pct + u32 delta) }

unfoldable pub advance : Battery → ℕ → Battery
advance s now =
    if not s.started || ltb now s.last_ns
    then record s { started = true; last_ns = now }
    else if s.drain_milli_per_min == 0 || is_ac s.mode
    then record s { last_ns = now }
    else if steps s now == 0
    then s
    else charge s.mode (record s { last_ns = s.last_ns + steps s now * ns_per_step s })
        (steps s now)

abbrev on_battery_bit : ℕ
on_battery_bit = 0x1000

abbrev charging_bit : ℕ
charging_bit = 0x0004

abbrev pub mode_pins : Mode → ℕ → ℕ
mode_pins discharging pins = bit_or pins on_battery_bit
mode_pins charging pins = bit_or pins charging_bit
mode_pins ac pins = pins

unfoldable pub gpio : Battery → ℕ → ℕ
gpio s pins = mode_pins s.mode (and_not 16 pins (bit_or on_battery_bit charging_bit))

abbrev pub cal_max : ℕ
cal_max = 0x0d96

abbrev pub cal_min : ℕ
cal_min = 0x0bf8

abbrev span : ℕ
span = cal_max - cal_min

-- One segment of the loop of `battery_adc`, from `(m0, a0)` to `(m1, a1)`.
abbrev pub segment : ℕ → ℕ → ℕ → ℕ → ℕ → ℕ
segment a0 a1 m0 m1 m = u16 (a0 + ((a1 - a0) * (m - m0) + (m1 - m0) / 2) / (m1 - m0))

-- The loop over the five segments, unrolled: `at` and `milli` are constant tables.
unfoldable pub adc : Battery → ℕ
adc s =
    let m = s.milli_pct in
    let at0 : ℕ = cal_min - span * 3 / 5 in
    let at1 : ℕ = cal_min - span / 10 in
    let at3 : ℕ = cal_max - span * 4 / 5 in
    let at4 : ℕ = cal_max - span * 2 / 5 in
    if leb m 10_000
    then segment at0 at1 0 10_000 m
    else if leb m 25_000
    then segment at1 cal_min 10_000 25_000 m
    else if leb m 50_000
    then segment cal_min at3 25_000 50_000 m
    else if leb m 75_000
    then segment at3 at4 50_000 75_000 m
    else if leb m 100_000
    then segment at4 cal_max 75_000 100_000 m
    else cal_max

unfoldable pub pct : Battery → ℕ
pct s = s.milli_pct / 1000

-- `none` is the `false` of `battery_parse_mode`.
unfoldable pub parse_mode : String → Option Mode
parse_mode name =
    if str_eq name "ac"
    then some ac
    else if str_eq name "charging"
    then some charging
    else if str_eq name "battery"
    then some discharging
    else none
