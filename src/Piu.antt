-- ===== src/Piu.antt =====
-- The touch-panel interface unit of src/hw/piu.c: the pen sequencer, the two pages of coordinates,
-- the interrupt register and the A/D port scan. NULL states, which every function ignores, are not
-- modelled. Times are 64-bit nanoseconds.
pub mod Registers
pub mod Inv
pub mod Pages
pub mod Held
pub mod Pen
mod Tests
use be.Base.{
  ℕ, ◌+◌, ◌-◌, ◌*◌, ◌/◌, ◌%◌, ◌^◌, Bool, true, false, not, ◌&&◌, ◌||◌, Option, none, some, List, [],
  ◌∷◌, ◌==◌, ltb, leb, if◌then◌else◌, get_or, set, replicate, u8, u16, u64, sub_u64, bit_and,
  bit_or,
}
use be.Base.Bits.{and_not, has}

-- `adc` and each page hold four readings.
pub record Readings : Type 0 where
  pub x_plus : ℕ
  pub x_minus : ℕ
  pub y_minus : ℕ
  pub y_plus : ℕ

abbrev pub no_readings : Readings
no_readings = record { x_plus = 0; x_minus = 0; y_minus = 0; y_plus = 0 }

-- `regs` has 16 half-words: 0 control, 1 interrupts, 2 scan interval, 3 stable time.
pub record Piu : Type 0 where
  pub control : ℕ
  pub ints : ℕ
  pub interval : ℕ
  pub stable : ℕ
  pub other_regs : List ℕ
  pub padstate : ℕ
  pub touch_down : Bool
  pub touch_x : ℕ
  pub touch_y : ℕ
  pub penstc : Bool
  pub queued_penchg : Bool
  pub queued_penstc : Bool
  pub data_armed : Bool
  pub data_ready_ns : ℕ
  pub next_page : ℕ
  pub adc : Readings
  pub page0_adc : Readings
  pub page1_adc : Readings
  pub page0_valid : Bool
  pub page1_valid : Bool
  pub adc_on : Bool
  pub aux_adc : ℕ
  pub adport : ℕ

abbrev pub penchg : ℕ
penchg = 0x01

abbrev pub datalost : ℕ
datalost = 0x04

abbrev pub page0_bit : ℕ
page0_bit = 0x08

abbrev pub page1_bit : ℕ
page1_bit = 0x10

abbrev pub adport_bit : ℕ
adport_bit = 0x40

abbrev pub coordinate : ℕ
coordinate = 0x1c

abbrev pub any : ℕ
any = 0x5d

abbrev pub disable : ℕ
disable = 0

abbrev pub standby : ℕ
standby = 1

abbrev pub wait_pen : ℕ
wait_pen = 4

abbrev pub pen_data : ℕ
pen_data = 5

abbrev pub interval_next : ℕ
interval_next = 6

-- `(int64_t)(now_ns - due_ns) >= 0`.
abbrev pub time_reached : ℕ → ℕ → Bool
time_reached now_ns due_ns = ltb (sub_u64 now_ns due_ns) (2 ^ 63)

abbrev pub conversion_delay_us : Piu → ℕ
conversion_delay_us p = p.stable % 0x40 * 30 + (if has p.control 0x20 then 5 else 4) * 10

abbrev pub interval_delay_us : Piu → ℕ
interval_delay_us p = p.interval % 0x800 * 30 + conversion_delay_us p

abbrev pub arm_sample : Piu → ℕ → ℕ → Piu
arm_sample p now_ns delay_us = record p {
  data_armed = true;
  data_ready_ns = u64 (now_ns + delay_us * 1000);
}

unfoldable pub reset_registers : Piu → Piu
reset_registers p = record {
  control = 0;
  ints = 0;
  interval = 0x00a7;
  stable = 0x0007;
  other_regs = replicate 12 0;
  padstate = 0;
  touch_down = p.touch_down;
  touch_x = p.touch_x;
  touch_y = p.touch_y;
  penstc = false;
  queued_penchg = false;
  queued_penstc = false;
  data_armed = false;
  data_ready_ns = 0;
  next_page = 0;
  adc = no_readings;
  page0_adc = no_readings;
  page1_adc = no_readings;
  page0_valid = false;
  page1_valid = false;
  adc_on = false;
  aux_adc = 0;
  adport = 0;
}

-- `piu_init` clears the touch too before it resets the registers.
unfoldable pub init : Piu → Piu
unfolding reset_registers
init p = reset_registers (record p { touch_down = false; touch_x = 0; touch_y = 0 })

-- The readings for a place on the panel, clamped to its 240 by 360 points.
unfoldable pub readings_at : ℕ → ℕ → Readings
readings_at touch_x touch_y =
    let x : ℕ = if leb 240 touch_x then 239 else touch_x in
    let y : ℕ = if leb 360 touch_y then 359 else touch_y in
    record {
      x_plus = u16 (0x81e1 + y * (0x8e30 - 0x81e1) / 359);
      x_minus = u16 (0x8e30 - y * (0x8e30 - 0x81e1) / 359);
      y_minus = u16 (0x8d1b - x * (0x8d1b - 0x8300) / 239);
      y_plus = u16 (0x8300 + x * (0x8d1b - 0x8300) / 239);
    }

abbrev pub latch_sample : Piu → Piu
latch_sample p = record p { adc = readings_at p.touch_x p.touch_y }

unfoldable pub raise_penchg : Piu → Bool → Piu
raise_penchg p down =
    if has p.ints penchg
    then record p { queued_penchg = true; queued_penstc = down }
    else record p { penstc = down; ints = bit_or p.ints penchg }

abbrev pub clear_coordinate_state : Piu → Piu
clear_coordinate_state p = record p {
  ints = and_not 16 p.ints coordinate;
  page0_valid = false;
  page1_valid = false;
  data_armed = false;
  data_ready_ns = 0;
  next_page = 0;
}

-- PIUSEQEN and PADATSTART are set, PIUMODE is 0, and the A/D side is on.
abbrev pub wait_pen_enabled : Piu → Bool
wait_pen_enabled p =
    has p.control 0x04 && has p.control 0x100 && not (has p.control 0x18) && p.adc_on

unfoldable pub signal_pen_down : Piu → ℕ → Piu
unfolding raise_penchg
signal_pen_down p now_ns =
    let c = clear_coordinate_state p in
    let d =
      if c.padstate == wait_pen && has c.control 0x100
      then arm_sample (record c { padstate = pen_data }) now_ns (conversion_delay_us c)
      else c in
    raise_penchg (latch_sample d) true

-- No sample is armed, and the sequencer goes back to where it waits.
abbrev pub stop_sampling : Piu → Piu
stop_sampling p = record p {
  data_armed = false;
  data_ready_ns = 0;
  padstate =
      if wait_pen_enabled p
      then wait_pen
      else if ltb standby p.padstate
      then standby
      else p.padstate;
}

unfoldable pub signal_pen_up : Piu → Piu
unfolding raise_penchg
signal_pen_up p =
    let wait_enabled = wait_pen_enabled p in
    let should_signal = wait_enabled || leb wait_pen p.padstate in
    if wait_enabled && leb pen_data p.padstate && not (has p.control 0x200)
    then raise_penchg p false
    else if should_signal
    then raise_penchg (stop_sampling p) false
    else stop_sampling p

abbrev page0_available : Piu → Bool
page0_available p = not (has p.ints page0_bit) && not p.page0_valid

abbrev page1_available : Piu → Bool
page1_available p = not (has p.ints page1_bit) && not p.page1_valid

-- `select_page`: `some false` is page 0, `some true` page 1, `none` the -1.
unfoldable pub select_page : Piu → Option Bool
select_page p =
    if p.next_page % 2 == 0
    then (if page0_available p then some false else if page1_available p then some true else none)
    else (if page1_available p then some true else if page0_available p then some false else none)

-- The page takes the sample, and the sequencer waits for the next one.
pub store_page : Option Bool → Piu → ℕ → Piu
store_page none p now_ns = record p {
  ints = bit_or p.ints datalost;
  padstate = standby;
  data_armed = false;
  data_ready_ns = 0;
}
store_page (some false) p now_ns =
    let l = latch_sample p in
    let q = record l {
      page0_adc = l.adc;
      page0_valid = true;
      next_page = 1;
      ints = bit_or p.ints page0_bit;
      padstate = interval_next;
    } in
    arm_sample q now_ns (interval_delay_us q)
store_page (some true) p now_ns =
    let l = latch_sample p in
    let q = record l {
      page1_adc = l.adc;
      page1_valid = true;
      next_page = 0;
      ints = bit_or p.ints page1_bit;
      padstate = interval_next;
    } in
    arm_sample q now_ns (interval_delay_us q)

unfoldable pub queue_coordinate_sample : Piu → ℕ → Piu
unfolding store_page select_page
queue_coordinate_sample p now_ns =
    if not p.touch_down
      || ltb p.padstate pen_data
      || not p.data_armed
      || not (time_reached now_ns p.data_ready_ns)
    then p
    else store_page (select_page p) p now_ns

abbrev pub enter_wait : Piu → Piu
enter_wait p = if ltb p.padstate wait_pen then record p { padstate = wait_pen } else p

-- The waiting arm of `refresh_control_state`.
refresh_waiting : Piu → ℕ → Piu
unfolding signal_pen_down
refresh_waiting p now_ns =
    if p.padstate == standby && has p.ints coordinate
    then p
    else if (enter_wait p).touch_down && (enter_wait p).padstate == wait_pen
    then signal_pen_down (enter_wait p) now_ns
    else enter_wait p

abbrev pub leave_disable : Piu → Piu
leave_disable p =
    if p.padstate == disable && not (p.control == 0) then record p { padstate = standby } else p

-- PIUSEQEN and PADSCANSTART, both set.
abbrev pub scan_start : Piu → Bool
scan_start p =
    bit_and p.control 0x44 == 0x44 && not (has p.control 0x18) && p.adc_on && p.padstate == standby

-- The branches of `refresh_control_state`, after a disabled sequencer has been enabled.
unfoldable pub refresh_left : Piu → ℕ → Piu
unfolding refresh_waiting
refresh_left q now_ns =
    if wait_pen_enabled q
    then refresh_waiting q now_ns
    else if scan_start q
    then (if q.touch_down
        then arm_sample (record q { padstate = pen_data }) now_ns (conversion_delay_us q)
        else record q { padstate = pen_data })
    else if not (has q.control 0x04) && ltb standby q.padstate
    then record (clear_coordinate_state q) { padstate = standby }
    else q

unfoldable pub refresh_control_state : Piu → ℕ → Piu
unfolding refresh_left
refresh_control_state p now_ns = refresh_left (leave_disable p) now_ns

abbrev pub touched : Piu → Bool → ℕ → ℕ → Piu
touched p down x y = record p { touch_down = down; touch_x = x; touch_y = y }

unfoldable pub set_touch : Piu → Bool → ℕ → ℕ → ℕ → Piu
unfolding signal_pen_down signal_pen_up queue_coordinate_sample
set_touch p down x y now_ns =
    let q = touched p down x y in
    if p.padstate == wait_pen && down && not p.touch_down
    then signal_pen_down q now_ns
    else if not down && p.touch_down
    then signal_pen_up q
    else if down
    then queue_coordinate_sample q now_ns
    else q

unfoldable pub tick : Piu → ℕ → Piu
unfolding queue_coordinate_sample
tick p now_ns = queue_coordinate_sample p now_ns
