-- ===== src/Piu/Inv.antt =====
-- What holds of the touch interface of src/hw/piu.c between two calls: each page's interrupt bit
-- stands with its data, a pen change is queued only behind one that is pending, and a sample is
-- armed only while the sequencer scans.
use mathlib.Core.Bool.{false≢true}
use be.Base.{
  ℕ, ◌%◌, ◌^◌, ◌≤◌, ◌<◌, ◌≡◌, sym, ap, ◌∙◌, Bool, true, false, not, ◌&&◌, ◌||◌, Option, none, some,
  ◌==◌, ltb, leb, if_elim, u8, bit_and, bit_or, arith,
}
use be.Base.Bits.{
  has, test_bit, and_not, has-two_pow, test_bit-bit_or, test_bit-bit_and, test_bit-and_not,
  test_bit-mod,
}
use be.Piu.{
  Piu, reset_registers, raise_penchg, clear_coordinate_state, signal_pen_down, signal_pen_up,
  select_page, store_page, queue_coordinate_sample, refresh_waiting, refresh_control_state,
  set_touch, arm_sample, wait_pen_enabled, latch_sample, conversion_delay_us, enter_wait,
  leave_disable, refresh_left, stop_sampling, touched, disable, adport_bit, penchg, datalost,
  page0_bit, page1_bit, coordinate, any, pen_data, standby, wait_pen, scan_start,
}
use be.Piu.Registers.{
  write, write_control, write_ints, convert_port, acked, next_penchg, pages_acked, penchg_acked,
}

pub record IsValid (p : Piu) : Type 0 where
  pub page0 : p.page0_valid ≡ test_bit p.ints 3
  pub page1 : p.page1_valid ≡ test_bit p.ints 4
  pub queue : p.queued_penchg ≡ true → test_bit p.ints 0 ≡ true
  pub scanning : p.data_armed ≡ true → pen_data ≤ p.padstate

-- The bits of the interrupt register that the module sets or clears.
or_bits :
    (x m : ℕ)
    → (test_bit (bit_or x m) 0 ≡ (test_bit x 0 || test_bit m 0))
      × (test_bit (bit_or x m) 3 ≡ (test_bit x 3 || test_bit m 3))
      × (test_bit (bit_or x m) 4 ≡ (test_bit x 4 || test_bit m 4))
or_bits x m = (test_bit-bit_or 0 x m, test_bit-bit_or 3 x m, test_bit-bit_or 4 x m)

cleared_bits :
    (x : ℕ)
    → (test_bit (and_not 16 x coordinate) 0 ≡ test_bit x 0)
      × (test_bit (and_not 16 x coordinate) 3 ≡ false)
      × (test_bit (and_not 16 x coordinate) 4 ≡ false)
cleared_bits x = (
  ground (arith, test_bit-and_not 16 0 x coordinate),
  ground (arith, test_bit-and_not 16 3 x coordinate),
  ground (arith, test_bit-and_not 16 4 x coordinate),
)

init-IsValid : (p : Piu) → IsValid (reset_registers p)
unfolding reset_registers
init-IsValid p = ground arith

raise-IsValid : {p : Piu} (down : Bool) → IsValid p → IsValid (raise_penchg p down)
unfolding raise_penchg
raise-IsValid {p} down v = ground (arith, or_bits p.ints 1, has-two_pow 0 p.ints)

clear-IsValid : {p : Piu} → IsValid p → IsValid (clear_coordinate_state p)
clear-IsValid {p} v = ground (arith, cleared_bits p.ints)

pen_down-IsValid : {p : Piu} (now : ℕ) → IsValid p → IsValid (signal_pen_down p now)
unfolding signal_pen_down
pen_down-IsValid {p} now v =
    let c = clear_coordinate_state p in
    raise-IsValid true (
      if_elim (λ d. IsValid (latch_sample d)) (c.padstate == wait_pen && has c.control 0x100)
        (λ _. armed (clear-IsValid v)) (λ _. latched (clear-IsValid v)))
  where
    armed :
        IsValid (clear_coordinate_state p)
        → IsValid (
            latch_sample (
              arm_sample
                (record (clear_coordinate_state p) { padstate = pen_data })
                now
                (conversion_delay_us (clear_coordinate_state p))))
    armed w = record {
      page0 = w.page0;
      page1 = w.page1;
      queue = w.queue;
      scanning = λ _. omega arith;
    }

    latched : IsValid (clear_coordinate_state p) → IsValid (latch_sample (clear_coordinate_state p))
    latched w = record { page0 = w.page0; page1 = w.page1; queue = w.queue; scanning = w.scanning }

pen_up-IsValid : {p : Piu} → IsValid p → IsValid (signal_pen_up p)
unfolding signal_pen_up
pen_up-IsValid {p} v =
    if_elim IsValid (wait_pen_enabled p && leb pen_data p.padstate && not (has p.control 0x200))
      (λ _. raise-IsValid false v)
      λ _.
        if_elim IsValid (wait_pen_enabled p || leb wait_pen p.padstate)
          (λ _. raise-IsValid false stopped) λ _. stopped
  where
    stopped : IsValid (stop_sampling p)
    stopped = record {
      page0 = v.page0;
      page1 = v.page1;
      queue = v.queue;
      scanning = λ e. absurd (false≢true e);
    }

store-IsValid :
    {p : Piu} (page : Option Bool) (now : ℕ) → IsValid p → IsValid (store_page page p now)
unfolding store_page
store-IsValid {p} none now v = ground (arith, or_bits p.ints datalost)
store-IsValid {p} (some false) now v = ground (arith, or_bits p.ints page0_bit)
store-IsValid {p} (some true) now v = ground (arith, or_bits p.ints page1_bit)

sample-IsValid : {p : Piu} (now : ℕ) → IsValid p → IsValid (queue_coordinate_sample p now)
unfolding queue_coordinate_sample
sample-IsValid {p} now v = if_elim IsValid _ (λ _. v) (λ _. store-IsValid (select_page p) now v)

waiting-IsValid : {p : Piu} (now : ℕ) → IsValid p → IsValid (refresh_waiting p now)
unfolding refresh_waiting
waiting-IsValid {p} now v =
    if_elim IsValid (p.padstate == standby && has p.ints coordinate) (λ _. v)
      λ _.
        if_elim IsValid ((enter_wait p).touch_down && (enter_wait p).padstate == wait_pen)
          (λ _. pen_down-IsValid now entered) λ _. entered
  where
    entered : IsValid (enter_wait p)
    entered = if_elim IsValid (ltb p.padstate wait_pen) (λ e. ground arith) (λ _. v)

left-IsValid : {p : Piu} → IsValid p → IsValid (leave_disable p)
left-IsValid {p} v =
    if_elim IsValid (p.padstate == disable && not (p.control == 0)) (λ e. ground arith) (λ _. v)

refresh_left-IsValid : {p : Piu} (now : ℕ) → IsValid p → IsValid (refresh_left p now)
unfolding refresh_left
refresh_left-IsValid {p} now v =
    if_elim IsValid (wait_pen_enabled p) (λ _. waiting-IsValid now v)
      λ _.
        if_elim IsValid (scan_start p)
          (λ _. if_elim IsValid p.touch_down (λ _. armed) (λ e. scanned e))
          λ _.
            if_elim IsValid (not (has p.control 0x04) && ltb standby p.padstate) (λ _. idle)
              (λ _. v)
  where
    armed : IsValid (arm_sample (record p { padstate = pen_data }) now (conversion_delay_us p))
    armed = record {
      page0 = v.page0;
      page1 = v.page1;
      queue = v.queue;
      scanning = λ _. omega arith;
    }

    scanned : p.touch_down ≡ false → IsValid (record p { padstate = pen_data })
    scanned _ = record {
      page0 = v.page0;
      page1 = v.page1;
      queue = v.queue;
      scanning = λ _. omega arith;
    }

    idle : IsValid (record (clear_coordinate_state p) { padstate = standby })
    idle =
        let w = clear-IsValid v in
        record {
          page0 = w.page0;
          page1 = w.page1;
          queue = w.queue;
          scanning = λ e. absurd (false≢true e);
        }

refresh-IsValid : {p : Piu} (now : ℕ) → IsValid p → IsValid (refresh_control_state p now)
unfolding refresh_control_state
refresh-IsValid {p} now v = refresh_left-IsValid now (left-IsValid v)

-- A change of the contact or its place keeps the same invariant of pages, pen changes and armed
-- samples.
pub set_touch-IsValid :
    {p : Piu} (down : Bool) (x y now : ℕ) → IsValid p → IsValid (set_touch p down x y now)
unfolding set_touch
set_touch-IsValid {p} down x y now v =
    if_elim IsValid (p.padstate == wait_pen && down && not p.touch_down)
      (λ _. pen_down-IsValid now moved)
      λ _.
        if_elim IsValid (not down && p.touch_down) (λ _. pen_up-IsValid moved)
          λ _. if_elim IsValid down (λ _. sample-IsValid now moved) λ _. moved
  where
    moved : IsValid (touched p down x y)
    moved = record { page0 = v.page0; page1 = v.page1; queue = v.queue; scanning = v.scanning }

converted-IsValid : {p : Piu} (value : ℕ) → IsValid p → IsValid (convert_port p value)
converted-IsValid {p} value v =
    if_elim IsValid (has value 0x04 && bit_and value 0x18 == 0x08 && p.adc_on)
      (λ _. ground (arith, or_bits p.ints adport_bit)) (λ _. v)

write_control-IsValid : {p : Piu} (value now : ℕ) → IsValid p → IsValid (write_control p value now)
unfolding write_control
write_control-IsValid {p} value now v =
    if_elim IsValid (has value 0x01) (λ _. init-IsValid p)
      λ _. converted-IsValid value (refresh-IsValid now changed)
  where
    changed : IsValid (record p { control = bit_and value 0x03fe })
    changed = record { page0 = v.page0; page1 = v.page1; queue = v.queue; scanning = v.scanning }

-- Bit `k` of the interrupt register after a write: cleared if it was acknowledged.
acked_bit :
    (ints value k : ℕ)
    → k < 8
    → test_bit (acked ints value) k ≡ (test_bit ints k && not (test_bit value k && test_bit any k))
acked_bit ints value k h =
    let a = and_not 16 ints (bit_and (u8 value) any) in
    sym (test_bit-mod 8 k (acked ints value) h)
    ∙ ap (λ (x : ℕ). test_bit x k) {x = acked ints value % 2 ^ 8} {y = a % 2 ^ 8} (omega arith)
    ∙ test_bit-mod 8 k a h
    ∙ test_bit-and_not 16 k ints (bit_and (u8 value) any) (omega arith)
    ∙ rw (test_bit-bit_and k (u8 value) any, test_bit-mod 8 k value h)

pages_acked-IsValid :
    {p : Piu} (value : ℕ) → IsValid p → has value penchg ≡ false → IsValid (pages_acked p value)
pages_acked-IsValid {p} value v h = ground (
  arith,
  acked_bit p.ints value 0,
  acked_bit p.ints value 3,
  acked_bit p.ints value 4,
  has-two_pow 0 value,
  has-two_pow 3 value,
  has-two_pow 4 value,
)

penchg_acked-IsValid :
    {p : Piu} (value : ℕ) → IsValid p → IsValid (penchg_acked (pages_acked p value) value)
penchg_acked-IsValid {p} value v =
    if_elim IsValid (has value penchg) (λ h. taken h) (λ h. pages_acked-IsValid value v h)
  where
    taken : has value penchg ≡ true → IsValid (next_penchg (pages_acked p value))
    taken h = ground (
      arith,
      acked_bit p.ints value 0,
      acked_bit p.ints value 3,
      acked_bit p.ints value 4,
      or_bits (acked p.ints value) penchg,
      has-two_pow 3 value,
      has-two_pow 4 value,
    )

write_ints-IsValid : {p : Piu} (value now : ℕ) → IsValid p → IsValid (write_ints p value now)
unfolding write_ints
write_ints-IsValid {p} value now v =
    let r = penchg_acked (pages_acked p value) value in
    let w = penchg_acked-IsValid value v in
    if_elim IsValid
      (has (bit_and (u8 p.ints) (u8 value)) 0x18
        && r.touch_down
        && leb pen_data r.padstate
        && not r.data_armed)
      (λ h. record {
        page0 = w.page0;
        page1 = w.page1;
        queue = w.queue;
        scanning = λ _. ground arith;
      })
      (λ _. w)

-- A register write, at any offset, keeps the invariant: the page interrupts stand exactly while
-- their pages hold data, a pen change is queued only behind a pending one, and a sample is armed
-- only while the sequencer scans.
pub write-IsValid :
    {p : Piu} (offset value now : ℕ) → IsValid p → IsValid (write p offset value now)
unfolding write
write-IsValid {p} offset value now v =
    if_elim IsValid (ltb 0x18 offset || not (offset % 4 == 0)) (λ _. v)
      λ _.
        if_elim IsValid (offset == 0x00) (λ _. write_control-IsValid value now v)
          λ _.
            if_elim IsValid (offset == 0x04) (λ _. write_ints-IsValid value now v)
              λ _. ground (arith, v)
