-- ===== src/Piu/Pen.antt =====
-- Pen contact in src/hw/piu.c: how a touch starts sampling, how a release ends it, and that no
-- contact change is missed.
use be.Base.{ℕ, ◌+◌, ◌*◌, ◌%◌, ◌^◌, ◌≤◌, ◌≡◌, Bool, true, false, not, ◌&&◌, if◌then◌else◌, arith}
use be.Base.Bits.{has, test_bit, has-two_pow, test_bit-bit_or}
use be.Piu.{
  Piu, raise_penchg, signal_pen_down, signal_pen_up, set_touch, wait_pen_enabled,
  conversion_delay_us, clear_coordinate_state, touched, arm_sample, latch_sample, penchg, pen_data,
  wait_pen, stop_sampling,
}
use be.Piu.Registers.{write_ints, write, acked}

bit0 : (p : Piu) (down : Bool) → test_bit (raise_penchg p down).ints 0 ≡ true
unfolding raise_penchg
bit0 p down = ground (arith, has-two_pow 0 p.ints, test_bit-bit_or 0 p.ints penchg)

kept :
    (p : Piu) (down : Bool)
    → let t = raise_penchg p down in
      (t.padstate ≡ p.padstate)
      × (t.data_armed ≡ p.data_armed)
      × (t.data_ready_ns ≡ p.data_ready_ns)
      × (t.page0_valid ≡ p.page0_valid)
      × (t.page1_valid ≡ p.page1_valid)
unfolding raise_penchg
kept p down = ground arith

-- A touch in the waiting state, with automatic scanning on, raises the contact change, empties
-- both pages, and arms the first sample one conversion later.
pub touch_starts :
    (p : Piu) (x y now : ℕ)
    → p.padstate ≡ wait_pen
    → p.touch_down ≡ false
    → has p.control 0x100 ≡ true
    → let t = set_touch p true x y now in
      (t.padstate ≡ pen_data)
      × (t.data_armed ≡ true)
      × (t.data_ready_ns ≡ (now + conversion_delay_us p * 1000) % 2 ^ 64)
      × (t.page0_valid ≡ false)
      × (t.page1_valid ≡ false)
      × (test_bit t.ints 0 ≡ true)
unfolding set_touch signal_pen_down
touch_starts p x y now w up auto =
    rw (w, up, auto)
      (let c = clear_coordinate_state (touched p true x y) in
        let d =
          latch_sample
            (arm_sample (record c { padstate = pen_data }) now (conversion_delay_us c)) in
        (let (e1, e2, e3, e4, e5) = kept d true in (e1, e2, e3, e4, e5, bit0 d true)))

-- With the waiting state enabled, a release while the sequencer scans returns it to the waiting
-- state with no sample armed if PADATSTOP is set, and otherwise keeps it and its armed sample;
-- either way the contact change is raised.
pub release_lem :
    (p : Piu) (x y now : ℕ)
    → wait_pen_enabled p ≡ true
    → pen_data ≤ p.padstate
    → p.touch_down ≡ true
    → let t = set_touch p false x y now in
      (t.padstate ≡ (if has p.control 0x200 then wait_pen else p.padstate))
      × (t.data_armed ≡ (not (has p.control 0x200) && p.data_armed))
      × (test_bit t.ints 0 ≡ true)
unfolding set_touch signal_pen_up
release_lem p x y now on scanning down =
    let q = touched p false x y in
    ground (
      arith,
      kept q false,
      kept (stop_sampling q) false,
      bit0 q false,
      bit0 (stop_sampling q) false,
    )

-- A contact change that comes while an earlier one is pending is shown, with its own contact state
-- and a new interrupt, when software acknowledges the earlier one.
pub queued_shown :
    (p : Piu) (down : Bool) (now : ℕ)
    → test_bit p.ints 0 ≡ true
    → let t = write (raise_penchg p down) 4 1 now in
      (test_bit t.ints 0 ≡ true) × (t.penstc ≡ down) × (t.queued_penchg ≡ false)
unfolding write write_ints raise_penchg
queued_shown p down now pending =
    rw (has-two_pow 0 p.ints, pending)
      (let q = record p { queued_penchg = true; queued_penstc = down } in
        ground (arith, test_bit-bit_or 0 (acked p.ints 1) penchg))
