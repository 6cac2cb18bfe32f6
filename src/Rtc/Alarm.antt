-- ===== src/Rtc/Alarm.antt =====
-- The compare interrupt of src/hw/rtc.c: raised when the counter reaches the compare value, once for
-- each programming of it.
use be.Base.{
  ℕ, ◌+◌, ◌%◌, ◌^◌, ◌<◌, ◌≡◌, refl, ◌∙◌, true, false, not, ◌&&◌, ◌||◌, List, [], ◌∷◌, ◌==◌, leb,
  arith, if_elim,
}
use be.Base.Bits.{test_bit, test_bit-bit_or, test_bit-and_not}
use be.Rtc.{
  Rtc, init, update_elapsed_irq, rearm_elapsed_irq, write_48bit, write, write_etime, write_ecmp,
  write_other, tick, read,
}

-- The counter and the compare value have 48 bits, the RTCL1 period 24, and an armed alarm that has
-- not fired lies ahead.
pub record IsValid (s : Rtc) : Type 0 where
  pub counter : s.etime < 2 ^ 48
  pub compare_value : s.ecmp < 2 ^ 48
  pub period : s.rtcl1 < 2 ^ 24
  pub ahead : s.armed ≡ true → s.fired ≡ false → s.etime < s.ecmp

pub init-IsValid : IsValid init
unfolding init
init-IsValid = ground arith

update-IsValid :
    (s : Rtc)
    → s.etime < 2 ^ 48
    → s.ecmp < 2 ^ 48
    → s.rtcl1 < 2 ^ 24
    → IsValid (update_elapsed_irq s)
unfolding update_elapsed_irq
update-IsValid s p q r = ground arith

write_48bit-lt : (reg offset size val : ℕ) → reg < 2 ^ 48 → write_48bit reg offset size val < 2 ^ 48
unfolding write_48bit
write_48bit-lt reg offset size val h = ground arith

pub tick-IsValid : {s : Rtc} (n : ℕ) → IsValid s → IsValid (tick s n)
unfolding tick
tick-IsValid {s} n v =
    update-IsValid (record s { etime = (s.etime + n) % 2 ^ 64 % 2 ^ 48 }) (omega arith)
      v.compare_value v.period

write_other-IsValid : (s : Rtc) (offset val : ℕ) → IsValid s → IsValid (write_other s offset val)
unfolding write_other
write_other-IsValid s offset val v = ground arith

-- A write of any size at any offset keeps the counter and the compare value within 48 bits, the
-- first reload register within 24, and an armed alarm that has not fired ahead of the counter.
pub write-IsValid : {s : Rtc} (offset size val : ℕ) → IsValid s → IsValid (write s offset size val)
unfolding write write_etime write_ecmp rearm_elapsed_irq
write-IsValid {s} offset size val v =
    let e = write_48bit s.etime offset size val in
    let c = write_48bit s.ecmp offset size val in
    if_elim IsValid (offset == 0x00 || offset == 0x02 || offset == 0x04)
      (λ _.
        update-IsValid (record s { etime = e; etime_latched = e })
          (write_48bit-lt s.etime offset size val v.counter) v.compare_value v.period)
      λ _.
        if_elim IsValid (offset == 0x08 || offset == 0x0a || offset == 0x0c)
          (λ _.
            update-IsValid (record s { ecmp = c; armed = true; fired = false }) v.counter
              (write_48bit-lt s.ecmp offset size val v.compare_value) v.period)
          λ _. write_other-IsValid s offset val v

-- For an armed alarm that has not fired, and a counter that does not wrap, a tick raises the
-- interrupt bit and marks the alarm fired exactly if the counter reaches the compare value.
pub tick_alarm :
    (s : Rtc) (n : ℕ)
    → s.armed ≡ true
    → s.fired ≡ false
    → s.etime + n < 2 ^ 48
    → let t = tick s n in
      (test_bit t.rtcint 0 ≡ (test_bit s.rtcint 0 || leb s.ecmp (s.etime + n)))
      × (t.fired ≡ leb s.ecmp (s.etime + n))
unfolding tick update_elapsed_irq
tick_alarm s n on waiting fits = ground (arith, test_bit-bit_or 0 s.rtcint 1)

-- Time passing, and software's writes to RTCINTREG.
pub data Event : Type 0 where
  pass : ℕ → Event
  acknowledge : ℕ → Event

pub serve : Rtc → List Event → Rtc
serve s [] = s
serve s (pass n ∷ l) = serve (tick s n) l
serve s (acknowledge v ∷ l) = serve (write s 0x3e 2 v) l

tick_fired :
    (s : Rtc) (n : ℕ) → s.fired ≡ true → ((tick s n).fired ≡ true) × ((tick s n).rtcint ≡ s.rtcint)
unfolding tick update_elapsed_irq
tick_fired s n f = ground arith

acknowledge_fired :
    (s : Rtc) (v k : ℕ)
    → k < 16
    → ((write s 0x3e 2 v).fired ≡ s.fired)
      × (test_bit (write s 0x3e 2 v).rtcint k ≡ (test_bit s.rtcint k && not (test_bit v k)))
unfolding write write_other
acknowledge_fired s v k h = (refl, test_bit-and_not 16 k s.rtcint v h)

-- An alarm that has fired, and whose interrupt bit is clear, raises no second interrupt, whatever
-- time passes and whatever is written to RTCINTREG.
pub fired_once :
    (s : Rtc) (l : List Event)
    → s.fired ≡ true
    → test_bit s.rtcint 0 ≡ false
    → test_bit (serve s l).rtcint 0 ≡ false
unfolding serve
fired_once s [] f c = c
fired_once s (pass n ∷ l) f c =
    fired_once (tick s n) l (tick_fired s n f).0 (rw (tick_fired s n f).1 c)
fired_once s (acknowledge v ∷ l) f c =
    let a = acknowledge_fired s v 0 (omega arith) in
    fired_once (write s 0x3e 2 v) l (a.0 ∙ f) (rw (a.1, c))

-- A write to RTCINTREG clears exactly the interrupt bits that are written as 1.
acknowledge_bits :
    (s : Rtc) (size v k : ℕ)
    → k < 16
    → test_bit (read (write s 0x3e size v) 0x3e 2) k ≡ (test_bit s.rtcint k && not (test_bit v k))
unfolding write write_other read
acknowledge_bits s size v k h = test_bit-and_not 16 k s.rtcint v h
