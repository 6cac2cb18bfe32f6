-- ===== src/Rtc/Registers.antt =====
-- What is read back from the registers of src/hw/rtc.c, and the time that a calendar start sets.
use be.Base.{◌↔◌, ℕ, ◌+◌, ◌*◌, ◌/◌, ◌%◌, ◌^◌, ◌≤◌, ◌<◌, ◌≡◌, true, false, ◌&&◌, none, some, arith}
use be.Rtc.Calendar.{Date, valid_time, valid_date, seconds_of_day, days_since_epoch}
use be.Rtc.{
  Rtc, update_elapsed_irq, write_48bit, write, write_etime, init_from_fields, read, read_etime,
}

etime-update : (s : Rtc) → (update_elapsed_irq s).etime ≡ s.etime
unfolding update_elapsed_irq
etime-update s = ground arith

etime-write :
    (s : Rtc) (offset size val : ℕ)
    → (write_etime s offset size val).etime ≡ write_48bit s.etime offset size val
unfolding write_etime
etime-write s offset size val = etime-update _

low_half : (r v : ℕ) → r < 2 ^ 48 → v < 2 ^ 16 → write_48bit r 0x00 2 v ≡ r / 2 ^ 16 * 2 ^ 16 + v
unfolding write_48bit
low_half r v h k = omega arith

middle_half :
    (r v : ℕ)
    → r < 2 ^ 48
    → v < 2 ^ 16
    → write_48bit r 0x02 2 v ≡ r / 2 ^ 32 * 2 ^ 32 + v * 2 ^ 16 + r % 2 ^ 16
unfolding write_48bit
middle_half r v h k = omega arith

high_half : (r v : ℕ) → r < 2 ^ 48 → v < 2 ^ 16 → write_48bit r 0x04 2 v ≡ v * 2 ^ 32 + r % 2 ^ 32
unfolding write_48bit
high_half r v h k = omega arith

-- Setting the counter by three half-word writes, low, middle and high.
abbrev pub set_counter : Rtc → ℕ → ℕ → ℕ → Rtc
set_counter s low middle high = write (write (write s 0x00 2 low) 0x02 2 middle) 0x04 2 high

-- Three half-word writes set the whole of a 48-bit counter, whatever it held, and each half-word,
-- and the low word, reads back.
pub set_counter_lem :
    (s : Rtc) (low middle high : ℕ)
    → s.etime < 2 ^ 48
    → low < 2 ^ 16
    → middle < 2 ^ 16
    → high < 2 ^ 16
    → let t = set_counter s low middle high in
      (t.etime ≡ high * 2 ^ 32 + middle * 2 ^ 16 + low)
      × (read t 0x00 2 ≡ low)
      × (read t 0x02 2 ≡ middle)
      × (read t 0x04 2 ≡ high)
      × (read t 0x00 4 ≡ middle * 2 ^ 16 + low)
unfolding write read read_etime
set_counter_lem s low middle high e l m h =
    let a = write_etime s 0x00 2 low in
    let b = write_etime a 0x02 2 middle in
    let whole : (write_etime b 0x04 2 high).etime ≡ high * 2 ^ 32 + middle * 2 ^ 16 + low = omega (
      arith,
      etime-write s 0x00 2 low,
      low_half s.etime low,
      etime-write a 0x02 2 middle,
      middle_half a.etime middle,
      etime-write b 0x04 2 high,
      high_half b.etime high,
    ) in
    (whole, omega arith, omega arith, omega arith, omega arith)

-- A start from fields that are not negative is refused exactly for an invalid time or date.
pub init_refuses :
    (d : Date) (hour minute second : ℕ)
    → (init_from_fields d hour minute second ≡ none)
      ↔ ((valid_time hour minute second && valid_date d) ≡ false)
unfolding init_from_fields days_since_epoch
init_refuses d hour minute second = (λ h. ground arith, λ h. ground arith)

started_at :
    (d : Date) (hour minute second : ℕ) {s : Rtc} {n : ℕ}
    → init_from_fields d hour minute second ≡ some s
    → days_since_epoch d ≡ some n
    → (s.etime ≡ (n * 86_400 + seconds_of_day hour minute second) * 32_768 % 2 ^ 48)
      × (valid_time hour minute second ≡ true)
unfolding init_from_fields
started_at d hour minute second {s} {n} h e = ground arith

-- The date and the time of day of an accepted start are read back from the counter, for seconds
-- below 60 and a date before day 99420, so that the tick count fits in 48 bits.
pub time_of_day :
    (d : Date) (hour minute second : ℕ) {s : Rtc} {n : ℕ}
    → init_from_fields d hour minute second ≡ some s
    → days_since_epoch d ≡ some n
    → n < 99_420
    → second < 60
    → (s.etime / 32_768 / 86_400 ≡ n)
      × (s.etime / 32_768 % 86_400 / 3600 ≡ hour)
      × (s.etime / 32_768 % 3600 / 60 ≡ minute)
      × (s.etime / 32_768 % 60 ≡ second)
time_of_day d hour minute second {s} {n} h e fits sec =
    let (at, valid) = started_at d hour minute second h e in
    let bounds : (hour ≤ 23) × (minute ≤ 59) = ground arith in
    let whole : s.etime / 32_768 ≡ n * 86_400 + hour * 3600 + minute * 60 + second = omega arith in
    (omega arith, omega arith, omega arith, omega arith)
