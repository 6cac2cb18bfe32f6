-- ===== src/Rtc/Gregorian.antt =====
-- The day numbers of src/hw/rtc.c against the closed form of the Gregorian calendar.
use be.Base.Bits.{holds_below, holds_below_lem}
use be.Base.{
  ℕ, zero, suc, ◌+◌, ◌-◌, ◌*◌, ◌/◌, ◌%◌, ◌≤◌, ◌≡◌, refl, ap, Bool, true, false, ◌&&◌, ◌||◌, Option,
  none, some, get_or, ◌==◌, ltb, leb, if◌then◌else◌, if_elim, arith,
}
use be.Rtc.Calendar.{
  Date, days_since_epoch, valid_date, month_days, days_in_month, is_leap_year, year_days,
  years_before, months_before,
}

-- Day `day` of month `month` counted from 1 March of year 0: a year begins in March, every fourth is longer
-- by a day, every hundredth is not, every four hundredth is. Month 13 is the January after.
unfoldable pub ordinal : ℕ → ℕ → ℕ → ℕ
ordinal year month day =
    let y = if leb month 2 then year - 1 else year in
    let m = if leb month 2 then month + 9 else month - 3 in
    365 * y + y / 4 - y / 100 + y / 400 + (153 * m + 2) / 5 + day

-- A date of the calendar from 1850 on: its day is before the first of the next month.
abbrev pub on_calendar : Date → Bool
on_calendar d =
    leb 1850 d.year
    && leb 1 d.month
    && leb d.month 12
    && leb 1 d.day
    && ltb (ordinal d.year d.month d.day) (ordinal d.year (d.month + 1) 1)

day_step : (y m k : ℕ) → ordinal y m (k + 1) ≡ ordinal y m 1 + k
unfolding ordinal
day_step y m k = ground arith

year_step : (y : ℕ) → 1850 ≤ y → ordinal (y + 1) 1 1 ≡ ordinal y 1 1 + year_days y
unfolding ordinal is_leap_year
year_step y h = ground arith

february : (y : ℕ) → 1850 ≤ y → ordinal y 3 1 ≡ ordinal y 2 1 + (if is_leap_year y then 29 else 28)
unfolding ordinal is_leap_year
february y h = ground arith

-- The other months have the lengths of the closed form.
length_of : ℕ → ℕ
length_of k = (153 * ((k + 10) % 12 + 1) + 2) / 5 - (153 * ((k + 10) % 12) + 2) / 5

lengths_table : holds_below (λ k. k == 1 || get_or month_days k 0 == length_of k) 12 ≡ true
unfolding holds_below length_of
lengths_table = refl

-- A month is as long as it is to the first of the next.
other_month :
    (y m : ℕ)
    → 1850 ≤ y
    → 1 ≤ m
    → m ≤ 12
    → (m == 2) ≡ false
    → ordinal y (m + 1) 1 ≡ ordinal y m 1 + get_or month_days (m - 1) 0
unfolding ordinal length_of
other_month y m h l u other =
    ground (arith, holds_below_lem _ 12 (m - 1) (omega arith) lengths_table)

month_step :
    (y m : ℕ) → 1850 ≤ y → 1 ≤ m → m ≤ 12 → ordinal y (m + 1) 1 ≡ ordinal y m 1 + days_in_month y m
unfolding days_in_month
month_step y m h l u = ground (arith, february y h, other_month y m h l u, second)
  where
    second : m ≡ 2 → ordinal y (m + 1) 1 ≡ ordinal y m 1 + (if is_leap_year y then 29 else 28)
    second e = rw e (february y h)

years_lem : (n : ℕ) → years_before n + ordinal 1850 1 1 ≡ ordinal (1850 + n) 1 1
unfolding years_before
years_lem zero = omega arith
years_lem (suc n) = omega (arith, years_lem n, year_step (1850 + n) (omega arith), next)
  where
    next : ordinal (1850 + suc n) 1 1 ≡ ordinal (1850 + n + 1) 1 1
    next = ap (λ (k : ℕ). ordinal k 1 1) {x = 1850 + suc n} {y = 1850 + n + 1} (omega arith)

months_lem : (y m : ℕ) → 1850 ≤ y → m ≤ 12 → months_before y m + ordinal y 1 1 ≡ ordinal y (m + 1) 1
unfolding months_before
months_lem y zero h u = omega arith
months_lem y (suc m) h u = omega (
  arith,
  months_lem y m h (omega arith),
  month_step y (suc m) h (omega arith) u,
  ap (λ (k : ℕ). ordinal y k 1) {x = m + 1} {y = suc m} (omega arith),
)

-- The number of a date that the guards accept.
number_lem :
    (d : Date)
    → 1850 ≤ d.year
    → 1 ≤ d.month
    → d.month ≤ 12
    → 1 ≤ d.day
    → years_before (d.year - 1850) + months_before d.year (d.month - 1) + (d.day - 1)
      ≡ ordinal d.year d.month d.day - ordinal 1850 1 1
number_lem d h l u first = omega (
  arith,
  years_lem (d.year - 1850),
  months_lem d.year (d.month - 1) h (omega arith),
  day_step d.year d.month (d.day - 1),
  at_year,
  at_month,
  at_day,
)
  where
    at_year : ordinal (1850 + (d.year - 1850)) 1 1 ≡ ordinal d.year 1 1
    at_year = ap (λ (k : ℕ). ordinal k 1 1) {x = 1850 + (d.year - 1850)} {y = d.year} (omega arith)

    at_month : ordinal d.year (d.month - 1 + 1) 1 ≡ ordinal d.year d.month 1
    at_month = ap (λ (k : ℕ). ordinal d.year k 1) {x = d.month - 1 + 1} {y = d.month} (omega arith)

    at_day : ordinal d.year d.month (d.day - 1 + 1) ≡ ordinal d.year d.month d.day
    at_day = ap (λ (k : ℕ). ordinal d.year d.month k) {x = d.day - 1 + 1} {y = d.day} (omega arith)

in_month :
    (d : Date)
    → 1850 ≤ d.year
    → 1 ≤ d.month
    → d.month ≤ 12
    → 1 ≤ d.day
    → leb d.day (days_in_month d.year d.month)
      ≡ ltb (ordinal d.year d.month d.day) (ordinal d.year (d.month + 1) 1)
in_month d h l u first = ground (
  arith,
  month_step d.year d.month h l u,
  day_step d.year d.month (d.day - 1),
  ap (λ (k : ℕ). ordinal d.year d.month k) {x = d.day - 1 + 1} {y = d.day} (omega arith),
)

guards_lem : (d : Date) → valid_date d ≡ on_calendar d
guards_lem d = ground (arith, in_month d)

-- A date has a number exactly if it is a date of the Gregorian calendar from 1850 on, and the number is how
-- many days the closed form of that calendar puts between 1 January 1850 and the date.
pub days_since_epoch_closed :
    (d : Date)
    → days_since_epoch d
      ≡ (if on_calendar d then some (ordinal d.year d.month d.day - ordinal 1850 1 1) else none)
unfolding days_since_epoch
days_since_epoch_closed d =
    if_elim Closed (valid_date d) (λ v. ground (arith, guards_lem d, number_lem d))
      (λ refused. ground (arith, guards_lem d))
  where
    Closed : Option ℕ → Type 0
    Closed n =
        n ≡ (if on_calendar d then some (ordinal d.year d.month d.day - ordinal 1850 1 1) else none)
