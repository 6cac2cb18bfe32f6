-- ===== src/Rtc/Calendar.antt =====
-- The calendar of src/hw/rtc.c: days since 1 January 1850. Fields are not negative here.
use be.Base.{
  ℕ, zero, suc, ◌+◌, ◌-◌, ◌*◌, ◌%◌, Bool, not, ◌&&◌, ◌||◌, Option, none, some, List, [], ◌∷◌,
  get_or, ◌==◌, ltb, leb, if◌then◌else◌,
}

pub record Date : Type 0 where
  pub year : ℕ
  pub month : ℕ
  pub day : ℕ

unfoldable pub is_leap_year : ℕ → Bool
is_leap_year year = (year % 4 == 0 && not (year % 100 == 0)) || year % 400 == 0

abbrev pub month_days : List ℕ
month_days = 31 ∷ 28 ∷ 31 ∷ 30 ∷ 31 ∷ 30 ∷ 31 ∷ 31 ∷ 30 ∷ 31 ∷ 30 ∷ 31 ∷ []

unfoldable pub days_in_month : ℕ → ℕ → ℕ
unfolding is_leap_year
days_in_month year month =
    if ltb month 1 || ltb 12 month
    then 0
    else if month == 2 && is_leap_year year
    then 29
    else get_or month_days (month - 1) 0

abbrev pub year_days : ℕ → ℕ
year_days y = if is_leap_year y then 366 else 365

-- The two loops: `n` years from 1850 on, and the months before the `n + 1`st.
unfoldable pub years_before : ℕ → ℕ
years_before zero = 0
years_before (suc n) = years_before n + year_days (1850 + n)

unfoldable pub months_before : ℕ → ℕ → ℕ
months_before year zero = 0
months_before year (suc n) = months_before year n + days_in_month year (suc n)

-- What the guards of `rtc_days_since_wince_epoch` accept.
abbrev pub valid_date : Date → Bool
valid_date d =
    leb 1850 d.year
    && leb 1 d.month
    && leb d.month 12
    && leb 1 d.day
    && leb d.day (days_in_month d.year d.month)

-- `none` is the result -1.
unfoldable pub days_since_epoch : Date → Option ℕ
unfolding years_before months_before
days_since_epoch d =
    if valid_date d
    then some (years_before (d.year - 1850) + months_before d.year (d.month - 1) + (d.day - 1))
    else none

abbrev pub valid_time : ℕ → ℕ → ℕ → Bool
valid_time hour minute second = leb hour 23 && leb minute 59 && leb second 60

abbrev pub seconds_of_day : ℕ → ℕ → ℕ → ℕ
seconds_of_day hour minute second = hour * 3600 + minute * 60 + second
