-- ===== src/Rtc/Tests.antt =====
-- Tests of the real-time clock, and its theorems at concrete dates and states.
use be.Base.{◌-◌, ◌≡◌, refl, true, false, none, some, [], ◌∷◌, arith}
use be.Base.Bits.{test_bit}
use be.Base.Int.{pos, negsuc}
use be.Rtc.{Rtc, init, init_from_fields, init_from_ymdhms}
use be.Rtc.Calendar.{Date, days_since_epoch, valid_time, valid_date}
use be.Rtc.Gregorian.{ordinal, days_since_epoch_closed}
use be.Rtc.Calendar
use be.Rtc.Alarm.{IsValid, pass, acknowledge, serve, fired_once}

abbrev leap_day : Date
leap_day = record { year = 1852; month = 2; day = 29 }

leap_day_number : days_since_epoch leap_day ≡ some 789
unfolding days_since_epoch Calendar.days_in_month Calendar.is_leap_year
leap_day_number = refl

days_since_epoch_closed_example :
    days_since_epoch leap_day ≡ some (ordinal 1852 2 29 - ordinal 1850 1 1)
unfolding ordinal
days_since_epoch_closed_example = days_since_epoch_closed leap_day

negative_refused : init_from_ymdhms (pos 2001) (negsuc 0) (pos 1) (pos 0) (pos 0) (pos 0) ≡ none
unfolding init_from_ymdhms
negative_refused = refl

abbrev leap_noon : Rtc
leap_noon = record {
  etime = 2_235_265_712_128;
  ecmp = 0;
  rtcl1 = 0;
  rtcl2 = 0;
  tclock = 0;
  rtcint = 0;
  armed = false;
  fired = false;
  etime_latched = 2_235_265_712_128;
}

noon_started : init_from_fields leap_day 12 34 56 ≡ some leap_noon
unfolding init_from_fields init days_since_epoch Calendar.days_in_month Calendar.is_leap_year
noon_started = refl

abbrev waiting : Rtc
waiting = record leap_noon { etime = 1000; ecmp = 1100; armed = true }

waiting-IsValid : IsValid waiting
waiting-IsValid = ground arith

abbrev acknowledged : Rtc
acknowledged = record waiting { etime = 1200; fired = true }

fired_once_example :
    test_bit (serve acknowledged (pass 500 ∷ acknowledge 1 ∷ pass 9 ∷ [])).rtcint 0 ≡ false
fired_once_example = fired_once acknowledged (pass 500 ∷ acknowledge 1 ∷ pass 9 ∷ []) refl refl
