-- ===== src/Battery/Tests.antt =====
-- Tests of the battery model, and its theorems at a concrete battery.
use be.Base.{◌≡◌, refl, true, some, none, arith}
use be.Battery.{Battery, charging, discharging, init, advance, adc, pct, parse_mode}
use be.Battery.Advance.{IsValid}

-- 60 %, draining 10 % a minute, at one second.
abbrev draining : Battery
draining = record {
  mode = discharging;
  milli_pct = 60_000;
  drain_milli_per_min = 10_000;
  last_ns = 1_000_000_000;
  started = true;
}

abbrev plugged : Battery
plugged = record draining { mode = charging }

draining-IsValid : IsValid draining
draining-IsValid = omega arith

plugged-IsValid : IsValid plugged
plugged-IsValid = omega arith

draining_from_init : advance (init 60 discharging 10) 1_000_000_000 ≡ draining
unfolding init advance
draining_from_init = refl

adc_half : adc (record draining { milli_pct = 50_000 }) ≡ 3147
unfolding adc
adc_half = refl

pct-draining : pct draining ≡ 60
unfolding pct
pct-draining = refl

parse_battery : (parse_mode "battery" ≡ some discharging) × (parse_mode "full" ≡ none)
unfolding parse_mode
parse_battery = (refl, refl)
