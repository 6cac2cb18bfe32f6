-- ===== src/Piu/Tests.antt =====
-- The theorems on the touch interface of src/hw/piu.c at concrete states.
use be.Base.{refl, true, false, List, [], ◌∷◌, arith}
use be.Piu.{Piu, no_readings, queue_coordinate_sample, pen_data, wait_pen}
use be.Piu.Inv.{IsValid}
use be.Piu.Pages.{Stored, sample-Stored}
use be.Piu.Held.{Event, moved, ticked, looked, run, loses, Full, Held, full_pages_kept}

-- The stylus is down, the sequencer scans, and the first sample is due at 1000.
abbrev scanning : Piu
scanning = record {
  control = 0x104;
  ints = 0x7f01;
  interval = 0xa7;
  stable = 7;
  other_regs = 0 ∷ 0 ∷ 0 ∷ 0 ∷ 0 ∷ 0 ∷ 0 ∷ 0 ∷ 0 ∷ 0 ∷ 0 ∷ 0 ∷ [];
  padstate = pen_data;
  touch_down = true;
  touch_x = 120;
  touch_y = 180;
  penstc = true;
  queued_penchg = false;
  queued_penstc = false;
  data_armed = true;
  data_ready_ns = 1000;
  next_page = 0;
  adc = no_readings;
  page0_adc = no_readings;
  page1_adc = no_readings;
  page0_valid = false;
  page1_valid = false;
  adc_on = true;
  aux_adc = 0;
  adport = 0;
}

-- Software has not acknowledged either page.
abbrev full : Piu
full = record scanning { ints = 0x7f19; page0_valid = true; page1_valid = true }

abbrev waiting : Piu
waiting = record scanning { padstate = wait_pen; touch_down = false; data_armed = false }

scanning-IsValid : IsValid scanning
scanning-IsValid = record {
  page0 = refl;
  page1 = refl;
  queue = λ _. refl;
  scanning = λ _. omega arith;
}

sample-Stored_example : Stored scanning (queue_coordinate_sample scanning 1200) 1200
sample-Stored_example = sample-Stored scanning 1200 scanning-IsValid refl refl

full-Full : Full full
full-Full = record { touching = refl; first = refl; second = refl }

-- The guest looks at a page, the stylus moves, and the sample comes due in between.
abbrev while_held : List Event
while_held = looked 0x20 900 ∷ ticked 1200 ∷ moved 3 4 1300 ∷ looked 0x24 1400 ∷ []

full_pages_kept_example : Held full (run while_held full) (loses full while_held)
full_pages_kept_example = full_pages_kept while_held full full-Full
