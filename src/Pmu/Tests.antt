-- ===== src/Pmu/Tests.antt =====
-- Tests of the power management unit, and its theorems at concrete states.
use be.Base.{◌≡◌, refl, true, false, [], ◌∷◌}
use be.Pmu.{Pmu, init, arm_initial, write, tick}
use be.Pmu.HalTimer.{sample, access, switch, apply, event_fires, acknowledged_never_fires}

-- After power-on, armed with 1000 cycles at count 10.
abbrev armed : Pmu
armed = record {
  pmuintreg = 0x10;
  pmucntreg = 0;
  pmutclkdivreg = 0;
  pmucnt2reg = 0;
  pmuwaitreg = 0;
  pmudivreg = 0;
  last_count_sample = 10;
  remaining = 1000;
  arm_cycles = 1000;
  window = 1000;
  dcd_high = true;
  pending_reset_cause = 0;
  softrst_pending = false;
  cold_reset_wired = true;
}

armed_from_init : arm_initial (init armed) 10 1000 true ≡ armed
unfolding arm_initial init
armed_from_init = refl

resync_charges_nothing : (tick armed 900).1.remaining ≡ 1000
unfolding tick
resync_charges_nothing = refl

acknowledged_never_fires_example :
    event_fires
      (write armed 0x02 0x6)
      (sample 400 ∷ access 0x06 0x10 ∷ switch ∷ apply 900 ∷ sample 1300 ∷ [])
    ≡ 0
acknowledged_never_fires_example =
    acknowledged_never_fires armed 0x6
      (sample 400 ∷ access 0x06 0x10 ∷ switch ∷ apply 900 ∷ sample 1300 ∷ []) refl

abbrev late : Pmu
late = record armed { remaining = 300 }
