-- ===== src/Battery/Adc.antt =====
-- The A/D level and the pins that src/hw/battery.c shows the guest.
use native.Mathlib.Decide.{dec_le, dec_lt}
use be.Base.{
  zero, suc, ◌≢◌, ◌==◌, le→leb, lt→leb, ℕ, ◌≤◌, ◌<◌, ◌≡◌, refl, ◌∙◌, Bool, true, false, not, ◌||◌,
  ◌&&◌, arith,
}
use be.Base.Bits.{
  test_bit, and_not, test_bit-bit_or, test_bit-and_not, test_bit-zero, holds_below, holds_below_lem,
}
use be.Battery.{
  Battery, Mode, ac, charging, discharging, adc, gpio, cal_max, cal_min, segment, mode_pins,
}

-- The level alone, and the segments between the edges.
abbrev at_level : Battery → ℕ → Battery
at_level s m = record s { milli_pct = m }

module _ (s : Battery) (m : ℕ) where
  band1 : m ≤ 10_000 → adc (at_level s m) ≡ segment 2816 3023 0 10_000 m
  unfolding adc
  band1 h = rw (le→leb m 10_000 h)

  band2 : 10_000 ≤ m → m ≤ 25_000 → adc (at_level s m) ≡ segment 3023 3064 10_000 25_000 m
  unfolding adc
  band2 l h = elim (dec_lt 10_000 m) [
    | yes inside ↦ rw (lt→leb m 10_000 (omega arith), le→leb m 25_000 h)
    | no edge ↦ let e : m ≡ 10_000 = omega arith in rw e
  ]

  band3 : 25_000 ≤ m → m ≤ 50_000 → adc (at_level s m) ≡ segment 3064 3147 25_000 50_000 m
  unfolding adc
  band3 l h = elim (dec_lt 25_000 m) [
    | yes inside ↦
        rw (lt→leb m 10_000 (omega arith), lt→leb m 25_000 (omega arith), le→leb m 50_000 h)
    | no edge ↦ let e : m ≡ 25_000 = omega arith in rw e
  ]

  band4 : 50_000 ≤ m → m ≤ 75_000 → adc (at_level s m) ≡ segment 3147 3313 50_000 75_000 m
  unfolding adc
  band4 l h = elim (dec_lt 50_000 m) [
    | yes inside ↦ rw (
      lt→leb m 10_000 (omega arith),
      lt→leb m 25_000 (omega arith),
      lt→leb m 50_000 (omega arith),
      le→leb m 75_000 h,
    )
    | no edge ↦ let e : m ≡ 50_000 = omega arith in rw e
  ]

  band5 : 75_000 ≤ m → m ≤ 100_000 → adc (at_level s m) ≡ segment 3313 3478 75_000 100_000 m
  unfolding adc
  band5 l h = elim (dec_lt 75_000 m) [
    | yes inside ↦ rw (
      lt→leb m 10_000 (omega arith),
      lt→leb m 25_000 (omega arith),
      lt→leb m 50_000 (omega arith),
      lt→leb m 75_000 (omega arith),
      le→leb m 100_000 h,
    )
    | no edge ↦ let e : m ≡ 75_000 = omega arith in rw e
  ]

  band6 : 100_000 ≤ m → adc (at_level s m) ≡ cal_max
  unfolding adc
  band6 l = elim (dec_lt 100_000 m) [
    | yes inside ↦ rw (
      lt→leb m 10_000 (omega arith),
      lt→leb m 25_000 (omega arith),
      lt→leb m 50_000 (omega arith),
      lt→leb m 75_000 (omega arith),
      lt→leb m 100_000 (omega arith),
    )
    | no edge ↦ let e : m ≡ 100_000 = omega arith in rw e
  ]

adc_next : (s : Battery) (m : ℕ) → adc (at_level s m) ≤ adc (at_level s (suc m))
adc_next s m = elim (dec_le (suc m) 10_000) [
  | yes b1 ↦ omega (arith, band1 s m (omega arith), band1 s (suc m) b1)
  | no a1 ↦ elim (dec_le (suc m) 25_000) [
    | yes b2 ↦ omega (arith, band2 s m, band2 s (suc m))
    | no a2 ↦ elim (dec_le (suc m) 50_000) [
      | yes b3 ↦ omega (arith, band3 s m, band3 s (suc m))
      | no a3 ↦ elim (dec_le (suc m) 75_000) [
        | yes b4 ↦ omega (arith, band4 s m, band4 s (suc m))
        | no a4 ↦ elim (dec_le (suc m) 100_000) [
          | yes b5 ↦ omega (arith, band5 s m, band5 s (suc m))
          | no a5 ↦ omega (arith, band6 s m, band6 s (suc m))
        ]
      ]
    ]
  ]
]

adc_climb :
    (s : Battery) (m n : ℕ)
    → m ≤ n
    → adc (record s { milli_pct = m }) ≤ adc (record s { milli_pct = n })
adc_climb s m zero h = rw (zero_of m h) (omega arith)
  where
    zero_of : (k : ℕ) → k ≤ 0 → k ≡ 0
    zero_of k h = omega arith
adc_climb s m (suc n) h = elim (dec_le m n) [
  | yes below ↦ omega (arith, adc_climb s m n below, adc_next s n)
  | no above ↦ rw (equal above) (omega arith)
]
  where
    equal : ¬ (m ≤ n) → m ≡ suc n
    equal above = omega arith

adc_level : (s t : Battery) → adc s ≡ adc (record t { milli_pct = s.milli_pct })
unfolding adc
adc_level s t = refl

-- The converter never reads more at a lower level: `battery_adc` is monotone in the level.
pub adc_mono : (s t : Battery) → s.milli_pct ≤ t.milli_pct → adc s ≤ adc t
adc_mono s t h = omega (arith, adc_level s s, adc_level t s, adc_climb s s.milli_pct t.milli_pct h)

-- The converter stays within the cut-off edge and the maximum, 0xb00 and 0xd96.
adc_range : (s : Battery) → (0xb00 ≤ adc s) × (adc s ≤ cal_max)
unfolding adc
adc_range s = ground arith

-- Windows CE's two calibration points are met exactly, at 100 % and 25 %, and the cut-off at 0 %.
adc_edges :
    (s : Battery)
    → (s.milli_pct ≡ 100_000 → adc s ≡ cal_max)
      × (s.milli_pct ≡ 25_000 → adc s ≡ cal_min)
      × (s.milli_pct ≡ 0 → adc s ≡ 0xb00)
unfolding adc
adc_edges s = (λ e. rw e, λ e. rw e, λ e. rw e)

-- What the guest's battery driver makes of pins 12 and 2.
abbrev pub decode : Bool → Bool → Mode
decode true _ = discharging
decode false true = charging
decode false false = ac

abbrev mode_mask : Mode → ℕ
mode_mask ac = 0
mode_mask charging = 0x0004
mode_mask discharging = 0x1000

pin_lem :
    (m : Mode) (pins k : ℕ)
    → k < 16
    → test_bit (mode_pins m (and_not 16 pins 0x1004)) k
      ≡ (test_bit (mode_mask m) k || (test_bit pins k && not (test_bit 0x1004 k)))
pin_lem ac pins k h = rw (test_bit-zero k) (test_bit-and_not 16 k pins 0x1004 h)
pin_lem charging pins k h =
    test_bit-bit_or k (and_not 16 pins 0x1004) 0x0004
    ∙ rw (test_bit-and_not 16 k pins 0x1004 h) (ground arith)
pin_lem discharging pins k h =
    test_bit-bit_or k (and_not 16 pins 0x1004) 0x1000
    ∙ rw (test_bit-and_not 16 k pins 0x1004 h) (ground arith)

abbrev untouched : ℕ → Bool
untouched k =
    k == 12
    || k == 2
    || (not (test_bit 0x1004 k) && not (test_bit 0x1000 k) && not (test_bit 0x0004 k))

untouched_table : holds_below untouched 16 ≡ true
unfolding holds_below
untouched_table = refl

masks_spare :
    (m : Mode) (k : ℕ)
    → k < 16
    → k ≢ 12
    → k ≢ 2
    → (test_bit (mode_mask m) k ≡ false) × (test_bit 0x1004 k ≡ false)
masks_spare ac k h p q =
    ground (arith, holds_below_lem untouched 16 k h untouched_table, test_bit-zero k)
masks_spare charging k h p q = ground (arith, holds_below_lem untouched 16 k h untouched_table)
masks_spare discharging k h p q = ground (arith, holds_below_lem untouched 16 k h untouched_table)

-- The pins 12 and 2 that the guest reads tell the battery's mode, whatever the other inputs were,
-- and every other of the 16 pins passes through.
pub gpio_pins :
    (s : Battery) (pins k : ℕ)
    → k < 16
    → k ≢ 12
    → k ≢ 2
    → (decode (test_bit (gpio s pins) 12) (test_bit (gpio s pins) 2) ≡ s.mode)
      × (test_bit (gpio s pins) k ≡ test_bit pins k)
unfolding gpio
gpio_pins s pins k w p q =
    (told s.mode, ground (arith, pin_lem s.mode pins k w, masks_spare s.mode k w p q))
  where
    told :
        (m : Mode)
        → let out = mode_pins m (and_not 16 pins 0x1004) in
          decode (test_bit out 12) (test_bit out 2) ≡ m
    told ac = ground (arith, pin_lem ac pins 12, pin_lem ac pins 2)
    told charging = ground (arith, pin_lem charging pins 12, pin_lem charging pins 2)
    told discharging = ground (arith, pin_lem discharging pins 12)
