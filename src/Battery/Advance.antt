-- ===== src/Battery/Advance.antt =====
-- How the level of src/hw/battery.c moves with emulated time.
use native.Mathlib.Nat.{add-mul-div_right, div-add-mod, mul_comm, add-mul, mod-lt}
use native.Mathlib.Decide.{ℕ_discrete}
use Prim.Native.Nat.{min}
use be.Base.{
  ℕ, ◌+◌, ◌-◌, ◌*◌, ◌/◌, ◌^◌, ◌≤◌, ◌<◌, ◌≡◌, refl, sym, ◌∙◌, ap, true, arith, leb, u32,
  if◌then◌else◌, ◌==◌,
}
use be.Battery.{Battery, Mode, ac, charging, discharging, advance, charge, steps, ns_per_step, init}

-- The level and the rate of a battery in use.
pub record IsValid (s : Battery) : Type 0 where
  pub level : s.milli_pct ≤ 100_000
  pub rate : s.drain_milli_per_min < 2 ^ 32

pub init-IsValid : (pct : ℕ) (mode : Mode) (drain : ℕ) → IsValid (init pct mode drain)
unfolding init
init-IsValid pct mode drain = ground arith

charge-IsValid : {s : Battery} (m : Mode) (d : ℕ) → IsValid s → IsValid (charge m s d)
charge-IsValid ac d v = ground arith
charge-IsValid charging d v = ground arith
charge-IsValid discharging d v = ground arith

advance-IsValid : {s : Battery} (now : ℕ) → IsValid s → IsValid (advance s now)
unfolding advance
advance-IsValid {s} now v = ground (
  arith,
  charge-IsValid {s = record s { last_ns = s.last_ns + steps s now * ns_per_step s }} s.mode
      (steps s now) (record { level = v.level; rate = v.rate }),
)

step-pos : {s : Battery} → IsValid s → 0 < s.drain_milli_per_min → 0 < ns_per_step s
step-pos {s} v pos = grind arith

-- The state after `d` steps on battery.
abbrev drained : Battery → ℕ → Battery
drained s d = record s { milli_pct = s.milli_pct - d; last_ns = s.last_ns + d * ns_per_step s }

discharge_lem :
    {s : Battery} (now : ℕ)
    → IsValid s
    → s.started ≡ true
    → s.mode ≡ discharging
    → 0 < s.drain_milli_per_min
    → s.last_ns ≤ now
    → advance s now ≡ drained s (steps s now)
unfolding advance
discharge_lem {s} now v on m pos past = rw (m, on) (ground (arith, u32_small))
  where
    u32_small : steps s now < 2 ^ 32 → u32 (steps s now) ≡ steps s now
    u32_small h = omega arith

-- Whole steps taken in two stretches are the whole steps of the whole stretch.
steps_add : (n a b : ℕ) → 0 < n → (a / n * n + b) / n ≡ a / n + b / n
steps_add n a b pos =
    ap (λ (k : ℕ). k / n) (omega arith) ∙ add-mul-div_right b (a / n) pos ∙ omega arith

steps_split :
    (s : Battery) (first second : ℕ)
    → 0 < ns_per_step s
    → s.last_ns ≤ first
    → first ≤ second
    → steps s second ≡ steps s first + steps (drained s (steps s first)) second
steps_split s first second pos p q =
    ap (λ (k : ℕ). k / ns_per_step s) parts
    ∙ steps_add (ns_per_step s) (first - s.last_ns)
        (second - (s.last_ns + steps s first * ns_per_step s)) pos
  where
    whole_le : steps s first * ns_per_step s ≤ first - s.last_ns
    whole_le = omega (
      arith,
      div-add-mod (first - s.last_ns) (ns_per_step s),
      mul_comm (ns_per_step s) (steps s first),
    )

    parts :
        second - s.last_ns
        ≡ steps s first * ns_per_step s + (second - (s.last_ns + steps s first * ns_per_step s))
    parts = omega (arith, whole_le)

drained_last : (s : Battery) (now : ℕ) → s.last_ns ≤ now → (drained s (steps s now)).last_ns ≤ now
drained_last s now p =
    omega
      (arith, div-add-mod (now - s.last_ns) (ns_per_step s), mul_comm (ns_per_step s) (steps s now))

drained-drained : (s : Battery) (a b : ℕ) → drained (drained s a) b ≡ drained s (a + b)
drained-drained s a b = ground (arith, add-mul a b (ns_per_step s))

drained-IsValid : {s : Battery} (d : ℕ) → IsValid s → IsValid (drained s d)
drained-IsValid d v = record { level = omega arith; rate = v.rate }

split_draining :
    {s : Battery} (first second : ℕ)
    → IsValid s
    → s.started ≡ true
    → s.mode ≡ discharging
    → 0 < s.drain_milli_per_min
    → s.last_ns ≤ first
    → first ≤ second
    → advance (advance s first) second ≡ advance s second
split_draining {s} first second v on m pos p q =
    ap (λ t. advance t second) (discharge_lem first v on m pos p)
    ∙ discharge_lem second (drained-IsValid (steps s first) v) on m pos
        (omega (arith, drained_last s first p))
    ∙ drained-drained s (steps s first) (steps (drained s (steps s first)) second)
    ∙ ap (λ d. drained s d) (sym (steps_split s first second (step-pos v pos) p q))
    ∙ sym (discharge_lem second v on m pos (omega arith))

-- In a valid state on battery, advancing the clock in two stretches leaves exactly the state that
-- one stretch to the same time leaves: no part of a step is lost between calls.
pub advance_split :
    {s : Battery} (first second : ℕ)
    → IsValid s
    → s.started ≡ true
    → s.mode ≡ discharging
    → s.last_ns ≤ first
    → first ≤ second
    → advance (advance s first) second ≡ advance s second
advance_split {s} first second v on m p q = elim (ℕ_discrete s.drain_milli_per_min 0) [
  | yes idle ↦ unfold advance in ground arith
  | no busy ↦ split_draining first second v on m (omega arith) p q
]

-- In a valid, started state on battery with a drain rate, advancing to a time not in the past
-- takes the level down by one thousandth of a percent for each whole step, to 0 at the lowest, and
-- the clock keeps the remainder, which is less than one step.
pub advance_drains :
    {s : Battery} (now : ℕ)
    → IsValid s
    → s.started ≡ true
    → s.mode ≡ discharging
    → 0 < s.drain_milli_per_min
    → s.last_ns ≤ now
    → let t = advance s now in
      (t.milli_pct ≡ s.milli_pct - steps s now)
      × (t.last_ns ≤ now)
      × (now < t.last_ns + ns_per_step s)
      × (t.mode ≡ discharging)
advance_drains {s} now v on m pos p =
    rw (discharge_lem now v on m pos p) (refl, drained_last s now p, remainder, m)
  where
    remainder : now < s.last_ns + steps s now * ns_per_step s + ns_per_step s
    remainder = omega (
      arith,
      div-add-mod (now - s.last_ns) (ns_per_step s),
      mul_comm (ns_per_step s) (steps s now),
      mod-lt (now - s.last_ns) (step-pos v pos),
    )

-- In a valid, started state that charges at some rate, advancing to a time not in the past takes
-- the level up by one thousandth of a percent for each whole step, to 100 % at the highest, and a
-- step that fills the battery ends the charging.
pub advance_charges :
    {s : Battery} (now : ℕ)
    → IsValid s
    → s.started ≡ true
    → s.mode ≡ charging
    → 0 < s.drain_milli_per_min
    → s.last_ns ≤ now
    → let t = advance s now in
      (t.milli_pct ≡ min 100_000 (s.milli_pct + steps s now))
      × (t.mode ≡ (
          if 0 == steps s now
          then charging
          else if leb 100_000 (s.milli_pct + steps s now)
          then ac
          else charging))
unfolding advance
advance_charges {s} now v on m pos p = rw (m, on) (ground arith)
