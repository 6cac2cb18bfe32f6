-- ===== src/Pmu/HalTimer.antt =====
-- The HALTimer of src/hw/pmu.c: it resets the machine when its window has been used up, once, and
-- never after software has acknowledged the start.
use be.Base.{
  ℕ, ◌+◌, ◌-◌, ◌/◌, ◌≤◌, ◌<◌, ◌≡◌, refl, Bool, true, false, List, [], ◌∷◌, leb, if◌then◌else◌, u32,
  sub_u32, arith, Bool-cases, inl, inr,
}
use be.Base.Bits.{has}
use be.Pmu.{
  Pmu, tick, expire, delta, write, write_intreg, write_cntreg, write_cnt2reg,
  apply_pending_reset_state, reset_switch,
}

abbrev fire_count : Bool → ℕ
fire_count true = 1
fire_count false = 0

-- The cold resets that a sequence of ticks at the given counts issues, and the state after it.
pub fires : Pmu → List ℕ → ℕ
fires s [] = 0
fires s (c ∷ cs) = fire_count (tick s c).0 + fires (tick s c).1 cs

-- The cycles that pass over a sequence of counts, from the last sample on.
abbrev pub elapsed : ℕ → List ℕ → ℕ
elapsed last [] = 0
elapsed last (c ∷ cs) = sub_u32 (u32 c) (u32 last) + elapsed c cs

-- No step of the sequence is longer than `most`.
abbrev pub Steady : ℕ → ℕ → List ℕ → Type 0
Steady most last [] = Unit {0}
Steady most last (c ∷ cs) = (sub_u32 (u32 c) (u32 last) ≤ most) × Steady most c cs

tick_idle : (s : Pmu) (c : ℕ) → s.remaining ≡ 0 → tick s c ≡ (false, s)
unfolding tick
tick_idle s c h = ground arith

fires_idle : (s : Pmu) (cs : List ℕ) → s.remaining ≡ 0 → fires s cs ≡ 0
unfolding fires
fires_idle s [] h = refl
fires_idle s (c ∷ cs) h = rw (tick_idle s c h) (omega (arith, fires_idle s cs h))

tick_expires :
    (s : Pmu) (c : ℕ)
    → 0 < s.remaining
    → delta s c ≤ s.arm_cycles / 2
    → s.remaining ≤ delta s c
    → ((tick s c).0 ≡ s.cold_reset_wired) × ((tick s c).1.remaining ≡ 0)
unfolding tick expire apply_pending_reset_state
tick_expires s c a b d = ground arith

tick_counts :
    (s : Pmu) (c : ℕ)
    → 0 < s.remaining
    → delta s c ≤ s.arm_cycles / 2
    → delta s c < s.remaining
    → tick s c ≡ (false, record s { last_count_sample = c; remaining = s.remaining - delta s c })
unfolding tick
tick_counts s c a b d = ground arith

-- A running HALTimer with a reset wired, sampled at steps of at most half its window, issues
-- exactly one cold reset if the cycles that pass use its remaining cycles up, and none if they do
-- not.
pub fires_when_used_up :
    (s : Pmu) (cs : List ℕ)
    → 0 < s.remaining
    → s.cold_reset_wired ≡ true
    → Steady (s.arm_cycles / 2) s.last_count_sample cs
    → fires s cs ≡ (if leb s.remaining (elapsed s.last_count_sample cs) then 1 else 0)
unfolding fires
fires_when_used_up s [] pos wired st = ground arith
fires_when_used_up s (c ∷ cs) pos wired st = elim (Bool-cases (leb s.remaining (delta s c))) [
  | inl up ↦
      let e = tick_expires s c pos st.0 (ground arith) in
      ground (arith, e, fires_idle (tick s c).1 cs e.1)
  | inr left ↦
      let rest = record s { last_count_sample = c; remaining = s.remaining - delta s c } in
      rw (tick_counts s c pos st.0 (ground arith))
        (ground (arith, fires_when_used_up rest cs (ground arith) wired st.1))
]

-- What else may happen between two samples.
pub data Event : Type 0 where
  sample : ℕ → Event
  access : ℕ → ℕ → Event
  switch : Event
  apply : ℕ → Event

event : Pmu → Event → Bool × Pmu
event s (sample c) = tick s c
event s (access offset val) = (false, write s offset val)
event s switch = (false, reset_switch s)
event s (apply c) = (false, apply_pending_reset_state s c)

pub event_fires : Pmu → List Event → ℕ
event_fires s [] = 0
event_fires s (e ∷ es) = fire_count (event s e).0 + event_fires (event s e).1 es

event_idle :
    (s : Pmu) (e : Event)
    → s.remaining ≡ 0
    → ((event s e).0 ≡ false) × ((event s e).1.remaining ≡ 0)
unfolding event
event_idle s (sample c) h = rw (tick_idle s c h) (refl, h)
event_idle s (access offset val) h =
    (refl, unfold write write_intreg write_cntreg write_cnt2reg in ground arith)
event_idle s switch h = (refl, unfold reset_switch in h)
event_idle s (apply c) h = (refl, unfold apply_pending_reset_state in refl)

idle_forever : (s : Pmu) (es : List Event) → s.remaining ≡ 0 → event_fires s es ≡ 0
unfolding event_fires
idle_forever s [] h = refl
idle_forever s (e ∷ es) h =
    let i = event_idle s e h in rw i.0 (omega (arith, idle_forever (event s e).1 es i.1))

-- Once software has written HALTIMERRST to PMUCNTREG the HALTimer issues no cold reset, whatever
-- samples, register writes and staged resets follow, short of a wake from Hibernate.
pub acknowledged_never_fires :
    (s : Pmu) (val : ℕ) (es : List Event)
    → has val 0x4 ≡ true
    → event_fires (write s 0x02 val) es ≡ 0
acknowledged_never_fires s val es h = idle_forever (write s 0x02 val) es disarmed
  where
    disarmed : (write s 0x02 val).remaining ≡ 0
    disarmed = unfold write write_cntreg in rw h
