-- ===== src/Piu/Held.antt =====
-- The coordinate pages of src/hw/piu.c while software has not taken them.
use mathlib.Core.Path.{subst}
use be.Base.{
  ℕ, ◌≡◌, refl, ◌∙◌, Bool, true, false, not, ◌&&◌, ◌||◌, none, List, [], ◌∷◌, leb, ◌==◌,
  if◌then◌else◌, if_elim, arith,
}
use be.Base.Bits.{test_bit, test_bit-bit_or}
use be.Piu.{
  Piu, select_page, store_page, queue_coordinate_sample, set_touch, tick, time_reached, datalost,
  pen_data, standby, touched, wait_pen,
}
use be.Piu.Registers.{read}
use be.Piu.Pages.{due, due_lem, not_due}

-- What happens while the stylus stays down and the guest writes no register.
pub data Event : Type 0 where
  moved : ℕ → ℕ → ℕ → Event
  ticked : ℕ → Event
  looked : ℕ → ℕ → Event

abbrev pub step : Event → Piu → Piu
step (moved x y now) p = set_touch p true x y now
step (ticked now) p = tick p now
step (looked offset now) p = (read p offset now).1

abbrev pub run : List Event → Piu → Piu
run [] p = p
run (e ∷ es) p = run es (step e p)

abbrev time : Event → ℕ
time (moved x y now) = now
time (ticked now) = now
time (looked offset now) = now

abbrev comes_due : ℕ → List Event → Bool
comes_due ready [] = false
comes_due ready (e ∷ es) = time_reached (time e) ready || comes_due ready es

-- The sequencer waits for a sample, and one comes due at an event.
abbrev pub loses : Piu → List Event → Bool
loses p es = leb pen_data p.padstate && p.data_armed && comes_due p.data_ready_ns es

-- Both pages hold data, and the stylus is down.
pub record Full (p : Piu) : Type 0 where
  pub touching : p.touch_down ≡ true
  pub first : p.page0_valid ≡ true
  pub second : p.page1_valid ≡ true

-- State `t` has the pages of `p`; if a sample was lost, that is flagged and sampling has stopped, and
-- otherwise the sequencer is as it was.
pub record Held (p t : Piu) (lost : Bool) : Type 0 where
  pub still : Full t
  pub page0_kept : t.page0_adc ≡ p.page0_adc
  pub page1_kept : t.page1_adc ≡ p.page1_adc
  pub flag : test_bit t.ints 2 ≡ (test_bit p.ints 2 || lost)
  pub pages_flags :
      (test_bit t.ints 3 ≡ test_bit p.ints 3) × (test_bit t.ints 4 ≡ test_bit p.ints 4)
  pub sequencer : t.padstate ≡ (if lost then standby else p.padstate)
  pub armed : t.data_armed ≡ (p.data_armed && not lost)
  pub ready : lost ≡ false → t.data_ready_ns ≡ p.data_ready_ns

none_free : (p : Piu) → Full p → select_page p ≡ none
unfolding select_page
none_free p v = ground arith

kept : (p : Piu) → Full p → Held p p false
kept p v = record {
  still = v;
  page0_kept = refl;
  page1_kept = refl;
  flag = ground arith;
  pages_flags = (refl, refl);
  sequencer = refl;
  armed = ground arith;
  ready = λ _. refl;
}

refused : (p : Piu) (now : ℕ) → Full p → Held p (store_page none p now) true
unfolding store_page
refused p now v = record {
  still = record { touching = v.touching; first = v.first; second = v.second };
  page0_kept = refl;
  page1_kept = refl;
  flag = ground (arith, test_bit-bit_or 2 p.ints datalost);
  pages_flags = (
    ground (arith, test_bit-bit_or 3 p.ints datalost),
    ground (arith, test_bit-bit_or 4 p.ints datalost),
  );
  sequencer = refl;
  armed = ground arith;
  ready = λ e. ground arith;
}

sample_Held :
    (p : Piu) (now : ℕ) (b : Bool)
    → Full p
    → due p now ≡ b
    → Held p (queue_coordinate_sample p now) b
sample_Held p now true v e = rw (due_lem p now e, none_free p v) (refused p now v)
sample_Held p now false v e = rw (not_due p now e) (kept p v)

same_pages : {p t : Piu} {x y : ℕ} {b : Bool} → Held (touched p true x y) t b → Held p t b
same_pages v = record {
  still = v.still;
  page0_kept = v.page0_kept;
  page1_kept = v.page1_kept;
  flag = v.flag;
  pages_flags = v.pages_flags;
  sequencer = v.sequencer;
  armed = v.armed;
  ready = v.ready;
}

step_Held : (e : Event) (p : Piu) → Full p → Held p (step e p) (due p (time e))
unfolding set_touch tick read
step_Held (ticked now) p v = sample_Held p now (due p now) v refl
step_Held (looked offset now) p v = sample_Held p now (due p now) v refl
step_Held (moved x y now) p v =
    if_elim P (p.padstate == wait_pen && true && not p.touch_down)
      (λ bad. absurd (ground (arith, v.touching)))
      (λ _. same_pages (
        sample_Held (touched p true x y) now (due p now)
          (record { touching = refl; first = v.first; second = v.second })
          (ground (arith, v.touching))))
  where
    P : Piu → Type 0
    P t = Held p t (due p now)

then_Held : {p q t : Piu} {b c : Bool} → Held p q b → Held q t c → Held p t (b || c)
then_Held {p} {q} {t} {b} {c} v w = record {
  still = w.still;
  page0_kept = w.page0_kept ∙ v.page0_kept;
  page1_kept = w.page1_kept ∙ v.page1_kept;
  flag = ground (arith, v.flag, w.flag);
  pages_flags = (w.pages_flags.0 ∙ v.pages_flags.0, w.pages_flags.1 ∙ v.pages_flags.1);
  sequencer = ground (arith, v.sequencer, w.sequencer);
  armed = ground (arith, v.armed, w.armed);
  ready = λ e. w.ready (ground (arith, e)) ∙ v.ready (ground (arith, e));
}

loses_step :
    (e : Event) (es : List Event) (p q : Piu)
    → Full p
    → Held p q (due p (time e))
    → (due p (time e) || loses q es) ≡ loses p (e ∷ es)
loses_step e es p q v w = ground (arith, w.sequencer, w.armed, w.ready, v.touching)

-- While the stylus stays down and the guest writes no register, two pages that hold data keep their readings
-- and stay held, over any sequence of moves, ticks and register reads. The first sample that comes due meanwhile
-- is lost: the loss is flagged, the sequencer stops in standby and no sample is armed. If none comes due, nothing
-- is flagged and the sequencer stays as it was.
pub full_pages_kept : (es : List Event) (p : Piu) → Full p → Held p (run es p) (loses p es)
full_pages_kept [] p v = rw (nothing_due p) (kept p v)
  where
    nothing_due : (p : Piu) → loses p [] ≡ false
    nothing_due p = ground arith
full_pages_kept (e ∷ es) p v =
    let one = step_Held e p v in
    let more = full_pages_kept es (step e p) one.still in
    subst (Held p (run es (step e p))) (loses_step e es p (step e p) v one) (then_Held one more)
