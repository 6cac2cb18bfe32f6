-- ===== src/AudioPcm/Phase.antt =====
-- The phase of the resampler in src/audio_pcm.c: its loop ends, and the output keeps step with the input.
use native.Mathlib.Nat.{
  div-eq-sub-div, div-eq_of_lt, mul-suc, mul-add, mul_comm, add-mul, div-eq_of_lt-le,
}
use be.Base.{
  ℕ, zero, suc, ◌+◌, ◌-◌, ◌*◌, ◌/◌, ◌≤◌, ◌<◌, ◌≡◌, refl, ap, ◌∙◌, true, false, not, ◌&&◌, ◌==◌, leb,
  if_elim, arith, List, [], ◌∷◌, ◌++◌, length, length-append,
}
use be.Base.Int.{ℤ}
use be.AudioPcm.{
  Frame, Resampler, Out, put_out, flush_full, interpolate, advance, rounds, phase_loop, input_frame,
  or_default, adopt, convert, pcm_rate, reset, retain,
}
use be.AudioPcm.Cuts.{started, adopt_keeps}
use be.AudioPcm.Stream.{flat, points, one, many, convert_lem}

rounds-zero : (s : Resampler) → 0 ≡ rounds s → pcm_rate < s.phase
rounds-zero s e = ground arith

rounds-suc :
    (s : Resampler) (n : ℕ)
    → 1 ≤ s.rate
    → suc n ≡ rounds s
    → (s.phase ≤ pcm_rate) × (n ≡ rounds (advance s))
rounds-suc s n h e = (within, ground (arith, e, within, more, last))
  where
    within : s.phase ≤ pcm_rate
    within = ground arith

    more :
        s.rate ≤ pcm_rate - s.phase
        → (pcm_rate - s.phase) / s.rate ≡ (pcm_rate - s.phase - s.rate) / s.rate + 1
    more le = div-eq-sub-div (omega arith) le

    last : pcm_rate - s.phase < s.rate → (pcm_rate - s.phase) / s.rate ≡ 0
    last lt = div-eq_of_lt lt

-- More rounds than are counted change nothing.
more_rounds :
    (m n k : ℕ) (f : Frame) (s : Resampler) (o : Out)
    → m ≡ n + k
    → 1 ≤ s.rate
    → n ≡ rounds s
    → (phase_loop m f s o ≡ phase_loop n f s o) × (pcm_rate < (phase_loop n f s o).0.phase)
unfolding phase_loop
more_rounds zero zero k f s o total h e = (refl, rounds-zero s e)
more_rounds zero (suc n) k f s o total h e = absurd (omega arith)
more_rounds (suc m) zero k f s o total h e = (
  if_elim (λ (r : Resampler × Out). r ≡ (s, o)) (leb s.phase pcm_rate)
      (λ within. absurd (ground (arith, rounds-zero s e))) (λ _. refl),
  rounds-zero s e,
)
more_rounds (suc m) (suc n) k f s o total h e =
    let (within, count) = rounds-suc s n h e in
    let (same, over) =
      more_rounds m n k f (advance s) (flush_full (put_out o (interpolate s f))) (omega arith) h
        count in
    let on : leb s.phase pcm_rate ≡ true = ground (arith, within) in rw on (same, over)

-- At a rate above 0 the loop over the phase ends within the rounds that are counted, since the phase is
-- past 44100 then, and more rounds would change nothing.
pub phase_loop_ends :
    (k : ℕ) (f : Frame) (s : Resampler) (o : Out)
    → 1 ≤ s.rate
    → (pcm_rate < (phase_loop (rounds s) f s o).0.phase)
      × (phase_loop (rounds s + k) f s o ≡ phase_loop (rounds s) f s o)
phase_loop_ends k f s o h =
    let (same, over) = more_rounds (rounds s + k) (rounds s) k f s o refl h refl in (over, same)

points_lem :
    (n : ℕ) (f : Frame) (s : Resampler)
    → 1 ≤ s.rate
    → n ≡ rounds s
    → s.phase ≤ pcm_rate + s.rate
    → let (l, t) = points n f s in
      (pcm_rate < t.phase)
      × (t.phase ≤ pcm_rate + s.rate)
      × (t.phase ≡ s.phase + s.rate * length l)
      × (t.rate ≡ s.rate)
      × (t.primed ≡ s.primed)
unfolding points
points_lem zero f s h e below = (rounds-zero s e, below, omega arith, refl, refl)
points_lem (suc n) f s h e below =
    let (within, count) = rounds-suc s n h e in
    let (l, t) = points n f (advance s) in
    let (over, under, at, rate, primed) = points_lem n f (advance s) h count (omega arith) in
    let on : leb s.phase pcm_rate ≡ true = ground (arith, within) in
    rw on (over, under, omega (arith, at, mul-suc s.rate (length l)), rate, primed)

-- Between input frames the phase is above 0 and at most the rate.
pub record Steady (s : Resampler) : Type 0 where
  pub primed : s.primed ≡ true
  pub some : 1 ≤ s.phase
  pub bounded : s.phase ≤ s.rate

one_lem :
    (f : Frame) (s : Resampler)
    → Steady s
    → let (l, t) = one f s in
      Steady t × (t.rate ≡ s.rate) × (t.phase + pcm_rate ≡ s.phase + s.rate * length l)
unfolding one
one_lem f s v =
    let (over, under, at, rate, primed) =
      points_lem (rounds s) f s (omega (arith, v.some, v.bounded)) refl
        (omega (arith, v.bounded)) in
    if_elim P (not s.primed) (λ fresh. absurd (ground (arith, v.primed)))
      (λ _. (
        record {
          primed = primed ∙ v.primed;
          some = omega (arith, over);
          bounded = omega (arith, under, rate);
        },
        rate,
        omega (arith, at, over),
      ))
  where
    P : List Frame × Resampler → Type 0
    P (l, t) = Steady t × (t.rate ≡ s.rate) × (t.phase + pcm_rate ≡ s.phase + s.rate * length l)

many_lem :
    (n i : ℕ) (input : ℕ → ℤ) (c : ℕ) (s : Resampler)
    → Steady s
    → let (l, t) = many n i input c s in
      Steady t × (t.rate ≡ s.rate) × (t.phase + pcm_rate * n ≡ s.phase + s.rate * length l)
unfolding many
many_lem zero i input c s v = (v, refl, omega arith)
many_lem (suc n) i input c s v =
    let f = input_frame input c i in
    let (l, t) = one f s in
    let (k, u) = many n (i + 1) input c t in
    let (steady, rate, at) = one_lem f s v in
    let (steady_rest, rate_rest, at_rest) = many_lem n (i + 1) input c t steady in
    (
      steady_rest,
      rate_rest ∙ rate,
      omega (
        arith,
        at,
        at_rest,
        ap (λ (r : ℕ). r * length k) rate,
        mul-suc pcm_rate n,
        length-append l k,
        mul-add s.rate (length l) (length k),
        ap (λ (x : ℕ). s.rate * x) (length-append l k),
      ),
    )

-- The first frame of a stream.
fresh_lem :
    (n i : ℕ) (input : ℕ → ℤ) (c : ℕ) (s : Resampler)
    → s.primed ≡ false
    → 1 ≤ s.rate
    → length (many (suc n) i input c s).0 ≡ pcm_rate * n / s.rate + 1
unfolding many one
fresh_lem n i input c s fresh h =
    if_elim
      (λ (r : List Frame × Resampler).
        length (r.0 ++ (many n (i + 1) input c r.1).0) ≡ pcm_rate * n / s.rate + 1)
      (not s.primed) (λ _. rest) (λ primed. absurd (ground (arith, fresh)))
  where
    f : Frame
    f = input_frame input c i

    t : Resampler
    t = retain f (record s { phase = s.rate; primed = true })

    k : List Frame
    k = (many n (i + 1) input c t).0

    all :
        Steady (many n (i + 1) input c t).1
        × ((many n (i + 1) input c t).1.rate ≡ s.rate)
        × ((many n (i + 1) input c t).1.phase + pcm_rate * n ≡ s.rate + s.rate * length k)
    all = many_lem n (i + 1) input c t (record { primed = refl; some = h; bounded = omega arith })

    quotient : pcm_rate * n / s.rate ≡ length k
    quotient =
        let comm = mul_comm (length k) s.rate in
        let more = add-mul (length k) 1 s.rate in
        div-eq_of_lt-le s.rate (omega (arith, all.0.bounded, all.1, all.2, comm))
          (omega (arith, all.0.some, all.2, comm, more))

    rest : length ((f ∷ []) ++ k) ≡ pcm_rate * n / s.rate + 1
    rest = omega (arith, quotient)

fresh_start : (r c : ℕ) → (adopt reset r c).primed ≡ false
unfolding adopt reset
fresh_start r c =
    if_elim (λ (s : Resampler). s.primed ≡ false) (0 == r && 0 == c) (λ _. refl) (λ _. refl)

-- A new stream of `n` + 1 frames at a rate above 0, mono or stereo, makes 44100 `n` / rate + 1
-- frames.
pub convert_count :
    (n rate channels : ℕ) (input : ℕ → ℤ)
    → 1 ≤ rate
    → channels ≤ 2
    → length (flat (convert reset input (n + 1) rate channels).1) ≡ pcm_rate * n / rate + 1
convert_count n rate channels input h narrow =
    ap length ((convert_lem reset input (n + 1) rate channels).0)
    ∙ ap (λ (r : List Frame × Resampler). length r.0)
        (started reset input (n + 1) rate channels (ground arith))
    ∙ ap (λ (k : ℕ). length (many k 0 input c a).0) {x = n + 1} {y = suc n} (omega arith)
    ∙ fresh_lem n 0 input c a (fresh_start r c) (omega (arith, rated))
    ∙ ap (λ (x : ℕ). pcm_rate * n / x + 1) rated
  where
    c : ℕ
    c = or_default channels 1

    r : ℕ
    r = or_default rate pcm_rate

    a : Resampler
    a = adopt reset r c

    rated : a.rate ≡ rate
    rated = (adopt_keeps reset r c).0 ∙ ground arith
