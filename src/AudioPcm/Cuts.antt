-- ===== src/AudioPcm/Cuts.antt =====
-- The stream of src/audio_pcm.c under cuts of the input: a conversion of two blocks in turn gives what
-- one conversion of both gives.
use mathlib.Core.List.{append_assoc}
use mathlib.Core.Path.{ap₂, fun_ext}
use native.Mathlib.Nat.{add-mul}
use be.Base.{
  ℕ, zero, suc, ◌+◌, ◌*◌, ◌≤◌, ◌≡◌, refl, sym, ap, ◌∙◌, true, false, ◌&&◌, ◌||◌, ◌==◌, ltb, leb,
  if_elim, arith, List, [], ◌++◌, Bool-cases, inl, inr,
}
use be.Base.Int.{ℤ}
use be.AudioPcm.{
  Frame, Resampler, input_frame, or_default, adopt, convert, pcm_rate, advance, rounds,
}
use be.AudioPcm.Stream.{flat, one, many, resample, convert_lem, points}

-- The stream after a first part.
abbrev then_many : ℕ → ℕ → (ℕ → ℤ) → ℕ → List Frame × Resampler → List Frame × Resampler
then_many m i input c r = (r.0 ++ (many m i input c r.1).0, (many m i input c r.1).1)

many_append :
    (n a b i : ℕ) (input : ℕ → ℤ) (c : ℕ) (s : Resampler)
    → a + b ≡ n
    → many n i input c s ≡ then_many b (i + a) input c (many a i input c s)
unfolding many
many_append n zero b i input c s e =
    ap (λ (m : ℕ). many m i input c s) {x = n} {y = b} (omega arith)
    ∙ ap (λ (k : ℕ). many b k input c s) {x = i} {y = i + 0} (omega arith)
many_append zero (suc a) b i input c s e = absurd (omega arith)
many_append (suc n) (suc a) b i input c s e =
    let (l, t) = one (input_frame input c i) s in
    let front = many a (i + 1) input c t in
    ap (λ (r : List Frame × Resampler). (l ++ r.0, r.1))
      (many_append n a b (i + 1) input c t (omega arith)
        ∙ ap (λ (k : ℕ). then_many b k input c front) {x = i + 1 + a} {y = i + suc a} (omega arith))
    ∙ ap (λ k. (k, (many b (i + suc a) input c front.1).1))
        (sym (append_assoc l front.0 (many b (i + suc a) input c front.1).0))

same_frame :
    (i j k : ℕ) (input : ℕ → ℤ) (c : ℕ)
    → 1 ≤ c
    → k ≡ i + j
    → input_frame input c k ≡ input_frame (λ (x : ℕ). input (i * c + x)) c j
same_frame i j k input c h e =
    ap₂ (λ a b. record { left = a; right = b }) (ap input place)
      (ap input (omega (arith, place, h)))
  where
    place : k * c ≡ i * c + j * c
    place = ap (λ (x : ℕ). x * c) e ∙ add-mul i j c

many-shift :
    (m i j k : ℕ) (input : ℕ → ℤ) (c : ℕ) (s : Resampler)
    → 1 ≤ c
    → k ≡ i + j
    → many m k input c s ≡ many m j (λ (x : ℕ). input (i * c + x)) c s
unfolding many
many-shift zero i j k input c s h e = refl
many-shift (suc m) i j k input c s h e =
    ap
      (λ f. (
        (one f s).0 ++ (many m (k + 1) input c (one f s).1).0,
        (many m (k + 1) input c (one f s).1).1,
      ))
      (same_frame i j k input c h e)
    ∙ ap (λ (r : List Frame × Resampler). ((one here s).0 ++ r.0, r.1))
        (many-shift m i (j + 1) (k + 1) input c (one here s).1 h (omega arith))
  where
    here : Frame
    here = input_frame (λ (x : ℕ). input (i * c + x)) c j

-- A frame keeps the rate and the channels.
abbrev Same : Resampler → Resampler → Type 0
Same t s = (t.rate ≡ s.rate) × (t.channels ≡ s.channels)

points_keeps : (n : ℕ) (f : Frame) (s : Resampler) → Same (points n f s).1 s
unfolding points
points_keeps zero f s = (refl, refl)
points_keeps (suc n) f s = elim (Bool-cases (leb s.phase pcm_rate)) [
  | inl e ↦ rw e (points_keeps n f (advance s))
  | inr e ↦ rw e (refl, refl)
]

one_keeps : (f : Frame) (s : Resampler) → Same (one f s).1 s
unfolding one
one_keeps f s = elim (Bool-cases s.primed) [
  | inl e ↦ simp e (points_keeps (rounds s) f s)
  | inr e ↦ simp e (refl, refl)
]

many_keeps : (n i : ℕ) (input : ℕ → ℤ) (c : ℕ) (s : Resampler) → Same (many n i input c s).1 s
unfolding many
many_keeps zero i input c s = (refl, refl)
many_keeps (suc n) i input c s =
    let (l, t) = one (input_frame input c i) s in
    let (rate, channels) = many_keeps n (i + 1) input c t in
    let (rate', channels') = one_keeps (input_frame input c i) s in
    (rate ∙ rate', channels ∙ channels')

-- The stream of a resampler that has the rate and the channels already.
resumed :
    (t : Resampler) (input : ℕ → ℤ) (m rate channels : ℕ)
    → t.rate ≡ or_default rate pcm_rate
    → t.channels ≡ or_default channels 1
    → ltb 2 (or_default channels 1) ≡ false
    → resample t input m rate channels ≡ many m 0 input (or_default channels 1) t
unfolding resample adopt many
resumed t input m rate channels same_rate same_channels narrow =
    if_elim (λ (r : List Frame × Resampler). r ≡ many m 0 input c t) (m == 0 || ltb 2 c)
      (λ none. empty m (ground arith)) (λ _. ap (λ u. many m 0 input c u) adopted)
  where
    c : ℕ
    c = or_default channels 1

    adopted : adopt t (or_default rate pcm_rate) c ≡ t
    adopted =
        if_elim (λ (u : Resampler). u ≡ t) (t.rate == or_default rate pcm_rate && t.channels == c)
          (λ _. refl) (λ differs. absurd (ground arith))

    empty : (k : ℕ) → k ≡ 0 → ([], t) ≡ many k 0 input c t
    empty k e = ap (λ (j : ℕ). many j 0 input c t) (sym e)

refused :
    (s : Resampler) (input : ℕ → ℤ) (n rate channels : ℕ)
    → (n == 0 || ltb 2 (or_default channels 1)) ≡ true
    → resample s input n rate channels ≡ ([], s)
unfolding resample
refused s input n rate channels e = rw e refl

pub started :
    (s : Resampler) (input : ℕ → ℤ) (n rate channels : ℕ)
    → (n == 0 || ltb 2 (or_default channels 1)) ≡ false
    → resample s input n rate channels
      ≡ many n 0 input
          (or_default channels 1)
          (adopt s (or_default rate pcm_rate) (or_default channels 1))
unfolding resample
started s input n rate channels e = rw e refl

-- The stream of a second block after the first.
abbrev then_resample : (ℕ → ℤ) → ℕ → ℕ → ℕ → List Frame × Resampler → List Frame × Resampler
then_resample input m rate channels r =
    (r.0 ++ (resample r.1 input m rate channels).0, (resample r.1 input m rate channels).1)

-- The input after `n` frames.
abbrev pub from_frame : ℕ → ℕ → (ℕ → ℤ) → ℕ → ℤ
from_frame n channels input = λ (x : ℕ). input (n * or_default channels 1 + x)

pub adopt_keeps :
    (s : Resampler) (r c : ℕ) → ((adopt s r c).rate ≡ r) × ((adopt s r c).channels ≡ c)
unfolding adopt
adopt_keeps s r c =
    if_elim (λ (u : Resampler). (u.rate ≡ r) × (u.channels ≡ c)) (s.rate == r && s.channels == c)
      (λ same. ground arith) (λ _. (refl, refl))

-- The stream of `n` + `m` frames is that of the first `n` followed by that of the others.
resample_split :
    (s : Resampler) (input : ℕ → ℤ) (n m rate channels : ℕ)
    → resample s input (n + m) rate channels
      ≡ then_resample
          (from_frame n channels input)
          m
          rate
          channels
          (resample s input n rate channels)
resample_split s input n m rate channels = elim (Bool-cases (ltb 2 c)) [
  | inl wide ↦
      refused s input (n + m) rate channels (ground arith)
      ∙ sym (
          ap next (refused s input n rate channels (ground arith))
          ∙ ap (λ (r : List Frame × Resampler). ([] ++ r.0, r.1))
              (refused s rest m rate channels (ground arith)))
  | inr narrow ↦ elim (Bool-cases (n == 0)) [
    | inl none ↦
        ap (λ (k : ℕ). resample s input k rate channels) {x = n + m} {y = m} (ground arith)
        ∙ ap (λ (f : ℕ → ℤ). resample s f m rate channels) (sym (same_input (ground arith)))
        ∙ sym (ap next (refused s input n rate channels (ground arith)))
    | inr some ↦
        started s input (n + m) rate channels (ground arith)
        ∙ many_append (n + m) n m 0 input c a refl
        ∙ ap (λ (r : List Frame × Resampler). ((many n 0 input c a).0 ++ r.0, r.1))
            (many-shift m n 0 (0 + n) input c (many n 0 input c a).1 (ground arith) (omega arith)
              ∙ sym (resumed (many n 0 input c a).1 rest m rate channels rated tracked narrow))
        ∙ sym (ap next (started s input n rate channels (ground arith)))
  ]
]
  where
    c : ℕ
    c = or_default channels 1

    a : Resampler
    a = adopt s (or_default rate pcm_rate) c

    rest : ℕ → ℤ
    rest = from_frame n channels input

    next : List Frame × Resampler → List Frame × Resampler
    next = then_resample rest m rate channels

    rated : (many n 0 input c a).1.rate ≡ or_default rate pcm_rate
    rated = (many_keeps n 0 input c a).0 ∙ (adopt_keeps s (or_default rate pcm_rate) c).0

    tracked : (many n 0 input c a).1.channels ≡ c
    tracked = (many_keeps n 0 input c a).1 ∙ (adopt_keeps s (or_default rate pcm_rate) c).1

    same_input : n ≡ 0 → rest ≡ input
    same_input e = fun_ext (λ x. ap input (omega (arith, ap (λ (k : ℕ). k * c) e)))

-- Cutting the input in two does not change what the sink gets, over all its calls, nor the resampler that
-- is left: a conversion of `n` frames and then one of the `m` frames after them is one of all of them.
pub convert_split :
    (s : Resampler) (input : ℕ → ℤ) (n m rate channels : ℕ)
    → let (t, first) = convert s input n rate channels in
      let (u, second) = convert t (from_frame n channels input) m rate channels in
      let (v, whole) = convert s input (n + m) rate channels in
      (flat whole ≡ flat first ++ flat second) × (v ≡ u)
convert_split s input n m rate channels =
    let (t, first) = convert s input n rate channels in
    let (frames, left) = convert_lem s input n rate channels in
    let (frames', left') = convert_lem t rest m rate channels in
    let (all_frames, all_left) = convert_lem s input (n + m) rate channels in
    let split = resample_split s input n m rate channels in
    let moved = ap (λ x. resample x rest m rate channels) left in
    (
      all_frames
          ∙ ap (λ (r : List Frame × Resampler). r.0) split
          ∙ sym (ap₂ ◌++◌ frames (frames' ∙ ap (λ (r : List Frame × Resampler). r.0) moved)),
      all_left
          ∙ ap (λ (r : List Frame × Resampler). r.1) split
          ∙ sym (left' ∙ ap (λ (r : List Frame × Resampler). r.1) moved),
    )
  where
    rest : ℕ → ℤ
    rest = from_frame n channels input
