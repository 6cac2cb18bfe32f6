-- ===== src/AudioPcm/Stream.antt =====
-- The resampler of src/audio_pcm.c against the stream of frames that it produces: what reaches the sink
-- does not depend on the buffer of 512 frames, nor on how the input is cut.
use mathlib.Core.List.{append-nil, append_assoc}
use be.Base.{
  ℕ, zero, suc, ◌+◌, ◌-◌, ◌≡◌, refl, sym, ap, ◌∙◌, true, not, ◌||◌, ◌==◌, ltb, leb, if◌then◌else◌,
  if_elim, arith, List, [], ◌∷◌, ◌++◌, length, Bool-cases, inl, inr,
}
use be.Base.Int.{ℤ}
use be.AudioPcm.{
  Frame, Resampler, Out, put_out, flush_full, flush_rest, interpolate, advance, rounds, phase_loop,
  retain, frame, input_frame, frames_loop, or_default, adopt, convert, pcm_rate,
}

abbrev pub flat : List (List Frame) → List Frame
flat [] = []
flat (x ∷ xs) = x ++ flat xs

-- The frames produced so far: those that the sink has got, and those that wait.
abbrev pub sent : Out → List Frame
sent o = flat o.calls ++ o.output

flat-append : (xs : List (List Frame)) (x : List Frame) → flat (xs ++ (x ∷ [])) ≡ flat xs ++ x
flat-append [] x = append-nil x
flat-append (y ∷ xs) x = ap (λ l. y ++ l) (flat-append xs x) ∙ sym (append_assoc y (flat xs) x)

sent-put_out : (o : Out) (f : Frame) → sent (put_out o f) ≡ sent o ++ (f ∷ [])
sent-put_out o f = sym (append_assoc (flat o.calls) o.output (f ∷ []))

sent-flush_full : (o : Out) → sent (flush_full o) ≡ sent o
sent-flush_full o = elim (Bool-cases (length o.output == 512)) [
  | inl full ↦
      rw full (append-nil (flat (o.calls ++ (o.output ∷ []))) ∙ flat-append o.calls o.output)
  | inr room ↦ rw room refl
]

rest-sent :
    (l : List Frame) (c : List (List Frame))
    → flat (flush_rest (record { output = l; calls = c })).calls ≡ flat c ++ l
rest-sent [] c = sym (append-nil (flat c))
rest-sent (f ∷ fs) c =
    if_elim (λ (k : List (List Frame)). flat k ≡ flat c ++ (f ∷ fs)) (suc (length fs) == 0)
      (λ none. absurd (ground arith)) (λ _. flat-append c (f ∷ fs))

flat-flush_rest : (o : Out) → flat (flush_rest o).calls ≡ sent o
flat-flush_rest o = rest-sent o.output o.calls

-- The frames between two input frames, without the buffer.
unfoldable pub points : ℕ → Frame → Resampler → List Frame × Resampler
points zero current s = ([], s)
points (suc n) current s =
    let (l, t) = points n current (advance s) in
    if leb s.phase pcm_rate then (interpolate s current ∷ l, t) else ([], s)

unfoldable pub one : Frame → Resampler → List Frame × Resampler
unfolding points
one current s =
    let (l, t) = points (rounds s) current s in
    if not s.primed
    then (current ∷ [], retain current (record s { phase = s.rate; primed = true }))
    else (l, retain current (record t { phase = t.phase - pcm_rate }))

unfoldable pub many : ℕ → ℕ → (ℕ → ℤ) → ℕ → Resampler → List Frame × Resampler
unfolding one
many zero i input channels s = ([], s)
many (suc n) i input channels s =
    let (l, t) = one (input_frame input channels i) s in
    let (m, u) = many n (i + 1) input channels t in (l ++ m, u)

-- The buffered result `r`, after `o`, is the stream's `q`.
abbrev Follows : Out → Resampler × Out → List Frame × Resampler → Type 0
Follows o r q = (r.0 ≡ q.1) × (sent r.1 ≡ sent o ++ q.0)

add_point : (o : Out) (f : Frame) → sent (flush_full (put_out o f)) ≡ sent o ++ (f ∷ [])
add_point o f = sent-flush_full (put_out o f) ∙ sent-put_out o f

phase_loop_lem :
    (n : ℕ) (current : Frame) (s : Resampler) (o : Out)
    → Follows o (phase_loop n current s o) (points n current s)
unfolding phase_loop points
phase_loop_lem zero current s o = (refl, sym (append-nil (sent o)))
phase_loop_lem (suc n) current s o =
    let f = interpolate s current in
    let (same, frames) = phase_loop_lem n current (advance s) (flush_full (put_out o f)) in
    elim (Bool-cases (leb s.phase pcm_rate)) [
      | inl e ↦ rw e (
        same,
        frames
            ∙ ap (λ l. l ++ (points n current (advance s)).0) (add_point o f)
            ∙ append_assoc (sent o) (f ∷ []) (points n current (advance s)).0,
      )
      | inr e ↦ rw e (refl, sym (append-nil (sent o)))
    ]

frame_lem :
    (current : Frame) (s : Resampler) (o : Out) → Follows o (frame current s o) (one current s)
unfolding frame one
frame_lem current s o =
    let (same, frames) = phase_loop_lem (rounds s) current s o in
    let p = (phase_loop (rounds s) current s o).1 in
    elim (Bool-cases s.primed) [
      | inl e ↦ simp e (
        ap (λ (t : Resampler). retain current (record t { phase = t.phase - pcm_rate })) same,
        sent-flush_full p ∙ frames,
      )
      | inr e ↦ simp e (refl, add_point o current)
    ]

frames_loop_lem :
    (n i : ℕ) (input : ℕ → ℤ) (channels : ℕ) (s : Resampler) (o : Out)
    → Follows o (frames_loop n i input channels s o) (many n i input channels s)
unfolding frames_loop many
frames_loop_lem zero i input channels s o = (refl, sym (append-nil (sent o)))
frames_loop_lem (suc n) i input channels s o =
    let current = input_frame input channels i in
    let (same, frames) = frame_lem current s o in
    let (t, p) = frame current s o in
    let (l, t') = one current s in
    let (same_rest, frames_rest) = frames_loop_lem n (i + 1) input channels t p in
    (
      same_rest ∙ ap (λ (u : Resampler). (many n (i + 1) input channels u).1) same,
      frames_rest
          ∙ ap (λ k. k ++ (many n (i + 1) input channels t).0) frames
          ∙ ap (λ (u : Resampler). (sent o ++ l) ++ (many n (i + 1) input channels u).0) same
          ∙ append_assoc (sent o) l (many n (i + 1) input channels t').0,
    )

-- The frames of a conversion, and the resampler after it.
unfoldable pub resample : Resampler → (ℕ → ℤ) → ℕ → ℕ → ℕ → List Frame × Resampler
unfolding many
resample s input n rate channels =
    let c = or_default channels 1 in
    if n == 0 || ltb 2 c then ([], s) else many n 0 input c (adopt s (or_default rate pcm_rate) c)

-- The sink gets, over all its calls of a conversion, the frames of the stream, and the resampler that is
-- left is the stream's.
pub convert_lem :
    (s : Resampler) (input : ℕ → ℤ) (n rate channels : ℕ)
    → let (t, calls) = convert s input n rate channels in
      let (frames, u) = resample s input n rate channels in (flat calls ≡ frames) × (t ≡ u)
unfolding convert resample
convert_lem s input n rate channels = elim (Bool-cases (n == 0 || ltb 2 c)) [
  | inl e ↦ rw e (refl, refl)
  | inr e ↦ rw e (flat-flush_rest o ∙ frames, same)
]
  where
    c : ℕ
    c = or_default channels 1

    r : Resampler
    r = adopt s (or_default rate pcm_rate) c

    o : Out
    o = (frames_loop n 0 input c r (record { output = []; calls = [] })).1

    both :
        Follows
          (record { output = []; calls = [] })
          (frames_loop n 0 input c r (record { output = []; calls = [] }))
          (many n 0 input c r)
    both = frames_loop_lem n 0 input c r (record { output = []; calls = [] })

    same :
        (frames_loop n 0 input c r (record { output = []; calls = [] })).0 ≡ (many n 0 input c r).1
    same = both.0

    frames : sent o ≡ (many n 0 input c r).0
    frames = both.1
