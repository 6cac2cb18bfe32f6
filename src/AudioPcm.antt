-- ===== src/AudioPcm.antt =====
-- The host's PCM of src/audio_pcm.c: the resampler that turns the guest's samples into stereo frames
-- at 44100 Hz, and the ring that holds frames for the host. `calls` records what the sink was given;
-- memory is a function from the index, of samples for the input and of frames for the ring. NULL
-- arguments, which the functions refuse, are not modelled.
pub mod Queue
pub mod Stream
pub mod Cuts
pub mod Phase
pub mod Levels
mod Tests
use be.Base.{
  ℕ, zero, suc, ◌+◌, ◌-◌, ◌*◌, ◌/◌, ◌%◌, Bool, true, false, not, ◌&&◌, ◌||◌, List, [], ◌∷◌, ◌++◌,
  ◌==◌, ltb, leb, if◌then◌else◌, length,
}
use be.Base.Int.{ℤ, pos, scale, add, quot, i16}

abbrev pub pcm_rate : ℕ
pcm_rate = 44_100

abbrev pub ring_frames : ℕ
ring_frames = 22_050

pub record Frame : Type 0 where
  pub left : ℤ
  pub right : ℤ

pub record Resampler : Type 0 where
  pub rate : ℕ
  pub channels : ℕ
  pub primed : Bool
  pub phase : ℕ
  pub previous : Frame

abbrev pub silence : Frame
silence = record { left = pos 0; right = pos 0 }

unfoldable pub reset : Resampler
reset = record { rate = 0; channels = 0; primed = false; phase = 0; previous = silence }

-- The frames that wait in `output`, and those that the sink has got, call by call.
pub record Out : Type 0 where
  pub output : List Frame
  pub calls : List (List Frame)

abbrev pub put_out : Out → Frame → Out
put_out o f = record o { output = o.output ++ (f ∷ []) }

-- The buffer of 512 frames goes to the sink when it is full.
abbrev pub flush_full : Out → Out
flush_full o =
    let full = length o.output == 512 in
    record {
      output = if full then [] else o.output;
      calls = if full then o.calls ++ (o.output ∷ []) else o.calls;
    }

abbrev pub flush_rest : Out → Out
flush_rest o =
    let none = length o.output == 0 in
    record {
      output = if none then o.output else [];
      calls = if none then o.calls else o.calls ++ (o.output ∷ []);
    }

-- One channel between two input frames, `fraction` / 44100 of the way.
unfoldable pub mix : ℤ → ℤ → ℕ → ℤ
mix previous current fraction =
    i16 (quot (add (scale previous (pcm_rate - fraction)) (scale current fraction)) pcm_rate)

abbrev pub interpolate : Resampler → Frame → Frame
interpolate s current = record {
  left = mix s.previous.left current.left s.phase;
  right = mix s.previous.right current.right s.phase;
}

abbrev pub advance : Resampler → Resampler
advance s = record s { phase = s.phase + s.rate }

-- How many rounds the loop takes; that it has ended then is proved with the loop.
abbrev pub rounds : Resampler → ℕ
rounds s = if leb s.phase pcm_rate then (pcm_rate - s.phase) / s.rate + 1 else 0

unfoldable pub phase_loop : ℕ → Frame → Resampler → Out → Resampler × Out
unfolding mix
phase_loop zero current s o = (s, o)
phase_loop (suc n) current s o =
    let rest = phase_loop n current (advance s) (flush_full (put_out o (interpolate s current))) in
    if leb s.phase pcm_rate then rest else (s, o)

abbrev pub retain : Frame → Resampler → Resampler
retain current s = record s { previous = current }

-- One input frame.
unfoldable pub frame : Frame → Resampler → Out → Resampler × Out
unfolding phase_loop
frame current s o =
    let (t, p) = phase_loop (rounds s) current s o in
    if not s.primed
    then (
      retain current (record s { phase = s.rate; primed = true }),
      flush_full (put_out o current),
    )
    else (retain current (record t { phase = t.phase - pcm_rate }), flush_full p)

abbrev pub input_frame : (ℕ → ℤ) → ℕ → ℕ → Frame
input_frame input channels i = record {
  left = input (i * channels);
  right = input (i * channels + channels - 1);
}

unfoldable pub frames_loop : ℕ → ℕ → (ℕ → ℤ) → ℕ → Resampler → Out → Resampler × Out
unfolding frame
frames_loop zero i input channels s o = (s, o)
frames_loop (suc n) i input channels s o =
    let (t, p) = frame (input_frame input channels i) s o in
    frames_loop n (i + 1) input channels t p

-- A zero argument stands for the default.
abbrev pub or_default : ℕ → ℕ → ℕ
or_default x d = if x == 0 then d else x

-- A change of the rate or of the channels starts a new stream.
unfoldable pub adopt : Resampler → ℕ → ℕ → Resampler
unfolding reset
adopt s rate channels =
    if s.rate == rate && s.channels == channels
    then s
    else record reset { rate = rate; channels = channels }

-- The sink's calls of one conversion.
unfoldable pub convert : Resampler → (ℕ → ℤ) → ℕ → ℕ → ℕ → Resampler × List (List Frame)
unfolding frames_loop adopt
convert s input frames rate channels =
    let r = or_default rate pcm_rate in
    let c = or_default channels 1 in
    let (t, o) = frames_loop frames 0 input c (adopt s r c) (record { output = []; calls = [] }) in
    if frames == 0 || ltb 2 c then (s, []) else (t, (flush_rest o).calls)

pub record Ring : Type 0 where
  pub pcm : ℕ → Frame
  pub head : ℕ
  pub frames : ℕ

-- `memcpy` of `n` frames to `dest + at`.
abbrev pub copy : (ℕ → Frame) → ℕ → (ℕ → Frame) → ℕ → ℕ → Frame
copy dest at source n = λ (i : ℕ). if leb at i && ltb i (at + n) then source (i - at) else dest i

unfoldable pub ring_clear : Ring → Ring
ring_clear r = record r { head = 0; frames = 0 }

abbrev pub at_most : ℕ → ℕ → ℕ
at_most limit n = if ltb limit n then limit else n

-- What is put: the last frames, if there are more than the ring holds.
abbrev pub kept : (ℕ → Frame) → ℕ → ℕ → Frame
kept input n i = input (if ltb ring_frames n then n - ring_frames + i else i)

abbrev pub store : Ring → (ℕ → Frame) → ℕ → Ring
store r input n =
    let first = at_most n (ring_frames - r.head) in
    record {
      pcm = copy (copy r.pcm r.head input first) 0 (λ (i : ℕ). input (first + i)) (n - first);
      head = (r.head + n) % ring_frames;
      frames = at_most ring_frames (r.frames + n);
    }

unfoldable pub ring_put : Ring → (ℕ → Frame) → ℕ → Ring
ring_put r input n = if n == 0 then r else store r (kept input n) (at_most ring_frames n)

-- The number of frames taken, the buffer that they are stored in, and the ring.
unfoldable pub ring_drain : Ring → (ℕ → Frame) → ℕ → ℕ × (ℕ → Frame) × Ring
ring_drain r buffer max_frames =
    let n = at_most max_frames r.frames in
    let tail = (r.head + ring_frames - r.frames) % ring_frames in
    let first = at_most n (ring_frames - tail) in
    (
      n,
      copy (copy buffer 0 (λ (i : ℕ). r.pcm (tail + i)) first) first r.pcm (n - first),
      record r { frames = r.frames - n },
    )
