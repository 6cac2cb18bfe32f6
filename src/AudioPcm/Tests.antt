-- ===== src/AudioPcm/Tests.antt =====
-- Tests of the host's PCM, and its theorems at small inputs.
use be.Base.{ℕ, ◌+◌, ◌<◌, ◌≡◌, refl, true, arith, [], ◌++◌, length}
use be.Base.Int.{ℤ, pos, negsuc}
use be.AudioPcm.{
  Frame, Resampler, Out, Ring, mix, rounds, phase_loop, convert, reset, ring_put, silence,
}
use be.AudioPcm.Queue.{IsValid}
use be.AudioPcm.Stream.{flat}
use be.AudioPcm.Cuts.{from_frame, convert_split}
use be.AudioPcm.Phase.{phase_loop_ends, convert_count}

halfway : mix (pos 100) (negsuc 99) 22_050 ≡ pos 0
unfolding mix
halfway = refl

abbrev ramp : ℕ → ℤ
ramp i = pos i

abbrev tone : ℕ → Frame
tone i = record { left = pos i; right = negsuc i }

abbrev some_ring : Ring
some_ring = record { pcm = λ i. silence; head = 22_040; frames = 5 }

some_ring-IsValid : IsValid some_ring
some_ring-IsValid = record { head_in = omega arith; count_in = omega arith }

put_count : 7 < (ring_put some_ring tone 20).frames
unfolding ring_put
put_count = omega arith

convert_split_example :
    let (t, first) = convert reset ramp 3 22_050 1 in
    let (u, second) = convert t (from_frame 3 1 ramp) 4 22_050 1 in
    let (v, whole) = convert reset ramp 7 22_050 1 in
    (flat whole ≡ flat first ++ flat second) × (v ≡ u)
convert_split_example = convert_split reset ramp 3 4 22_050 1

abbrev running : Resampler
running = record { rate = 11_025; channels = 1; primed = true; phase = 11_025; previous = silence }

abbrev empty_out : Out
empty_out = record { output = []; calls = [] }

phase_loop_ends_example :
    (44_100 < (phase_loop (rounds running) silence running empty_out).0.phase)
    × (phase_loop (rounds running + 9) silence running empty_out
        ≡ phase_loop (rounds running) silence running empty_out)
phase_loop_ends_example = phase_loop_ends 9 silence running empty_out (omega arith)

convert_count_example : length (flat (convert reset ramp 3 22_050 2).1) ≡ 5
convert_count_example = convert_count 2 22_050 2 ramp (omega arith) (omega arith)
