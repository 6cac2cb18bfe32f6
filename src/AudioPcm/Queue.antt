-- ===== src/AudioPcm/Queue.antt =====
-- The ring of frames in src/audio_pcm.c against its contents, oldest first.
use be.Base.{
  ℕ, ◌+◌, ◌-◌, ◌%◌, ◌≤◌, ◌<◌, ◌≡◌, refl, ap, ◌∙◌, ◌==◌, ltb, if◌then◌else◌, if_elim, arith,
}
use be.AudioPcm.{Frame, Ring, ring_put, ring_drain, ring_frames, at_most, kept, store, copy}

pub record IsValid (r : Ring) : Type 0 where
  pub head_in : r.head < ring_frames
  pub count_in : r.frames ≤ ring_frames

-- The `i`-th frame that waits, from the oldest.
abbrev pub nth : Ring → ℕ → Frame
nth r i = r.pcm ((r.head + ring_frames - r.frames + i) % ring_frames)

-- Frame `k` of what waits followed by what is put.
abbrev pub joined : Ring → (ℕ → Frame) → ℕ → Frame
joined r input k = if ltb k r.frames then nth r k else input (k - r.frames)

-- What the two copies of a put leave at place `p`.
abbrev mem : (ℕ → Frame) → (ℕ → Frame) → ℕ → ℕ → ℕ → ℕ → Frame
mem dest input head n first p =
    copy (copy dest head input first) 0 (λ (i : ℕ). input (first + i)) (n - first) p

mem_new :
    (dest input : ℕ → Frame) (head n first p j : ℕ)
    → head < ring_frames
    → n ≤ ring_frames
    → first ≡ at_most n (ring_frames - head)
    → j < n
    → p ≡ (head + j) % ring_frames
    → mem dest input head n first p ≡ input j
mem_new dest input head n first p j head_in n_in cut lt at = ground (arith, front, rest)
  where
    front : p - head ≡ j → input (p - head) ≡ input j
    front e = ap input e

    rest : first + (p - 0) ≡ j → input (first + (p - 0)) ≡ input j
    rest e = ap input e

mem_old :
    (dest input : ℕ → Frame) (head n first p q : ℕ)
    → head < ring_frames
    → n ≤ ring_frames
    → first ≡ at_most n (ring_frames - head)
    → q < ring_frames - n
    → p ≡ (head + n + q) % ring_frames
    → mem dest input head n first p ≡ dest p
mem_old dest input head n first p q head_in n_in cut lt at = ground arith

-- A put of at most a ring's worth.
store_lem :
    (r : Ring) (input : ℕ → Frame) (n i : ℕ)
    → IsValid r
    → n ≤ ring_frames
    → i < (store r input n).frames
    → nth (store r input n) i ≡ joined r input (r.frames + n - (store r input n).frames + i)
store_lem r input n i v h lt =
    if_elim (λ (f : Frame). mem r.pcm input r.head n (at_most n (ring_frames - r.head)) place ≡ f)
      (ltb k r.frames)
      (λ old.
        mem_old r.pcm input r.head n (at_most n (ring_frames - r.head)) place
          (ring_frames + k - n - r.frames) v.head_in h refl (ground arith)
          (ground (arith, v.count_in, v.head_in))
        ∙ ap r.pcm (ground (arith, v.count_in, v.head_in)))
      (λ new.
        mem_new r.pcm input r.head n (at_most n (ring_frames - r.head)) place (k - r.frames)
          v.head_in h refl (ground arith) (ground (arith, v.count_in, v.head_in)))
  where
    total : ℕ
    total = (store r input n).frames

    k : ℕ
    k = r.frames + n - total + i

    place : ℕ
    place = ((r.head + n) % ring_frames + ring_frames - total + i) % ring_frames

-- A put keeps the ring valid, and counts what was put, up to 22050 frames.
ring_put-IsValid :
    (r : Ring) (input : ℕ → Frame) (n : ℕ)
    → IsValid r
    → IsValid (ring_put r input n)
      × ((ring_put r input n).frames ≡ at_most ring_frames (r.frames + n))
unfolding ring_put
ring_put-IsValid r input n v =
    if_elim (λ (t : Ring). IsValid t × (t.frames ≡ at_most ring_frames (r.frames + n))) (n == 0)
      (λ none. (v, ground (arith, v.count_in)))
      (λ _. (record { head_in = omega arith; count_in = ground arith }, ground (arith, v.count_in)))

-- The frames of a valid ring after a put are the newest ones of what waited followed by what was put.
pub ring_put_lem :
    (r : Ring) (input : ℕ → Frame) (n i : ℕ)
    → IsValid r
    → i < (ring_put r input n).frames
    → nth (ring_put r input n) i ≡ joined r input (r.frames + n - (ring_put r input n).frames + i)
unfolding ring_put
ring_put_lem r input n i v =
    if_elim (λ (t : Ring). i < t.frames → nth t i ≡ joined r input (r.frames + n - t.frames + i))
      (n == 0) (λ none lt. ground (arith, nothing))
      (λ some lt.
        store_lem r (kept input n) (at_most ring_frames n) i v (ground arith) lt
        ∙ ground (arith, waited, skipped, v.count_in))
  where
    total : ℕ
    total = at_most ring_frames (r.frames + at_most ring_frames n)

    k' : ℕ
    k' = r.frames + at_most ring_frames n - total + i

    k : ℕ
    k = r.frames + n - total + i

    nothing : r.frames + n - r.frames + i ≡ i → nth r (r.frames + n - r.frames + i) ≡ nth r i
    nothing e = ap (nth r) e

    waited : k' ≡ k → nth r k' ≡ nth r k
    waited e = ap (nth r) e

    place : ℕ
    place = if ltb ring_frames n then n - ring_frames + (k' - r.frames) else k' - r.frames

    skipped : place ≡ k - r.frames → input place ≡ input (k - r.frames)
    skipped e = ap input e

-- A drain of a valid ring leaves it valid and takes its oldest frames, as many as asked for or as
-- wait; each frame that waited is either delivered, at its place, or waits still, closer to the
-- front by the frames taken.
pub ring_drain_lem :
    (r : Ring) (buffer : ℕ → Frame) (max_frames i : ℕ)
    → IsValid r
    → i < r.frames
    → let (n, out, t) = ring_drain r buffer max_frames in
      IsValid t
      × (n ≡ at_most max_frames r.frames)
      × (t.frames + n ≡ r.frames)
      × ((if ltb i n then out i else nth t (i - n)) ≡ nth r i)
unfolding ring_drain
ring_drain_lem r buffer max_frames i v h = (
  record { head_in = v.head_in; count_in = ground (arith, v.count_in) },
  refl,
  ground arith,
  ground (arith, low, high, later, v.count_in, v.head_in),
)
  where
    n : ℕ
    n = at_most max_frames r.frames

    tail : ℕ
    tail = (r.head + ring_frames - r.frames) % ring_frames

    first : ℕ
    first = at_most n (ring_frames - tail)

    here : ℕ
    here = (r.head + ring_frames - r.frames + i) % ring_frames

    low : tail + (i - 0) ≡ here → r.pcm (tail + (i - 0)) ≡ r.pcm here
    low e = ap r.pcm e

    high : i - first ≡ here → r.pcm (i - first) ≡ r.pcm here
    high e = ap r.pcm e

    left : ℕ
    left = (r.head + ring_frames - (r.frames - n) + (i - n)) % ring_frames

    later : left ≡ here → r.pcm left ≡ r.pcm here
    later e = ap r.pcm e
