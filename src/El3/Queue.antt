-- ===== src/El3/Queue.antt =====
-- The frames from the network in src/hw/el3.c: the receive slots as a queue of frames.
use mathlib.Core.List.{append-nil}
use be.Base.{
  ℕ, ◌+◌, ◌%◌, ◌≤◌, ◌<◌, ◌≡◌, refl, sym, ap, ◌∙◌, Bool, true, false, not, ◌&&◌, ◌||◌, List, [], ◌∷◌,
  ◌++◌, map, ◌==◌, ltb, leb, if_elim, if◌then◌else◌, arith, length,
}
use be.Base.Slots.{elements, items, items_append, elements-get_or}
use be.El3.{El3, Slot, receive, wanted, filled, stored, rx_frames}

abbrev frame_of : Slot → List ℕ
frame_of slot = elements slot.bytes 0 slot.frame_length

-- The frames that wait for the guest, the oldest first.
abbrev pub waiting : El3 → List (List ℕ)
waiting s = map frame_of (items s.rx rx_frames s.rx_head s.rx_count)

map-append : (xs ys : List Slot) → map frame_of (xs ++ ys) ≡ map frame_of xs ++ map frame_of ys
map-append [] ys = refl
map-append (x ∷ xs) ys = ap (λ l. frame_of x ∷ l) (map-append xs ys)

filled_lem :
    (old : Slot) (frame : List ℕ) → length frame ≤ 1536 → frame_of (filled old frame) ≡ frame
filled_lem old frame short =
    ap (λ (n : ℕ). elements (filled old frame).bytes 0 n) {y = length frame} (omega arith)
    ∙ elements-get_or frame (filled old frame).bytes 0 0 (λ k lt. ground arith)

-- The receiver is on and the frame is not too short or long.
abbrev pub legal : El3 → List ℕ → Bool
legal s frame = s.rx_enabled && leb 14 (length frame) && leb (length frame) 1536

-- A frame is consumed unless the receiver is off, its length is illegal, or the filter wants it and all eight
-- slots are taken; a consumed frame that the filter wants waits whole, behind the frames that waited, and
-- otherwise the frames that wait stay the same.
pub frame_waits :
    (s : El3) (frame : List ℕ)
    → s.rx_count ≤ rx_frames
    → let (consumed, t) = receive s frame in
      (consumed ≡ (legal s frame && (not (wanted s frame) || ltb s.rx_count rx_frames)))
      × (waiting t ≡ waiting s ++ (if consumed && wanted s frame then frame ∷ [] else []))
unfolding receive
frame_waits s frame room =
    if_elim P (not s.rx_enabled || ltb (length frame) 14 || ltb 1536 (length frame))
      (λ bad. (ground arith, sym (append-nil _)))
      (λ good.
        if_elim P (not (wanted s frame))
          (λ other. (ground arith, rw (refused other) (sym (append-nil _))))
          (λ fine.
            if_elim P (s.rx_count == rx_frames) (λ full. (ground arith, sym (append-nil _)))
              (λ free. (ground arith, rw (passed fine) (added (ground arith) (ground arith))))))
  where
    P : Bool × El3 → Type 0
    P (consumed, t) =
        (consumed ≡ (legal s frame && (not (wanted s frame) || ltb s.rx_count rx_frames)))
        × (waiting t ≡ waiting s ++ (if consumed && wanted s frame then frame ∷ [] else []))

    refused : not (wanted s frame) ≡ true → wanted s frame ≡ false
    refused e = ground arith

    passed : not (wanted s frame) ≡ false → wanted s frame ≡ true
    passed e = ground arith

    added :
        s.rx_count < rx_frames
        → length frame ≤ 1536
        → waiting (stored s frame) ≡ waiting s ++ (frame ∷ [])
    added free short =
        let at = (s.rx_head + s.rx_count) % rx_frames in
        ap (map frame_of)
          (items_append s.rx rx_frames s.rx_head s.rx_count (filled (s.rx at) frame) free)
        ∙ map-append (items s.rx rx_frames s.rx_head s.rx_count) (filled (s.rx at) frame ∷ [])
        ∙ ap (λ (f : List ℕ). waiting s ++ (f ∷ [])) (filled_lem (s.rx at) frame short)
