-- ===== src/PccRing/Queue.antt =====
-- What src/pcconnect_ring.h promises: a queue of at most `cap` bytes, oldest first, that loses its
-- oldest byte to make room.
use be.Base.{ℕ, Option, none, some, List, [], ◌∷◌, ◌++◌, ◌==◌, if◌then◌else◌, length, drop}
use be.PccRing.{Op, put, get, reset}

unfoldable pub dequeue : List ℕ → Option ℕ × List ℕ
dequeue [] = (none, [])
dequeue (x ∷ q) = (some x, q)

module _ (cap : ℕ) where
  unfoldable pub enqueue : List ℕ → ℕ → List ℕ
  enqueue q x =
      if cap == 0 then q else if length q == cap then drop 1 q ++ (x ∷ []) else q ++ (x ∷ [])

  unfoldable pub run : List ℕ → List Op → List (Option ℕ) × List ℕ
  run q [] = ([], q)
  run q (put x ∷ ops) = run (enqueue q x) ops
  run q (get ∷ ops) =
      let (out, q') = dequeue q in let (outs, last) = run q' ops in (out ∷ outs, last)
  run q (reset ∷ ops) = run [] ops
