-- ===== src/PccRing/Refine.antt =====
-- A valid ring of src/pcconnect_ring.h behaves as the queue of the bytes that it holds.
use native.Mathlib.Nat.{mod-add-mod, mod-eq_of_lt, mod-mod}
use mathlib.Core.Path.{ap₂}
use be.Base.{
  ℕ, Bool, zero, suc, ◌+◌, ◌-◌, ◌%◌, ◌≤◌, ◌<◌, ◌≡◌, refl, sym, ap, ◌∙◌, ◌≢◌, inl, inr, Bool-cases,
  false, true, Option, List, [], ◌∷◌, ◌++◌, ◌==◌, if◌then◌else◌, length, get_or, set, drop,
  get_or-set_self, get_or-set_ne, arith,
}
use be.PccRing.{Ring, make_room, store, push, pop, peek, clear, run, Op, put, get, reset}
use be.PccRing.Queue
use be.PccRing.Inv.{
  IsValid, push-IsValid, pop-IsValid, clear-IsValid, cap-push, cap-pop, make_room-IsValid,
  cap-make_room, head-lt-cap,
}

-- The `n` bytes of the storage from position `s` on, going round at `cap`.
abbrev slice : List ℕ → ℕ → ℕ → ℕ → List ℕ
slice buf cap s zero = []
slice buf cap s (suc n) = get_or buf (s % cap) 0 ∷ slice buf cap (s + 1) n

-- The bytes that the ring holds, oldest first.
abbrev pub contents : Ring → List ℕ
contents r = slice r.buf r.cap r.tail r.count

length-slice : (buf : List ℕ) (cap s n : ℕ) → length (slice buf cap s n) ≡ n
length-slice buf cap s zero = refl
length-slice buf cap s (suc n) = ap suc (length-slice buf cap (s + 1) n)

-- Only the position modulo `cap` counts.
slice_mod :
    (buf : List ℕ) (cap s t n : ℕ) → s % cap ≡ t % cap → slice buf cap s n ≡ slice buf cap t n
slice_mod buf cap s t zero e = refl
slice_mod buf cap s t (suc n) e =
    ap₂ ◌∷◌ (ap (λ k. get_or buf k 0) e) (slice_mod buf cap (s + 1) (t + 1) n next)
  where
    next : (s + 1) % cap ≡ (t + 1) % cap
    next = sym (mod-add-mod s cap 1) ∙ ap (λ (k : ℕ). (k + 1) % cap) e ∙ mod-add-mod t cap 1

-- Positions less than `cap` apart are different places.
places_differ : (cap s t : ℕ) → s < t → t < s + cap → s % cap ≢ t % cap
places_differ cap s t p q e = grind arith

slice-set :
    (buf : List ℕ) (cap s n at x : ℕ)
    → s + n ≤ at
    → at < s + cap
    → slice (set buf (at % cap) x) cap s n ≡ slice buf cap s n
slice-set buf cap s zero at x p q = refl
slice-set buf cap s (suc n) at x p q =
    ap₂ ◌∷◌
      (get_or-set_ne buf (at % cap) (s % cap) x 0
        (λ e. places_differ cap s at (omega arith) q (sym e)))
      (slice-set buf cap (s + 1) n at x (omega arith) (omega arith))

slice_snoc :
    (buf : List ℕ) (cap s n : ℕ)
    → slice buf cap s (suc n) ≡ slice buf cap s n ++ (get_or buf ((s + n) % cap) 0 ∷ [])
slice_snoc buf cap s zero = ap (λ (k : ℕ). get_or buf (k % cap) 0 ∷ []) (omega arith)
slice_snoc buf cap s (suc n) =
    ap (λ l. get_or buf (s % cap) 0 ∷ l)
      (slice_snoc buf cap (s + 1) n
        ∙ ap (λ (k : ℕ). slice buf cap (s + 1) n ++ (get_or buf (k % cap) 0 ∷ [])) (omega arith))

slice_tail :
    (buf : List ℕ) (cap s n : ℕ)
    → 0 < n
    → slice buf cap s n ≡ get_or buf (s % cap) 0 ∷ slice buf cap (s + 1) (n - 1)
slice_tail buf cap s zero pos = elim pos [ ]
slice_tail buf cap s (suc n) pos = ap (λ (k : ℕ). slice buf cap s (suc k)) (omega arith)

pub length-contents : (r : Ring) → length (contents r) ≡ r.count
length-contents r = length-slice r.buf r.cap r.tail r.count

-- Taking the oldest byte away, as `pcc_ring_pop` and a full `pcc_ring_push` do.
pub contents_rest :
    {r : Ring}
    → IsValid r
    → 0 < r.count
    → contents r ≡ get_or r.buf r.tail 0 ∷ slice r.buf r.cap ((r.tail + 1) % r.cap) (r.count - 1)
contents_rest {r} v pos =
    slice_tail r.buf r.cap r.tail r.count pos
    ∙ ap₂ ◌∷◌ (ap (λ (k : ℕ). get_or r.buf k 0) (mod-eq_of_lt inside)) (
        slice_mod r.buf r.cap (r.tail + 1) ((r.tail + 1) % r.cap) (r.count - 1) (sym (mod-mod _ _)))
  where
    inside : r.tail < r.cap
    inside = ground arith

contents-make_room :
    {r : Ring}
    → IsValid r
    → 0 < r.cap
    → contents (make_room r)
      ≡ (if length (contents r) == r.cap then drop 1 (contents r) else contents r)
unfolding make_room
contents-make_room {r} v pos = elim (Bool-cases (r.count == r.cap)) [
  | inl full ↦
      rw (length-contents r, full) (sym (ap (λ l. drop 1 l) (contents_rest v (ground arith))))
  | inr spare ↦ rw (length-contents r, spare)
]

contents-store :
    {r : Ring} (x : ℕ) → IsValid r → r.count < r.cap → contents (store r x) ≡ contents r ++ (x ∷ [])
unfolding store
contents-store {r} x v room =
    ap (λ (n : ℕ). slice (set r.buf r.head x) r.cap r.tail n) {y = suc r.count} (omega arith)
    ∙ slice_snoc (set r.buf r.head x) r.cap r.tail r.count
    ∙ ap₂ (λ l b. l ++ (b ∷ [])) kept written
  where
    kept : slice (set r.buf r.head x) r.cap r.tail r.count ≡ contents r
    kept =
        rw v.head_at
          (slice-set r.buf r.cap r.tail r.count (r.tail + r.count) x (omega arith) (omega arith))

    written : get_or (set r.buf r.head x) ((r.tail + r.count) % r.cap) 0 ≡ x
    written =
        rw (← v.head_at)
          (get_or-set_self r.buf r.head x 0 (omega (arith, head-lt-cap v (omega arith))))

-- `pcc_ring_push` appends the byte to a valid ring's bytes, after dropping the oldest one if the
-- ring is full; at capacity 0 it changes nothing.
pub push_refines :
    {r : Ring} (x : ℕ) → IsValid r → contents (push r x) ≡ Queue.enqueue r.cap (contents r) x
unfolding push Queue.enqueue
push_refines {r} x v = elim (Bool-cases (r.cap == 0)) [
  | inl none_at_all ↦ rw none_at_all
  | inr some_room ↦ rw some_room (
      contents-store x (room some_room).0 (omega (arith, cap-make_room r, (room some_room).1))
      ∙ ap (λ l. l ++ (x ∷ [])) (contents-make_room v (ground arith))
      ∙ spread (length (contents r) == r.cap))
]
  where
    room : (r.cap == 0) ≡ false → IsValid (make_room r) × ((make_room r).count < r.cap)
    room e = make_room-IsValid v (ground arith)

    spread :
        (b : Bool)
        → (if b then drop 1 (contents r) else contents r) ++ (x ∷ [])
          ≡ (if b then drop 1 (contents r) ++ (x ∷ []) else contents r ++ (x ∷ []))
    spread true = refl
    spread false = refl

-- `pcc_ring_pop` returns the oldest byte of a valid ring, or -1 if it holds none, and leaves the
-- rest.
pop_refines : {r : Ring} → IsValid r → ((pop r).0, contents (pop r).1) ≡ Queue.dequeue (contents r)
unfolding pop Queue.dequeue
pop_refines {r} v = elim (Bool-cases (r.count == 0)) [
  | inl empty ↦ rw empty (ground arith)
  | inr some_left ↦ rw (some_left, contents_rest v (ground arith))
]

-- `pcc_ring_peek` returns what `pcc_ring_pop` would return.
peek-pop : (r : Ring) → peek r ≡ (pop r).0
unfolding peek pop
peek-pop r = ground arith

-- Any sequence of pushes, pops and clears on a valid ring reads what the drop-oldest queue reads,
-- and leaves the bytes that it leaves.
pub run_refines :
    {r : Ring} (ops : List Op)
    → IsValid r
    → ((run r ops).0, contents (run r ops).1) ≡ Queue.run r.cap (contents r) ops
unfolding run clear Queue.run
run_refines {r} [] v = refl
run_refines {r} (put x ∷ ops) v =
    run_refines {r = push r x} ops (push-IsValid x v)
    ∙ ap₂ (λ c q. Queue.run c q ops) (cap-push r x) (push_refines x v)
run_refines {r} (get ∷ ops) v =
    ap (λ (p : List (Option ℕ) × List ℕ). ((pop r).0 ∷ p.0, p.1))
      (run_refines {r = (pop r).1} ops (pop-IsValid v))
    ∙ ap₂
        (λ (c : ℕ) (d : Option ℕ × List ℕ).
          (d.0 ∷ (Queue.run c d.1 ops).0, (Queue.run c d.1 ops).1))
        (cap-pop r) (pop_refines v)
run_refines {r} (reset ∷ ops) v = run_refines {r = clear r} ops (clear-IsValid v)
