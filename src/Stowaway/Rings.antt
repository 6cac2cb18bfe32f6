-- ===== src/Stowaway/Rings.antt =====
-- The two queues of src/stowaway.c are the drop-oldest ring of src/pcconnect_ring.h at capacity
-- 4096, and the flush moves one into the other.
use mathlib.Core.Path.{ap₂, transport}
use be.Base.{
  ℕ, zero, suc, ◌+◌, ◌-◌, ◌%◌, ◌≤◌, ◌≡◌, sym, ap, ◌∙◌, inl, inr, false, Option, some, List, [], ◌∷◌,
  ◌==◌, Bool-cases, get_or, arith,
}
use be.PccRing.{Ring, push, pop, make_room, store}
use be.PccRing.Queue
use be.PccRing.Inv.{IsValid, push-IsValid, pop-IsValid}
use be.PccRing.Refine.{contents, contents_rest, push_refines}
use be.Stowaway.{
  Stowaway, queue_byte, queue_pending_byte, move_pending, flush_loop, flush_pending_keys, rx_cap,
  taken, wake,
}

abbrev pub rx_ring : Stowaway → Ring
rx_ring s = record { buf = s.rx; cap = rx_cap; head = s.head; tail = s.tail; count = s.count }

abbrev pub pending_ring : Stowaway → Ring
pending_ring s = record {
  buf = s.pending;
  cap = rx_cap;
  head = s.pending_head;
  tail = s.pending_tail;
  count = s.pending_count;
}

ring-queue_byte : (s : Stowaway) (x : ℕ) → rx_ring (queue_byte s x) ≡ push (rx_ring s) x
unfolding queue_byte push make_room store
ring-queue_byte s x = elim (Bool-cases (s.count == rx_cap)) [ inl e ↦ rw e | inr e ↦ rw e ]

ring-queue_pending :
    (s : Stowaway) (x : ℕ) → pending_ring (queue_pending_byte s x) ≡ push (pending_ring s) x
unfolding queue_pending_byte push make_room store
ring-queue_pending s x = elim (Bool-cases (s.pending_count == rx_cap)) [
  | inl e ↦ rw e
  | inr e ↦ rw e
]

pub queue_byte-IsValid :
    (s : Stowaway) (x : ℕ) → IsValid (rx_ring s) → IsValid (rx_ring (queue_byte s x))
queue_byte-IsValid s x v = rw (ring-queue_byte s x) (push-IsValid x v)

pub queue_pending-IsValid :
    (s : Stowaway) (x : ℕ)
    → IsValid (pending_ring s)
    → IsValid (pending_ring (queue_pending_byte s x))
queue_pending-IsValid s x v = rw (ring-queue_pending s x) (push-IsValid x v)

pub contents-queue_byte :
    (s : Stowaway) (x : ℕ)
    → IsValid (rx_ring s)
    → contents (rx_ring (queue_byte s x)) ≡ Queue.enqueue rx_cap (contents (rx_ring s)) x
contents-queue_byte s x v = ap contents (ring-queue_byte s x) ∙ push_refines x v

pub contents-queue_pending :
    (s : Stowaway) (x : ℕ)
    → IsValid (pending_ring s)
    → contents (pending_ring (queue_pending_byte s x))
      ≡ Queue.enqueue rx_cap (contents (pending_ring s)) x
contents-queue_pending s x v = ap contents (ring-queue_pending s x) ∙ push_refines x v

-- A read takes the oldest byte of a queue that holds one.
taken-pop :
    (s : Stowaway)
    → (s.count == 0) ≡ false
    → pop (rx_ring s) ≡ (some (get_or s.rx s.tail 0), rx_ring (taken s))
unfolding pop
taken-pop s some_left = rw some_left

pub taken-IsValid :
    (s : Stowaway) → (s.count == 0) ≡ false → IsValid (rx_ring s) → IsValid (rx_ring (taken s))
taken-IsValid s some_left v =
    let e = ap (λ (p : Option ℕ × Ring). p.1) (taken-pop s some_left) in
    transport (ap IsValid e) (pop-IsValid v)

contents_popped :
    (r : Ring)
    → IsValid r
    → (r.count == 0) ≡ false
    → contents r ≡ get_or r.buf r.tail 0 ∷ contents (pop r).1
unfolding pop
contents_popped r v some_left = rw some_left (contents_rest v (ground arith))

-- The bytes of a queue that holds one, and those that taking it leaves.
pub contents-taken :
    (s : Stowaway)
    → IsValid (rx_ring s)
    → (s.count == 0) ≡ false
    → contents (rx_ring s) ≡ get_or s.rx s.tail 0 ∷ contents (rx_ring (taken s))
contents-taken s v some_left =
    contents_popped (rx_ring s) v some_left
    ∙ ap (λ (p : Option ℕ × Ring). get_or s.rx s.tail 0 ∷ contents p.1) (taken-pop s some_left)

contents_none : (s : Stowaway) → s.pending_count ≡ 0 → contents (pending_ring s) ≡ []
contents_none s e = rw e

pending-move :
    (s : Stowaway)
    → (s.pending_count == 0) ≡ false
    → pending_ring (move_pending s) ≡ (pop (pending_ring s)).1
unfolding move_pending pop queue_byte
pending-move s some_left = rw some_left

rx-move :
    (s : Stowaway) → rx_ring (move_pending s) ≡ push (rx_ring s) (get_or s.pending s.pending_tail 0)
unfolding move_pending
rx-move s =
    ring-queue_byte
      (record s {
        pending_tail = (s.pending_tail + 1) % rx_cap;
        pending_count = s.pending_count - 1;
      })
      (get_or s.pending s.pending_tail 0)

unfoldable pub enqueue_all : List ℕ → List ℕ → List ℕ
enqueue_all q [] = q
enqueue_all q (x ∷ xs) = enqueue_all (Queue.enqueue rx_cap q x) xs

-- Both queues valid, the pending one empty, and its bytes behind those that could be received.
pub record Flushed (s t : Stowaway) : Type 0 where
  pub rx_valid : IsValid (rx_ring t)
  pub pending_valid : IsValid (pending_ring t)
  pub emptied : t.pending_count ≡ 0
  pub moved : contents (rx_ring t) ≡ enqueue_all (contents (rx_ring s)) (contents (pending_ring s))

nothing_to_flush :
    (s : Stowaway)
    → IsValid (rx_ring s)
    → IsValid (pending_ring s)
    → s.pending_count ≡ 0
    → Flushed s s
unfolding enqueue_all
nothing_to_flush s v w e = record {
  rx_valid = v;
  pending_valid = w;
  emptied = e;
  moved = rw (contents_none s e);
}

moved_one :
    (s t : Stowaway)
    → IsValid (rx_ring s)
    → IsValid (pending_ring s)
    → (s.pending_count == 0) ≡ false
    → Flushed (move_pending s) t
    → Flushed s t
unfolding enqueue_all
moved_one s t v w some_left f = record {
  rx_valid = f.rx_valid;
  pending_valid = f.pending_valid;
  emptied = f.emptied;
  moved =
      f.moved
      ∙ ap₂ enqueue_all (ap contents (rx-move s) ∙ push_refines _ v)
          (ap contents (pending-move s some_left))
      ∙ sym
          (ap (enqueue_all (contents (rx_ring s))) (contents_popped (pending_ring s) w some_left));
}

flush_loop_lem :
    (n : ℕ) (s : Stowaway)
    → IsValid (rx_ring s)
    → IsValid (pending_ring s)
    → s.pending_count ≤ n
    → Flushed s (flush_loop n s)
unfolding flush_loop
flush_loop_lem zero s v w h = nothing_to_flush s v w (omega arith)
flush_loop_lem (suc n) s v w h = elim (Bool-cases (s.pending_count == 0)) [
  | inl e ↦ rw e (nothing_to_flush s v w (ground arith))
  | inr e ↦ rw e (
      moved_one s (flush_loop n (move_pending s)) v w e (
        flush_loop_lem n (move_pending s) (rw (rx-move s) (push-IsValid _ v))
          (rw (pending-move s e) (pop-IsValid w)) (one_less e)))
]
  where
    one_less : (s.pending_count == 0) ≡ false → (move_pending s).pending_count ≤ n
    one_less e = ground arith

-- With both queues well formed, the flush ends with the pending queue empty and its bytes queued
-- for the guest, oldest first, behind those not yet received; both queues stay well formed.
pub flush_lem :
    (s : Stowaway)
    → IsValid (rx_ring s)
    → IsValid (pending_ring s)
    → Flushed s (flush_pending_keys s)
unfolding flush_pending_keys
flush_lem s v w = elim (Bool-cases (s.pending_count == 0)) [ inl e ↦ rw e f | inr e ↦ rw e woken ]
  where
    f : Flushed s (flush_loop s.pending_count s)
    f = flush_loop_lem s.pending_count s v w (omega arith)

    woken : Flushed s (wake (flush_loop s.pending_count s))
    woken = record {
      rx_valid = f.rx_valid;
      pending_valid = f.pending_valid;
      emptied = f.emptied;
      moved = f.moved;
    }

-- What the flush leaves as it is.
pub record SameLines (s t : Stowaway) : Type 0 where
  pub enabled : t.enabled ≡ s.enabled
  pub connected : t.connected ≡ s.connected
  pub dtr : t.dtr_asserted ≡ s.dtr_asserted
  pub rts : t.rts_asserted ≡ s.rts_asserted
  pub ack_pending : t.probe_ack_pending ≡ s.probe_ack_pending
  pub ack_seen : t.probe_ack_seen ≡ s.probe_ack_seen
  pub events : t.modem_events_delivered ≡ s.modem_events_delivered

flush_loop-SameLines : (n : ℕ) (s : Stowaway) → SameLines s (flush_loop n s)
unfolding flush_loop move_pending queue_byte
flush_loop-SameLines zero s = ground arith
flush_loop-SameLines (suc n) s = elim (Bool-cases (s.pending_count == 0)) [
  | inl e ↦ rw e (ground arith)
  | inr e ↦ rw e (let k = flush_loop-SameLines n (move_pending s) in ground arith)
]

pub flush-SameLines : (s : Stowaway) → SameLines s (flush_pending_keys s)
unfolding flush_pending_keys
flush-SameLines s = let k = flush_loop-SameLines s.pending_count s in ground arith
