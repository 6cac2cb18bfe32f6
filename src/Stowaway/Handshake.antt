-- ===== src/Stowaway/Handshake.antt =====
-- The probe handshake of src/stowaway.c.
use mathlib.Core.List.{append-nil, append_assoc}
use be.Base.{
  ℕ, ◌+◌, ◌≤◌, ◌≡◌, refl, sym, ap, ◌∙◌, true, false, some, List, [], ◌∷◌, ◌++◌, ◌==◌, get_or, drop,
  length, length-append, arith,
}
use be.PccRing.Queue
use be.PccRing.Inv.{IsValid}
use be.PccRing.Refine.{contents, length-contents}
use be.Stowaway.{
  Stowaway, queue_byte, flush_pending_keys, note_taken, rx_pop, queue_probe_ack, note_modem_control,
  rx_cap, taken, wake, lines_set, ack_0, ack_1,
}
use be.Stowaway.Rings.{
  rx_ring, pending_ring, queue_byte-IsValid, contents-queue_byte, taken-IsValid, contents-taken,
  enqueue_all, flush_lem, flush-SameLines,
}
use be.Stowaway.Inv.{Consistent}

-- Bytes that fit are all kept.
enqueue_all_fits : (q xs : List ℕ) → length q + length xs ≤ rx_cap → enqueue_all q xs ≡ q ++ xs
unfolding enqueue_all Queue.enqueue
enqueue_all_fits q [] h = sym (append-nil q)
enqueue_all_fits q (x ∷ xs) h = rw room (
    enqueue_all_fits (q ++ (x ∷ [])) xs (omega (arith, length-append q (x ∷ [])))
    ∙ append_assoc q (x ∷ []) xs)
  where
    room : (length q == rx_cap) ≡ false
    room = ground arith

-- What a read returns and leaves, by the bytes in the queue.
rx_pop_lem :
    (s : Stowaway) (x : ℕ) (q : List ℕ)
    → s.enabled ≡ true
    → IsValid (rx_ring s)
    → contents (rx_ring s) ≡ x ∷ q
    → (rx_pop s ≡ (some x, note_taken (taken s) x))
      × IsValid (rx_ring (taken s))
      × (contents (rx_ring (taken s)) ≡ q)
unfolding rx_pop
rx_pop_lem s x q on v e = (rw (on, both.0) (ground arith), taken-IsValid s some_left v, both.1)
  where
    some_left : (s.count == 0) ≡ false
    some_left = ground (arith, length-contents (rx_ring s), ap length e)

    both : (get_or s.rx s.tail 0 ≡ x) × (contents (rx_ring (taken s)) ≡ q)
    both = (
      ap (λ l. get_or l 0 0) (sym (contents-taken s v some_left) ∙ e),
      ap (λ l. drop 1 l) (sym (contents-taken s v some_left) ∙ e),
    )

-- The guest has read the whole answer: the dock is connected, and the keys that waited are next.
record Answered (t : Stowaway) : Type 0 where
  first_read : (rx_pop t).0 ≡ some ack_0
  second_read : (rx_pop (rx_pop t).1).0 ≡ some ack_1
  now_connected : (rx_pop (rx_pop t).1).1.connected ≡ true
  next_keys : contents (rx_ring (rx_pop (rx_pop t).1).1) ≡ contents (pending_ring t)
  none_wait : (rx_pop (rx_pop t).1).1.pending_count ≡ 0

answer_read :
    (t : Stowaway)
    → t.enabled ≡ true
    → IsValid (rx_ring t)
    → IsValid (pending_ring t)
    → contents (rx_ring t) ≡ ack_0 ∷ ack_1 ∷ []
    → t.probe_ack_pending ≡ true
    → t.probe_ack_seen ≡ 0
    → Answered t
unfolding note_taken
answer_read t on v w e probing fresh =
    let (e1, v1, c1) = rx_pop_lem t ack_0 (ack_1 ∷ []) on v e in
    let u = record (taken t) { probe_ack_seen = 1 } in
    let (e2, v2, c2) = rx_pop_lem u ack_1 [] on v1 c1 in
    let c = record (taken u) { connected = true; probe_ack_pending = false; probe_ack_seen = 0 } in
    let first : rx_pop t ≡ (some ack_0, u) = e1 ∙ ap (λ z. (some ack_0, z)) (rw (probing, fresh)) in
    let second : rx_pop u ≡ (some ack_1, flush_pending_keys c) =
      e2 ∙ ap (λ z. (some ack_1, z)) (rw probing) in
    let f = flush_lem c v2 w in
    let kept = flush-SameLines c in
    let fits : contents (rx_ring (flush_pending_keys c)) ≡ contents (pending_ring t) =
      f.moved
      ∙ ap (λ q. enqueue_all q (contents (pending_ring t))) c2
      ∙ enqueue_all_fits [] (contents (pending_ring t))
          (omega (arith, length-contents (pending_ring t))) in
    let read_both = ap (λ p. rx_pop p.1) first ∙ second in
    record {
      first_read = ap (λ p. p.0) first;
      second_read = ap (λ p. p.0) read_both;
      now_connected = ap (λ p. p.1.connected) read_both ∙ kept.connected;
      next_keys = ap (λ p. contents (rx_ring p.1)) read_both ∙ fits;
      none_wait = ap (λ p. p.1.pending_count) read_both ∙ f.emptied;
    }

probe_raised :
    (s : Stowaway)
    → s.enabled ≡ true
    → s.probe_ack_pending ≡ false
    → s.rts_asserted ≡ false
    → note_modem_control s true true ≡ (
        wake (record (queue_byte (queue_byte (lines_set s true true) ack_0) ack_1) {
          probe_ack_pending = true;
          probe_ack_seen = 0;
        }))
unfolding note_modem_control queue_probe_ack
probe_raised s on idle low = rw (on, idle, low)

-- On an enabled, consistent dock with an empty queue, no probe pending and RTS low, a guest that
-- raises DTR and RTS reads the two bytes of the answer to its probe; the second one connects the
-- dock and empties the queue of keys that waited, which are what the guest reads next, oldest
-- first.
pub probe_connects :
    (s : Stowaway)
    → Consistent s
    → s.enabled ≡ true
    → s.count ≡ 0
    → s.probe_ack_pending ≡ false
    → s.rts_asserted ≡ false
    → let raised = note_modem_control s true true in
      let first = rx_pop raised in
      let second = rx_pop first.1 in
      (first.0 ≡ some ack_0)
      × (second.0 ≡ some ack_1)
      × (second.1.connected ≡ true)
      × (contents (rx_ring second.1) ≡ contents (pending_ring s))
      × (second.1.pending_count ≡ 0)
unfolding Queue.enqueue queue_byte
probe_connects s v on empty idle low = rw (probe_raised s on idle low) (
    let a = answer_read _ on v2 v.pending_valid answer refl refl in
    (a.first_read, a.second_read, a.now_connected, a.next_keys, a.none_wait))
  where
    l : Stowaway
    l = lines_set s true true

    v1 : IsValid (rx_ring (queue_byte l ack_0))
    v1 = queue_byte-IsValid l ack_0 v.rx_valid

    v2 : IsValid (rx_ring (queue_byte (queue_byte l ack_0) ack_1))
    v2 = queue_byte-IsValid (queue_byte l ack_0) ack_1 v1

    nothing : contents (rx_ring l) ≡ []
    nothing = rw empty

    answer : contents (rx_ring (queue_byte (queue_byte l ack_0) ack_1)) ≡ ack_0 ∷ ack_1 ∷ []
    answer =
        contents-queue_byte (queue_byte l ack_0) ack_1 v1
        ∙ ap (λ q. Queue.enqueue rx_cap q ack_1)
            (contents-queue_byte l ack_0 v.rx_valid
              ∙ ap (λ q. Queue.enqueue rx_cap q ack_0) nothing)
