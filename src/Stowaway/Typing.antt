-- ===== src/Stowaway/Typing.antt =====
-- The way of a key of src/stowaway.c to the guest.
use be.Base.{
  ℕ, ◌+◌, ◌≤◌, ◌≡◌, refl, ap, ◌∙◌, ◌⊎◌, inl, inr, Bool, true, false, not, ◌||◌, List, [], ◌∷◌, ltb,
  if_elim, arith,
}
use be.Base.Bits.{and_not, has}
use be.PccRing.Queue
use be.PccRing.Inv.{IsValid}
use be.PccRing.Refine.{contents}
use be.Stowaway.{Stowaway, queue_byte, queue_pending_byte, rx_cap, wake, fn_scancode}
use be.Stowaway.Keys.{queue_key, release_fn, press_fn, queue_mapped_key, key_byte}
use be.Stowaway.Rings.{
  rx_ring, pending_ring, queue_byte-IsValid, contents-queue_byte, contents-queue_pending,
  enqueue_all,
}
use be.Stowaway.Inv.{Consistent}

-- What a key does to the queues: its byte goes to the guest and wakes it, or waits for the probe's
-- answer.
pub data Sent (s t : Stowaway) (byte : ℕ) : Type 0 where
  received :
      contents (rx_ring t) ≡ Queue.enqueue rx_cap (contents (rx_ring s)) byte
      → contents (pending_ring t) ≡ contents (pending_ring s)
      → t.wakes ≡ s.wakes + 1
      → Sent s t byte
  waits :
      contents (rx_ring t) ≡ contents (rx_ring s)
      → contents (pending_ring t) ≡ Queue.enqueue rx_cap (contents (pending_ring s)) byte
      → t.wakes ≡ s.wakes
      → s.connected ≡ true
      → Sent s t byte

-- A key of a consistent dock is either refused, and changes nothing, or its one byte is queued once:
-- for the guest, which is woken, or behind the keys that wait for the probe's answer.
pub queue_key_lem :
    (s : Stowaway) (k : ℕ) (release : Bool)
    → Consistent s
    → (queue_key s k release ≡ (false, s))
      ⊎ (((queue_key s k release).0 ≡ true) × Sent s (queue_key s k release).1 (key_byte k release))
unfolding queue_key queue_byte queue_pending_byte
queue_key_lem s k release v =
    let b = key_byte k release in
    let P : Bool × Stowaway → Type 0 = λ p. (p ≡ (false, s)) ⊎ ((p.0 ≡ true) × Sent s p.1 b) in
    if_elim P (not s.enabled) (λ _. inl refl)
      (λ _.
        if_elim P (ltb 0x7f k) (λ _. inl refl)
          (λ _.
            if_elim P (not s.connected || not s.dtr_asserted)
              (λ _.
                if_elim P (not s.modem_wait_requested) (λ _. inl refl)
                  (λ _. inr (refl, received (contents-queue_byte s b v.rx_valid) refl refl)))
              (λ up.
                if_elim P (not s.rts_asserted || s.probe_ack_pending)
                  (λ _. inr (
                    refl,
                    waits refl (contents-queue_pending s b v.pending_valid) refl (ground arith),
                  ))
                  (λ _. inr (refl, received (contents-queue_byte s b v.rx_valid) refl refl)))))

-- The dock hands keys straight to the guest.
pub record Ready (s : Stowaway) : Type 0 where
  pub on : s.enabled ≡ true
  pub connected : s.connected ≡ true
  pub dtr : s.dtr_asserted ≡ true
  pub rts : s.rts_asserted ≡ true
  pub idle : s.probe_ack_pending ≡ false

direct_key :
    (s : Stowaway) (k : ℕ) (release : Bool)
    → Ready s
    → k ≤ 0x7f
    → queue_key s k release ≡ (true, wake (queue_byte s (key_byte k release)))
unfolding queue_key
direct_key s k release r h = rw (r.on, r.connected, r.dtr, r.rts, r.idle) (ground arith)

abbrev sent : Stowaway → ℕ → Stowaway
sent s byte = wake (queue_byte s byte)

sent-Ready : (s : Stowaway) (byte : ℕ) → Ready s → Ready (sent s byte)
unfolding queue_byte
sent-Ready s byte r = record {
  on = r.on;
  connected = r.connected;
  dtr = r.dtr;
  rts = r.rts;
  idle = r.idle;
}

refs-Ready : (s : Stowaway) (n : ℕ) → Ready s → Ready (record s { fn_refs = n })
refs-Ready s n r = record {
  on = r.on;
  connected = r.connected;
  dtr = r.dtr;
  rts = r.rts;
  idle = r.idle;
}

-- Fn and the key are down.
abbrev pressed : Stowaway → ℕ → Stowaway
pressed s k = sent (sent (record s { fn_refs = 1 }) fn_scancode) (key_byte k false)

pressed-Ready : (s : Stowaway) (k : ℕ) → Ready s → Ready (pressed s k)
pressed-Ready s k r = sent-Ready _ _ (sent-Ready _ _ (refs-Ready s 1 r))

press_sends :
    (s : Stowaway) (k : ℕ) → Ready s → s.fn_refs ≡ 0 → k ≤ 0x7f → press_fn s k ≡ (true, pressed s k)
unfolding press_fn
press_sends s k r zero_refs small =
    let t = record s { fn_refs = 1 } in
    let r1 = refs-Ready s 1 r in
    rw (
      zero_refs,
      direct_key t fn_scancode false r1 (omega arith),
      direct_key (sent t fn_scancode) k false (sent-Ready t fn_scancode r1) small,
    )

abbrev released : Stowaway → ℕ → Stowaway
released s k = sent (record (sent s (key_byte k true)) { fn_refs = 0 }) (key_byte fn_scancode true)

release_sends :
    (s : Stowaway) (k : ℕ)
    → Ready s
    → s.fn_refs ≡ 1
    → k ≤ 0x7f
    → release_fn s k ≡ (true, released s k)
unfolding release_fn queue_byte
release_sends s k r one_ref small =
    let t = sent s (key_byte k true) in
    rw (
      direct_key s k true r small,
      one_ref,
      direct_key (record t { fn_refs = 0 }) fn_scancode true (refs-Ready t 0 (sent-Ready s _ r))
          (omega arith),
    )

contents_sent :
    (s : Stowaway) (bytes : List ℕ) (byte : ℕ)
    → IsValid (rx_ring s)
    → enqueue_all (contents (rx_ring (sent s byte))) bytes
      ≡ enqueue_all (contents (rx_ring s)) (byte ∷ bytes)
unfolding enqueue_all
contents_sent s bytes byte v = ap (λ q. enqueue_all q bytes) (contents-queue_byte s byte v)

-- On a consistent, connected dock with both lines up and no probe pending, while no other such key
-- is held, a press and a release of a key that is sent with Fn queue Fn down, the key down, the
-- key up and Fn up, in this order.
pub chord_lem :
    (s : Stowaway) (value : ℕ)
    → Consistent s
    → Ready s
    → s.fn_refs ≡ 0
    → has value 0x100 ≡ true
    → and_not 32 value 0x100 ≤ 0x7f
    → let k = and_not 32 value 0x100 in
      let t = (queue_mapped_key (queue_mapped_key s value false).1 value true).1 in
      (t.fn_refs ≡ 0)
      × (contents (rx_ring t)
          ≡ enqueue_all
              (contents (rx_ring s))
              (fn_scancode ∷ key_byte k false ∷ key_byte k true ∷ key_byte fn_scancode true ∷ []))
unfolding queue_mapped_key queue_byte enqueue_all
chord_lem s value v r zero_refs fn small =
    let k = and_not 32 value 0x100 in
    let p = pressed s k in
    let fn_down = record s { fn_refs = 1 } in
    let key_up = record (sent p (key_byte k true)) { fn_refs = 0 } in
    let v1 = queue_byte-IsValid fn_down fn_scancode v.rx_valid in
    let v2 = queue_byte-IsValid (sent fn_down fn_scancode) (key_byte k false) v1 in
    let v3 = queue_byte-IsValid p (key_byte k true) v2 in
    rw (fn, press_sends s k r zero_refs small, release_sends p k (pressed-Ready s k r) refl small)
      (
        refl,
        contents_sent key_up [] (key_byte fn_scancode true) v3
            ∙ contents_sent p (key_byte fn_scancode true ∷ []) (key_byte k true) v2
            ∙ contents_sent (sent fn_down fn_scancode)
                (key_byte k true ∷ key_byte fn_scancode true ∷ []) (key_byte k false) v1
            ∙ contents_sent fn_down
                (key_byte k false ∷ key_byte k true ∷ key_byte fn_scancode true ∷ []) fn_scancode
                v.rx_valid,
      )
