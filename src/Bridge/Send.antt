-- ===== src/Bridge/Send.antt =====
-- The way of the guest's bytes to the host through src/pcconnect_bridge.c.
use native.Mathlib.Nat.{mod-add-mod, mod-eq_of_lt}
use mathlib.Core.Path.{ap₂}
use mathlib.Core.List.{append_assoc}
use be.Base.{
  ℕ, zero, suc, ◌+◌, ◌%◌, ◌≤◌, ◌<◌, ◌≡◌, refl, ap, sym, ◌∙◌, Bool, true, false, not, ◌&&◌, Option,
  List, [], ◌∷◌, ◌++◌, ◌==◌, ltb, leb, if_elim, if◌then◌else◌, arith, get_or,
}
use be.PccRing.{Ring, pop}
use be.PccRing.Inv.{IsValid, pop-IsValid}
use be.PccRing.Refine.{contents}
use be.Bridge.{Bridge, Poll, finish_connect, empty}
use be.Bridge.Drain.{
  Writing, wrote, busy, again, broken, Sent, chunk, advance, bulk_loop, paced_tx_loop, paid,
  sendable, drain_tx,
}
use be.Bridge.Inv.{pop_some}

-- No write fails.
abbrev pub unbroken : List Writing → Bool
unbroken [] = true
unbroken (wrote n ∷ more) = unbroken more
unbroken (busy ∷ more) = unbroken more
unbroken (again ∷ more) = unbroken more
unbroken (broken ∷ more) = false

-- No write takes more bytes than it was given.
abbrev pub fits : Ring → List Writing → Bool
fits r [] = true
fits r (wrote n ∷ more) = leb n r.count && leb (r.tail + n) r.cap && fits (advance r n) more
fits r (busy ∷ more) = fits r more
fits r (again ∷ more) = fits r more
fits r (broken ∷ more) = fits r more

-- A ring whose read index moves on by `n` gives up its first `n` bytes.
record Advanced (r : Ring) (n : ℕ) : Type 0 where
  valid : IsValid (advance r n)
  bytes : contents r ≡ chunk r.buf r.tail n ++ contents (advance r n)

popped : (r : Ring) → 0 < r.count → (pop r).1 ≡ advance r 1
unfolding pop
popped r pos =
    if_elim (λ (p : Option ℕ × Ring). p.1 ≡ advance r 1) (r.count == 0)
      (λ none. absurd (ground (arith, none))) (λ _. refl)

one-Advanced : (r : Ring) → IsValid r → 0 < r.count → Advanced r 1
one-Advanced r v pos = record {
  valid = rw (← popped r pos) (pop-IsValid v);
  bytes = (pop_some v pos).1 ∙ ap (λ (q : Ring). get_or r.buf r.tail 0 ∷ contents q) (popped r pos);
}

-- Dropping bytes one by one, and at once.
advance-suc : (r : Ring) (n : ℕ) → advance (advance r 1) n ≡ advance r (suc n)
advance-suc r n =
    ap₂ (λ (t c : ℕ). record r { tail = t; count = c })
      (mod-add-mod (r.tail + 1) r.cap n ∙ ap (λ (k : ℕ). k % r.cap) (omega arith)) (omega arith)

advance_lem :
    (n : ℕ) (r : Ring) → IsValid r → suc n ≤ r.count → r.tail + suc n ≤ r.cap → Advanced r (suc n)
advance_lem zero r v le within = one-Advanced r v le
advance_lem (suc n) r v le within =
    let one = one-Advanced r v (omega arith) in
    let next : (r.tail + 1) % r.cap ≡ r.tail + 1 = mod-eq_of_lt (omega arith) in
    let rest = advance_lem n (advance r 1) one.valid (omega arith) (omega (arith, next)) in
    record {
      valid = rw (← advance-suc r (suc n)) rest.valid;
      bytes =
          one.bytes
          ∙ ap (λ l. get_or r.buf r.tail 0 ∷ l)
              (rest.bytes
                ∙ ap₂ (λ (k : ℕ) (q : Ring). chunk r.buf k (suc n) ++ contents q) next
                    (advance-suc r (suc n)));
    }

-- What was sent stands before what still waits.
abbrev SentFrom : List ℕ → Sent → Type 0
SentFrom bytes (sent, t) = sent ++ contents t.tx_ring ≡ bytes

bulk_loop_lem :
    (writings : List Writing) (s : Bridge)
    → IsValid s.tx_ring
    → unbroken writings ≡ true
    → fits s.tx_ring writings ≡ true
    → SentFrom (contents s.tx_ring) (bulk_loop writings s)
unfolding bulk_loop
bulk_loop_lem [] s v whole fit = refl
bulk_loop_lem (wrote zero ∷ more) s v whole fit = refl
bulk_loop_lem (wrote (suc n) ∷ more) s v whole fit =
    let r = s.tx_ring in
    if_elim (SentFrom (contents r)) (empty r) (λ _. refl)
      (λ _.
        let go = advance_lem n r v (ground (arith, fit)) (ground (arith, fit)) in
        let t = record s { tx_ring = advance r (suc n) } in
        let (sent, last) = bulk_loop more t in
        append_assoc (chunk r.buf r.tail (suc n)) sent (contents last.tx_ring)
        ∙ ap (λ (l : List ℕ). chunk r.buf r.tail (suc n) ++ l)
            (bulk_loop_lem more t go.valid whole (ground (arith, fit)))
        ∙ sym go.bytes)
bulk_loop_lem (busy ∷ more) s v whole fit = refl
bulk_loop_lem (again ∷ more) s v whole fit =
    if_elim (SentFrom (contents s.tx_ring)) (empty s.tx_ring) (λ _. refl)
      (λ _. bulk_loop_lem more s v whole fit)
bulk_loop_lem (broken ∷ more) s v whole fit = absurd (ground (arith, whole))

paced_tx_loop_lem :
    (clock : ℕ → ℕ) (k now : ℕ) (writings : List Writing) (s : Bridge)
    → IsValid s.tx_ring
    → unbroken writings ≡ true
    → SentFrom (contents s.tx_ring) (paced_tx_loop clock k now writings s)
unfolding paced_tx_loop
paced_tx_loop_lem clock k now [] s v whole = refl
paced_tx_loop_lem clock k now (wrote n ∷ more) s v whole =
    if_elim (SentFrom (contents s.tx_ring)) (sendable now s && n == 1)
      (λ go.
        let rest =
          paced_tx_loop_lem clock (k + 1) (clock k) more (paid now s) (pop-IsValid v) whole in
        ap (λ (l : List ℕ). get_or s.tx_ring.buf s.tx_ring.tail 0 ∷ l) rest
        ∙ sym (pop_some v (ground (arith, go))).1)
      (λ _. refl)
paced_tx_loop_lem clock k now (busy ∷ more) s v whole = refl
paced_tx_loop_lem clock k now (again ∷ more) s v whole =
    if_elim (SentFrom (contents s.tx_ring)) (sendable now s)
      (λ _. paced_tx_loop_lem clock k now more s v whole) (λ _. refl)
paced_tx_loop_lem clock k now (broken ∷ more) s v whole = absurd (ground (arith, whole))

-- With a valid queue and a peer that stays, if no write fails or takes more bytes than it was
-- given, the bytes that a drain sends, before those that it leaves queued, are those that were
-- queued, with a rate or without one.
pub drain_tx_lem :
    (poll : Poll) (clock : ℕ → ℕ) (writings : List Writing) (s : Bridge)
    → IsValid s.tx_ring
    → s.has_peer ≡ true
    → poll.new_peer ≡ false
    → unbroken writings ≡ true
    → fits s.tx_ring writings ≡ true
    → let (sent, t) = drain_tx poll clock writings s in
      sent ++ contents t.tx_ring ≡ contents s.tx_ring
unfolding drain_tx finish_connect
drain_tx_lem poll clock writings s v there same whole fit = rw same (
    if_elim P (not s.has_peer) (λ gone. absurd (ground (arith, gone, there)))
      (λ _.
        if_elim P (not poll.ready) (λ _. refl)
          (λ _.
            if_elim P (ltb 0 s.tx_ns_per_byte)
              (λ _.
                paced_tx_loop_lem clock 1 (clock 0) writings
                  (record s { tx_next_due = if s.tx_next_due == 0 then clock 0 else s.tx_next_due })
                  v whole)
              (λ _. bulk_loop_lem writings s v whole fit))))
  where
    P : Sent → Type 0
    P = SentFrom (contents s.tx_ring)
