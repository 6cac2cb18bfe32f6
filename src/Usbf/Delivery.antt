-- ===== src/Usbf/Delivery.antt =====
-- What the guest reads from the USB function controller of src/hw/usbf.c: the host's bytes in order, by reads
-- of the port and by DMA.
use mathlib.Core.List.{append_assoc, append-nil}
use be.Base.{
  ℕ, zero, suc, ◌+◌, ◌%◌, ◌^◌, ◌<◌, ◌≡◌, refl, ap, sym, ◌∙◌, Bool, true, false, not, ◌&&◌, List, [],
  ◌∷◌, ◌++◌, ◌==◌, if_elim, if◌then◌else◌, arith, drop, take,
}
use be.Base.Bits.{has}
use be.Usbf.{Usbf, notify, out_byte, out_pending, receive_loop, write_ram, put_at, dma, dma_length}
use be.Usbf.Registers.{read}
use be.Usbf.Host.{host_out}
use be.Usbf.Inv.{InRoom, out_byte-InRoom, same}
use be.Usbf.Inv.Steps.{out-InRoom}
use be.Usbf.Stream.{out_stream, out_byte_lem, no_stream, host_out_lem}

-- The host sends a packet, or the guest reads the port of endpoint 2 if it has data.
pub data Act : Type 0 where
  sends : List ℕ → Act
  takes : Act

pub record Exchange : Type 0 where
  pub accepted : List ℕ
  pub taken : List ℕ
  pub state : Usbf

unfoldable pub exchange : Usbf → List Act → Exchange
unfolding host_out read out_pending
exchange u [] = record { accepted = []; taken = []; state = u }
exchange u (sends frame ∷ acts) =
    let (ok, t) = host_out u frame in
    let rest = exchange t acts in
    record {
      accepted = (if ok then frame else []) ++ rest.accepted;
      taken = rest.taken;
      state = rest.state;
    }
exchange u (takes ∷ acts) =
    let (b, t) = read u 0x14d4 in
    let rest = exchange (if out_pending u then t else u) acts in
    record {
      accepted = rest.accepted;
      taken = (if out_pending u then b ∷ [] else []) ++ rest.taken;
      state = rest.state;
    }

-- A read that is made only under a test.
guarded :
    (u t : Usbf) (b : ℕ) (test : Bool)
    → InRoom u
    → (test ≡ true → InRoom t × (out_stream u ≡ b ∷ out_stream t))
    → let after = if test then t else u in
      InRoom after × (out_stream u ≡ (if test then b ∷ [] else []) ++ out_stream after)
guarded u t b true v h = h refl
guarded u t b false v h = (v, refl)

take_lem :
    (u : Usbf)
    → InRoom u
    → let (b, t) = read u 0x14d4 in
      let after = if out_pending u then t else u in
      InRoom after × (out_stream u ≡ (if out_pending u then b ∷ [] else []) ++ out_stream after)
unfolding read notify
take_lem u v =
    guarded u (notify (out_byte u).1) (out_byte u).0 (out_pending u) v
      (λ waits. (same (notify (out_byte u).1) (out_byte-InRoom u v), out_byte_lem u v waits))

-- From a state in its bounds, however the host's packets and the guest's reads of the port
-- alternate, the bytes that the guest has read, before those that still wait, are those that
-- waited at first, before those of the accepted packets. A read counts only while data waits.
pub exchange_lem :
    (u : Usbf) (acts : List Act)
    → InRoom u
    → let e = exchange u acts in e.taken ++ out_stream e.state ≡ out_stream u ++ e.accepted
unfolding exchange
exchange_lem u [] v = sym (append-nil (out_stream u))
exchange_lem u (sends frame ∷ acts) v =
    let (ok, t) = host_out u frame in
    let rest = exchange t acts in
    exchange_lem t acts (out-InRoom u frame v)
    ∙ ap (λ l. l ++ rest.accepted) (host_out_lem u frame v)
    ∙ append_assoc (out_stream u) (if ok then frame else []) rest.accepted
exchange_lem u (takes ∷ acts) v =
    let (b, t) = read u 0x14d4 in
    let after : Usbf = if out_pending u then t else u in
    let now : List ℕ = if out_pending u then b ∷ [] else [] in
    let rest = exchange after acts in
    append_assoc now rest.taken (out_stream rest.state)
    ∙ ap (λ l. now ++ l) (exchange_lem after acts (take_lem u v).0)
    ∙ sym (append_assoc now (out_stream after) rest.accepted)
    ∙ ap (λ l. l ++ rest.accepted) (sym (take_lem u v).1)

-- The guest's RAM with the first bytes of a list at an address.
abbrev pub stored : (ℕ → ℕ) → ℕ → List ℕ → ℕ → ℕ
stored m at [] = m
stored m at (b ∷ bs) = stored (put_at m at b) (at + 1) bs

memory-out_byte : (u : Usbf) → (out_byte u).1.memory ≡ u.memory
unfolding out_byte
memory-out_byte u =
    if_elim (λ (r : ℕ × Usbf). r.1.memory ≡ u.memory) (out_pending u) (λ _. refl) (λ _. refl)

-- What the loop leaves, for the stream before it.
abbrev Moved : (ℕ → ℕ) → ℕ → ℕ → List ℕ → Usbf → Type 0
Moved m at n bytes t = (t.memory ≡ stored m at (take n bytes)) × (out_stream t ≡ drop n bytes)

receive_loop_lem :
    (n at : ℕ) (u : Usbf) → InRoom u → Moved u.memory at n (out_stream u) (receive_loop n at true u)
unfolding receive_loop
receive_loop_lem zero at u v = (refl, refl)
receive_loop_lem (suc n) at u v =
    let (b, t) = out_byte u in
    let next = write_ram true at b t in
    let (moved, left) = receive_loop_lem n (at + 1) next (same next (out_byte-InRoom u v)) in
    if_elim (Moved u.memory at (suc n) (out_stream u)) (out_pending u)
      (λ waits. rw (out_byte_lem u v waits) (
        moved
            ∙ ap (λ (m : ℕ → ℕ). stored (put_at m at b) (at + 1) (take n (out_stream t)))
                (memory-out_byte u),
        left,
      ))
      (λ none. rw (no_stream u none) (refl, refl))

-- From a state in its bounds, a DMA transfer of the host's packets into RAM stores the first bytes
-- of the stream in order, as many as the length register says, at most 64, and leaves the others.
-- The direction is inward, the length is not 0, and there is RAM at the address.
pub dma_lem :
    (mapped : ℕ → ℕ → Bool) (u : Usbf)
    → InRoom u
    → has u.dma_dir 0x01 ≡ false
    → 0 < u.dma_len
    → mapped (u.dma_addr % 2 ^ 29) (dma_length u) ≡ true
    → let t = dma mapped u in
      let n = dma_length u in
      (t.memory ≡ stored u.memory (u.dma_addr % 2 ^ 29) (take n (out_stream u)))
      × (out_stream t ≡ drop n (out_stream u))
unfolding dma
dma_lem mapped u v inward some_bytes there =
    if_elim (Moved u.memory pa n (out_stream u)) (has u.dma_dir 0x01)
      (λ outward. absurd (ground (arith, inward, outward)))
      (λ _. rw here (receive_loop_lem n pa u v))
  where
    pa : ℕ
    pa = u.dma_addr % 2 ^ 29

    n : ℕ
    n = dma_length u

    here : (not (n == 0) && mapped pa n) ≡ true
    here = ground (arith, there, some_bytes)
