-- ===== src/Bridge/Pipe.antt =====
-- The way of the bytes from the host to the guest through src/pcconnect_bridge.c.
use mathlib.Core.List.{append_assoc, append-nil}
use be.Base.{
  ℕ, ◌≡◌, ap, sym, ◌∙◌, not, ◌&&◌, Option, none, some, List, [], ◌∷◌, ◌++◌, if_elim, arith,
}
use be.PccRing.{pop}
use be.PccRing.Inv.{pop-IsValid, cap-pop}
use be.PccRing.Refine.{contents}
use be.Bridge.{Bridge, release_rx_paced, empty}
use be.Bridge.Drain.{arrive}
use be.Bridge.Port.{rx_available, rx_pop, guest_reads}
use be.Bridge.Inv.{incoming, pop_some}
use be.Bridge.Release.{release_lem}
use be.Bridge.Arrive.{IsOpen, same_wires, kept, arrive_lem}

abbrev popped_list : Option ℕ → List ℕ
popped_list none = []
popped_list (some b) = b ∷ []

-- What the guest takes is the next byte.
record Gave (s : Bridge) (bytes : List ℕ) (t : Bridge) : Type 0 where
  is_open : IsOpen t
  order : incoming s ≡ bytes ++ incoming t

rx_pop_lem :
    (clock : ℕ → ℕ) (s : Bridge)
    → IsOpen s
    → Gave s (popped_list (rx_pop clock s).0) (rx_pop clock s).1
unfolding rx_pop rx_available
rx_pop_lem clock s p =
    let t = release_rx_paced clock s in
    let released = release_lem clock s p.fine in
    let q : IsOpen t = same_wires p released.fine released.wires in
    if_elim P (guest_reads t && not (empty t.rx_ring))
      (λ there.
        let (taken, split, less) = pop_some q.fine.rx (ground (arith, there)) in
        record {
          is_open = record {
            fine = record {
              rx = pop-IsValid q.fine.rx;
              pre = q.fine.pre;
              tx = q.fine.tx;
              rx_cap = cap-pop t.rx_ring ∙ q.fine.rx_cap;
              pre_cap = q.fine.pre_cap;
              fifo = omega (arith, less, q.fine.fifo);
            };
            cable = q.cable;
            link = q.link;
            configured = q.configured;
          };
          order =
              sym released.order
              ∙ ap (λ (l : List ℕ). l ++ contents t.rx_pre_ring) split
              ∙ ap
                  (λ (o : Option ℕ).
                    popped_list o ++ (contents (pop t.rx_ring).1 ++ contents t.rx_pre_ring))
                  (sym taken);
        })
      (λ _. record { is_open = q; order = sym released.order })
  where
    P : Option ℕ × Bridge → Type 0
    P r = Gave s (popped_list r.0) r.1

-- Bytes arrive from the host, or the guest reads its receive buffer, with the clock that this call reads.
pub data Act : Type 0 where
  arrives : List ℕ → Act
  reads : (ℕ → ℕ) → Act

pub record Pipe : Type 0 where
  pub accepted : List ℕ
  pub received : List ℕ
  pub state : Bridge

unfoldable pub run : Bridge → List Act → Pipe
unfolding arrive rx_pop
run s [] = record { accepted = []; received = []; state = s }
run s (arrives bytes ∷ acts) =
    let rest = run (arrive s bytes) acts in
    record {
      accepted = kept s bytes ++ rest.accepted;
      received = rest.received;
      state = rest.state;
    }
run s (reads clock ∷ acts) =
    let (o, t) = rx_pop clock s in
    let rest = run t acts in
    record {
      accepted = rest.accepted;
      received = popped_list o ++ rest.received;
      state = rest.state;
    }

-- With valid queues, the cable and the link up and the guest's UART configured, however arrivals
-- from the host and reads of the guest alternate, and at any speed, the bytes that the guest has
-- received, before those on their way, are those on their way at first, before those accepted
-- since. Of an arrival count the bytes after the dropped marks of an idle line, as far as there is
-- room.
pub run_lem :
    (s : Bridge) (acts : List Act)
    → IsOpen s
    → (run s acts).received ++ incoming (run s acts).state ≡ incoming s ++ (run s acts).accepted
unfolding run
run_lem s [] p = sym (append-nil (incoming s))
run_lem s (arrives bytes ∷ acts) p =
    let one = arrive_lem s bytes p in
    let rest = run (arrive s bytes) acts in
    run_lem (arrive s bytes) acts one.is_open
    ∙ ap (λ (l : List ℕ). l ++ rest.accepted) one.order
    ∙ append_assoc (incoming s) (kept s bytes) rest.accepted
run_lem s (reads clock ∷ acts) p =
    let (o, t) = rx_pop clock s in
    let one = rx_pop_lem clock s p in
    let rest = run t acts in
    append_assoc (popped_list o) rest.received (incoming rest.state)
    ∙ ap (λ (l : List ℕ). popped_list o ++ l) (run_lem t acts one.is_open)
    ∙ sym (append_assoc (popped_list o) (incoming t) rest.accepted)
    ∙ ap (λ (l : List ℕ). l ++ rest.accepted) (sym one.order)
