-- ===== src/Bridge/Inv.antt =====
-- The queues of src/pcconnect_bridge.c: a byte that is moved from the one to the other keeps its place.
use mathlib.Core.List.{append_assoc}
use be.Base.{
  ℕ, ◌+◌, ◌-◌, ◌≤◌, ◌<◌, ◌≡◌, refl, ap, sym, ◌∙◌, Bool, true, Option, none, some, List, [], ◌∷◌,
  ◌++◌, ◌==◌, if_elim, arith, length, length-append, get_or,
}
use be.PccRing.{Ring, push, pop}
use be.PccRing.Queue
use be.PccRing.Inv.{IsValid, push-IsValid, pop-IsValid, cap-push, cap-pop}
use be.PccRing.Refine.{contents, push_refines, length-contents, contents_rest}
use be.Bridge.{Bridge, pass_on, guest_rx_push, guest_rx_space, move, movable, guest_rx_fifo}

-- The rings are valid and of the capacities that the bridge is configured with, and the guest's receive queue
-- holds no more than its FIFO.
pub record Fine (s : Bridge) : Type 0 where
  pub rx : IsValid s.rx_ring
  pub pre : IsValid s.rx_pre_ring
  pub tx : IsValid s.tx_ring
  pub rx_cap : s.rx_ring.cap ≡ 4096
  pub pre_cap : s.rx_pre_ring.cap ≡ 4096
  pub fifo : s.rx_ring.count ≤ guest_rx_fifo

-- The bytes on their way to the guest, the next one first.
abbrev pub incoming : Bridge → List ℕ
incoming s = contents s.rx_ring ++ contents s.rx_pre_ring

-- A push into a ring with room.
pub push_room :
    {r : Ring} (x : ℕ) → IsValid r → r.count < r.cap → contents (push r x) ≡ contents r ++ (x ∷ [])
unfolding Queue.enqueue
push_room {r} x v room =
    push_refines x v
    ∙ if_elim (λ (l : List ℕ). l ≡ contents r ++ (x ∷ [])) (r.cap == 0)
        (λ none. absurd (ground (arith, none)))
        (λ _.
          if_elim (λ (l : List ℕ). l ≡ contents r ++ (x ∷ [])) (length (contents r) == r.cap)
            (λ full. absurd (ground (arith, full, length-contents r))) (λ _. refl))

pub count-push_room :
    {r : Ring} (x : ℕ) → IsValid r → r.count < r.cap → (push r x).count ≡ r.count + 1
count-push_room {r} x v room = omega (
  arith,
  length-contents (push r x),
  length-contents r,
  ap (length {A = ℕ}) (push_room x v room),
  length-append (contents r) (x ∷ []),
)

-- A pop from a ring that holds something.
pub pop_some :
    {r : Ring}
    → IsValid r
    → 0 < r.count
    → let b = get_or r.buf r.tail 0 in
      ((pop r).0 ≡ some b) × (contents r ≡ b ∷ contents (pop r).1) × ((pop r).1.count ≡ r.count - 1)
unfolding pop
pop_some {r} v some_left =
    if_elim P (r.count == 0) (λ none. absurd (ground (arith, none)))
      (λ _. (refl, contents_rest v some_left, refl))
  where
    P : Option ℕ × Ring → Type 0
    P p =
        let b = get_or r.buf r.tail 0 in
        (p.0 ≡ some b) × (contents r ≡ b ∷ contents p.1) × (p.1.count ≡ r.count - 1)

-- The cable, the link and the state of the guest's UART.
abbrev pub wiring : Bridge → Bool × Bool × Bool × Bool × Bool
wiring s = (
  s.cable_connected, s.guest_link_connected, s.guest_uart_ready, s.guest_uart_configured,
  s.drop_initial_rx_idle,
)

-- What the moves keep.
pub record Moved (s t : Bridge) : Type 0 where
  pub fine : Fine t
  pub order : incoming t ≡ incoming s
  pub wires : wiring t ≡ wiring s

pub Moved-refl : {s : Bridge} → Fine s → Moved s s
Moved-refl v = record { fine = v; order = refl; wires = refl }

pub Moved-trans : {s t u : Bridge} → Moved s t → Moved t u → Moved s u
Moved-trans p q = record { fine = q.fine; order = q.order ∙ p.order; wires = q.wires ∙ p.wires }

-- The other fields do not matter.
pub Moved-same :
    {s t : Bridge} (u : Bridge)
    → Moved s t
    → Moved s (record u {
      rx_ring = t.rx_ring;
      rx_pre_ring = t.rx_pre_ring;
      tx_ring = t.tx_ring;
      cable_connected = t.cable_connected;
      guest_link_connected = t.guest_link_connected;
      guest_uart_ready = t.guest_uart_ready;
      guest_uart_configured = t.guest_uart_configured;
      drop_initial_rx_idle = t.drop_initial_rx_idle;
    })
Moved-same u m = record {
  fine = record {
    rx = m.fine.rx;
    pre = m.fine.pre;
    tx = m.fine.tx;
    rx_cap = m.fine.rx_cap;
    pre_cap = m.fine.pre_cap;
    fifo = m.fine.fifo;
  };
  order = m.order;
  wires = m.wires;
}

-- One move.
pub move_lem : (s : Bridge) → Fine s → movable s ≡ true → Moved s (move s).1
unfolding pass_on guest_rx_push
move_lem s v go =
    let b = get_or s.rx_pre_ring.buf s.rx_pre_ring.tail 0 in
    let rest = record s { rx_pre_ring = (pop s.rx_pre_ring).1 } in
    let some_left : 0 < s.rx_pre_ring.count = ground (arith, go) in
    let room : s.rx_ring.count < s.rx_ring.cap = ground (arith, go, v.rx_cap) in
    let (taken, split, _) = pop_some v.pre some_left in
    let moved : Moved s (record rest { rx_ring = push s.rx_ring b }) = record {
      fine = record {
        rx = push-IsValid b v.rx;
        pre = pop-IsValid v.pre;
        tx = v.tx;
        rx_cap = cap-push s.rx_ring b ∙ v.rx_cap;
        pre_cap = cap-pop s.rx_pre_ring ∙ v.pre_cap;
        fifo = ground (arith, go, count-push_room b v.rx room);
      };
      order =
          ap (λ (l : List ℕ). l ++ contents (pop s.rx_pre_ring).1) (push_room b v.rx room)
          ∙ append_assoc (contents s.rx_ring) (b ∷ []) (contents (pop s.rx_pre_ring).1)
          ∙ ap (λ (l : List ℕ). contents s.rx_ring ++ l) (sym split);
      wires = refl;
    } in
    rw taken (
      if_elim (λ (r : Bool × Bridge). Moved s r.1) (guest_rx_space rest == 0)
        (λ none. absurd (ground (arith, none, go))) (λ _. moved))

pre-pass_on : (o : Option ℕ) (s : Bridge) → (pass_on o s).1.rx_pre_ring ≡ s.rx_pre_ring
unfolding pass_on guest_rx_push
pre-pass_on none s = refl
pre-pass_on (some b) s =
    if_elim (λ (r : Bool × Bridge). r.1.rx_pre_ring ≡ s.rx_pre_ring) (guest_rx_space s == 0)
      (λ _. refl) (λ _. refl)

pub count-move :
    (s : Bridge)
    → Fine s
    → movable s ≡ true
    → (move s).1.rx_pre_ring.count ≡ s.rx_pre_ring.count - 1
count-move s v go =
    ap (λ (r : Ring). r.count)
      (pre-pass_on (pop s.rx_pre_ring).0 (record s { rx_pre_ring = (pop s.rx_pre_ring).1 }))
    ∙ (pop_some v.pre (ground (arith, go))).2
