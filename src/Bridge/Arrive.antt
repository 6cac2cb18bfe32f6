-- ===== src/Bridge/Arrive.antt =====
-- The bytes that arrive from the host in src/pcconnect_bridge.c take their place in the queue.
use mathlib.Core.List.{append_assoc, append-nil}
use be.Base.{
  ℕ, zero, suc, ◌<◌, ◌≡◌, refl, ap, sym, ◌∙◌, Bool, true, false, not, ◌&&◌, List, [], ◌∷◌, ◌++◌,
  ◌==◌, leb, if_elim, if◌then◌else◌, arith, length, take,
}
use be.PccRing.{push}
use be.PccRing.Inv.{push-IsValid, cap-push}
use be.PccRing.Refine.{contents}
use be.Bridge.{Bridge, queue_host_rx_pre, data_path_connected, full, space, preopen_fifo}
use be.Bridge.Drain.{skip_idle, queue_all, arrive}
use be.Bridge.Inv.{Fine, incoming, push_room, count-push_room, wiring}

-- The guest has configured its UART, and the cable and the link are up.
pub record IsOpen (s : Bridge) : Type 0 where
  pub fine : Fine s
  pub cable : s.cable_connected ≡ true
  pub link : s.guest_link_connected ≡ true
  pub configured : s.guest_uart_configured ≡ true

pub same_wires : {s t : Bridge} → IsOpen s → Fine t → wiring t ≡ wiring s → IsOpen t
same_wires p v e = record {
  fine = v;
  cable = ap (λ w. w.0) e ∙ p.cable;
  link = ap (λ w. w.1) e ∙ p.link;
  configured = ap (λ w. w.3) e ∙ p.configured;
}

-- What arrives takes its place behind what waits.
pub record Took (s : Bridge) (bytes : List ℕ) (t : Bridge) : Type 0 where
  pub is_open : IsOpen t
  pub order : incoming t ≡ incoming s ++ bytes

none-Took : {s : Bridge} → IsOpen s → Took s [] s
none-Took {s} p = record { is_open = p; order = sym (append-nil (incoming s)) }

-- The queue with one byte more.
with_byte : Bridge → ℕ → Bridge
with_byte s b = record s { rx_pre_ring = push s.rx_pre_ring b }

ap_Took : {s t : Bridge} {xs ys : List ℕ} → xs ≡ ys → Took s ys t → Took s xs t
ap_Took {s} e p = record {
  is_open = p.is_open;
  order = p.order ∙ ap (λ (l : List ℕ). incoming s ++ l) (sym e);
}

empty_list : (xs : List ℕ) → length xs ≡ 0 → xs ≡ []
empty_list [] e = refl
empty_list (x ∷ xs) e = absurd (omega arith)

take_nil : (n : ℕ) → take {A = ℕ} n [] ≡ []
take_nil zero = refl
take_nil (suc n) = refl

one-Took :
    (s : Bridge) (b : ℕ) → IsOpen s → full s.rx_pre_ring ≡ false → Took s (b ∷ []) (with_byte s b)
unfolding with_byte
one-Took s b p room =
    let less : s.rx_pre_ring.count < s.rx_pre_ring.cap = ground (arith, room, p.fine.pre.within) in
    record {
      is_open = record {
        fine = record {
          rx = p.fine.rx;
          pre = push-IsValid b p.fine.pre;
          tx = p.fine.tx;
          rx_cap = p.fine.rx_cap;
          pre_cap = cap-push s.rx_pre_ring b ∙ p.fine.pre_cap;
          fifo = p.fine.fifo;
        };
        cable = p.cable;
        link = p.link;
        configured = p.configured;
      };
      order =
          ap (λ (l : List ℕ). contents s.rx_ring ++ l) (push_room b p.fine.pre less)
          ∙ sym (append_assoc (contents s.rx_ring) (contents s.rx_pre_ring) (b ∷ []));
    }

pre_lem :
    (s : Bridge) (b : ℕ)
    → IsOpen s
    → queue_host_rx_pre s b ≡ (if full s.rx_pre_ring then (false, s) else (true, with_byte s b))
unfolding queue_host_rx_pre with_byte
pre_lem s b p = rw e refl
  where
    e : (not s.guest_uart_configured && leb preopen_fifo s.rx_pre_ring.count) ≡ false
    e = ground (arith, p.configured)

after-Took : {s t u : Bridge} {xs ys : List ℕ} → Took s xs t → Took t ys u → Took s (xs ++ ys) u
after-Took {s} {xs = xs} {ys = ys} p q = record {
  is_open = q.is_open;
  order = q.order ∙ ap (λ (l : List ℕ). l ++ ys) p.order ∙ append_assoc (incoming s) xs ys;
}

queue_all_lem :
    (s : Bridge) (bytes : List ℕ)
    → IsOpen s
    → Took s (take (space s.rx_pre_ring) bytes) (queue_all s bytes)
unfolding queue_all with_byte
queue_all_lem s [] p = ap_Took (take_nil (space s.rx_pre_ring)) (none-Took p)
queue_all_lem s (b ∷ bs) p = rw (pre_lem s b p) (
    if_elim P (full s.rx_pre_ring)
      (λ none_left.
        ap_Took (ap (λ (n : ℕ). take n (b ∷ bs)) {y = 0} (ground (arith, none_left))) (none-Took p))
      (λ room.
        let one = one-Took s b p room in
        ap_Took
          (ap (λ (n : ℕ). take n (b ∷ bs)) {y = suc (space (push s.rx_pre_ring b))} (one_less room))
          (after-Took one (queue_all_lem (with_byte s b) bs one.is_open))))
  where
    P : Bool × Bridge → Type 0
    P r = Took s (take (space s.rx_pre_ring) (b ∷ bs)) (if r.0 then queue_all r.1 bs else r.1)

    one_less : full s.rx_pre_ring ≡ false → space s.rx_pre_ring ≡ suc (space (push s.rx_pre_ring b))
    one_less room =
        let less : s.rx_pre_ring.count < s.rx_pre_ring.cap =
          ground (arith, room, p.fine.pre.within) in
        omega (arith, count-push_room b p.fine.pre less, cap-push s.rx_pre_ring b)

-- The bytes of an arrival that the guest is to see: while the marks of an idle line are dropped, those after
-- them.
abbrev pub heard : Bridge → List ℕ → List ℕ
heard s bytes = if s.drop_initial_rx_idle then skip_idle bytes else bytes

-- Of them, those for which there is room.
abbrev pub kept : Bridge → List ℕ → List ℕ
kept s bytes = take (space s.rx_pre_ring) (heard s bytes)

pub arrive_lem : (s : Bridge) (bytes : List ℕ) → IsOpen s → Took s (kept s bytes) (arrive s bytes)
unfolding arrive
arrive_lem s bytes p =
    if_elim (Took s (kept s bytes)) (not (data_path_connected s))
      (λ closed. absurd (ground (arith, closed, p.cable, p.link)))
      (λ _.
        if_elim (Took s (kept s bytes)) s.drop_initial_rx_idle
          (λ idle.
            if_elim (Took s (kept s bytes)) (length (skip_idle bytes) == 0)
              (λ none_left.
                ap_Took
                  (ap (λ (l : List ℕ). take (space s.rx_pre_ring) l) {y = []}
                      (hear idle ∙ empty_list (skip_idle bytes) (ground (arith, none_left)))
                    ∙ take_nil (space s.rx_pre_ring))
                  (none-Took p))
              (λ _.
                let t = record s { drop_initial_rx_idle = false } in
                let took = queue_all_lem t (skip_idle bytes) (awake p) in
                ap_Took (ap (λ (l : List ℕ). take (space s.rx_pre_ring) l) (hear idle))
                  (record { is_open = took.is_open; order = took.order })))
          (λ busy.
            ap_Took (ap (λ (l : List ℕ). take (space s.rx_pre_ring) l) (rw busy refl))
              (queue_all_lem s bytes p)))
  where
    hear : s.drop_initial_rx_idle ≡ true → heard s bytes ≡ skip_idle bytes
    hear idle = rw idle refl

    awake : IsOpen s → IsOpen (record s { drop_initial_rx_idle = false })
    awake p = record {
      fine = record {
        rx = p.fine.rx;
        pre = p.fine.pre;
        tx = p.fine.tx;
        rx_cap = p.fine.rx_cap;
        pre_cap = p.fine.pre_cap;
        fifo = p.fine.fifo;
      };
      cable = p.cable;
      link = p.link;
      configured = p.configured;
    }
