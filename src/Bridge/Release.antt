-- ===== src/Bridge/Release.antt =====
-- The release of bytes to the guest in src/pcconnect_bridge.c, at once or at the speed of the line.
use be.Base.{ℕ, zero, suc, ◌+◌, Bool, false, not, ◌&&◌, ◌||◌, ◌==◌, leb, if_elim, arith, u64}
use be.Bridge.{
  Bridge, move, movable, unpaced_loop, paced_loop, rounds, release_all, release_slowly, schedule,
  arm_pace, release_rx_paced, data_path_connected, empty,
}
use be.Bridge.Inv.{Fine, Moved, Moved-refl, Moved-trans, Moved-same, move_lem}

unpaced_loop_lem :
    (n : ℕ) (released : Bool) (s : Bridge) → Fine s → Moved s (unpaced_loop n released s).1
unfolding unpaced_loop
unpaced_loop_lem zero released s v = Moved-refl v
unpaced_loop_lem (suc n) released s v =
    if_elim (λ (r : Bool × Bridge). Moved s r.1) (movable s)
      (λ go.
        let one = move_lem s v go in
        Moved-trans one (unpaced_loop_lem n (released || (move s).0) (move s).1 one.fine))
      (λ _. Moved-refl v)

paced_loop_lem :
    (n : ℕ) (clock : ℕ → ℕ) (k now : ℕ) (released : Bool) (s : Bridge)
    → Fine s
    → Moved s (paced_loop n clock k now released s).1
unfolding paced_loop
paced_loop_lem zero clock k now released s v = Moved-refl v
paced_loop_lem (suc n) clock k now released s v =
    let (ok, t) = move s in
    let later = record t { rx_next_due = u64 (t.rx_next_due + t.rx_ns_per_byte) } in
    if_elim (λ (r : Bool × Bridge). Moved s r.1) (movable s && leb s.rx_next_due now)
      (λ go.
        let one : Moved s later = Moved-same later (move_lem s v (ground (arith, go))) in
        Moved-trans one (paced_loop_lem n clock (k + 1) (clock k) (released || ok) later one.fine))
      (λ _. Moved-refl v)

-- A release keeps the order of the bytes on their way to the guest, and loses none.
pub release_lem : (clock : ℕ → ℕ) (s : Bridge) → Fine s → Moved s (release_rx_paced clock s)
unfolding release_rx_paced
release_lem clock s v =
    let t = arm_pace s in
    let armed : Moved s t = Moved-same t (Moved-refl v) in
    let slow = schedule (clock 0) t in
    let loop : Moved slow (paced_loop (rounds t) clock 1 (clock 0) false slow).1 =
      paced_loop_lem (rounds t) clock 1 (clock 0) false slow
        (Moved-same slow (Moved-refl armed.fine)).fine in
    let all = unpaced_loop_lem (rounds t) false t armed.fine in
    if_elim (Moved s) (not (data_path_connected s) || not s.guest_uart_ready) (λ _. Moved-refl v)
      (λ _.
        if_elim (Moved s) (empty t.rx_pre_ring) (λ _. armed)
          (λ _.
            if_elim (Moved s) (not (t.rx_ns_per_byte == 0) && t.rx_pace_active)
              (λ _. Moved-same (release_slowly clock t) (Moved-trans (Moved-same slow armed) loop))
              (λ _. Moved-same (release_all t) (Moved-trans armed all))))
