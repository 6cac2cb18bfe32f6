-- ===== src/Usbf/Packets.antt =====
-- The packets of the guest for the host in src/hw/usbf.c: a committed packet reaches the host whole and in its
-- turn.
use mathlib.Core.List.{append_assoc, append-nil, map-append}
use be.Base.{
  ℕ, zero, suc, ◌+◌, ◌-◌, ◌*◌, ◌/◌, ◌%◌, ◌^◌, ◌≡◌, refl, ap, sym, ◌∙◌, Bool, true, false, not, ◌&&◌,
  ◌||◌, List, [], ◌∷◌, ◌++◌, map, ◌==◌, ltb, if_elim, if◌then◌else◌, arith, u8, Bool-cases, inl,
  inr, Option, none, some,
}
use be.Base.Bits.{has}
use be.Usbf.{
  Usbf, Packet, notify, queue_in, in_slots, commit, commit_ep0, dma, dma_length, fill,
  ep_max_packet, receive_loop, out_byte, out_pending, write_ram, finish_control,
}
use be.Usbf.Registers.{write, assign, in_descriptors}
use be.Usbf.Host.{bytes_from, host_in}
use be.Base.Slots.{items, items_append, items_first}
use be.Usbf.Inv.{InRoom}
use be.Usbf.Inv.Steps.{write-InRoom, in-InRoom}
use be.Usbf.Stream.{packet_bytes}

-- The packets that wait for the host.
abbrev pub in_waiting : Usbf → List (List ℕ)
in_waiting u = map packet_bytes (items u.in_packets in_slots u.in_head u.in_count)

-- What `queue_in` adds to them: the stage, if there is a free slot.
abbrev staged : Usbf → List (List ℕ)
staged u = if ltb u.in_count in_slots then packet_bytes u.in_stage ∷ [] else []

-- What a start of DMA adds: a packet of the greatest length.
abbrev dma_adds : (ℕ → ℕ → Bool) → Usbf → List (List ℕ)
dma_adds mapped u =
    let pa = u.dma_addr % 2 ^ 29 in
    let n = dma_length u in
    if has u.dma_dir 0x01
    then (if n == ep_max_packet then staged (fill u pa n (not (n == 0) && mapped pa n)) else [])
    else []

-- What a write to a register adds.
abbrev adds : (ℕ → ℕ → Bool) → Usbf → ℕ → ℕ → List (List ℕ)
adds mapped u at b =
    if at == 0x130c
    then (if has b 0x01 && not (has b 0x10) then dma_adds mapped u else [])
    else if at == 0x1490 && has b 0x02
    then staged u
    else []

abbrev Adds : Usbf → List (List ℕ) → Usbf → Type 0
Adds u l t = in_waiting t ≡ in_waiting u ++ l

none-Adds : (u : Usbf) → Adds u [] u
none-Adds u = sym (append-nil (in_waiting u))

queue_in-Adds : (u : Usbf) → Adds u (staged u) (queue_in u)
unfolding queue_in
queue_in-Adds u = elim (Bool-cases (ltb u.in_count in_slots)) [
  | inl room ↦ rw room (
      ap (λ l. map packet_bytes l)
        (items_append u.in_packets in_slots u.in_head u.in_count u.in_stage (ground (arith, room)))
      ∙ map-append packet_bytes (items u.in_packets in_slots u.in_head u.in_count)
          (u.in_stage ∷ []))
  | inr full ↦ rw full (none-Adds u)
]

-- Both sides of an equation branch on one test.
if_elim2 {ℓ κ μ} :
    {A : Type ℓ} {B : Type κ} (P : A → B → Type μ) (b : Bool) {x y : A} {v w : B}
    → (b ≡ true → P x v)
    → (b ≡ false → P y w)
    → P (if b then x else y) (if b then v else w)
if_elim2 P true f g = f refl
if_elim2 P false f g = g refl

-- The queue for the host is not touched.
abbrev Still : Usbf → Usbf → Type 0
Still u t = in_waiting t ≡ in_waiting u

out_byte-Still : (u : Usbf) → Still u (out_byte u).1
unfolding out_byte
out_byte-Still u = if_elim (λ (r : ℕ × Usbf). Still u r.1) (out_pending u) (λ _. refl) (λ _. refl)

receive_loop-Still : (n at : ℕ) (there : Bool) (u : Usbf) → Still u (receive_loop n at there u)
unfolding receive_loop
receive_loop-Still zero at there u = refl
receive_loop-Still (suc n) at there u =
    let (b, t) = out_byte u in
    let after = receive_loop-Still n (at + 1) there (write_ram there at b t) in
    if_elim (Still u) (out_pending u) (λ _. after ∙ out_byte-Still u) (λ _. refl)

dma-Adds : (mapped : ℕ → ℕ → Bool) (u : Usbf) → Adds u (dma_adds mapped u) (dma mapped u)
unfolding dma
dma-Adds mapped u =
    let pa = u.dma_addr % 2 ^ 29 in
    let n = dma_length u in
    let there = not (n == 0) && mapped pa n in
    if_elim2 P (has u.dma_dir 0x01)
      (λ _.
        if_elim2 P (n == ep_max_packet) (λ _. queue_in-Adds (fill u pa n there)) (λ _. none-Adds u))
      (λ _. receive_loop-Still n pa there u ∙ none-Adds u)
  where
    P : Usbf → List (List ℕ) → Type 0
    P t l = Adds u l t

commit-Adds : (u : Usbf) (b : ℕ) → Adds u (if has b 0x02 then staged u else []) (commit u b)
unfolding commit finish_control
commit-Adds u b =
    let first = if has b 0x01 then commit_ep0 u else u in
    let l = if has b 0x02 then staged u else [] in
    let second = if has b 0x02 then queue_in first else first in
    let done2 : Adds u l second =
      if_elim2 (λ (t : Usbf) (m : List (List ℕ)). Adds u m t) (has b 0x02)
        (λ _.
          if_elim (λ (t : Usbf). Adds u (staged u) (queue_in t)) (has b 0x01)
            (λ _. queue_in-Adds (commit_ep0 u)) (λ _. queue_in-Adds u))
        (λ _. if_elim (Adds u []) (has b 0x01) (λ _. none-Adds u) (λ _. none-Adds u)) in
    if_elim (Adds u l) (has b 0x04) (λ _. done2) (λ _. done2)

-- No reset of the queues.
abbrev keeps : ℕ → ℕ → Bool
keeps at val = not (at == 0x1338 && has (u8 val) 0x01)

assign-Adds :
    (mapped : ℕ → ℕ → Bool) (u : Usbf) (at val : ℕ)
    → keeps at val ≡ true
    → Adds u (adds mapped u at (u8 val)) (assign mapped u at val)
unfolding finish_control
assign-Adds mapped u at val kept =
    if_elim2 P (at == 0x130c)
      (λ _. if_elim2 P (has b 0x01 && not (has b 0x10)) (λ _. dma-Adds mapped u) (λ _. none-Adds u))
      (λ _.
        if_elim (Adds u committed) (at == 0x1338)
          (λ here.
            if_elim (Adds u committed) (has b 0x01)
              (λ pulsed. absurd (ground (arith, kept, here, pulsed)))
              (λ _. silent (ground (arith, here))))
          (λ _.
            if_elim (Adds u committed) (at == 0x1460)
              (λ here.
                if_elim (Adds u committed) (has b 0x08 && u.ctrl_pending)
                  (λ _. silent (ground (arith, here))) (λ _. silent (ground (arith, here))))
              (λ _.
                if_elim (Adds u committed) (at == 0x1490)
                  (λ here. commit-Adds u b ∙ ap (λ l. in_waiting u ++ l) (sole here))
                  (λ elsewhere.
                    if_elim (Adds u committed) (at == 0x14e0) (λ _. silent elsewhere)
                      (λ _. silent elsewhere)))))
  where
    P : Usbf → List (List ℕ) → Type 0
    P t l = Adds u l t

    b : ℕ
    b = u8 val

    committed : List (List ℕ)
    committed = if at == 0x1490 && has b 0x02 then staged u else []

    silent : (at == 0x1490) ≡ false → in_waiting u ≡ in_waiting u ++ committed
    silent elsewhere = rw elsewhere (none-Adds u)

    sole : (at == 0x1490) ≡ true → (if has b 0x02 then staged u else []) ≡ committed
    sole here = rw here refl

write-Adds :
    (mapped : ℕ → ℕ → Bool) (u : Usbf) (off val : ℕ)
    → keeps (off / 4 * 4) val ≡ true
    → Adds u (adds mapped u (off / 4 * 4) (u8 val)) (write mapped u off val)
unfolding write notify
write-Adds mapped u off val kept =
    let at = off / 4 * 4 in
    let l = adds mapped u at (u8 val) in
    if_elim (Adds u l) (in_descriptors at)
      (λ inside.
        let no_dma : (at == 0x130c) ≡ false = ground (arith, inside) in
        let no_commit : (at == 0x1490) ≡ false = ground (arith, inside) in
        rw (no_dma, no_commit) (none-Adds u))
      (λ _. assign-Adds mapped u at val kept)

-- The guest writes a register, or the host polls endpoint 1 with room for a packet of the greatest length.
pub data Act : Type 0 where
  stores : ℕ → ℕ → Act
  polls : Act

pub record Talk : Type 0 where
  pub queued : List (List ℕ)
  pub received : List (List ℕ)
  pub state : Usbf

abbrev answer_list : Option (List ℕ) → List (List ℕ)
answer_list none = []
answer_list (some packet) = packet ∷ []

module _ (mapped : ℕ → ℕ → Bool) where
  unfoldable pub talk : Usbf → List Act → Talk
  unfolding write host_in
  talk u [] = record { queued = []; received = []; state = u }
  talk u (stores off val ∷ acts) =
      let rest = talk (write mapped u off val) acts in
      record {
        queued = adds mapped u (off / 4 * 4) (u8 val) ++ rest.queued;
        received = rest.received;
        state = rest.state;
      }
  talk u (polls ∷ acts) =
      let (packet, t) = host_in u ep_max_packet in
      let rest = talk t acts in
      record {
        queued = rest.queued;
        received = answer_list packet ++ rest.received;
        state = rest.state;
      }

-- No write of the reset bit.
abbrev pub no_reset : List Act → Bool
no_reset [] = true
no_reset (stores off val ∷ acts) = keeps (off / 4 * 4) val && no_reset acts
no_reset (polls ∷ acts) = no_reset acts

host_in_lem :
    (u : Usbf)
    → InRoom u
    → let (packet, t) = host_in u ep_max_packet in in_waiting u ≡ answer_list packet ++ in_waiting t
unfolding host_in notify
host_in_lem u v =
    if_elim P (not u.attached || u.config == 0 || u.in_count == 0) (λ _. refl)
      (λ waits.
        ap (λ l. map packet_bytes l)
          (items_first u.in_packets in_slots u.in_head u.in_count v.ins.head_in
            (ground (arith, waits)))
        ∙ ap (λ (n : ℕ). bytes_from p.bytes 0 n ∷ later) (ground (arith, v.ins.short u.in_head)))
  where
    P : Option (List ℕ) × Usbf → Type 0
    P r = in_waiting u ≡ answer_list r.0 ++ in_waiting r.1

    p : Packet
    p = u.in_packets u.in_head

    later : List (List ℕ)
    later =
        map packet_bytes (items u.in_packets in_slots ((u.in_head + 1) % in_slots) (u.in_count - 1))

-- From a state in its bounds, however the guest's register writes and the host's polls alternate,
-- without a write of the reset bit the packets that the host has received, before those that still
-- wait, are those that waited at first, before those queued since, each of them whole. A write
-- queues the stage, by a commit or a DMA of 64 bytes, if a slot is free.
pub talk_lem :
    (mapped : ℕ → ℕ → Bool) (u : Usbf) (acts : List Act)
    → InRoom u
    → no_reset acts ≡ true
    → let t = talk mapped u acts in t.received ++ in_waiting t.state ≡ in_waiting u ++ t.queued
unfolding talk
talk_lem mapped u [] v quiet = none-Adds u
talk_lem mapped u (stores off val ∷ acts) v quiet =
    let kept : keeps (off / 4 * 4) val ≡ true = ground (arith, quiet) in
    let rest = talk mapped (write mapped u off val) acts in
    talk_lem mapped (write mapped u off val) acts (write-InRoom mapped u off val v)
      (ground (arith, quiet))
    ∙ ap (λ l. l ++ rest.queued) (write-Adds mapped u off val kept)
    ∙ append_assoc (in_waiting u) (adds mapped u (off / 4 * 4) (u8 val)) rest.queued
talk_lem mapped u (polls ∷ acts) v quiet =
    let (packet, t) = host_in u ep_max_packet in
    let rest = talk mapped t acts in
    append_assoc (answer_list packet) rest.received (in_waiting rest.state)
    ∙ ap (λ l. answer_list packet ++ l) (talk_lem mapped t acts (in-InRoom u ep_max_packet v) quiet)
    ∙ sym (append_assoc (answer_list packet) (in_waiting t) rest.queued)
    ∙ ap (λ l. l ++ rest.queued) (sym (host_in_lem u v))
