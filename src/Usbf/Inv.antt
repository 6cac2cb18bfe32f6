-- ===== src/Usbf/Inv.antt =====
-- The invariant of the USB function controller in src/hw/usbf.c: every queue, read position and length
-- stays in its buffer.
pub mod Steps
use be.Base.{
  ℕ, zero, suc, ◌+◌, ◌-◌, ◌*◌, ◌/◌, ◌%◌, ◌^◌, ◌≤◌, ◌<◌, ◌≡◌, refl, ap, sym, ◌∙◌, Bool, true, false,
  not, ◌&&◌, ◌||◌, Option, List, [], ◌∷◌, ◌==◌, ltb, leb, if_elim, if◌then◌else◌, arith, bit_and,
  bit_or, length, u8, u16, Bool-cases, inl, inr,
}
use be.Base.Bits.{has, and_not}
use be.Usbf.{
  Usbf, Packet, Status, done, stall, notify, finish_control, flush_fifos, init, reset, out_byte,
  out_pending, out_step, queue_in, commit, commit_ep0, commit_ep3, receive_loop, write_ram, dma,
  dma_length, fill, latch, ep_max_packet, out_slots, in_slots, put_at, desc_base, emptied, Call,
}
use be.Usbf.Registers.{read, write, in_descriptors, pulse, ep0_write, append_ep3, assign, hold}
use be.Usbf.Host.{
  descriptors_ready, host_attach, host_bus_reset, dropped, host_control, standard_request, host_out,
  host_in, host_intr_in, Reply, packet_of, get_descriptor, descriptor_copy,
}
use be.Usbf.Events.{
  Event, guest_read, guest_write, attach, bus_reset, power_reset, control, out_packet, in_poll,
  intr_poll, step, steps,
}

-- The queue of packets from the host: those that wait hold 1 to 64 bytes, and the read position lies in the
-- first of them.
pub record OutFine (out : ℕ → Packet) (head count pos : ℕ) : Type 0 where
  pub head_in : head < out_slots
  pub count_in : count ≤ out_slots
  pub some_bytes : (k : ℕ) → k < count → 0 < (out ((head + k) % out_slots)).len
  pub short : (k : ℕ) → (out k).len ≤ ep_max_packet
  pub reading : 0 < count → pos < (out head).len
  pub idle : count ≡ 0 → pos ≡ 0

-- The queue of packets for the host.
pub record InFine (waiting : ℕ → Packet) (head count : ℕ) : Type 0 where
  pub head_in : head < in_slots
  pub count_in : count ≤ in_slots
  pub short : (k : ℕ) → (waiting k).len ≤ ep_max_packet

pub record InRoom (u : Usbf) : Type 0 where
  pub outs : OutFine u.out u.out_head u.out_count u.out_pos
  pub ins : InFine u.in_packets u.in_head u.in_count
  pub stage : u.in_stage.len ≤ ep_max_packet
  pub ep3_stage : u.ep3_stage.len ≤ ep_max_packet
  pub ep3 : u.ep3.len ≤ ep_max_packet
  pub setup : u.setup_pos ≤ 8

-- An operation that leaves the queues, the stages and the read position of the setup bytes alone.
pub same :
    {u : Usbf} (t : Usbf)
    → InRoom u
    → InRoom (record t {
      out = u.out;
      out_head = u.out_head;
      out_count = u.out_count;
      out_pos = u.out_pos;
      in_packets = u.in_packets;
      in_head = u.in_head;
      in_count = u.in_count;
      in_stage = u.in_stage;
      ep3_stage = u.ep3_stage;
      ep3 = u.ep3;
      setup_pos = u.setup_pos;
    })
same t v = record {
  outs = v.outs;
  ins = v.ins;
  stage = v.stage;
  ep3_stage = v.ep3_stage;
  ep3 = v.ep3;
  setup = v.setup;
}

module _ {out : ℕ → Packet} {head count pos : ℕ} (v : OutFine out head count pos) where
  -- The next packet is now the first one.
  next-OutFine : OutFine out ((head + 1) % out_slots) (count - 1) 0
  next-OutFine = record {
    head_in = omega arith;
    count_in = omega (arith, v.count_in);
    some_bytes = λ k lt. omega (arith, v.some_bytes (k + 1) (omega arith), at k);
    short = v.short;
    reading = λ lt. ground (arith, v.some_bytes 1);
    idle = λ _. refl;
  }
    where
      at :
          (k : ℕ)
          → (out (((head + 1) % out_slots + k) % out_slots)).len
            ≡ (out ((head + (k + 1)) % out_slots)).len
      at k = ap (λ (i : ℕ). (out i).len) (omega arith)

  step-OutFine :
      0 < count
      → let p = u8 (pos + 1) in
        let ended = leb (out head).len p in
        OutFine out
          (if ended then (head + 1) % out_slots else head)
          (if ended then count - 1 else count)
          (if ended then 0 else p)
  step-OutFine some_left = elim (Bool-cases (leb (out head).len (u8 (pos + 1)))) [
    | inl ended ↦ rw ended next-OutFine
    | inr more ↦ rw more (record {
      head_in = v.head_in;
      count_in = v.count_in;
      some_bytes = v.some_bytes;
      short = v.short;
      reading = λ _. ground (arith, more);
      idle = λ none. omega arith;
    })
  ]

  pub append-OutFine :
      (p : Packet)
      → 0 < p.len
      → p.len ≤ ep_max_packet
      → count < out_slots
      → OutFine (put_at out ((head + count) % out_slots) p) head (count + 1) pos
  append-OutFine p full fits room = record {
    head_in = v.head_in;
    count_in = omega arith;
    some_bytes = λ k lt. ground (arith, v.some_bytes k, full);
    short = λ k. ground (arith, v.short k, fits);
    reading = λ _. ground (arith, v.reading, v.idle, v.head_in, full);
    idle = λ none. omega arith;
  }

empty-OutFine :
    {out : ℕ → Packet} {head count pos : ℕ} → OutFine out head count pos → OutFine out 0 0 0
empty-OutFine v = record {
  head_in = omega arith;
  count_in = omega arith;
  some_bytes = λ k lt. elim lt [ ];
  short = v.short;
  reading = λ lt. elim lt [ ];
  idle = λ _. refl;
}

out_step-InRoom : (u : Usbf) → 0 < u.out_count → InRoom u → InRoom (out_step u)
out_step-InRoom u some_left v = record {
  outs = step-OutFine v.outs some_left;
  ins = v.ins;
  stage = v.stage;
  ep3_stage = v.ep3_stage;
  ep3 = v.ep3;
  setup = v.setup;
}

pub out_byte-InRoom : (u : Usbf) → InRoom u → InRoom (out_byte u).1
unfolding out_byte out_pending
out_byte-InRoom u v =
    if_elim (λ (r : ℕ × Usbf). InRoom r.1) (out_pending u)
      (λ waits. out_step-InRoom u (ground (arith, waits)) v) (λ _. v)

receive_loop-InRoom :
    (n at : ℕ) (there : Bool) (u : Usbf) → InRoom u → InRoom (receive_loop n at there u)
unfolding receive_loop
receive_loop-InRoom zero at there u v = v
receive_loop-InRoom (suc n) at there u v =
    let (b, t) = out_byte u in
    let after =
      receive_loop-InRoom n (at + 1) there (write_ram there at b t)
        (same (write_ram there at b t) (out_byte-InRoom u v)) in
    if_elim InRoom (out_pending u) (λ _. after) (λ _. v)

put-InFine :
    {waiting : ℕ → Packet} {head count : ℕ} (p : Packet)
    → InFine waiting head count
    → p.len ≤ ep_max_packet
    → let room = ltb count in_slots in
      InFine
        (if room then put_at waiting ((head + count) % in_slots) p else waiting)
        head
        (if room then count + 1 else count)
put-InFine {waiting} {head} {count} p v fits = elim (Bool-cases (ltb count in_slots)) [
  | inl room ↦ rw room (record {
    head_in = v.head_in;
    count_in = ground (arith, room);
    short = λ k. ground (arith, v.short k, fits);
  })
  | inr full ↦ rw full v
]

queue_in-InRoom : (u : Usbf) → InRoom u → InRoom (queue_in u)
unfolding queue_in
queue_in-InRoom u v = record {
  outs = v.outs;
  ins = put-InFine u.in_stage v.ins v.stage;
  stage = omega arith;
  ep3_stage = v.ep3_stage;
  ep3 = v.ep3;
  setup = v.setup;
}

pub commit-InRoom : (u : Usbf) (val : ℕ) → InRoom u → InRoom (commit u val)
unfolding commit finish_control
commit-InRoom u val v =
    let first = if has val 0x01 then commit_ep0 u else u in
    let second = if has val 0x02 then queue_in first else first in
    let kept1 : InRoom first =
      if_elim InRoom (has val 0x01) (λ _. same (commit_ep0 u) v) (λ _. v) in
    let kept2 : InRoom second =
      if_elim InRoom (has val 0x02) (λ _. queue_in-InRoom first kept1) (λ _. kept1) in
    if_elim InRoom (has val 0x04)
      (λ _. record {
        outs = kept2.outs;
        ins = kept2.ins;
        stage = kept2.stage;
        ep3_stage = omega arith;
        ep3 = kept2.ep3_stage;
        setup = kept2.setup;
      })
      (λ _. kept2)

fill-InRoom :
    (u : Usbf) (pa n : ℕ) (there : Bool) → InRoom u → n ≤ ep_max_packet → InRoom (fill u pa n there)
fill-InRoom u pa n there v fits = record {
  outs = v.outs;
  ins = v.ins;
  stage = fits;
  ep3_stage = v.ep3_stage;
  ep3 = v.ep3;
  setup = v.setup;
}

pub dma-InRoom : (mapped : ℕ → ℕ → Bool) (u : Usbf) → InRoom u → InRoom (dma mapped u)
unfolding dma
dma-InRoom mapped u v =
    let n = dma_length u in
    let pa = u.dma_addr % 2 ^ 29 in
    let there = not (n == 0) && mapped pa n in
    let fits : n ≤ ep_max_packet = ground arith in
    let filled = fill-InRoom u pa n there v fits in
    let sent = queue_in-InRoom (fill u pa n there) filled in
    let received = receive_loop-InRoom n pa there u v in
    if_elim InRoom (has u.dma_dir 0x01)
      (λ _.
        if_elim InRoom (n == ep_max_packet)
          (λ _. same (latch 0x02 (queue_in (fill u pa n there))) sent)
          (λ _. same (latch 0x02 (fill u pa n there)) filled))
      (λ _. same (latch 0x01 (receive_loop n pa there u)) received)

pub flushed : (t : Usbf) → InRoom t → InRoom (flush_fifos t)
unfolding flush_fifos
flushed t v = record {
  outs = empty-OutFine v.outs;
  ins = record { head_in = omega arith; count_in = omega arith; short = v.ins.short };
  stage = omega arith;
  ep3_stage = omega arith;
  ep3 = v.ep3;
  setup = omega arith;
}
