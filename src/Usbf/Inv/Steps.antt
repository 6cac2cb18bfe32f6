-- ===== src/Usbf/Inv/Steps.antt =====
-- The invariant of the USB function controller in src/hw/usbf.c is kept by every event.
use be.Base.{
  ℕ, ◌+◌, ◌-◌, ◌*◌, ◌/◌, ◌%◌, ◌^◌, ◌≤◌, refl, Bool, true, false, not, ◌&&◌, ◌||◌, Option, List, [],
  ◌∷◌, ◌==◌, ltb, leb, if_elim, if◌then◌else◌, arith, bit_and, bit_or, length, u8, u16,
}
use be.Base.Bits.{has, and_not}
use be.Usbf.{
  Usbf, stall, notify, finish_control, flush_fifos, init, reset, out_byte, ep_max_packet, out_slots,
  put_at, desc_base, emptied, Call,
}
use be.Usbf.Registers.{read, write, in_descriptors, pulse, append_ep3, assign, hold}
use be.Usbf.Host.{
  descriptors_ready, host_attach, host_bus_reset, dropped, host_control, standard_request, host_out,
  host_in, host_intr_in, Reply, packet_of, get_descriptor, descriptor_copy,
}
use be.Usbf.Events.{
  Event, guest_read, guest_write, attach, bus_reset, power_reset, control, out_packet, in_poll,
  intr_poll, step, steps,
}
use be.Usbf.Inv.{InRoom, same, out_byte-InRoom, append-OutFine, commit-InRoom, dma-InRoom, flushed}

ended-InRoom : (u : Usbf) → InRoom u → InRoom (flush_fifos (finish_control u stall))
unfolding finish_control
ended-InRoom u v = flushed (finish_control u stall) (same (finish_control u stall) v)

assign-InRoom :
    (mapped : ℕ → ℕ → Bool) (u : Usbf) (at val : ℕ) → InRoom u → InRoom (assign mapped u at val)
unfolding finish_control
assign-InRoom mapped u at val v =
    let b = u8 val in
    if_elim InRoom (at == 0x130c)
      (λ _. if_elim InRoom (has b 0x01 && not (has b 0x10)) (λ _. dma-InRoom mapped u v) (λ _. v))
      (λ _.
        if_elim InRoom (at == 0x1338)
          (λ _. if_elim InRoom (has b 0x01) (λ _. same (pulse u) (ended-InRoom u v)) (λ _. v))
          (λ _.
            if_elim InRoom (at == 0x1460)
              (λ _.
                if_elim InRoom (has b 0x08 && u.ctrl_pending)
                  (λ _. same (record (finish_control u stall) { ep0_ctrl = and_not 8 b 0x08 }) v)
                  (λ _. same (record u { ep0_ctrl = and_not 8 b 0x08 }) v))
              (λ _.
                if_elim InRoom (at == 0x1490) (λ _. commit-InRoom u b v)
                  (λ _. if_elim InRoom (at == 0x14e0) (λ _. ep3-InRoom b) (λ _. hold-InRoom)))))
  where
    ep3-InRoom : (b : ℕ) → InRoom (append_ep3 u b)
    ep3-InRoom b = record {
      outs = v.outs;
      ins = v.ins;
      stage = v.stage;
      ep3_stage = ground (arith, v.ep3_stage);
      ep3 = v.ep3;
      setup = v.setup;
    }

    hold-InRoom : InRoom (hold u at val)
    hold-InRoom = record {
      outs = v.outs;
      ins = v.ins;
      stage = cleared (at == 0x148c && has (u8 val) 0x04);
      ep3_stage = v.ep3_stage;
      ep3 = v.ep3;
      setup = v.setup;
    }
      where
        cleared : (b : Bool) → (if b then emptied u.in_stage else u.in_stage).len ≤ ep_max_packet
        cleared true = omega arith
        cleared false = v.stage

pub write-InRoom :
    (mapped : ℕ → ℕ → Bool) (u : Usbf) (off val : ℕ) → InRoom u → InRoom (write mapped u off val)
unfolding write notify
write-InRoom mapped u off val v =
    let at = off / 4 * 4 in
    let after = assign-InRoom mapped u at val v in
    if_elim InRoom (in_descriptors at)
      (λ _. same (record u { desc = put_at u.desc ((at - desc_base) / 4) (u8 val) }) v)
      (λ _. same (notify (assign mapped u at val)) after)

read-InRoom : (u : Usbf) (off : ℕ) → InRoom u → InRoom (read u off).1
unfolding read notify
read-InRoom u off v =
    let at = off / 4 * 4 in
    if_elim P (in_descriptors at) (λ _. v)
      (λ _.
        if_elim P (at == 0x14cc)
          (λ _.
            if_elim InRoom (u.setup_pos == 7) (λ _. positioned 8 (omega arith))
              (λ _.
                positioned (if ltb u.setup_pos 8 then u.setup_pos + 1 else u.setup_pos)
                  (ground (arith, v.setup))))
          (λ _.
            if_elim P (at == 0x14d4) (λ _. same (notify (out_byte u).1) (out_byte-InRoom u v))
              (λ _. v)))
  where
    P : ℕ × Usbf → Type 0
    P r = InRoom r.1

    positioned :
        {f : ℕ → ℕ} {cs : List Call} (n : ℕ)
        → n ≤ 8
        → InRoom (record u { setup_pos = n; intstat = f; calls = cs })
    positioned n le = record {
      outs = v.outs;
      ins = v.ins;
      stage = v.stage;
      ep3_stage = v.ep3_stage;
      ep3 = v.ep3;
      setup = le;
    }

dropped-InRoom : (u : Usbf) → InRoom u → InRoom (dropped u)
dropped-InRoom u v = same (dropped u) (ended-InRoom u v)

attach-InRoom : (u : Usbf) (on : Bool) → InRoom u → InRoom (host_attach u on)
unfolding host_attach notify
attach-InRoom u true v =
    if_elim InRoom u.attached (λ _. v) (λ _. same (notify (record u { attached = true })) v)
attach-InRoom u false v =
    let t : Usbf = record u { attached = false } in
    let after = dropped-InRoom t (same t v) in
    if_elim InRoom u.attached (λ _. same (notify (dropped t)) after) (λ _. v)

reset-InRoom : (u : Usbf) → InRoom (reset u)
unfolding reset init notify
reset-InRoom u = record {
  outs = record {
    head_in = omega arith;
    count_in = omega arith;
    some_bytes = λ k lt. elim lt [ ];
    short = λ k. omega arith;
    reading = λ lt. elim lt [ ];
    idle = λ _. refl;
  };
  ins = record { head_in = omega arith; count_in = omega arith; short = λ k. omega arith };
  stage = omega arith;
  ep3_stage = omega arith;
  ep3 = omega arith;
  setup = omega arith;
}

abbrev configured : Usbf → ℕ → Usbf
configured u value =
    notify
      (record u { config = u8 value; intstat = put_at u.intstat 2 (bit_or (u.intstat 2) 0x04) })

abbrev RoomyReply : Reply → Type 0
RoomyReply r = InRoom r.state

standard-InRoom : (u : Usbf) (s : ℕ → ℕ) → InRoom u → InRoom (standard_request u s).state
unfolding standard_request notify
standard-InRoom u s v =
    let req = s 1 in
    let value = u16 (bit_or (s 2) (s 3 * 2 ^ 8)) in
    let len = u16 (bit_or (s 6) (s 7 * 2 ^ 8)) in
    if_elim RoomyReply (req == 0x06) (λ _. descriptor-InRoom (s 0) value len)
      (λ _.
        if_elim RoomyReply (req == 0x05) (λ _. same (record u { address = value % 2 ^ 7 }) v)
          (λ _.
            if_elim RoomyReply (req == 0x09)
              (λ _.
                if_elim RoomyReply (ltb (u.desc 17) value) (λ _. v)
                  (λ _. same (configured u value) v))
              (λ _.
                if_elim RoomyReply (req == 0x08) (λ _. v)
                  (λ _.
                    if_elim RoomyReply (req == 0x00) (λ _. v)
                      (λ _.
                        if_elim RoomyReply (req == 0x0a) (λ _. v)
                          (λ _.
                            if_elim RoomyReply (req == 0x0b)
                              (λ _. if_elim RoomyReply (value == 0) (λ _. v) (λ _. v))
                              (λ _.
                                if_elim RoomyReply (req == 0x01 || req == 0x03) (λ _. v)
                                  (λ _. v))))))))
  where
    descriptor-InRoom : (rt value len : ℕ) → InRoom (get_descriptor u rt value len).state
    descriptor-InRoom rt value len =
        let copy = descriptor_copy u (value / 2 ^ 8) len in
        if_elim RoomyReply (rt == 0x80)
          (λ _. if_elim RoomyReply (length copy == 0) (λ _. v) (λ _. v)) (λ _. v)

control-InRoom : (u : Usbf) (s : ℕ → ℕ) → InRoom u → InRoom (host_control u s).state
unfolding host_control notify finish_control
control-InRoom u s v =
    if_elim RoomyReply (not u.attached || not (descriptors_ready u)) (λ _. v)
      (λ _.
        if_elim RoomyReply (bit_and (s 0) 0x60 == 0) (λ _. standard-InRoom u s v)
          (λ _. record {
            outs = v.outs;
            ins = v.ins;
            stage = v.stage;
            ep3_stage = v.ep3_stage;
            ep3 = v.ep3;
            setup = omega arith;
          }))

pub out-InRoom : (u : Usbf) (frame : List ℕ) → InRoom u → InRoom (host_out u frame).1
unfolding host_out notify
out-InRoom u frame v =
    if_elim P
      (not u.attached
        || u.config == 0
        || ltb ep_max_packet (length frame)
        || leb out_slots u.out_count)
      (λ _. v)
      (λ room.
        if_elim P (length frame == 0) (λ _. v)
          (λ full. record {
            outs =
                append-OutFine v.outs (packet_of frame) (ground (arith, full))
                  (ground (arith, room)) (ground (arith, room));
            ins = v.ins;
            stage = v.stage;
            ep3_stage = v.ep3_stage;
            ep3 = v.ep3;
            setup = v.setup;
          }))
  where
    P : Bool × Usbf → Type 0
    P r = InRoom r.1

pub in-InRoom : (u : Usbf) (max : ℕ) → InRoom u → InRoom (host_in u max).1
unfolding host_in notify
in-InRoom u max v =
    if_elim (λ (r : Option (List ℕ) × Usbf). InRoom r.1)
      (not u.attached || u.config == 0 || u.in_count == 0) (λ _. v)
      (λ _. record {
        outs = v.outs;
        ins = record {
          head_in = omega arith;
          count_in = omega (arith, v.ins.count_in);
          short = v.ins.short;
        };
        stage = v.stage;
        ep3_stage = v.ep3_stage;
        ep3 = v.ep3;
        setup = v.setup;
      })

intr-InRoom : (u : Usbf) (max : ℕ) → InRoom u → InRoom (host_intr_in u max).1
unfolding host_intr_in notify
intr-InRoom u max v =
    if_elim (λ (r : Option (List ℕ) × Usbf). InRoom r.1)
      (not u.attached || u.config == 0 || not u.ep3_ready) (λ _. v)
      (λ _. same (notify (record u { ep3_ready = false })) v)

step-InRoom : (mapped : ℕ → ℕ → Bool) (u : Usbf) (e : Event) → InRoom u → InRoom (step mapped u e)
unfolding step host_bus_reset notify
step-InRoom mapped u (guest_read off) v = read-InRoom u off v
step-InRoom mapped u (guest_write off val) v = write-InRoom mapped u off val v
step-InRoom mapped u (attach on) v = attach-InRoom u on v
step-InRoom mapped u bus_reset v = same (host_bus_reset u) (dropped-InRoom u v)
step-InRoom mapped u power_reset v = reset-InRoom u
step-InRoom mapped u (control s) v = control-InRoom u s v
step-InRoom mapped u (out_packet frame) v = out-InRoom u frame v
step-InRoom mapped u (in_poll max) v = in-InRoom u max v
step-InRoom mapped u (intr_poll max) v = intr-InRoom u max v

-- From a state in its bounds, whatever happens to the controller, its queues, stages and read
-- positions stay in their buffers, no packet that waits for the guest is empty, and the read
-- position lies in the first one.
pub steps-InRoom :
    (mapped : ℕ → ℕ → Bool) (u : Usbf) (es : List Event) → InRoom u → InRoom (steps mapped u es)
unfolding steps
steps-InRoom mapped u [] v = v
steps-InRoom mapped u (e ∷ es) v =
    steps-InRoom mapped (step mapped u e) es (step-InRoom mapped u e v)
