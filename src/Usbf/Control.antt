-- ===== src/Usbf/Control.antt =====
-- Class and vendor requests of the USB function controller in src/hw/usbf.c: each one that is handed to
-- the guest is answered once.
use be.Base.{
  ℕ, zero, suc, ◌+◌, ◌*◌, ◌/◌, ◌%◌, ◌^◌, ◌≡◌, refl, ◌∙◌, Bool, true, false, not, ◌&&◌, ◌||◌, List,
  [], ◌∷◌, Option, ◌==◌, ltb, leb, if_elim, if◌then◌else◌, arith, bit_and, length, u8, u16, bit_or,
}
use be.Base.Bits.{has}
use be.Usbf.{
  Usbf, Status, done, stall, Call, irq_changed, in_ready, ctrl_done, notify, finish_control,
  flush_fifos, init, reset, out_byte, out_pending, queue_in, commit, commit_ep0, receive_loop,
  write_ram, dma, dma_length, ep_max_packet, out_slots, put_at,
}
use be.Usbf.Registers.{read, write, in_descriptors, pulse, assign}
use be.Usbf.Host.{
  descriptors_ready, get_descriptor, host_attach, host_bus_reset, dropped, host_control,
  standard_request, host_out, host_in, host_intr_in, Reply, descriptor_copy,
}
use be.Usbf.Events.{
  Event, guest_read, guest_write, attach, bus_reset, power_reset, control, out_packet, in_poll,
  intr_poll, step, steps, handed, requests, is_pending,
}

-- The completions among the calls.
abbrev pub finished : List Call → ℕ
finished [] = 0
finished (irq_changed ∷ cs) = finished cs
finished (in_ready ∷ cs) = finished cs
finished (ctrl_done s ∷ cs) = suc (finished cs)

abbrev one_if : Bool → ℕ
one_if true = 1
one_if false = 0

-- The requests that were completed, and the one that waits.
abbrev pub taken : Usbf → ℕ
taken u = finished u.calls + one_if u.ctrl_pending

abbrev Kept : Usbf → Usbf → Type 0
Kept u t = taken t ≡ taken u

finish-Kept : (u : Usbf) (s : Status) → Kept u (finish_control u s)
unfolding finish_control
finish-Kept u s =
    if_elim (λ (cs : List Call). finished cs + 0 ≡ taken u) u.ctrl_pending
      (λ waits. ground (arith, waits)) (λ free. ground (arith, free))

out_byte-Kept : (u : Usbf) → Kept u (out_byte u).1
unfolding out_byte
out_byte-Kept u = if_elim (λ (r : ℕ × Usbf). Kept u r.1) (out_pending u) (λ _. refl) (λ _. refl)

receive_loop-Kept : (n at : ℕ) (there : Bool) (u : Usbf) → Kept u (receive_loop n at there u)
unfolding receive_loop
receive_loop-Kept zero at there u = refl
receive_loop-Kept (suc n) at there u =
    let (b, v) = out_byte u in
    let after = receive_loop-Kept n (at + 1) there (write_ram there at b v) in
    if_elim (Kept u) (out_pending u) (λ _. after ∙ out_byte-Kept u) (λ _. refl)

dma-Kept : (mapped : ℕ → ℕ → Bool) (u : Usbf) → Kept u (dma mapped u)
unfolding dma queue_in
dma-Kept mapped u =
    let n = dma_length u in
    let pa = u.dma_addr % 2 ^ 29 in
    if_elim (Kept u) (has u.dma_dir 0x01)
      (λ _. if_elim (Kept u) (n == ep_max_packet) (λ _. refl) (λ _. refl))
      (λ _. receive_loop-Kept n pa (not (n == 0) && mapped pa n) u)

commit-Kept : (u : Usbf) (val : ℕ) → Kept u (commit u val)
unfolding commit queue_in finish_control
commit-Kept u val =
    let first = if has val 0x01 then commit_ep0 u else u in
    let second = if has val 0x02 then queue_in first else first in
    let kept1 : Kept u first =
      if_elim (Kept u) (has val 0x01)
        (λ _.
          finish-Kept (record u { intstat = put_at u.intstat 2 (bit_or (u.intstat 2) 0x08) }) done)
        (λ _. refl) in
    let kept2 : Kept u second = if_elim (Kept u) (has val 0x02) (λ _. kept1) (λ _. kept1) in
    if_elim (Kept u) (has val 0x04) (λ _. kept2) (λ _. kept2)

pulse-Kept : (u : Usbf) → Kept u (pulse u)
unfolding flush_fifos finish_control
pulse-Kept u = finish-Kept u stall

assign-Kept : (mapped : ℕ → ℕ → Bool) (u : Usbf) (at val : ℕ) → Kept u (assign mapped u at val)
unfolding finish_control
assign-Kept mapped u at val =
    let b = u8 val in
    if_elim (Kept u) (at == 0x130c)
      (λ _. if_elim (Kept u) (has b 0x01 && not (has b 0x10)) (λ _. dma-Kept mapped u) (λ _. refl))
      (λ _.
        if_elim (Kept u) (at == 0x1338)
          (λ _. if_elim (Kept u) (has b 0x01) (λ _. pulse-Kept u) (λ _. refl))
          (λ _.
            if_elim (Kept u) (at == 0x1460)
              (λ _.
                if_elim (Kept u) (has b 0x08 && u.ctrl_pending) (λ _. finish-Kept u stall)
                  (λ _. refl))
              (λ _.
                if_elim (Kept u) (at == 0x1490) (λ _. commit-Kept u b)
                  (λ _. if_elim (Kept u) (at == 0x14e0) (λ _. refl) (λ _. refl)))))

write-Kept : (mapped : ℕ → ℕ → Bool) (u : Usbf) (off val : ℕ) → Kept u (write mapped u off val)
unfolding write notify
write-Kept mapped u off val =
    let at = off / 4 * 4 in
    if_elim (Kept u) (in_descriptors at) (λ _. refl) (λ _. assign-Kept mapped u at val)

read-Kept : (u : Usbf) (off : ℕ) → Kept u (read u off).1
unfolding read notify
read-Kept u off =
    let at = off / 4 * 4 in
    if_elim P (in_descriptors at) (λ _. refl)
      (λ _.
        if_elim P (at == 0x14cc) (λ _. if_elim (Kept u) (u.setup_pos == 7) (λ _. refl) (λ _. refl))
          (λ _. if_elim P (at == 0x14d4) (λ _. out_byte-Kept u) (λ _. refl)))
  where
    P : ℕ × Usbf → Type 0
    P r = Kept u r.1

dropped-Kept : (u : Usbf) → Kept u (dropped u)
unfolding flush_fifos finish_control
dropped-Kept u = finish-Kept u stall

attach-Kept : (u : Usbf) (on : Bool) → Kept u (host_attach u on)
unfolding host_attach notify
attach-Kept u true = if_elim (Kept u) u.attached (λ _. refl) (λ _. refl)
attach-Kept u false =
    if_elim (Kept u) u.attached (λ _. dropped-Kept (record u { attached = false })) (λ _. refl)

bus_reset-Kept : (u : Usbf) → Kept u (host_bus_reset u)
unfolding host_bus_reset notify
bus_reset-Kept u = dropped-Kept u

reset-Kept : (u : Usbf) → Kept u (reset u)
unfolding reset init notify
reset-Kept u = finish-Kept u stall

-- The reply hands over one request if its status says so, and none otherwise.
abbrev Counted : Usbf → Reply → Type 0
Counted u r = taken r.state ≡ taken u + is_pending r.status

descriptor-Counted : (u : Usbf) (rt value len : ℕ) → Counted u (get_descriptor u rt value len)
descriptor-Counted u rt value len =
    let copy = descriptor_copy u (value / 2 ^ 8) len in
    if_elim (Counted u) (rt == 0x80)
      (λ _. if_elim (Counted u) (length copy == 0) (λ _. omega arith) (λ _. omega arith))
      (λ _. omega arith)

standard-Counted : (u : Usbf) (s : ℕ → ℕ) → Counted u (standard_request u s)
unfolding standard_request notify
standard-Counted u s =
    let req = s 1 in
    let value = u16 (bit_or (s 2) (s 3 * 2 ^ 8)) in
    let len = u16 (bit_or (s 6) (s 7 * 2 ^ 8)) in
    if_elim P (req == 0x06) (λ _. descriptor-Counted u (s 0) value len)
      (λ _.
        if_elim P (req == 0x05) (λ _. omega arith)
          (λ _.
            if_elim P (req == 0x09)
              (λ _. if_elim P (ltb (u.desc 17) value) (λ _. omega arith) (λ _. omega arith))
              (λ _.
                if_elim P (req == 0x08) (λ _. omega arith)
                  (λ _.
                    if_elim P (req == 0x00) (λ _. omega arith)
                      (λ _.
                        if_elim P (req == 0x0a) (λ _. omega arith)
                          (λ _.
                            if_elim P (req == 0x0b)
                              (λ _. if_elim P (value == 0) (λ _. omega arith) (λ _. omega arith))
                              (λ _.
                                if_elim P (req == 0x01 || req == 0x03) (λ _. omega arith)
                                  (λ _. omega arith))))))))
  where
    P : Reply → Type 0
    P r = Counted u r

control-Counted : (u : Usbf) (s : ℕ → ℕ) → Counted u (host_control u s)
unfolding host_control notify finish_control
control-Counted u s =
    if_elim (Counted u) (not u.attached || not (descriptors_ready u)) (λ _. omega arith)
      (λ _.
        if_elim (Counted u) (bit_and (s 0) 0x60 == 0) (λ _. standard-Counted u s)
          (λ _.
            let after : taken (finish_control u stall) ≡ taken u = finish-Kept u stall in
            omega (arith, after)))

out-Kept : (u : Usbf) (frame : List ℕ) → Kept u (host_out u frame).1
unfolding host_out notify
out-Kept u frame =
    if_elim P
      (not u.attached
        || u.config == 0
        || ltb ep_max_packet (length frame)
        || leb out_slots u.out_count)
      (λ _. refl) (λ _. if_elim P (length frame == 0) (λ _. refl) (λ _. refl))
  where
    P : Bool × Usbf → Type 0
    P r = Kept u r.1

in-Kept : (u : Usbf) (max : ℕ) → Kept u (host_in u max).1
unfolding host_in notify
in-Kept u max =
    if_elim (λ (r : Option (List ℕ) × Usbf). Kept u r.1)
      (not u.attached || u.config == 0 || u.in_count == 0) (λ _. refl) (λ _. refl)

intr-Kept : (u : Usbf) (max : ℕ) → Kept u (host_intr_in u max).1
unfolding host_intr_in notify
intr-Kept u max =
    if_elim (λ (r : Option (List ℕ) × Usbf). Kept u r.1)
      (not u.attached || u.config == 0 || not u.ep3_ready) (λ _. refl) (λ _. refl)

step-Counted :
    (mapped : ℕ → ℕ → Bool) (u : Usbf) (e : Event) → taken (step mapped u e) ≡ taken u + handed u e
unfolding step
step-Counted mapped u (guest_read off) = omega (arith, read-Kept u off)
step-Counted mapped u (guest_write off val) = omega (arith, write-Kept mapped u off val)
step-Counted mapped u (attach on) = omega (arith, attach-Kept u on)
step-Counted mapped u bus_reset = omega (arith, bus_reset-Kept u)
step-Counted mapped u power_reset = omega (arith, reset-Kept u)
step-Counted mapped u (control s) = control-Counted u s
step-Counted mapped u (out_packet frame) = omega (arith, out-Kept u frame)
step-Counted mapped u (in_poll max) = omega (arith, in-Kept u max)
step-Counted mapped u (intr_poll max) = omega (arith, intr-Kept u max)

-- Whatever happens to the controller, the requests completed so far and the one that may still be pending
-- are together those before and the ones handed to the guest since.
pub steps-taken :
    (mapped : ℕ → ℕ → Bool) (u : Usbf) (es : List Event)
    → taken (steps mapped u es) ≡ taken u + requests mapped u es
unfolding steps requests
steps-taken mapped u [] = omega arith
steps-taken mapped u (e ∷ es) =
    omega (arith, steps-taken mapped (step mapped u e) es, step-Counted mapped u e)
