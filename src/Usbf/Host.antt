-- ===== src/Usbf/Host.antt =====
-- The host's side of the USB function controller in src/hw/usbf.c. The bytes of a control request are a
-- function of their number, a packet is the list of its bytes, and the data of an answer is returned.
use be.Base.{
  ℕ, ◌+◌, ◌-◌, ◌*◌, ◌/◌, ◌%◌, ◌^◌, Bool, true, false, not, ◌&&◌, ◌||◌, List, [], ◌∷◌, ◌==◌, ltb,
  leb, if◌then◌else◌, bit_and, bit_or, u8, u16, length, get_or, Option, none, some, zero, suc,
}
use be.Base.Bits.{has}
use be.Usbf.{
  Usbf, Packet, Status, done, stall, pending, put_at, notify, flush_fifos, finish_control,
  desc_words, ep_max_packet, out_slots, in_slots,
}

abbrev pub descriptors_ready : Usbf → Bool
descriptors_ready u =
    not (u.unit_en == 0) && u.desc 0 == 18 && u.desc 1 == 1 && u.desc 18 == 9 && u.desc 19 == 2

-- The end of every connection: the bus is reset or the cable pulled.
abbrev pub dropped : Usbf → Usbf
dropped u = record (flush_fifos (finish_control u stall)) { address = 0; config = 0 }

unfoldable pub host_attach : Usbf → Bool → Usbf
unfolding notify
host_attach u true = if u.attached then u else notify (record u { attached = true })
host_attach u false = if u.attached then notify (dropped (record u { attached = false })) else u

unfoldable pub host_bus_reset : Usbf → Usbf
unfolding notify
host_bus_reset u =
    notify (record (dropped u) { intstat = put_at u.intstat 2 (bit_or (u.intstat 2) 0x02) })

-- The `n` bytes of an array from `i` on.
unfoldable pub bytes_from : (ℕ → ℕ) → ℕ → ℕ → List ℕ
bytes_from m i zero = []
bytes_from m i (suc n) = m i ∷ bytes_from m (i + 1) n

abbrev pub descriptor_start : ℕ → ℕ
descriptor_start kind = if kind == 1 then 0 else 18

abbrev pub descriptor_length : Usbf → ℕ → ℕ
descriptor_length u kind = if kind == 1 then u.desc 0 else bit_or (u.desc 20) (u.desc 21 * 2 ^ 8)

unfoldable pub descriptor_copy : Usbf → ℕ → ℕ → List ℕ
unfolding bytes_from
descriptor_copy u kind max =
    let start = descriptor_start kind in
    let whole = descriptor_length u kind in
    let kept = if ltb desc_words (start + whole) then desc_words - start else whole in
    if kind == 1 || kind == 2
    then bytes_from u.desc start (if ltb max kept then max else kept)
    else []

-- The status and the data of an answer, and the controller left.
pub record Reply : Type 0 where
  pub status : Status
  pub answer : List ℕ
  pub state : Usbf

abbrev pub reply : Usbf → Status → List ℕ → Reply
reply u status answer = record { status = status; answer = answer; state = u }

abbrev pub get_descriptor : Usbf → ℕ → ℕ → ℕ → Reply
get_descriptor u rt value len =
    let copy = descriptor_copy u (value / 2 ^ 8) len in
    if rt == 0x80
    then (if length copy == 0 then reply u stall [] else reply u done copy)
    else reply u stall []

abbrev pub set_configuration : Usbf → ℕ → Reply
set_configuration u value =
    if ltb (u.desc 17) value
    then reply u stall []
    else reply
        (notify (record u {
          config = u8 value;
          intstat = put_at u.intstat 2 (bit_or (u.intstat 2) 0x04);
        }))
        done []

unfoldable pub standard_request : Usbf → (ℕ → ℕ) → Reply
standard_request u s =
    let req = s 1 in
    let value = u16 (bit_or (s 2) (s 3 * 2 ^ 8)) in
    let len = u16 (bit_or (s 6) (s 7 * 2 ^ 8)) in
    if req == 0x06
    then get_descriptor u (s 0) value len
    else if req == 0x05
    then reply (record u { address = value % 2 ^ 7 }) done []
    else if req == 0x09
    then set_configuration u value
    else if req == 0x08
    then reply u done (if len == 0 then [] else u.config ∷ [])
    else if req == 0x00
    then reply u done
        (if leb 2 len then (if s 0 == 0x80 && has (u.desc 25) 0x40 then 1 else 0) ∷ 0 ∷ [] else [])
    else if req == 0x0a
    then reply u done (if len == 0 then [] else 0 ∷ [])
    else if req == 0x0b
    then (if value == 0 then reply u done [] else reply u stall [])
    else if req == 0x01 || req == 0x03
    then reply u done []
    else reply u stall []

-- A request for the guest, after the one before it is refused.
abbrev pub hand_over : Usbf → (ℕ → ℕ) → Usbf
hand_over u s =
    let v = finish_control u stall in
    notify (record v {
      setup = s;
      setup_pos = 0;
      ctrl_pending = true;
      intstat = put_at u.intstat 1 (bit_or (u.intstat 1) 0x31);
    })

unfoldable pub host_control : Usbf → (ℕ → ℕ) → Reply
unfolding standard_request
host_control u s =
    if not u.attached || not (descriptors_ready u)
    then reply u stall []
    else if bit_and (s 0) 0x60 == 0
    then standard_request u s
    else reply (hand_over u s) pending []

abbrev pub packet_of : List ℕ → Packet
packet_of frame = record { bytes = λ (i : ℕ). get_or frame i 0; len = length frame }

unfoldable pub host_out : Usbf → List ℕ → Bool × Usbf
unfolding notify
host_out u frame =
    if not u.attached
      || u.config == 0
      || ltb ep_max_packet (length frame)
      || leb out_slots u.out_count
    then (false, u)
    else if length frame == 0
    then (true, u)
    else (
      true,
      notify (record u {
        out = put_at u.out ((u.out_head + u.out_count) % out_slots) (packet_of frame);
        out_count = u.out_count + 1;
      }),
    )

-- The first `max` bytes of a packet.
abbrev pub copied : Packet → ℕ → List ℕ
copied p max = bytes_from p.bytes 0 (if ltb p.len max then p.len else max)

-- -1 is `none`.
unfoldable pub host_in : Usbf → ℕ → Option (List ℕ) × Usbf
unfolding notify
host_in u max = if not u.attached || u.config == 0 || u.in_count == 0 then (none, u) else (
  some (copied (u.in_packets u.in_head) max),
  notify (record u { in_head = (u.in_head + 1) % in_slots; in_count = u.in_count - 1 }),
)

unfoldable pub host_intr_in : Usbf → ℕ → Option (List ℕ) × Usbf
unfolding notify
host_intr_in u max =
    if not u.attached || u.config == 0 || not u.ep3_ready
    then (none, u)
    else (some (copied u.ep3 max), notify (record u { ep3_ready = false }))
