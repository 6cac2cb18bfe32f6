-- ===== src/Usbf.antt =====
-- The USB function controller of src/hw/usbf.c: the packet queues, the control requests and the interrupt
-- levels. The registers are in Usbf/Registers and the host's side in Usbf/Host. Guest RAM is the field
-- `memory`; whether `ram` returns a pointer for an address and a length is the argument `mapped`. The other
-- callbacks are recorded in `calls`, newest first. `ep_commit`, which nothing uses, is left out.
pub mod Registers
pub mod Host
pub mod Events
pub mod Control
pub mod Inv
pub mod Stream
pub mod Delivery
pub mod Packets
pub mod Answers
mod Tests
use be.Base.{
  ℕ, zero, suc, ◌+◌, ◌-◌, ◌*◌, ◌/◌, ◌%◌, ◌^◌, Bool, true, false, not, ◌&&◌, ◌||◌, List, [], ◌∷◌,
  ◌==◌, ltb, leb, if◌then◌else◌, bit_and, bit_or, u8,
}
use be.Base.Bits.{and_not, has}

abbrev pub window_base : ℕ
window_base = 0x1300

abbrev pub window_end : ℕ
window_end = 0x1700

abbrev pub desc_base : ℕ
desc_base = 0x153c

abbrev pub desc_words : ℕ
desc_words = (0x1620 - desc_base) / 4

abbrev pub ep_max_packet : ℕ
ep_max_packet = 64

abbrev pub out_slots : ℕ
out_slots = 4

abbrev pub in_slots : ℕ
in_slots = 2

-- USBF_CTRL_OK, USBF_CTRL_STALL and USBF_CTRL_PENDING.
pub data Status : Type 0 where
  done stall pending : Status

pub data Call : Type 0 where
  irq_changed in_ready : Call
  ctrl_done : Status → Call

pub record Packet : Type 0 where
  pub bytes : ℕ → ℕ
  pub len : ℕ

pub record Usbf : Type 0 where
  pub unit_en : ℕ
  pub dma_en : ℕ
  pub dma_dir : ℕ
  pub dma_hi : ℕ
  pub dma_len : ℕ
  pub dma_addr : ℕ
  pub top_latched : ℕ
  pub top_en : ℕ
  pub core_en : ℕ
  pub ep1_off : Bool
  pub ep0_ctrl : ℕ
  pub intstat : ℕ → ℕ
  pub intmask : ℕ → ℕ
  pub ep1_ctrl : ℕ
  pub other : ℕ → ℕ
  pub address : ℕ
  pub config : ℕ
  pub desc : ℕ → ℕ
  pub setup : ℕ → ℕ
  pub setup_pos : ℕ
  pub ctrl_pending : Bool
  pub out : ℕ → Packet
  pub out_head : ℕ
  pub out_count : ℕ
  pub out_pos : ℕ
  pub in_stage : Packet
  pub in_packets : ℕ → Packet
  pub in_head : ℕ
  pub in_count : ℕ
  pub ep3_stage : Packet
  pub ep3 : Packet
  pub ep3_ready : Bool
  pub attached : Bool
  pub memory : ℕ → ℕ
  pub calls : List Call

abbrev pub put_at {ℓ} : {A : Type ℓ} → (ℕ → A) → ℕ → A → ℕ → A
put_at m i x = λ (j : ℕ). if j == i then x else m j

abbrev pub emptied : Packet → Packet
emptied p = record p { len = 0 }

unfoldable pub word : ℕ → ℕ
word off = (off + 2 ^ 32 - window_base) % 2 ^ 32 / 4

unfoldable pub notify : Usbf → Usbf
notify u = record u { calls = irq_changed ∷ u.calls }

unfoldable pub out_pending : Usbf → Bool
out_pending u = not (u.out_count == 0)

unfoldable pub intstat_of : Usbf → ℕ → ℕ
unfolding out_pending
intstat_of u i =
    let v = u.intstat i in
    let w = if i == 0 && u.in_count == 0 && not u.ep1_off then bit_or v 0x04 else v in
    if i == 1 && out_pending u then bit_or w 0x04 else w

unfoldable pub core_pending : Usbf → Bool
unfolding intstat_of
core_pending u =
    not (and_not 8 (intstat_of u 0) (u.intmask 0) == 0)
    || not (and_not 8 (intstat_of u 1) (u.intmask 1) == 0)
    || not (and_not 8 (intstat_of u 2) (u.intmask 2) == 0)

unfoldable pub top_stat : Usbf → ℕ
unfolding out_pending core_pending
top_stat u =
    let v = u.top_latched in
    let tx = if has u.ep1_ctrl 0x80 && ltb u.in_count in_slots then bit_or v 0x08 else v in
    let rx = if out_pending u then bit_or tx 0x04 else tx in
    if core_pending u then bit_or rx 0x10 else rx

unfoldable pub irq_pending : Usbf → Bool
unfolding top_stat
irq_pending u = not (u.unit_en == 0) && has (top_stat u) u.top_en

unfoldable pub flush_fifos : Usbf → Usbf
flush_fifos u = record u {
  out_head = 0;
  out_count = 0;
  out_pos = 0;
  in_head = 0;
  in_count = 0;
  in_stage = emptied u.in_stage;
  ep3_stage = emptied u.ep3_stage;
  ep3_ready = false;
  setup_pos = 0;
}

unfoldable pub finish_control : Usbf → Status → Usbf
finish_control u status = record u {
  ctrl_pending = false;
  calls = if u.ctrl_pending then ctrl_done status ∷ u.calls else u.calls;
}

abbrev pub no_packet : Packet
no_packet = record { bytes = λ i. 0; len = 0 }

-- `memset` of the state, with the callbacks kept.
unfoldable pub init : Usbf → Usbf
init u = record u {
  unit_en = 0;
  dma_en = 0;
  dma_dir = 0;
  dma_hi = 0;
  dma_len = 0;
  dma_addr = 0;
  top_latched = 0;
  top_en = 0;
  core_en = 0;
  ep1_off = false;
  ep0_ctrl = 0;
  intstat = λ i. 0;
  intmask = λ i. 0xff;
  ep1_ctrl = 0;
  other = λ i. 0;
  address = 0;
  config = 0;
  desc = λ i. 0;
  setup = λ i. 0;
  setup_pos = 0;
  ctrl_pending = false;
  out = λ i. no_packet;
  out_head = 0;
  out_count = 0;
  out_pos = 0;
  in_stage = no_packet;
  in_packets = λ i. no_packet;
  in_head = 0;
  in_count = 0;
  ep3_stage = no_packet;
  ep3 = no_packet;
  ep3_ready = false;
  attached = false;
}

unfoldable pub reset : Usbf → Usbf
unfolding init finish_control notify
reset u = notify (record (init (finish_control u stall)) { attached = u.attached })

abbrev pub handles : ℕ → Bool
handles off = leb window_base off && ltb off window_end

-- The byte at the read position of the oldest packet.
abbrev pub out_front : Usbf → ℕ
out_front u = let p = u.out u.out_head in if ltb u.out_pos p.len then p.bytes u.out_pos else 0

abbrev pub out_step : Usbf → Usbf
out_step u =
    let pos = u8 (u.out_pos + 1) in
    let ended = leb (u.out u.out_head).len pos in
    record u {
      out_head = if ended then (u.out_head + 1) % out_slots else u.out_head;
      out_count = if ended then u.out_count - 1 else u.out_count;
      out_pos = if ended then 0 else pos;
    }

unfoldable pub out_byte : Usbf → ℕ × Usbf
unfolding out_pending
out_byte u = if out_pending u then (out_front u, out_step u) else (0, u)

unfoldable pub out_remaining : Usbf → ℕ
unfolding out_pending
out_remaining u = if out_pending u then ((u.out u.out_head).len + 2 ^ 8 - u.out_pos) % 2 ^ 8 else 0

unfoldable pub queue_in : Usbf → Usbf
queue_in u =
    let room = ltb u.in_count in_slots in
    record u {
      in_packets =
          if room
          then put_at u.in_packets ((u.in_head + u.in_count) % in_slots) u.in_stage
          else u.in_packets;
      in_count = if room then u.in_count + 1 else u.in_count;
      in_stage = emptied u.in_stage;
      calls = in_ready ∷ u.calls;
    }

abbrev pub commit_ep0 : Usbf → Usbf
commit_ep0 u =
    finish_control (record u { intstat = put_at u.intstat 2 (bit_or (u.intstat 2) 0x08) }) done

abbrev pub commit_ep3 : Usbf → Usbf
commit_ep3 u = record u {
  ep3 = u.ep3_stage;
  ep3_ready = true;
  ep3_stage = emptied u.ep3_stage;
  calls = in_ready ∷ u.calls;
}

unfoldable pub commit : Usbf → ℕ → Usbf
unfolding queue_in
commit u val =
    let first = if has val 0x01 then commit_ep0 u else u in
    let second = if has val 0x02 then queue_in first else first in
    if has val 0x04 then commit_ep3 second else second

-- The guest's RAM from `pa` on, with a byte written at `pa + i` where there is RAM.
abbrev pub write_ram : Bool → ℕ → ℕ → Usbf → Usbf
write_ram there at b u = record u { memory = if there then put_at u.memory at b else u.memory }

unfoldable pub receive_loop : ℕ → ℕ → Bool → Usbf → Usbf
unfolding out_pending out_byte
receive_loop zero at there u = u
receive_loop (suc n) at there u =
    let rest = receive_loop n (at + 1) there (write_ram there at (out_byte u).0 (out_byte u).1) in
    if out_pending u then rest else u

-- The stage of endpoint 1, filled from RAM; where there is none, the old bytes stay.
abbrev pub fill : Usbf → ℕ → ℕ → Bool → Usbf
fill u pa n there =
    let old = u.in_stage.bytes in
    record u {
      in_stage = record {
        bytes = λ (i : ℕ). if there && ltb i n then u.memory (pa + i) else old i;
        len = n;
      };
    }

abbrev pub dma_length : Usbf → ℕ
dma_length u = if ltb ep_max_packet u.dma_len then ep_max_packet else u.dma_len

abbrev pub latch : ℕ → Usbf → Usbf
latch bits u = record u { top_latched = bit_or u.top_latched bits }

unfoldable pub dma : (ℕ → ℕ → Bool) → Usbf → Usbf
unfolding queue_in receive_loop
dma mapped u =
    let pa = u.dma_addr % 2 ^ 29 in
    let n = dma_length u in
    let there = not (n == 0) && mapped pa n in
    if has u.dma_dir 0x01
    then (if n == ep_max_packet
        then latch 0x02 (queue_in (fill u pa n there))
        else latch 0x02 (fill u pa n there))
    else latch 0x01 (receive_loop n pa there u)
