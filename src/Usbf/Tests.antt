-- ===== src/Usbf/Tests.antt =====
-- Tests of the USB function controller, and its theorems at an attached and configured one.
use be.Base.{
  ℕ, ◌+◌, ◌≤◌, ◌≡◌, ◌≢◌, refl, Bool, true, false, List, [], ◌∷◌, ◌++◌, length, arith, take, drop,
  ◌==◌, ◌||◌, if◌then◌else◌,
}
use be.Base.Bits.{test_bit}
use be.Usbf
use be.Usbf.{Usbf, Packet, init, no_packet, done, pending, dma, dma_length}
use be.Usbf.Host.{host_control, bytes_from}
use be.Usbf.Events.{Event, control, guest_write, guest_read, bus_reset, out_packet, steps, requests}
use be.Usbf.Control.{taken, steps-taken}
use be.Usbf.Inv.{InRoom}
use be.Usbf.Inv.Steps.{steps-InRoom}
use be.Usbf.Stream.{out_stream}
use be.Usbf.Delivery
use be.Usbf.Delivery.{exchange, exchange_lem, dma_lem, stored}
use be.Usbf.Packets
use be.Usbf.Packets.{talk, talk_lem, in_waiting}
use be.Usbf.Answers.{answer-le, asked, read_setup, read_setup_lem}

abbrev anywhere : ℕ → ℕ → Bool
anywhere pa n = true

-- A device descriptor of 18 bytes before a configuration of 9.
abbrev descriptors : ℕ → ℕ
descriptors n =
    if n == 0
    then 18
    else if n == 1 || n == 17
    then 1
    else if n == 18 || n == 20
    then 9
    else if n == 19
    then 2
    else 0

abbrev device : Usbf
device = record {
  unit_en = 1;
  dma_en = 0;
  dma_dir = 0;
  dma_hi = 0;
  dma_len = 4;
  dma_addr = 256;
  top_latched = 0;
  top_en = 0;
  core_en = 0;
  ep1_off = false;
  ep0_ctrl = 0;
  intstat = λ i. 0;
  intmask = λ i. 0;
  ep1_ctrl = 0;
  other = λ i. 0;
  address = 1;
  config = 1;
  desc = descriptors;
  setup = λ i. 0;
  setup_pos = 0;
  ctrl_pending = false;
  out = λ i. no_packet;
  out_head = 0;
  out_count = 0;
  out_pos = 0;
  in_stage = record { bytes = λ i. i; len = 2 };
  in_packets = λ i. no_packet;
  in_head = 0;
  in_count = 0;
  ep3_stage = no_packet;
  ep3 = no_packet;
  ep3_ready = false;
  attached = true;
  memory = λ i. 0;
  calls = [];
}

device-InRoom : InRoom device
device-InRoom = record {
  outs = record {
    head_in = omega arith;
    count_in = omega arith;
    some_bytes = λ k lt. elim lt [ ];
    short = λ k. omega arith;
    reading = λ lt. elim lt [ ];
    idle = λ _. refl;
  };
  ins = record { head_in = omega arith; count_in = omega arith; short = λ k. omega arith };
  stage = omega arith;
  ep3_stage = omega arith;
  ep3 = omega arith;
  setup = omega arith;
}

-- A class request: the line coding of a serial port.
abbrev line_coding : ℕ → ℕ
line_coding n = if n == 0 then 0x21 else if n == 1 then 0x20 else if n == 6 then 7 else 0

abbrev happenings : List Event
happenings =
    control line_coding
    ∷ control line_coding
    ∷ guest_read 0x14cc
    ∷ guest_write 0x1490 1
    ∷ out_packet (3 ∷ [])
    ∷ bus_reset
    ∷ []

steps-taken_example :
    taken (steps anywhere device happenings) ≡ taken device + requests anywhere device happenings
steps-taken_example = steps-taken anywhere device happenings

steps-InRoom_example : InRoom (steps anywhere device happenings)
steps-InRoom_example = steps-InRoom anywhere device happenings device-InRoom

abbrev reads : List Delivery.Act
reads =
    Delivery.sends (5 ∷ 6 ∷ [])
    ∷ Delivery.takes
    ∷ Delivery.sends (7 ∷ [])
    ∷ Delivery.takes
    ∷ Delivery.takes
    ∷ Delivery.takes
    ∷ []

exchange_lem_example :
    (exchange device reads).taken ++ out_stream (exchange device reads).state
    ≡ out_stream device ++ (exchange device reads).accepted
exchange_lem_example = exchange_lem device reads device-InRoom

all_read : (exchange device reads).taken ≡ 5 ∷ 6 ∷ 7 ∷ []
unfolding exchange
all_read = refl

abbrev loaded : Usbf
loaded = steps anywhere device (out_packet (5 ∷ 6 ∷ []) ∷ [])

loaded-InRoom : InRoom loaded
loaded-InRoom = steps-InRoom anywhere device (out_packet (5 ∷ 6 ∷ []) ∷ []) device-InRoom

dma_lem_example :
    ((dma anywhere loaded).memory ≡ stored loaded.memory 256 (take 4 (out_stream loaded)))
    × (out_stream (dma anywhere loaded) ≡ drop 4 (out_stream loaded))
unfolding steps
dma_lem_example = dma_lem anywhere loaded loaded-InRoom refl (omega arith) refl

abbrev commits : List Packets.Act
commits = Packets.stores 0x1490 2 ∷ Packets.polls ∷ Packets.stores 0x1490 2 ∷ []

talk_lem_example :
    (talk anywhere device commits).received ++ in_waiting (talk anywhere device commits).state
    ≡ in_waiting device ++ (talk anywhere device commits).queued
talk_lem_example = talk_lem anywhere device commits device-InRoom refl

one_received : (talk anywhere device commits).received ≡ (0 ∷ 1 ∷ []) ∷ []
unfolding talk Usbf.commit bytes_from
one_received = refl

-- The first eight bytes of the device descriptor.
abbrev get_descriptor_request : ℕ → ℕ
get_descriptor_request n =
    if n == 0 then 0x80 else if n == 1 then 6 else if n == 3 then 1 else if n == 6 then 8 else 0

answer-le_example :
    (length (host_control device get_descriptor_request).answer ≤ asked get_descriptor_request)
    × ((host_control device get_descriptor_request).status ≢ done
        → length (host_control device get_descriptor_request).answer ≡ 0)
answer-le_example = answer-le device get_descriptor_request

read_setup_lem_example :
    ((read_setup 8 (host_control device line_coding).state).0 ≡ bytes_from line_coding 0 8)
    × (test_bit ((read_setup 8 (host_control device line_coding).state).1.intstat 1) 0 ≡ false)
read_setup_lem_example = read_setup_lem device line_coding refl refl refl
