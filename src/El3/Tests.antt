-- ===== src/El3/Tests.antt =====
-- Tests of the EtherLink III card, and its theorems at a fresh one.
use be.Base.{◌≡◌, refl, true, not, ◌&&◌, ◌||◌, if◌then◌else◌, arith, [], ◌∷◌, ◌++◌, replicate}
use be.El3.{receive, El3, Slot, tx_flush, wanted}
use be.El3.Port.{write}
use be.El3.Frames.{Packet, Fits, none_left, one_more, encode_all, frames_sent}
use be.El3.Inv.{InRoom, write-InRoom}
use be.El3.Queue.{waiting, legal, frame_waits}

abbrev no_frame : Slot
no_frame = record { frame_length = 0; bytes = λ i. 0 }

abbrev packet : Packet
packet = record {
  payload = replicate 14 7;
  interrupt = true;
  third = 0;
  fourth = 0;
  padding = 0 ∷ 0 ∷ [];
}

abbrev card : El3
card = record {
  window = 1;
  eeprom = λ i. 0;
  station = λ i. i;
  config_ctrl = 0;
  addr_config = 0;
  resource = 0x3f00;
  media = 0;
  eeprom_cmd = 0;
  latched = 0;
  int_mask = 0;
  status_mask = 0;
  rx_filter = 8;
  rx_enabled = true;
  tx_enabled = true;
  tx = encode_all (packet ∷ packet ∷ []);
  tx_status = [];
  rx = λ i. no_frame;
  rx_head = 7;
  rx_count = 2;
  rx_pos = 0;
  transmitted = [];
}

packet-Fits : Fits packet
packet-Fits = record { long = omega arith; short = omega arith; padded = omega arith }

frames_sent_example :
    ((tx_flush card).tx ≡ []) × ((tx_flush card).transmitted ≡ replicate 14 7 ∷ replicate 14 7 ∷ [])
frames_sent_example =
    frames_sent card (packet ∷ packet ∷ []) (one_more packet-Fits (one_more packet-Fits none_left))
      refl refl

card-InRoom : InRoom card
card-InRoom = record {
  head = omega arith;
  count = omega arith;
  fifo_room = omega arith;
  stack = omega arith;
}

write-InRoom_example : InRoom (write card 0 4 0x12345678)
write-InRoom_example = write-InRoom card 0 4 0x12345678 card-InRoom

passes : wanted card (replicate 60 5) ≡ true
unfolding wanted
passes = refl

frame_waits_example :
    let (consumed, t) = receive card (replicate 60 5) in
    (consumed ≡ (legal card (replicate 60 5) && (not (wanted card (replicate 60 5)) || true)))
    × (waiting t
        ≡ waiting card
          ++ (if consumed && wanted card (replicate 60 5) then replicate 60 5 ∷ [] else []))
frame_waits_example = frame_waits card (replicate 60 5) (omega arith)
