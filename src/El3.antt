-- ===== src/El3.antt =====
-- The EtherLink III card of src/hw/el3.c: the receive slots, the transmit FIFO and the commands; the
-- registers are in El3/Port. `tx` holds the first `tx_used` bytes of the FIFO and `tx_status` the first
-- `tx_status_count` bytes of the status stack; `transmitted` records the calls of the host.
pub mod Port
pub mod Frames
pub mod Inv
pub mod Queue
mod Tests
use be.Base.{
  ℕ, zero, suc, ◌+◌, ◌-◌, ◌*◌, ◌/◌, ◌%◌, ◌^◌, Bool, true, false, not, ◌&&◌, ◌||◌, List, [], ◌∷◌,
  ◌++◌, ◌==◌, ltb, leb, if◌then◌else◌, bit_and, bit_or, length, take, drop, get_or, u8, u16,
}
use be.Base.Bits.{and_not}

-- A received frame.
pub record Slot : Type 0 where
  pub frame_length : ℕ
  pub bytes : ℕ → ℕ

pub record El3 : Type 0 where
  pub window : ℕ
  pub eeprom : ℕ → ℕ
  pub station : ℕ → ℕ
  pub config_ctrl : ℕ
  pub addr_config : ℕ
  pub resource : ℕ
  pub media : ℕ
  pub eeprom_cmd : ℕ
  pub latched : ℕ
  pub int_mask : ℕ
  pub status_mask : ℕ
  pub rx_filter : ℕ
  pub rx_enabled : Bool
  pub tx_enabled : Bool
  pub tx : List ℕ
  pub tx_status : List ℕ
  pub rx : ℕ → Slot
  pub rx_head : ℕ
  pub rx_count : ℕ
  pub rx_pos : ℕ
  pub transmitted : List (List ℕ)

abbrev pub rx_frames : ℕ
rx_frames = 8

abbrev pub fifo : ℕ
fifo = 2048

abbrev pub tx_size : ℕ
tx_size = 2056

unfoldable pub reset : El3 → El3
reset s = record s {
  window = 0;
  config_ctrl = 0;
  addr_config = 0;
  media = 0;
  resource = 0x3f00;
  eeprom_cmd = 0;
  latched = 0;
  int_mask = 0;
  status_mask = 0;
  rx_filter = 0;
  rx_enabled = false;
  tx_enabled = false;
  tx = [];
  tx_status = [];
  rx_head = 0;
  rx_count = 0;
  rx_pos = 0;
}

abbrev pub blank_slot : Slot
blank_slot = record { frame_length = 0; bytes = λ i. 0 }

-- The words of the EEPROM: the station address, high byte first, and 3Com's IDs.
abbrev pub eeprom_of : (ℕ → ℕ) → ℕ → ℕ
eeprom_of mac = λ (i : ℕ).
    if ltb i 3
    then mac (2 * i) * 2 ^ 8 + mac (2 * i + 1)
    else if i == 3
    then 0x9058
    else if i == 7
    then 0x6d50
    else 0

unfoldable pub init : El3 → (ℕ → ℕ) → El3
unfolding reset
init s mac = reset (record s { eeprom = eeprom_of mac; station = λ i. 0; rx = λ i. blank_slot })

unfoldable pub status : El3 → ℕ
status s =
    let st = if s.rx_enabled && not (s.rx_count == 0) then bit_or s.latched 0x10 else s.latched in
    let latch = if bit_and (bit_and st s.int_mask) 0xfe == 0 then st else bit_or st 1 in
    u16 (bit_or (bit_and latch (bit_or s.status_mask 1)) (s.window * 2 ^ 13))

unfoldable pub irq_pending : El3 → Bool
unfolding status
irq_pending s = not (bit_and (bit_and (status s) s.int_mask) 0xff == 0)

unfoldable pub rx_full : El3 → Bool
rx_full s = s.rx_count == rx_frames

unfoldable pub rx_pop : El3 → El3
rx_pop s =
    let none = s.rx_count == 0 in
    record s {
      rx_head = if none then s.rx_head else (s.rx_head + 1) % rx_frames;
      rx_count = s.rx_count - 1;
      rx_pos = if none then s.rx_pos else 0;
    }

unfoldable pub command : El3 → ℕ → El3
unfolding reset rx_pop
command s value =
    let op = value / 2 ^ 11 in
    let arg = value % 0x800 in
    if op == 0
    then reset s
    else if op == 1
    then record s { window = arg % 8 }
    else if op == 3
    then record s { rx_enabled = false }
    else if op == 4
    then record s { rx_enabled = true }
    else if op == 5
    then record s { rx_head = 0; rx_count = 0; rx_pos = 0; rx_enabled = false }
    else if op == 8
    then rx_pop s
    else if op == 9
    then record s { tx_enabled = true }
    else if op == 10
    then record s { tx_enabled = false }
    else if op == 11
    then record s { tx = []; tx_status = []; tx_enabled = false }
    else if op == 12
    then record s { latched = bit_or s.latched 0x40 }
    else if op == 13
    then record s { latched = and_not 16 s.latched arg }
    else if op == 14
    then record s { int_mask = arg % 0x100 }
    else if op == 15
    then record s { status_mask = arg % 0x100 }
    else if op == 16
    then record s { rx_filter = arg % 0x10 }
    else s

-- The length that stands before a frame in the FIFO, and the bytes that both take.
abbrev pub head_length : List ℕ → ℕ
head_length tx = (get_or tx 0 0 + get_or tx 1 0 * 2 ^ 8) % 0x800

abbrev pub needed : ℕ → ℕ
needed len = 4 + (len + 3) / 4 * 4

abbrev pub flagged : List ℕ → Bool
flagged tx = not (get_or tx 1 0 / 2 ^ 7 % 2 == 0)

-- The frame at the head of the FIFO goes out.
abbrev pub send_head : El3 → El3
send_head s =
    let len = head_length s.tx in
    record s {
      transmitted =
          if s.tx_enabled && leb 14 len
          then s.transmitted ++ (take len (drop 4 s.tx) ∷ [])
          else s.transmitted;
      tx_status =
          if flagged s.tx && ltb (length s.tx_status) 4
          then s.tx_status ++ (0x80 ∷ [])
          else s.tx_status;
      latched = if flagged s.tx then bit_or s.latched 4 else s.latched;
      tx = drop (needed len) s.tx;
    }

-- The head of the FIFO is not a whole frame.
abbrev pub partial : List ℕ → Bool
partial tx = ltb (length tx) 4 || ltb (length tx) (needed (head_length tx))

-- The loop over the frames, for at most `n` of them.
unfoldable pub flush_loop : ℕ → El3 → El3
flush_loop zero s = s
flush_loop (suc n) s = let rest = flush_loop n (send_head s) in if partial s.tx then s else rest

-- A round takes at least 4 bytes, so there are fewer rounds than bytes.
unfoldable pub tx_flush : El3 → El3
unfolding flush_loop
tx_flush s = flush_loop (length s.tx) s

-- Whether the bytes fit, and the FIFO with them.
unfoldable pub append_loop : ℕ → ℕ → ℕ → El3 → Bool × El3
append_loop zero i value s = (true, s)
append_loop (suc n) i value s =
    let rest =
      append_loop n (i + 1) value (record s { tx = s.tx ++ (u8 (value / 2 ^ (8 * i)) ∷ []) }) in
    if leb tx_size (length s.tx)
    then (false, record s { latched = bit_or s.latched 2; tx = [] })
    else rest

unfoldable pub fifo_write : El3 → ℕ → ℕ → El3
unfolding append_loop tx_flush
fifo_write s size value =
    let (fits, t) = append_loop size 0 value s in if fits then tx_flush t else t

unfoldable pub read_loop : ℕ → (ℕ → ℕ) → El3 → ℕ × El3
read_loop zero bytes s = (0, s)
read_loop (suc n) bytes s =
    let (v, t) = read_loop n bytes (record s { rx_pos = s.rx_pos + 1 }) in
    ((if ltb s.rx_pos 1536 then bytes s.rx_pos else 0) + v * 2 ^ 8, t)

unfoldable pub fifo_read : El3 → ℕ → ℕ × El3
unfolding read_loop
fifo_read s size = if s.rx_count == 0 then (0, s) else read_loop size (s.rx s.rx_head).bytes s

-- `memcmp` of the `n` bytes from byte `i` on.
unfoldable pub same_bytes : ℕ → ℕ → (ℕ → ℕ) → List ℕ → Bool
same_bytes zero i f frame = true
same_bytes (suc n) i f frame = get_or frame i 0 == f i && same_bytes n (i + 1) f frame

-- The frame passes the receive filter.
unfoldable pub wanted : El3 → List ℕ → Bool
unfolding same_bytes
wanted s frame =
    let broadcast = same_bytes 6 0 (λ i. 0xff) frame in
    let ours = same_bytes 6 0 s.station frame in
    not (s.rx_filter / 8 % 2 == 0)
    || (ours && not (s.rx_filter % 2 == 0))
    || (broadcast && not (s.rx_filter / 4 % 2 == 0))
    || (not broadcast && not (get_or frame 0 0 % 2 == 0) && not (s.rx_filter / 2 % 2 == 0))

abbrev pub filled : Slot → List ℕ → Slot
filled old frame = record {
  frame_length = u16 (length frame);
  bytes = λ i. if ltb i (length frame) then get_or frame i 0 else old.bytes i;
}

abbrev pub put_slot : (ℕ → Slot) → ℕ → Slot → ℕ → Slot
put_slot rx at slot = λ (i : ℕ). if i == at then slot else rx i

abbrev pub stored : El3 → List ℕ → El3
stored s frame =
    let at = (s.rx_head + s.rx_count) % rx_frames in
    record s { rx = put_slot s.rx at (filled (s.rx at) frame); rx_count = s.rx_count + 1 }

-- Whether the frame is consumed, and the card with it.
unfoldable pub receive : El3 → List ℕ → Bool × El3
unfolding wanted
receive s frame =
    if not s.rx_enabled || ltb (length frame) 14 || ltb 1536 (length frame)
    then (false, s)
    else if not (wanted s frame)
    then (true, s)
    else if s.rx_count == rx_frames
    then (false, record s { latched = bit_or s.latched 2 })
    else (true, stored s frame)
