-- ===== src/Eeprom/Exchange.antt =====
-- Reading over the bus of src/hw/eeprom.c, and the round trip: what a write stores, a read returns.
use mathlib.Core.Path.{ap₂}
use be.Base.{
  ℕ, zero, suc, ◌+◌, ◌-◌, ◌/◌, ◌%◌, ◌^◌, ◌<◌, ◌≡◌, refl, ap, ◌∙◌, Bool, true, false, List, [], ◌∷◌,
  arith, get_or, set, get_or-set_self, get_or-set_ne, ◌==◌, ==_iff, if◌then◌else◌,
}
use be.Base.Bits.{holds_below, holds_below_lem}
use be.Eeprom.{Eeprom, idle, device, reading, byte_received, drive_bit, set_scl, set_sda, sda}
use be.Eeprom.Bus.{IsValid}
use be.Eeprom.Transfer.{
  Ready, shift_in, ack_clock, send_byte, start_condition, stop_condition, settle,
  send_bits_received, ack_clock_lem,
}
use be.Eeprom.Bytes.{start_lem, send_data, send_word, send_device, set_sda_keeps, rise_keeps}

-- Bit 7 - `n` of the addressed byte, which the slave drives.
abbrev bit_of : ℕ → ℕ → Bool
bit_of v n = v / 2 ^ (7 - n) % 2 == 1

abbrev bit_at : Eeprom → ℕ → Bool
bit_at s n = bit_of (get_or s.mem s.addr 0) n

-- The slave drives bit `n` of the byte, with SCL low.
record Sending (n : ℕ) (s : Eeprom) : Type 0 where
  low : s.scl ≡ false
  no_ack : s.ack_slot ≡ false
  no_mack : s.mack_slot ≡ false
  in_phase : s.phase ≡ reading
  at_bit : s.bits ≡ n
  driven : s.sda_slave ≡ bit_at s n

-- The device address for reading is acknowledged, and the first bit of the addressed byte driven.
send_device_read :
    (s : Eeprom)
    → Ready device s
    → let (ack, t) = send_byte s 0xa1 in
      (ack ≡ false) × Sending 0 t × (t.mem ≡ s.mem) × (t.addr ≡ s.addr)
unfolding send_byte byte_received
send_device_read s r =
    rw
      (
        send_bits_received s device 0xa1 r refl (omega arith),
        ack_clock_lem
            (byte_received device (record s { sda_master = true; shift = 0xa1; bits = 8 })) r.low
            refl refl (rw r.in_phase),
      )
      (ground arith)

-- One clock of a read: the master's SDA released. `ack_clock` is that clock.
pub read_bits : ℕ → Eeprom → List Bool × Eeprom
read_bits zero s = ([], s)
read_bits (suc k) s = let (b, t) = ack_clock s in let (l, u) = read_bits k t in (b ∷ l, u)

rise_reading :
    (s : Eeprom) (n : ℕ)
    → Sending n s
    → n < 8
    → set_scl (record s { sda_master = true }) true
      ≡ record s { sda_master = true; scl = true; bits = n + 1 }
unfolding set_scl
rise_reading s n r h = ground arith

fall_middle :
    (s : Eeprom) (n : ℕ)
    → s.scl ≡ true
    → s.ack_slot ≡ false
    → s.mack_slot ≡ false
    → s.phase ≡ reading
    → s.bits ≡ n
    → n < 8
    → set_scl s false ≡ drive_bit (record s { scl = false })
unfolding set_scl
fall_middle s n high a m p b h = ground arith

fall_last :
    (s : Eeprom)
    → s.scl ≡ true
    → s.ack_slot ≡ false
    → s.mack_slot ≡ false
    → s.phase ≡ reading
    → s.bits ≡ 8
    → set_scl s false ≡ record s { scl = false; sda_slave = true; mack_slot = true }
unfolding set_scl
fall_last s high a m p b = ground arith

-- The state after the last bit: the master's acknowledge slot.
abbrev sent : Eeprom → Eeprom
sent s = record s { sda_master = true; bits = 8; sda_slave = true; mack_slot = true }

read_middle :
    (s : Eeprom) (n : ℕ)
    → Sending n s
    → n < 7
    → ack_clock s ≡ (bit_at s n, drive_bit (record s { sda_master = true; bits = n + 1 }))
unfolding ack_clock sda
read_middle s n r h =
    rw (settle s true r.low, rise_reading s n r (omega arith))
      (ap₂ (λ (a : Bool) (b : Eeprom). (a, b)) r.driven
        (fall_middle (record s { sda_master = true; scl = true; bits = n + 1 }) (n + 1) refl
            r.no_ack r.no_mack r.in_phase refl (omega arith)
          ∙ ground arith))

read_last : (s : Eeprom) → Sending 7 s → ack_clock s ≡ (bit_at s 7, sent s)
unfolding ack_clock sda
read_last s r =
    rw (settle s true r.low, rise_reading s 7 r (omega arith))
      (ap₂ (λ (a : Bool) (b : Eeprom). (a, b)) r.driven
        (fall_last (record s { sda_master = true; scl = true; bits = 8 }) refl r.no_ack r.no_mack
            r.in_phase refl
          ∙ ground arith))

-- The bits of the addressed byte from bit `n` on.
abbrev bits_from : ℕ → ℕ → ℕ → List Bool
bits_from v n zero = []
bits_from v n (suc k) = bit_of v n ∷ bits_from v (n + 1) k

read_bits_lem :
    (k n : ℕ) (s : Eeprom)
    → Sending n s
    → n + k ≡ 7
    → read_bits (suc k) s ≡ (bits_from (get_or s.mem s.addr 0) n (suc k), sent s)
unfolding read_bits
read_bits_lem zero n s r e =
    let seven : n ≡ 7 = omega arith in rw (seven, read_last s (rw seven at r))
read_bits_lem (suc k) n s r e = rw (read_middle s n r (omega arith)) (
    ap (λ (p : List Bool × Eeprom). (bit_at s n ∷ p.0, p.1))
      (read_bits_lem k (n + 1) next rest (omega arith)))
  where
    next : Eeprom
    next = drive_bit (record s { sda_master = true; bits = n + 1 })

    rest : Sending (n + 1) next
    rest = record {
      low = r.low;
      no_ack = r.no_ack;
      no_mack = r.no_mack;
      in_phase = r.in_phase;
      at_bit = refl;
      driven = refl;
    }

-- The master's answer in the ninth clock of a byte read: SDA high refuses more.
refuse : Eeprom → Eeprom
refuse s = set_scl (set_scl (set_sda s true) true) false

-- A byte read to its end: its value, and the state after the refusal.
unfoldable pub receive_byte : Eeprom → ℕ × Eeprom
unfolding refuse
receive_byte s = let (l, t) = read_bits 8 s in (shift_in 0 l, refuse t)

refuse_lem :
    (s : Eeprom)
    → Sending 0 s
    → refuse (sent s) ≡ record (sent s) { mack_slot = false; master_nack = true; phase = idle }
unfolding refuse
refuse_lem s r = rw (settle (sent s) true r.low, risen) fallen
  where
    risen :
        set_scl (record (sent s) { sda_master = true }) true
        ≡ record (sent s) { scl = true; master_nack = true }
    risen = unfold set_scl in ground (arith, r.in_phase, r.low)

    fallen :
        set_scl (record (sent s) { scl = true; master_nack = true }) false
        ≡ record (sent s) { mack_slot = false; master_nack = true; phase = idle }
    fallen = unfold set_scl in ground (arith, r.in_phase, r.low, r.no_ack)

byte_table : holds_below (λ v. shift_in 0 (bits_from v 0 8) == v) 256 ≡ true
unfolding holds_below
byte_table = refl

byte_value : (v : ℕ) → v < 256 → shift_in 0 (bits_from v 0 8) ≡ v
byte_value v h = (==_iff _ v).0 (holds_below_lem _ 256 v h byte_table)

receive_byte_lem :
    (s : Eeprom)
    → Sending 0 s
    → get_or s.mem s.addr 0 < 256
    → let (v, t) = receive_byte s in
      (v ≡ get_or s.mem s.addr 0) × (t.mem ≡ s.mem) × (t.addr ≡ s.addr) × (t.phase ≡ idle)
unfolding receive_byte
receive_byte_lem s r h =
    rw (read_bits_lem 7 0 s r (omega arith), refuse_lem s r) (byte_value _ h, refl, refl, refl)

-- The write that eeprom.dll performs: start, device, word address, data, stop.
unfoldable pub write_at : Eeprom → ℕ → ℕ → Eeprom
write_at s a x =
    stop_condition (send_byte (send_byte (send_byte (start_condition s) 0xa0).1 a).1 x).1

-- The read: start, device, word address, start again, device for reading, one byte, stop.
unfoldable pub read_at : Eeprom → ℕ → ℕ × Eeprom
read_at s a =
    let addressed = (send_byte (send_byte (start_condition s) 0xa0).1 a).1 in
    let (v, t) = receive_byte (send_byte (start_condition addressed) 0xa1).1 in
    (v, stop_condition t)

stop_keeps : (s : Eeprom) → (stop_condition s).mem ≡ s.mem
unfolding stop_condition
stop_keeps s =
    let a = set_sda_keeps s false in
    let b = rise_keeps (set_sda s false) in
    (set_sda_keeps (set_scl (set_sda s false) true) true).0 ∙ b.0 ∙ a.0

-- A write transfer, from any state of the bus, stores the byte at its address, both below 256, and
-- changes nothing else of the contents.
pub write_at_lem : (s : Eeprom) (a x : ℕ) → a < 256 → x < 256 → (write_at s a x).mem ≡ set s.mem a x
unfolding write_at
write_at_lem s a x ha hx =
    let b = start_lem s in
    let d = send_device (start_condition s) b.0 in
    let w = send_word (send_byte (start_condition s) 0xa0).1 a ha d.1 in
    let e = send_data (send_byte (send_byte (start_condition s) 0xa0).1 a).1 x hx w.1 in
    stop_keeps (send_byte (send_byte (send_byte (start_condition s) 0xa0).1 a).1 x).1
    ∙ e.2
    ∙ ap₂ (λ m i. set m i x) (w.2 ∙ d.2 ∙ b.1) w.3

-- A read transfer, from any state of the bus, returns the byte at its address, for an address and
-- a stored byte below 256, and leaves the contents alone.
pub read_at_lem :
    (s : Eeprom) (a : ℕ)
    → a < 256
    → get_or s.mem a 0 < 256
    → ((read_at s a).0 ≡ get_or s.mem a 0) × ((read_at s a).1.mem ≡ s.mem)
unfolding read_at
read_at_lem s a ha byte =
    let b = start_lem s in
    let d = send_device (start_condition s) b.0 in
    let w = send_word (send_byte (start_condition s) 0xa0).1 a ha d.1 in
    let addressed = (send_byte (send_byte (start_condition s) 0xa0).1 a).1 in
    let c = start_lem addressed in
    let f = send_device_read (start_condition addressed) c.0 in
    let sending = (send_byte (start_condition addressed) 0xa1).1 in
    let mem_eq : sending.mem ≡ s.mem = f.2 ∙ c.1 ∙ w.2 ∙ d.2 ∙ b.1 in
    let addr_eq : sending.addr ≡ a = f.3 ∙ c.2 ∙ w.3 in
    let at : get_or sending.mem sending.addr 0 ≡ get_or s.mem a 0 =
      ap₂ (λ (m : List ℕ) (i : ℕ). get_or m i 0) mem_eq addr_eq in
    let r = receive_byte_lem sending f.1 (omega (arith, at)) in
    (r.0 ∙ at, stop_keeps (receive_byte sending).1 ∙ r.1 ∙ mem_eq)

-- In a valid state, after a write transfer of a byte to an address, a read transfer returns that
-- byte at the address and, at any other address that held a byte, what was there before.
pub read_at-write_at :
    (s : Eeprom) (a b x : ℕ)
    → IsValid s
    → a < 256
    → b < 256
    → x < 256
    → get_or s.mem b 0 < 256
    → (read_at (write_at s a x) b).0 ≡ (if a == b then x else get_or s.mem b 0)
read_at-write_at s a b x v ha hb hx byte = ground (
  arith,
  (read_at_lem (write_at s a x) b hb in_range).0,
  stored,
  get_or-set_self s.mem a x 0,
  get_or-set_ne s.mem a b x 0,
  v.array,
)
  where
    stored : get_or (write_at s a x).mem b 0 ≡ get_or (set s.mem a x) b 0
    stored = ap (λ (m : List ℕ). get_or m b 0) (write_at_lem s a x ha hx)

    in_range : get_or (write_at s a x).mem b 0 < 256
    in_range =
        ground (arith, stored, get_or-set_self s.mem a x 0, get_or-set_ne s.mem a b x 0, v.array)
