-- ===== src/Eeprom/Bytes.antt =====
-- The start condition and the acknowledged bytes of a transfer over the bus of src/hw/eeprom.c.
use be.Base.{ℕ, ◌+◌, ◌<◌, ◌≡◌, refl, ◌∙◌, Bool, true, false, arith, set, u8}
use be.Base.Bits.{test_bit}
use be.Eeprom.{Eeprom, device, word, writing, byte_received, set_scl, set_sda}
use be.Eeprom.Transfer.{Ready, send_byte, start_condition, send_bits_received, ack_clock_lem}

pub set_sda_keeps :
    (s : Eeprom) (b : Bool)
    → let t = set_sda s b in
      (t.mem ≡ s.mem) × (t.addr ≡ s.addr) × (t.scl ≡ s.scl) × (t.sda_master ≡ b)
unfolding set_sda
set_sda_keeps s b = ground arith

pub rise_keeps :
    (s : Eeprom)
    → let t = set_scl s true in
      (t.mem ≡ s.mem) × (t.addr ≡ s.addr) × (t.scl ≡ true) × (t.sda_master ≡ s.sda_master)
unfolding set_scl
rise_keeps s = ground arith

start_edges :
    (t : Eeprom)
    → t.scl ≡ true
    → t.sda_master ≡ true
    → let u = set_scl (set_sda t false) false in
      Ready device u × (u.mem ≡ t.mem) × (u.addr ≡ t.addr)
unfolding set_sda set_scl
start_edges t high released = rw (released, high) (ground arith)

module _ (s : Eeprom) where
  -- The device address for writing is acknowledged, and the word address is awaited.
  pub send_device :
      Ready device s
      → let (ack, t) = send_byte s 0xa0 in
        (ack ≡ false) × Ready word t × (t.mem ≡ s.mem) × (t.addr ≡ s.addr)
  unfolding send_byte byte_received
  send_device r =
      rw
        (
          send_bits_received s device 0xa0 r refl (omega arith),
          ack_clock_lem
              (byte_received device (record s { sda_master = false; shift = 0xa0; bits = 8 })) r.low
              refl refl (rw r.in_phase),
        )
        (ground arith)

  -- A byte in the word phase becomes the address.
  pub send_word :
      (x : ℕ)
      → x < 256
      → Ready word s
      → let (ack, t) = send_byte s x in
        (ack ≡ false) × Ready writing t × (t.mem ≡ s.mem) × (t.addr ≡ x)
  unfolding send_byte byte_received
  send_word x h r =
      rw
        (
          send_bits_received s word x r refl h,
          ack_clock_lem
              (byte_received word (record s { sda_master = test_bit x 0; shift = x; bits = 8 }))
              r.low refl refl (rw r.in_phase),
        )
        (ground arith)

  -- A byte in the data phase is stored, and the address moves on.
  pub send_data :
      (x : ℕ)
      → x < 256
      → Ready writing s
      → let (ack, t) = send_byte s x in
        (ack ≡ false) × Ready writing t × (t.mem ≡ set s.mem s.addr x) × (t.addr ≡ u8 (s.addr + 1))
  unfolding send_byte byte_received
  send_data x h r =
      rw
        (
          send_bits_received s writing x r refl h,
          ack_clock_lem
              (byte_received writing (record s { sda_master = test_bit x 0; shift = x; bits = 8 }))
              r.low refl refl (rw r.in_phase),
        )
        (ground arith)

  -- A start condition, from any state of the bus, awaits the device byte and keeps the contents.
  pub start_lem : let t = start_condition s in Ready device t × (t.mem ≡ s.mem) × (t.addr ≡ s.addr)
  unfolding start_condition
  start_lem =
      let a = set_sda_keeps s true in
      let b = rise_keeps (set_sda s true) in
      let c = start_edges (set_scl (set_sda s true) true) b.2 (b.3 ∙ a.3) in
      (c.0, c.1 ∙ b.0 ∙ a.0, c.2 ∙ b.1 ∙ a.1)
