-- ===== src/Eeprom/Bus.antt =====
-- What holds of the state of src/hw/eeprom.c between two edges of the bus: the address, the shift
-- register and the bit count stay in range, so the shift by `7 - bits` and the access to the array
-- are defined.
use mathlib.Core.Bool.{false≢true}
use be.Base.{
  if_elim, same_flag, not, ◌&&◌, ◌==◌, sym, ◌∙◌, ℕ, ◌≤◌, ◌<◌, ◌≡◌, refl, Bool, true, false, arith,
  length, length-set, length-replicate,
}
use be.Eeprom.{
  Eeprom, Phase, idle, device, word, writing, reading, is_reading, is_idle, init, byte_received,
  rise, fall, fall_ack, fall_reading, set_scl, set_sda,
}

pub record IsValid (s : Eeprom) : Type 0 where
  pub array : length s.mem ≡ 256
  pub in_array : s.addr < 256
  pub byte : s.shift < 256
  pub counted : s.bits ≤ 8
  pub drivable :
      s.scl ≡ false
      → s.ack_slot ≡ false
      → s.mack_slot ≡ false
      → is_reading s.phase ≡ true
      → s.bits < 8
  pub separate : s.ack_slot ≡ true → is_reading s.phase ≡ false

pub init-IsValid : IsValid init
unfolding init
init-IsValid = record {
  array = length-replicate {A = ℕ} 256 0xff;
  in_array = omega arith;
  byte = omega arith;
  counted = omega arith;
  drivable = λ a b c d. omega arith;
  separate = λ a. refl;
}

-- A byte is taken in below the falling edge of its eighth clock.
received-IsValid :
    {s : Eeprom} (p : Phase) → IsValid s → is_reading s.phase ≡ false → IsValid (byte_received p s)
unfolding byte_received
received-IsValid idle v r = v
received-IsValid reading v r = v
received-IsValid device v r = ground arith
received-IsValid word v r = ground arith
received-IsValid {s} writing v r = ground (arith, length-set s.mem s.addr s.shift)

-- Any level on SCL, and any on SDA, keeps the state in range.
set_sda-IsValid : {s : Eeprom} (level : Bool) → IsValid s → IsValid (set_sda s level)
unfolding set_sda
set_sda-IsValid {s} level v = ground arith

rise-IsValid : {s : Eeprom} → s.scl ≡ false → IsValid s → IsValid (rise (record s { scl = true }))
rise-IsValid {s} low v = ground arith

fall_ack-IsValid :
    (s : Eeprom) → s.scl ≡ false → length s.mem ≡ 256 → s.addr < 256 → IsValid (fall_ack s)
fall_ack-IsValid s low m a = ground arith

fall_reading-IsValid :
    (s : Eeprom)
    → s.scl ≡ false
    → s.ack_slot ≡ false
    → is_reading s.phase ≡ true
    → length s.mem ≡ 256
    → s.addr < 256
    → s.shift < 256
    → s.bits ≤ 8
    → IsValid (fall_reading s)
fall_reading-IsValid s low ack r m a b c = ground arith

fall-IsValid : (s : Eeprom) → IsValid s → IsValid (fall (record s { scl = false }))
fall-IsValid s v =
    if_elim IsValid s.ack_slot
      (λ _. fall_ack-IsValid (record s { scl = false }) refl v.array v.in_array)
      λ no_ack.
        if_elim IsValid (is_reading s.phase)
          (λ r.
            fall_reading-IsValid (record s { scl = false }) refl no_ack r v.array v.in_array v.byte
              v.counted)
          λ r.
            if_elim IsValid (not (is_idle s.phase) && s.bits == 8)
              (λ _. received-IsValid s.phase (lowered no_ack r) r) (λ _. lowered no_ack r)
  where
    lowered : s.ack_slot ≡ false → is_reading s.phase ≡ false → IsValid (record s { scl = false })
    lowered no_ack r = record {
      array = v.array;
      in_array = v.in_array;
      byte = v.byte;
      counted = v.counted;
      drivable = λ a b c d. absurd (false≢true (sym r ∙ d));
      separate = v.separate;
    }

-- Both edges of the clock keep the bus valid: 256 bytes of contents, an address and a shift
-- register in range, at most 8 bits counted, fewer while one is driven, and no acknowledge slot
-- while a byte is read.
pub set_scl-IsValid : {s : Eeprom} (level : Bool) → IsValid s → IsValid (set_scl s level)
unfolding set_scl
set_scl-IsValid {s} true v =
    if_elim IsValid (same_flag true s.scl) (λ _. v) λ e. rise-IsValid (low_of s.scl e) v
  where
    low_of : (b : Bool) → same_flag true b ≡ false → b ≡ false
    low_of b e = e
set_scl-IsValid {s} false v = if_elim IsValid (same_flag false s.scl) (λ _. v) λ _. fall-IsValid s v
