-- ===== src/Eeprom.antt =====
-- The two-wire serial EEPROM on the bit-banged bus, src/hw/eeprom.c: 256 bytes at device 0xA0.
pub mod Bus
pub mod Transfer
pub mod Bytes
pub mod Exchange
mod Tests
use be.Base.{
  ℕ, ◌+◌, ◌-◌, ◌*◌, ◌/◌, ◌%◌, ◌^◌, Bool, true, false, not, ◌&&◌, List, ◌==◌, ltb, same_flag,
  if◌then◌else◌, get_or, set, replicate, u8,
}

pub data Phase : Type 0 where
  idle device word writing reading : Phase

pub record Eeprom : Type 0 where
  pub mem : List ℕ
  pub scl : Bool
  pub sda_master : Bool
  pub sda_slave : Bool
  pub phase : Phase
  pub next : Phase
  pub ack_slot : Bool
  pub mack_slot : Bool
  pub master_nack : Bool
  pub shift : ℕ
  pub bits : ℕ
  pub addr : ℕ

unfoldable pub init : Eeprom
init = record {
  mem = replicate 256 0xff;
  scl = true;
  sda_master = true;
  sda_slave = true;
  phase = idle;
  next = idle;
  ack_slot = false;
  mack_slot = false;
  master_nack = false;
  shift = 0;
  bits = 0;
  addr = 0;
}

abbrev pub is_reading : Phase → Bool
is_reading reading = true
is_reading _ = false

abbrev pub is_idle : Phase → Bool
is_idle idle = true
is_idle _ = false

-- Bit 7 - `bits` of the addressed byte. `bits` is below 8 wherever it is called.
abbrev pub drive_bit : Eeprom → Eeprom
drive_bit s = record s { sda_slave = get_or s.mem s.addr 0 / 2 ^ (7 - s.bits) % 2 == 1 }

-- The acknowledge at the end of `byte_received`.
abbrev pub acknowledge : Eeprom → Eeprom
acknowledge s = record s { sda_slave = false; ack_slot = true }

unfoldable pub byte_received : Phase → Eeprom → Eeprom
byte_received device s =
    if s.shift / 2 * 2 == 0xa0
    then acknowledge (record s { next = if s.shift % 2 == 1 then reading else word })
    else record s { phase = idle }
byte_received word s = acknowledge (record s { addr = s.shift; next = writing })
byte_received writing s =
    acknowledge
      (record s { mem = set s.mem s.addr s.shift; addr = u8 (s.addr + 1); next = writing })
byte_received _ s = s

abbrev pub bit_value : Bool → ℕ
bit_value true = 1
bit_value false = 0

-- The rising edge of SCL.
abbrev pub rise : Eeprom → Eeprom
rise s =
    if is_reading s.phase
    then (if s.mack_slot
        then record s { master_nack = s.sda_master }
        else record s { bits = u8 (s.bits + 1) })
    else if not (is_idle s.phase) && not s.ack_slot && ltb s.bits 8
    then record s { shift = u8 (s.shift * 2 + bit_value s.sda_master); bits = u8 (s.bits + 1) }
    else s

-- The falling edge: the end of an acknowledge slot.
abbrev pub fall_ack : Eeprom → Eeprom
fall_ack s =
    let t = record s { ack_slot = false; sda_slave = true; phase = s.next; bits = 0; shift = 0 } in
    if is_reading s.next then drive_bit t else t

-- The falling edge while a byte is sent.
abbrev pub fall_reading : Eeprom → Eeprom
fall_reading s =
    if s.mack_slot
    then (if s.master_nack
        then record s { mack_slot = false; phase = idle; sda_slave = true }
        else drive_bit (record s { mack_slot = false; addr = u8 (s.addr + 1); bits = 0 }))
    else if s.bits == 8
    then record s { sda_slave = true; mack_slot = true }
    else drive_bit s

abbrev pub fall : Eeprom → Eeprom
fall s =
    if s.ack_slot
    then fall_ack s
    else if is_reading s.phase
    then fall_reading s
    else if not (is_idle s.phase) && s.bits == 8
    then byte_received s.phase s
    else s

unfoldable pub set_scl : Eeprom → Bool → Eeprom
unfolding byte_received
set_scl s level =
    if same_flag level s.scl
    then s
    else (if level then rise (record s { scl = true }) else fall (record s { scl = false }))

unfoldable pub set_sda : Eeprom → Bool → Eeprom
set_sda s level =
    if same_flag level s.sda_master
    then s
    else if not s.scl
    then record s { sda_master = level }
    else record s {
      sda_master = level;
      ack_slot = false;
      mack_slot = false;
      sda_slave = true;
      bits = 0;
      shift = 0;
      phase = if level then idle else device;
    }

unfoldable pub sda : Eeprom → Bool
sda s = s.sda_master && s.sda_slave
