-- ===== src/Eeprom/Tests.antt =====
-- Tests of the serial EEPROM, and its theorems at the erased array.
use be.Base.{◌<◌, ◌≡◌, refl, true, arith, get_or, ◌==◌, if◌then◌else◌}
use be.Eeprom.{init, set_scl, set_sda, sda}
use be.Eeprom.Transfer
use be.Eeprom.Bus.{init-IsValid}
use be.Eeprom.Transfer.{send_byte, start_condition}
use be.Eeprom.Exchange.{write_at, read_at, read_at-write_at}

wrong_device_ignored : (send_byte (start_condition init) 0x50).0 ≡ true
unfolding send_byte start_condition set_scl set_sda init sda Transfer.send_bits Transfer.clock_out
    Transfer.ack_clock
wrong_device_ignored = refl

erased : get_or init.mem 0x94 0 < 256
unfolding init
erased = omega arith

read_at-write_at_example :
    (read_at (write_at init 0x94 0x12) 0x94).0
    ≡ (if 0x94 == 0x94 then 0x12 else get_or init.mem 0x94 0)
read_at-write_at_example =
    read_at-write_at init 0x94 0x94 0x12 init-IsValid (omega arith) (omega arith) (omega arith)
      erased
