-- ===== src/Siu/Tests.antt =====
-- The theorems on the serial unit of src/hw/siu.c at concrete states.
use be.Base.{true, []}
use be.Siu.{Siu}

abbrev received : Siu
received = record {
  ier = 5;
  iir = 1;
  fcr = 0;
  lcr = 3;
  mcr = 0;
  lsr = 0x61;
  msr = 0;
  scr = 0;
  divisor = 1;
  rx_byte = 0x41;
  rx_ready = true;
  sent = [];
}
