-- ===== src/Lib.antt =====
-- A verification library for the emulator of the Casio BE-300: models of its devices, translated from
-- the C of src/ and src/hw/, and the theorems on them.
--
-- The machine's address decoder gives each device its register accesses and, between slices of CPU
-- time, its ticks; a device answers with register values, with interrupt lines, and with calls of the
-- host's audio, serial and keyboard parts. Each device keeps its state in one C struct, which is a
-- record of the same name here; each of its functions is a function from the state to the state and
-- the results. Time and counters come in as arguments, as they do in the code. The files:
--
-- - Base: what the others share: Boolean tests on numbers (Base/Tests), C arrays as lists (Base/Lists),
--   words with the wrap-around written out (Base/Words), the bits and bytes of a word (Base/Bits,
--   Base/Bytes), C's signed integers (Base/Int) and arrays used as rings (Base/Slots).
-- - PccRing: src/pcconnect_ring.h, the rings of bytes for the guest. The refinement (PccRing/Refine)
--   is to the queue of PccRing/Queue, under the invariant of PccRing/Inv.
-- - Stowaway: src/stowaway.c, the keyboard dock. Its two queues are shown to be the ring of PccRing at
--   capacity 4096 (Stowaway/Rings), which carries the theorems on the probe (Stowaway/Handshake) and on
--   keys (Stowaway/Typing); Stowaway/Keys models the keys, and Stowaway/Inv has the invariant over all
--   calls.
-- - Aiu: src/hw/aiu.c, the wave-output DMA. Aiu/Emit has the copy in chunks, Aiu/Cursor the pacing by
--   the clock, Aiu/Inv the invariant and the acknowledges.
-- - Piu: src/hw/piu.c, the touch panel: the sequencer in Piu and the registers in Piu/Registers, with
--   Piu/Inv, Piu/Pages (where a sample goes), Piu/Held (the pages while software has not taken them) and Piu/Pen (contact changes).
-- - Eeprom: src/hw/eeprom.c, the two-wire memory: Eeprom/Bus (the invariant of the bus),
--   Eeprom/Transfer (one byte, edge by edge), Eeprom/Bytes (the bytes in turn) and Eeprom/Exchange
--   (whole transfers).
-- - Rtc: src/hw/rtc.c, the clock: Rtc/Calendar (days since 1850), Rtc/Gregorian (the calendar in closed form), Rtc/Alarm (the compare interrupt) and
--   Rtc/Registers.
-- - AudioPcm: src/audio_pcm.c, the host's side of sound: the ring of frames (AudioPcm/Queue), the
--   resampler against the stream without its buffer (AudioPcm/Stream), cuts of the input
--   (AudioPcm/Cuts), the phase (AudioPcm/Phase) and the levels (AudioPcm/Levels).
-- - Nand: src/hw/nand.c, the flash: the medium in Nand, the command port in Nand/Commands and the
--   transfer engine in Nand/Engine. Nand/Media has program and erase, Nand/Streams what is read back,
--   Nand/Guards what the command port may do, and Nand/Transfers the two ports side by side.
--   Nand/Port has the registers of the engines and the stream window, Nand/Window the bytes that are
--   written through it and Nand/Bursts whole pages. Nand/Parity is the error-correcting code:
--   Nand/Parity/Field has its field, Nand/Parity/Roots the values of its generator and
--   Nand/Parity/Codeword those of a page; Nand/Syndrome is about the check.
-- - Restore: src/hw/nand_restore.c, the engine that writes images to the same medium: Restore/Port has
--   its registers, Restore/Inv its bounds, Restore/Window the page buffer and Restore/Pages the pages.
-- - Modem: src/hw/modem.c, the PC Card modem: Modem/Line interprets lines and Modem/Uart has the
--   registers. Modem/Answers, Modem/Typing, Modem/Carrier, Modem/Receive and Modem/Inv have the theorems.
-- - El3: src/hw/el3.c, the 3Com network card: El3/Port has its registers, El3/Frames the transmit FIFO,
--   El3/Queue the receive slots and El3/Inv the bounds.
-- - Usbf: src/hw/usbf.c, the USB function controller: Usbf/Registers and Usbf/Host are its two sides and
--   Usbf/Events the calls of both. Usbf/Inv and Usbf/Inv/Steps have its bounds,
--   Usbf/Stream and Usbf/Delivery the bytes from the host, Usbf/Packets those to it, and
--   Usbf/Control and Usbf/Answers the control requests.
-- - Bridge: src/pcconnect_bridge.c, one slot of the serial bridge, over the rings of PccRing: Bridge/Drain
--   has the transfers with the host's stream and Bridge/Port the guest's side. Bridge/Inv, Bridge/Release,
--   Bridge/Arrive and Bridge/Pipe have the theorems on the way to the guest, and Bridge/Send that on the way back.
-- - Pmu: src/hw/pmu.c, power management: Pmu/Causes (reset causes) and Pmu/HalTimer (the boot watchdog).
-- - Battery: src/hw/battery.c: Battery/Advance (draining and charging) and Battery/Adc (what the guest
--   reads).
-- - Cmcu: src/hw/cmcu.c, the watchdog of the power microcontroller (Cmcu/Watchdog).
-- - Siu, Cmu: src/hw/siu.c and src/hw/cmu.c, the serial unit and the clock masks (Siu/Lines).
--
-- Integers are natural numbers; where a C type can wrap, the remainder by a power of 2 is written out,
-- and so is C's subtraction. Bit masks are bit operations on numbers, or quotients and remainders where
-- a mask cuts a field. Loops whose bound is not a structure take fuel: the flush of the keyboard dock
-- takes the number of waiting bytes, the copy and the tick of the audio DMA the number of frames, each
-- of which shrinks at every round, and the theorems on them hold with that fuel. The resampler's loop
-- takes the number of rounds that the rate and the phase allow, a modem's line its length, the
-- network card's FIFO its bytes, and the serial bridge's release the bytes that wait. NULL arguments, which the functions refuse at once, and log output are
-- not modelled.
--
-- Not modelled: the CPU core and the memory system, which are not in the repository; the storage and
-- network devices (src/hw/cf.c, src/usbredir_dev.c and the wireless cards), of src/hw/nand.c the strap
-- table and the legacy registers, and of src/pcconnect_bridge.c the slots and their
-- configuration; the wiring of
-- src/machine_be300.c and src/be300_devices.c; and the host side (windows, sound, sockets, the
-- installer), which is input and output. What a device asks of such a part is an argument of its
-- functions, or a field that records the calls.
pub mod Base
pub mod PccRing
pub mod Stowaway
pub mod Aiu
pub mod AudioPcm
pub mod Nand
pub mod Restore
pub mod Modem
pub mod El3
pub mod Usbf
pub mod Bridge
pub mod Piu
pub mod Eeprom
pub mod Rtc
pub mod Pmu
pub mod Battery
pub mod Cmcu
pub mod Siu
pub mod Cmu
