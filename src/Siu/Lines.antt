-- ===== src/Siu/Lines.antt =====
-- The divisor latch, the transmitter and the receiver of src/hw/siu.c.
use be.Base.{ℕ, ◌+◌, ◌*◌, ◌/◌, ◌^◌, ◌<◌, ◌≡◌, refl, true, false, ◌∷◌, u8, arith}
use be.Base.Bits.{and_not, has, has-two_pow, test_bit-and_not}
use be.Siu.{Siu, read, write, dlab}

-- The baud rate, as a driver sets it: DLAB up, both halves of the divisor, DLAB down.
abbrev pub set_divisor : Siu → ℕ → Siu
set_divisor s d = write (write (write (write s 0x06 0x83) 0x00 (u8 d)) 0x02 (d / 2 ^ 8)) 0x06 0x03

-- A driver's write of a 16-bit divisor under DLAB is what the two halves read back under DLAB; it
-- sends no character and leaves the interrupt enables, also if the latch held another divisor.
pub divisor_lem :
    (s : Siu) (d : ℕ)
    → d < 2 ^ 16
    → let t = set_divisor s d in
      let r = write t 0x06 0x83 in
      (t.divisor ≡ d)
      × ((read r 0x00).0 + (read r 0x02).0 * 2 ^ 8 ≡ d)
      × (t.sent ≡ s.sent)
      × (t.ier ≡ s.ier)
      × (dlab t ≡ false)
unfolding write read
divisor_lem s d h = (omega arith, omega arith, refl, refl, refl)

-- With DLAB clear, a write of the transmit register, at its offset or the odd one above it, sends
-- its low byte and keeps the divisor.
transmit_lem :
    (s : Siu) (val : ℕ)
    → dlab s ≡ false
    → (write s 0x00 val ≡ write s 0x01 val)
      × ((write s 0x00 val).sent ≡ u8 val ∷ s.sent)
      × ((write s 0x00 val).divisor ≡ s.divisor)
unfolding write
transmit_lem s val off = rw off (refl, refl, refl)

-- With DLAB clear, a received byte is read once: the data-ready bit falls with it, and the next read
-- gives 0 and changes nothing.
receive_once :
    (s : Siu)
    → dlab s ≡ false
    → s.rx_ready ≡ true
    → let (first, t) = read s 0x00 in
      (first ≡ s.rx_byte) × (has t.lsr 0x01 ≡ false) × (read t 0x00 ≡ (0, t))
unfolding read
receive_once s off ready = rw (off, ready) (refl, cleared s.lsr, rw off refl)
  where
    cleared : (x : ℕ) → has (and_not 8 x 0x01) 0x01 ≡ false
    cleared x = ground (arith, has-two_pow 0 (and_not 8 x 0x01), test_bit-and_not 8 0 x 0x01)
