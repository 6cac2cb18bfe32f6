-- ===== src/Eeprom/Transfer.antt =====
-- One byte over the bus of src/hw/eeprom.c, edge by edge, as the guest's eeprom.dll drives it.
use mathlib.Core.Path.{ap₂}
use be.Base.{
  ◌++◌, ℕ, ◌+◌, ◌*◌, ◌≤◌, ◌<◌, ◌≡◌, refl, sym, ap, ◌∙◌, Bool, true, false, List, [], ◌∷◌, arith,
  length, u8, ◌==◌, ==_iff,
}
use be.Base.Bits.{test_bit, holds_below, holds_below_lem}
use be.Eeprom.{
  Eeprom, Phase, device, word, writing, byte_received, bit_value, fall_ack, set_scl, set_sda, sda,
}

-- One clock of the master with SDA at `b`, from SCL low to SCL low.
unfoldable pub clock_out : Eeprom → Bool → Eeprom
clock_out s b = set_scl (set_scl (set_sda s b) true) false

unfoldable pub send_bits : Eeprom → List Bool → Eeprom
send_bits s [] = s
send_bits s (b ∷ l) = send_bits (clock_out s b) l

abbrev byte_bits : ℕ → List Bool
byte_bits x =
    test_bit x 7
    ∷ test_bit x 6
    ∷ test_bit x 5
    ∷ test_bit x 4
    ∷ test_bit x 3
    ∷ test_bit x 2
    ∷ test_bit x 1
    ∷ test_bit x 0
    ∷ []

-- A phase in which the slave takes bits in.
abbrev takes_in : Phase → Bool
takes_in device = true
takes_in word = true
takes_in writing = true
takes_in _ = false

-- Waiting for the first bit of a byte, in phase `p`, with SCL low.
pub record Ready (p : Phase) (s : Eeprom) : Type 0 where
  pub low : s.scl ≡ false
  pub no_ack : s.ack_slot ≡ false
  pub no_mack : s.mack_slot ≡ false
  pub in_phase : s.phase ≡ p
  pub no_bits : s.bits ≡ 0
  pub no_shift : s.shift ≡ 0

-- `shift_in acc l` is the shift register after the bits of `l`.
abbrev pub shift_in : ℕ → List Bool → ℕ
shift_in acc [] = acc
shift_in acc (b ∷ l) = shift_in (u8 (acc * 2 + bit_value b)) l

abbrev last_level : Bool → List Bool → Bool
last_level b [] = b
last_level _ (b ∷ l) = last_level b l

pub settle : (s : Eeprom) (b : Bool) → s.scl ≡ false → set_sda s b ≡ record s { sda_master = b }
unfolding set_sda
settle s b low = ground arith

-- The rising edge shifts the master's level in.
raise :
    (s : Eeprom)
    → s.scl ≡ false
    → s.ack_slot ≡ false
    → takes_in s.phase ≡ true
    → s.bits < 8
    → set_scl s true ≡ record s {
      scl = true;
      shift = u8 (s.shift * 2 + bit_value s.sda_master);
      bits = s.bits + 1;
    }
unfolding set_scl
raise s low no_ack takes room = ground arith

-- The falling edge before the eighth bit changes nothing.
lower :
    (s : Eeprom)
    → s.scl ≡ true
    → s.ack_slot ≡ false
    → takes_in s.phase ≡ true
    → s.bits < 8
    → set_scl s false ≡ record s { scl = false }
unfolding set_scl
lower s high no_ack takes room = ground arith

-- After the eighth it takes the byte.
lower_eighth :
    (s : Eeprom)
    → s.scl ≡ true
    → s.ack_slot ≡ false
    → takes_in s.phase ≡ true
    → s.bits ≡ 8
    → set_scl s false ≡ byte_received s.phase (record s { scl = false })
unfolding set_scl
lower_eighth s high no_ack takes room = ground arith

-- The state after taking the bit `b` in.
abbrev taken : Eeprom → Bool → Eeprom
taken s b = record s { sda_master = b; shift = u8 (s.shift * 2 + bit_value b); bits = s.bits + 1 }

clock_out_lem :
    (s : Eeprom) (b : Bool)
    → s.scl ≡ false
    → s.ack_slot ≡ false
    → takes_in s.phase ≡ true
    → s.bits < 7
    → clock_out s b ≡ taken s b
unfolding clock_out
clock_out_lem s b low no_ack takes room =
    rw (settle s b low, raise (record s { sda_master = b }) low no_ack takes (omega arith))
      (lower (record (taken s b) { scl = true }) refl no_ack takes (omega arith) ∙ ground arith)

clock_out_eighth :
    (s : Eeprom) (b : Bool)
    → s.scl ≡ false
    → s.ack_slot ≡ false
    → takes_in s.phase ≡ true
    → s.bits ≡ 7
    → clock_out s b ≡ byte_received s.phase (taken s b)
unfolding clock_out
clock_out_eighth s b low no_ack takes seven =
    rw (settle s b low, raise (record s { sda_master = b }) low no_ack takes (omega arith))
      (lower_eighth (record (taken s b) { scl = true }) refl no_ack takes (omega arith)
        ∙ ap (λ t. byte_received s.phase (record (taken s b) { scl = t })) (sym low))

send_bits_lem :
    (s : Eeprom) (l : List Bool)
    → s.scl ≡ false
    → s.ack_slot ≡ false
    → takes_in s.phase ≡ true
    → s.bits + length l ≤ 7
    → send_bits s l ≡ record s {
      sda_master = last_level s.sda_master l;
      shift = shift_in s.shift l;
      bits = s.bits + length l;
    }
unfolding send_bits
send_bits_lem s [] low no_ack takes room = ground arith
send_bits_lem s (b ∷ l) low no_ack takes room =
    rw (clock_out_lem s b low no_ack takes (omega arith))
      (send_bits_lem (taken s b) l low no_ack takes (omega arith) ∙ ground arith)

-- The master releases SDA and clocks the ninth bit: the level it reads, and the state after.
unfoldable pub ack_clock : Eeprom → Bool × Eeprom
ack_clock s = let high = set_scl (set_sda s true) true in (sda high, set_scl high false)

-- A byte sent, most significant bit first: the acknowledge read (low is an acknowledge), and the
-- state after the ninth clock.
unfoldable pub send_byte : Eeprom → ℕ → Bool × Eeprom
send_byte s x = ack_clock (send_bits s (byte_bits x))

-- The start and stop conditions, from any levels.
unfoldable pub start_condition : Eeprom → Eeprom
start_condition s = set_scl (set_sda (set_scl (set_sda s true) true) false) false

unfoldable pub stop_condition : Eeprom → Eeprom
stop_condition s = set_sda (set_scl (set_sda s false) true) true

byte_bits_table : holds_below (λ x. shift_in 0 (byte_bits x) == x) 256 ≡ true
unfolding holds_below
byte_bits_table = refl

-- The eight bits of a byte, shifted into an empty register, are the byte.
byte_bits_value : (x : ℕ) → x < 256 → shift_in 0 (byte_bits x) ≡ x
byte_bits_value x h = (==_iff _ x).0 (holds_below_lem _ 256 x h byte_bits_table)

send_bits_snoc :
    (s : Eeprom) (l : List Bool) (b : Bool)
    → send_bits s (l ++ (b ∷ [])) ≡ clock_out (send_bits s l) b
unfolding send_bits
send_bits_snoc s [] b = refl
send_bits_snoc s (a ∷ l) b = send_bits_snoc (clock_out s a) l b

-- The bits of a byte but the lowest.
abbrev high_bits : ℕ → List Bool
high_bits x =
    test_bit x 7
    ∷ test_bit x 6
    ∷ test_bit x 5
    ∷ test_bit x 4
    ∷ test_bit x 3
    ∷ test_bit x 2
    ∷ test_bit x 1
    ∷ []

pub send_bits_received :
    (s : Eeprom) (p : Phase) (x : ℕ)
    → Ready p s
    → takes_in p ≡ true
    → x < 256
    → send_bits s (byte_bits x)
      ≡ byte_received p (record s { sda_master = test_bit x 0; shift = x; bits = 8 })
send_bits_received s p x r takes h =
    send_bits_snoc s (high_bits x) (test_bit x 0)
    ∙ ap (λ t. clock_out t (test_bit x 0))
        (send_bits_lem s (high_bits x) r.low r.no_ack (rw r.in_phase takes) (omega arith))
    ∙ clock_out_eighth seven (test_bit x 0) r.low r.no_ack (rw r.in_phase takes) (omega arith)
    ∙ ap₂ (λ q t. byte_received q t) r.in_phase whole
  where
    seven : Eeprom
    seven = record s {
      sda_master = last_level s.sda_master (high_bits x);
      shift = shift_in s.shift (high_bits x);
      bits = s.bits + 7;
    }

    whole : taken seven (test_bit x 0) ≡ record s { sda_master = test_bit x 0; shift = x; bits = 8 }
    whole = rw r.no_shift (
        ap₂ (λ (v n : ℕ). record s { sda_master = test_bit x 0; shift = v; bits = n })
          (byte_bits_value x h) (omega arith))

-- The ninth clock after an accepted byte.
pub ack_clock_lem :
    (t : Eeprom)
    → t.scl ≡ false
    → t.ack_slot ≡ true
    → t.sda_slave ≡ false
    → takes_in t.phase ≡ true
    → ack_clock t ≡ (false, fall_ack (record t { sda_master = true }))
unfolding ack_clock sda
ack_clock_lem t low ack pulled takes =
    rw (settle t true low, raised) (ap₂ (λ (a : Bool) (b : Eeprom). (a, b)) (ground arith) dropped)
  where
    raised :
        set_scl (record t { sda_master = true }) true ≡ record t { sda_master = true; scl = true }
    raised = unfold set_scl in ground arith

    dropped :
        set_scl (record t { sda_master = true; scl = true }) false
        ≡ fall_ack (record t { sda_master = true })
    dropped = unfold set_scl in ground arith
