-- ===== src/Cmcu/Watchdog.antt =====
-- When the watchdog of src/hw/cmcu.c resets the machine, and when it cannot.
use be.Base.{
  ℕ, ◌+◌, ◌*◌, ◌/◌, ◌%◌, ◌^◌, ◌≤◌, ◌<◌, ◌≡◌, ◌≢◌, ◌↔◌, true, false, List, [], ◌∷◌, length, set,
  length-set, get_or-set_self, get_or-set_ne, u16, arith,
}
use be.Cmcu.{
  Cmcu, read, write, expired, seconds, cmd0, arg0, cmd, arg, timeout, status, window_size,
}

-- A running watchdog with a nonzero timeout expires exactly when that many seconds have passed
-- since the last reload, and is stopped then; it is left as it was otherwise.
expired_iff :
    (s : Cmcu) (now : ℕ)
    → s.reloaded_ns ≤ now
    → now < 2 ^ 64
    → ((expired s now).0 ≡ true)
      ↔ ((s.running ≡ true) × (0 < seconds s) × (s.reloaded_ns + seconds s * 1_000_000_000 ≤ now))
unfolding expired
expired_iff s now h w = ground arith

-- The poll that reports an expiry stops the watchdog, so the next poll reports none.
pub expired_once :
    (s : Cmcu) (now later : ℕ)
    → (expired s now).0 ≡ true
    → (expired (expired s now).1 later).0 ≡ false
unfolding expired
expired_once s now later h = ground arith

-- The sequence that Windows CE sends: TIMEOUT, then ARG = 0x53 and CMD = 0x3A.
abbrev pub start : Cmcu → ℕ → ℕ → Cmcu
start s t now = write (write (write s timeout t now) arg 0x53 now) cmd 0x3a now

-- The stop sequence: ARG0 = 0x35, then CMD0 = 0x5C.
abbrev pub stop : Cmcu → ℕ → Cmcu
stop s now = write (write s arg0 0x35 now) cmd0 0x5c now

-- The start sequence, in any state of a full register file, makes STATUS read 3 and sets the
-- timeout, counted from its time.
pub start_lem :
    (s : Cmcu) (t now : ℕ)
    → length s.regs ≡ 16
    → (read (start s t now) status ≡ 3)
      × (seconds (start s t now) ≡ u16 t)
      × ((start s t now).reloaded_ns ≡ now)
      × (length (start s t now).regs ≡ 16)
unfolding read write
start_lem s t now h = ground (
  arith,
  length-set regs 5 t,
  length-set (set regs 5 t) 3 0x53,
  length-set (set (set regs 5 t) 3 0x53) 2 0x3a,
  get_or-set_ne (set (set regs 5 t) 3 0x53) 2 3 0x3a 0,
  get_or-set_self (set regs 5 t) 3 0x53 0,
  get_or-set_ne (set (set regs 5 t) 3 0x53) 2 5 0x3a 0,
  get_or-set_ne (set regs 5 t) 3 5 0x53 0,
  get_or-set_self regs 5 t 0,
)
  where
    open s use {regs}

-- The stop sequence, in any state of a full register file, makes STATUS read 0.
stop_lem : (s : Cmcu) (now : ℕ) → length s.regs ≡ 16 → read (stop s now) status ≡ 0
unfolding read write
stop_lem s now h = ground (
  arith,
  length-set regs 1 0x35,
  get_or-set_ne (set regs 1 0x35) 0 1 0x5c 0,
  get_or-set_self regs 1 0x35 0,
)
  where
    open s use {regs}

-- One access: the offset and value written, and the time.
abbrev pub Access : Type 0
Access = ℕ × ℕ × ℕ

pub write_all : Cmcu → List Access → Cmcu
write_all s [] = s
write_all s ((off, val, now) ∷ rest) = write_all (write s off val now) rest

abbrev SparesCmd : List Access → Type 0
SparesCmd [] = Unit {0}
SparesCmd ((off, val, now) ∷ rest) = (off % window_size / 4 * 4 ≢ cmd) × SparesCmd rest

-- A stopped watchdog stays stopped, and never expires, whatever is written at other registers than
-- CMD.
pub stopped_stays :
    (s : Cmcu) (accesses : List Access) (now : ℕ)
    → s.running ≡ false
    → SparesCmd accesses
    → ((write_all s accesses).running ≡ false) × ((expired (write_all s accesses) now).0 ≡ false)
unfolding write_all write expired
stopped_stays s [] now h p = ground arith
stopped_stays s ((off, val, t) ∷ rest) now h p =
    stopped_stays (write s off val t) rest now (ground arith) p.1
