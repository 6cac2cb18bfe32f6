-- ===== src/Cmcu/Tests.antt =====
-- Tests of the watchdog window, and its theorems at concrete states.
use be.Base.{◌≡◌, refl, true, List, [], ◌∷◌}
use be.Cmcu.{Cmcu, init, read, write, status}
use be.Cmcu.Watchdog.{start, Access}

-- 150 seconds, reloaded at 2 s.
abbrev armed : Cmcu
armed = record {
  regs = 0 ∷ 0 ∷ 0x3a ∷ 0x53 ∷ 0 ∷ 150 ∷ 0 ∷ 0 ∷ 0 ∷ 0 ∷ 0 ∷ 0 ∷ 0 ∷ 0 ∷ 0 ∷ 0 ∷ [];
  running = true;
  reloaded_ns = 2_000_000_000;
}

armed_from_init : start init 150 2_000_000_000 ≡ armed
unfolding write init
armed_from_init = refl

alias_read : read (write init 0x74 7 0) status ≡ 0
unfolding read write init
alias_read = refl

abbrev reloads : List Access
reloads = (0x14, 9, 3_000_000_000) ∷ (0x0c, 0x53, 4_000_000_000) ∷ []
