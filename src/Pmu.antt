-- ===== src/Pmu.antt =====
-- The power management unit of src/hw/pmu.c: the reset-cause register, the HALTimer watchdog and
-- the staged resets. `cold_reset` is a callback into the CPU core: the model keeps whether one is
-- wired, and `tick` returns whether it was called.
pub mod Causes
pub mod HalTimer
mod Tests
use be.Base.{
  ℕ, ◌-◌, ◌/◌, ◌%◌, Bool, true, false, not, ◌&&◌, ◌==◌, ltb, leb, if◌then◌else◌, u16, u32, sub_u32,
  bit_or, bit_and,
}
use be.Base.Bits.{and_not, has}

pub record Pmu : Type 0 where
  pub pmuintreg : ℕ
  pub pmucntreg : ℕ
  pub pmutclkdivreg : ℕ
  pub pmucnt2reg : ℕ
  pub pmuwaitreg : ℕ
  pub pmudivreg : ℕ
  pub last_count_sample : ℕ
  pub remaining : ℕ
  pub arm_cycles : ℕ
  pub window : ℕ
  pub dcd_high : Bool
  pub pending_reset_cause : ℕ
  pub softrst_pending : Bool
  pub cold_reset_wired : Bool

abbrev pub rstsw : ℕ
rstsw = 0x08

abbrev rtcrst : ℕ
rtcrst = 0x10

abbrev pub timoutrst : ℕ
timoutrst = 0x20

abbrev pub memo : ℕ
memo = 0xc0

abbrev pub dcdst : ℕ
dcdst = 0x400

-- `pmu_init` leaves the window as it stands in the storage.
unfoldable pub init : Pmu → Pmu
init s = record {
  pmuintreg = rtcrst;
  pmucntreg = 0;
  pmutclkdivreg = 0;
  pmucnt2reg = 0;
  pmuwaitreg = 0;
  pmudivreg = 0;
  last_count_sample = 0;
  remaining = 0;
  arm_cycles = 0;
  window = s.window;
  dcd_high = true;
  pending_reset_cause = 0;
  softrst_pending = false;
  cold_reset_wired = false;
}

unfoldable pub arm_initial : Pmu → ℕ → ℕ → Bool → Pmu
arm_initial s initial_count cycles wired = record s {
  arm_cycles = cycles;
  window = cycles;
  remaining = cycles;
  last_count_sample = initial_count;
  cold_reset_wired = wired;
}

unfoldable pub apply_pending_reset_state : Pmu → ℕ → Pmu
apply_pending_reset_state s cur_count = record s {
  pmuintreg = bit_or s.pmuintreg (u16 s.pending_reset_cause);
  pending_reset_cause = 0;
  remaining = 0;
  last_count_sample = cur_count;
}

unfoldable pub read : Pmu → ℕ → ℕ
read s offset =
    if offset == 0x00
    then u16 (bit_or (and_not 32 s.pmuintreg (bit_or dcdst 0x4)) (if s.dcd_high then dcdst else 0))
    else if offset == 0x02
    then s.pmucntreg
    else if offset == 0x04
    then s.pmutclkdivreg
    else if offset == 0x06
    then s.pmucnt2reg
    else if offset == 0x08
    then s.pmuwaitreg
    else if offset == 0x0c
    then s.pmudivreg
    else 0

-- The two assignments of a PMUINTREG write: the written ones clear, and the memo bits are copied.
unfoldable pub write_intreg : Pmu → ℕ → Pmu
write_intreg s val =
    let cleared = and_not 16 s.pmuintreg (and_not 32 val (bit_or dcdst (bit_or memo 0x4))) in
    record s { pmuintreg = u16 (bit_or (and_not 32 cleared memo) (bit_and val memo)) }

unfoldable pub write_cntreg : Pmu → ℕ → Pmu
write_cntreg s val =
    let t = record s { pmucntreg = u16 val } in
    if has val 0x4 then record t { remaining = 0; arm_cycles = 0 } else t

unfoldable pub write_cnt2reg : Pmu → ℕ → Pmu
write_cnt2reg s val =
    let t = record s { pmucnt2reg = u16 val } in
    if has val 0x10 then record t { pending_reset_cause = rstsw; softrst_pending = true } else t

unfoldable pub write : Pmu → ℕ → ℕ → Pmu
write s offset val =
    if offset == 0x00
    then write_intreg s val
    else if offset == 0x02
    then write_cntreg s val
    else if offset == 0x04
    then record s { pmutclkdivreg = u16 val }
    else if offset == 0x06
    then write_cnt2reg s val
    else if offset == 0x08
    then record s { pmuwaitreg = u16 val }
    else if offset == 0x0c
    then record s { pmudivreg = u16 val }
    else s

-- The cycles since the last sample, by the low words of the counts.
abbrev pub delta : Pmu → ℕ → ℕ
delta s cur_count = sub_u32 (u32 cur_count) (u32 s.last_count_sample)

unfoldable pub expire : Pmu → ℕ → Pmu
expire s cur_count =
    apply_pending_reset_state (record s { remaining = 0; pending_reset_cause = timoutrst })
      cur_count

unfoldable pub tick : Pmu → ℕ → Bool × Pmu
tick s cur_count =
    let sampled = record s { last_count_sample = cur_count } in
    if s.remaining == 0
    then (false, s)
    else if ltb (s.arm_cycles / 2) (delta s cur_count)
    then (false, sampled)
    else if leb s.remaining (delta s cur_count)
    then (s.cold_reset_wired, expire sampled cur_count)
    else (false, record sampled { remaining = s.remaining - delta s cur_count })

unfoldable pub reset_switch : Pmu → Pmu
reset_switch s = record s { pending_reset_cause = rstsw }

unfoldable hibernate_wake : Pmu → ℕ → ℕ → Pmu
hibernate_wake s cause cur_count = record s {
  pmuintreg = bit_or s.pmuintreg (u16 cause);
  remaining = s.window;
  arm_cycles = s.window;
  last_count_sample = cur_count;
}
