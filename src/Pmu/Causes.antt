-- ===== src/Pmu/Causes.antt =====
-- The reset-cause register PMUINTREG of src/hw/pmu.c, bit by bit, and how a reset's cause gets there.
use be.Base.{
  ℕ, ◌≤◌, ◌<◌, ◌≡◌, refl, ◌∙◌, Bool, true, false, not, ◌&&◌, ◌||◌, ◌==◌, bit_and, if◌then◌else◌,
  arith, same_flag, if_elim, ltb, leb, ◌/◌,
}
use be.Base.Bits.{
  has, test_bit, and_not, test_bit-bit_or, test_bit-bit_and, test_bit-and_not, test_bit-mod,
  holds_below, holds_below_lem, test_bit-zero,
}
use be.Pmu.{
  Pmu, read, tick, expire, delta, write, write_intreg, write_cnt2reg, apply_pending_reset_state,
  dcdst, memo, rstsw, timoutrst,
}

-- The masks of the register, at each of its bits.
abbrev masks_at : ℕ → Bool
masks_at k =
    same_flag (test_bit 0x404 k) (k == 10 || k == 2)
    && same_flag (test_bit 0x4c4 k) (k == 10 || k == 7 || k == 6 || k == 2)
    && same_flag (test_bit 0x400 k) (k == 10)
    && same_flag (test_bit 0xc0 k) (k == 7 || k == 6)

masks_table : holds_below masks_at 16 ≡ true
unfolding holds_below
masks_table = refl

masks_lem :
    (k : ℕ)
    → k < 16
    → (test_bit 0x404 k ≡ (k == 10 || k == 2))
      × (test_bit 0x4c4 k ≡ (k == 10 || k == 7 || k == 6 || k == 2))
      × (test_bit 0x400 k ≡ (k == 10))
      × (test_bit 0xc0 k ≡ (k == 7 || k == 6))
masks_lem k h =
    split (test_bit 0x404 k) (k == 10 || k == 2) (test_bit 0x4c4 k)
      (k == 10 || k == 7 || k == 6 || k == 2) (test_bit 0x400 k) (k == 10) (test_bit 0xc0 k)
      (k == 7 || k == 6) (holds_below_lem masks_at 16 k h masks_table)
  where
    split :
        (a a' b b' c c' d d' : Bool)
        → (same_flag a a' && same_flag b b' && same_flag c c' && same_flag d d') ≡ true
        → (a ≡ a') × (b ≡ b') × (c ≡ c') × (d ≡ d')
    split a a' b b' c c' d d' e = ground arith

-- What a read of PMUINTREG shows: bit 10 is the DCD# pin, bit 2 is 0, and the rest are stored.
read_bits :
    (s : Pmu) (k : ℕ)
    → k < 16
    → test_bit (read s 0x00) k
      ≡ (if k == 10 then s.dcd_high else if k == 2 then false else test_bit s.pmuintreg k)
unfolding read
read_bits s k h =
    test_bit-mod 16 k _ h
    ∙ test_bit-bit_or k (and_not 32 s.pmuintreg 0x404) (if s.dcd_high then dcdst else 0)
    ∙ ground (arith, masks_lem k h, test_bit-and_not 32 k s.pmuintreg 0x404, test_bit-zero k)

write_bits :
    (s : Pmu) (val k : ℕ)
    → k < 16
    → test_bit (write_intreg s val).pmuintreg k ≡ (
        if k == 7 || k == 6
        then test_bit val k
        else if k == 10 || k == 2
        then test_bit s.pmuintreg k
        else test_bit s.pmuintreg k && not (test_bit val k))
unfolding write_intreg
write_bits s val k h =
    test_bit-mod 16 k _ h
    ∙ test_bit-bit_or k (and_not 32 (and_not 16 s.pmuintreg (and_not 32 val 0x4c4)) memo)
        (bit_and val memo)
    ∙ ground (
      arith,
      masks_lem k h,
      test_bit-bit_and k val memo,
      test_bit-and_not 32 k (and_not 16 s.pmuintreg (and_not 32 val 0x4c4)) memo,
      test_bit-and_not 16 k s.pmuintreg (and_not 32 val 0x4c4) h,
      test_bit-and_not 32 k val 0x4c4,
    )

-- A write to PMUINTREG clears the cause bits written as 1, copies the memo bits 7 and 6, and moves
-- neither the DCD# pin at bit 10 nor bit 2, which reads 0.
pub intreg_write_bits :
    (s : Pmu) (val k : ℕ)
    → k < 16
    → test_bit (read (write s 0x00 val) 0x00) k ≡ (
        if k == 10
        then s.dcd_high
        else if k == 2
        then false
        else if k == 7 || k == 6
        then test_bit val k
        else test_bit s.pmuintreg k && not (test_bit val k))
unfolding write
intreg_write_bits s val k h =
    read_bits (write_intreg s val) k h ∙ ground (arith, write_bits s val k h, kept)
  where
    kept : (write_intreg s val).dcd_high ≡ s.dcd_high
    kept = unfold write_intreg in refl

single_bits : ℕ → Bool
single_bits k = same_flag (test_bit rstsw k) (k == 3) && same_flag (test_bit timoutrst k) (k == 5)

single_table : holds_below single_bits 16 ≡ true
unfolding holds_below single_bits
single_table = refl

single_lem : (k : ℕ) → k < 16 → (test_bit rstsw k ≡ (k == 3)) × (test_bit timoutrst k ≡ (k == 5))
unfolding single_bits
single_lem k h =
    split (test_bit rstsw k) (k == 3) (test_bit timoutrst k) (k == 5)
      (holds_below_lem single_bits 16 k h single_table)
  where
    split : (a a' b b' : Bool) → (same_flag a a' && same_flag b b') ≡ true → (a ≡ a') × (b ≡ b')
    split a a' b b' e = ground arith

-- A software reset: SOFTRST written to PMUCNT2REG and applied sets the reset-switch cause, keeps
-- every other cause bit, and stops the HALTimer.
pub softrst_cause :
    (s : Pmu) (val cur_count k : ℕ)
    → has val 0x10 ≡ true
    → k < 16
    → let t = apply_pending_reset_state (write s 0x06 val) cur_count in
      (test_bit t.pmuintreg k ≡ (test_bit s.pmuintreg k || k == 3)) × (t.remaining ≡ 0)
unfolding write write_cnt2reg apply_pending_reset_state
softrst_cause s val cur_count k h l =
    rw h (test_bit-bit_or k s.pmuintreg rstsw ∙ rw (single_lem k l).0, refl)

-- The tick at which a running HALTimer expires, by a step of at most half its window, sets the
-- time-out cause, keeps every other cause bit, and stops the HALTimer.
pub expiry_cause :
    (s : Pmu) (cur_count k : ℕ)
    → 0 < s.remaining
    → delta s cur_count ≤ s.arm_cycles / 2
    → s.remaining ≤ delta s cur_count
    → k < 16
    → let t = (tick s cur_count).1 in
      (test_bit t.pmuintreg k ≡ (test_bit s.pmuintreg k || k == 5)) × (t.remaining ≡ 0)
unfolding tick
expiry_cause s cur_count k pos small up l =
    if_elim After (s.remaining == 0) (λ e. absurd (wrong e))
      λ _.
        if_elim After (ltb (s.arm_cycles / 2) (delta s cur_count)) (λ e. absurd (late e))
          λ _.
            if_elim After (leb s.remaining (delta s cur_count)) (λ _. expired)
              (λ e. absurd (early e))
  where
    After : Bool × Pmu → Type 0
    After r = (test_bit r.1.pmuintreg k ≡ (test_bit s.pmuintreg k || k == 5)) × (r.1.remaining ≡ 0)

    wrong : (s.remaining == 0) ≡ true → ⊥
    wrong e = ground arith

    late : ltb (s.arm_cycles / 2) (delta s cur_count) ≡ true → ⊥
    late e = ground arith

    early : leb s.remaining (delta s cur_count) ≡ false → ⊥
    early e = ground arith

    expired :
        After (s.cold_reset_wired, expire (record s { last_count_sample = cur_count }) cur_count)
    expired =
        unfold expire apply_pending_reset_state in
        (test_bit-bit_or k s.pmuintreg timoutrst ∙ rw (single_lem k l).1, refl)
