-- ===== src/Piu/Pages.antt =====
-- The coordinate pages of src/hw/piu.c: where a sample goes, when it is lost, and what it reads.
use be.Base.{
  ℕ, ◌+◌, ◌*◌, ◌%◌, ◌^◌, ◌≤◌, ◌≡◌, refl, ◌⊎◌, inl, inr, Bool, true, false, ◌&&◌, some, leb, arith,
}
use be.Base.Bits.{test_bit, has-two_pow, test_bit-bit_or}
use be.Piu.{
  Piu, readings_at, select_page, store_page, queue_coordinate_sample, time_reached,
  interval_delay_us, page0_bit, page1_bit, pen_data, interval_next,
}
use be.Piu.Inv.{IsValid}

-- A sample is due: the pen is down, the sequencer scans, and the armed time has come.
abbrev pub due : Piu → ℕ → Bool
due p now =
    p.touch_down && leb pen_data p.padstate && p.data_armed && time_reached now p.data_ready_ns

pub due_lem :
    (p : Piu) (now : ℕ)
    → due p now ≡ true
    → queue_coordinate_sample p now ≡ store_page (select_page p) p now
unfolding queue_coordinate_sample
due_lem p now h = ground arith

pub not_due : (p : Piu) (now : ℕ) → due p now ≡ false → queue_coordinate_sample p now ≡ p
unfolding queue_coordinate_sample
not_due p now h = ground arith

-- What a stored sample leaves: one page that held no data has the readings of the touched place and
-- its interrupt, the other page is as it was, and the next sample is armed.
pub record Stored (p t : Piu) (now : ℕ) : Type 0 where
  pub waiting : t.padstate ≡ interval_next
  pub rearmed : t.data_armed ≡ true
  pub next_due : t.data_ready_ns ≡ (now + interval_delay_us p * 1000) % 2 ^ 64
  pub placed :
      ((p.page0_valid ≡ false)
        × (t.page0_valid ≡ true)
        × (t.page0_adc ≡ readings_at p.touch_x p.touch_y)
        × (test_bit t.ints 3 ≡ true)
        × (t.page1_adc ≡ p.page1_adc)
        × (t.page1_valid ≡ p.page1_valid))
      ⊎ ((p.page1_valid ≡ false)
          × (t.page1_valid ≡ true)
          × (t.page1_adc ≡ readings_at p.touch_x p.touch_y)
          × (test_bit t.ints 4 ≡ true)
          × (t.page0_adc ≡ p.page0_adc)
          × (t.page0_valid ≡ p.page0_valid))

store0 : (p : Piu) (now : ℕ) → p.page0_valid ≡ false → Stored p (store_page (some false) p now) now
unfolding store_page
store0 p now e = record {
  waiting = refl;
  rearmed = refl;
  next_due = refl;
  placed = inl (e, refl, refl, ground (arith, test_bit-bit_or 3 p.ints page0_bit), refl, refl);
}

store1 : (p : Piu) (now : ℕ) → p.page1_valid ≡ false → Stored p (store_page (some true) p now) now
unfolding store_page
store1 p now e = record {
  waiting = refl;
  rearmed = refl;
  next_due = refl;
  placed = inr (e, refl, refl, ground (arith, test_bit-bit_or 4 p.ints page1_bit), refl, refl);
}

select_free :
    (p : Piu)
    → IsValid p
    → (p.page0_valid && p.page1_valid) ≡ false
    → ((select_page p ≡ some false) × (p.page0_valid ≡ false))
      ⊎ ((select_page p ≡ some true) × (p.page1_valid ≡ false))
unfolding select_page
select_free p v h = ground (arith, has-two_pow 3 p.ints, has-two_pow 4 p.ints)

-- In a valid state, a sample that comes due while a page is free is stored in a page that held no
-- data, with its interrupt; the other page stays as it was, and the next sample is armed one
-- interval later.
pub sample-Stored :
    (p : Piu) (now : ℕ)
    → IsValid p
    → due p now ≡ true
    → (p.page0_valid && p.page1_valid) ≡ false
    → Stored p (queue_coordinate_sample p now) now
sample-Stored p now v h free = elim (select_free p v free) [
  | inl (e, f) ↦ rw (due_lem p now h, e) (store0 p now f)
  | inr (e, f) ↦ rw (due_lem p now h, e) (store1 p now f)
]

-- The readings stay in the panel's range for every touch, and the two readings of an axis add up to
-- the ends of its range.
readings_range :
    (x y : ℕ)
    → let r = readings_at x y in
      (0x81e1 ≤ r.x_plus)
      × (r.x_plus ≤ 0x8e30)
      × (r.x_plus + r.x_minus ≡ 0x81e1 + 0x8e30)
      × (0x8300 ≤ r.y_plus)
      × (r.y_plus ≤ 0x8d1b)
      × (r.y_plus + r.y_minus ≡ 0x8300 + 0x8d1b)
unfolding readings_at
readings_range x y = ground arith
