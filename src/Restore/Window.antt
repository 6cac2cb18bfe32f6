-- ===== src/Restore/Window.antt =====
-- The window of src/hw/nand_restore.c: what is written through it is read back.
use native.Mathlib.Decide.{ℕ_discrete}
use be.Base.Bytes.{div-byte, mod-byte}
use be.Base.{
  ℕ, zero, suc, ◌+◌, ◌-◌, ◌*◌, ◌/◌, ◌%◌, ◌^◌, ◌≤◌, ◌<◌, ◌≡◌, refl, ap, ◌∙◌, true, ◌&&◌, ltb, leb,
  if◌then◌else◌, if_elim, arith, u8,
}
use be.Nand.{page_raw, page_data}
use be.Restore.{
  Restore, next_byte, prepare_mode, buffer_read, buffer_write, write_loop, put_byte, step_on,
}

-- Where the window and its cursor stand, and that `n` more bytes fit.
record Room (s : Restore) (n : ℕ) : Type 0 where
  fits : s.stream_pos + n ≤ s.stream_limit
  inside : s.stream_base + s.stream_limit ≤ page_raw

at : Restore → ℕ
at s = s.stream_base + s.stream_pos

buffer-write_loop :
    (n i value : ℕ) (s : Restore) (k : ℕ)
    → Room s n
    → (write_loop n i value s).buffer k ≡ (
        if leb (at s) k && ltb k (at s + n)
        then u8 (value / 2 ^ (8 * (i + (k - at s))))
        else s.buffer k)
unfolding write_loop at
buffer-write_loop zero i value s k r = ground arith
buffer-write_loop (suc n) i value s k r =
    if_elim P (leb s.stream_limit s.stream_pos) (λ full. absurd (ground (arith, r.fits)))
      (λ room.
        buffer-write_loop n (i + 1) value t k
          (record { fits = omega (arith, r.fits); inside = r.inside })
        ∙ step (ℕ_discrete k (at s)))
  where
    byte : ℕ
    byte = u8 (value / 2 ^ (8 * i))

    t : Restore
    t = put_byte s byte

    P : Restore → Type 0
    P u = u.buffer k ≡ (
        if leb (at s) k && ltb k (at s + suc n)
        then u8 (value / 2 ^ (8 * (i + (k - at s))))
        else s.buffer k)

    in_page : ltb (s.stream_base + s.stream_pos) page_raw ≡ true
    in_page = ground (arith, r.fits, r.inside)

    step :
        Dec (k ≡ at s)
        → (if leb (at t) k && ltb k (at t + n)
            then u8 (value / 2 ^ (8 * (i + 1 + (k - at t))))
            else t.buffer k)
          ≡ (if leb (at s) k && ltb k (at s + suc n)
              then u8 (value / 2 ^ (8 * (i + (k - at s))))
              else s.buffer k)
    step (yes e) =
        let none : i + (k - at s) ≡ i = omega arith in
        ground (arith, in_page, ap (λ (x : ℕ). u8 (value / 2 ^ (8 * x))) none)
    step (no ne) =
        let same : at s < k
            → u8 (value / 2 ^ (8 * (i + 1 + (k - at t))))
              ≡ u8 (value / 2 ^ (8 * (i + (k - at s)))) =
          λ above. ap (λ (x : ℕ). u8 (value / 2 ^ (8 * x))) (omega arith) in
        ground (arith, in_page, same)

window-write_loop :
    (n i value : ℕ) (s : Restore)
    → let t = write_loop n i value s in
      (t.stream_base ≡ s.stream_base) × (t.stream_limit ≡ s.stream_limit)
unfolding write_loop
window-write_loop zero i value s = (refl, refl)
window-write_loop (suc n) i value s =
    if_elim (λ (t : Restore). (t.stream_base ≡ s.stream_base) × (t.stream_limit ≡ s.stream_limit))
      (leb s.stream_limit s.stream_pos) (λ _. (refl, refl))
      (λ _. window-write_loop n (i + 1) value (put_byte s (u8 (value / 2 ^ (8 * i)))))

-- A window that holds the bytes of `value` from byte `i` on reads as `value` without the lower bytes.
buffer_read_lem :
    (n i value : ℕ) (s : Restore)
    → Room s n
    → ((j : ℕ) → j < n → s.buffer (at s + j) ≡ u8 (value / 2 ^ (8 * (i + j))))
    → (buffer_read s n).0 ≡ value / 2 ^ (8 * i) % 2 ^ (8 * n)
unfolding buffer_read at
buffer_read_lem zero i value s r h = omega arith
buffer_read_lem (suc n) i value s r h =
    let rest =
      buffer_read_lem n (i + 1) value (step_on s)
        (record { fits = ground (arith, r.fits); inside = r.inside })
        (λ j lt.
          ap s.buffer {x = at (step_on s) + j} {y = at s + (j + 1)} (omega (arith, moved))
          ∙ h (j + 1) (omega arith)
          ∙ ap (λ (x : ℕ). u8 (value / 2 ^ (8 * x))) {x = i + (j + 1)} {y = i + 1 + j}
              (omega arith)) in
    omega (
      arith,
      first,
      rest,
      ap (λ (y : ℕ). y % 2 ^ (8 * n)) (div-byte value i),
      mod-byte (value / 2 ^ (8 * i)) n,
      ap (λ (x : ℕ). value / 2 ^ (8 * i) % 2 ^ (8 * x)) {x = suc n} {y = n + 1} (omega arith),
    )
  where
    zeroth : s.buffer (at s) ≡ u8 (value / 2 ^ (8 * i))
    zeroth =
        ap s.buffer {x = at s} {y = at s + 0} (omega arith)
        ∙ h 0 (omega arith)
        ∙ ap (λ (x : ℕ). u8 (value / 2 ^ (8 * x))) {x = i + 0} {y = i} (omega arith)

    first : next_byte s ≡ value / 2 ^ (8 * i) % 256
    first = ground (arith, zeroth, r.fits, r.inside)

    moved : s.stream_base + (step_on s).stream_pos ≡ at s + 1
    moved = ground (arith, r.fits)

-- A value written at the start of the data window and read there after the window is opened again comes
-- back, cut to the size of the access, which may be up to the window's 512 bytes.
pub buffer_read-buffer_write :
    (s : Restore) (size value : ℕ)
    → size ≤ page_data
    → (buffer_read (prepare_mode (buffer_write (prepare_mode s 7) size value) 7) size).0
      ≡ value % 2 ^ (8 * size)
unfolding prepare_mode buffer_write at
buffer_read-buffer_write s size value h =
    buffer_read_lem size 0 value (prepare_mode t 7)
      (record { fits = omega (arith, h); inside = omega arith })
      (λ j lt.
        buffer-write_loop size 0 value w (0 + 0 + j)
          (record { fits = omega (arith, h); inside = omega arith })
        ∙ ground arith)
    ∙ ap (λ (y : ℕ). y % 2 ^ (8 * size)) {x = value / 2 ^ (8 * 0)} {y = value} (omega arith)
  where
    w : Restore
    w = prepare_mode s 7

    t : Restore
    t = buffer_write w size value
