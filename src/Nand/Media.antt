-- ===== src/Nand/Media.antt =====
-- What program and erase do to the medium of src/hw/nand.c, byte by byte.
use native.Mathlib.Decide.{ℕ_discrete}
use be.Base.{
  ℕ, zero, suc, ◌+◌, ◌-◌, ◌*◌, ◌/◌, ◌≤◌, ◌<◌, ◌≡◌, refl, ap, ◌∙◌, ◌≢◌, ◌⊎◌, inl, true, false, not,
  ◌&&◌, ◌||◌, ◌==◌, ltb, leb, if◌then◌else◌, if_elim, bit_and, arith,
}
use be.Base.Bits.{test_bit, test_bit-bit_and}
use be.Nand.{
  Nand, Medium, Program, commit_program, commit_erase, physical_bad, and_loop, spare_loop, update,
  program_image, program_spare, data_limit, page_data, page_oob, page_raw, page_count, block_pages,
  block_count, status_failed,
}

pub and_loop_lem :
    (n i base : ℕ) (src m : ℕ → ℕ) (k : ℕ)
    → and_loop n i base src m k
      ≡ (if leb (base + i) k && ltb k (base + i + n) then bit_and (m k) (src (k - base)) else m k)
unfolding and_loop
and_loop_lem zero i base src m k = ground arith
and_loop_lem (suc n) i base src m k =
    and_loop_lem n (i + 1) base src (update m (base + i) (bit_and (m (base + i)) (src i))) k
    ∙ step (ℕ_discrete k (base + i))
  where
    step :
        Dec (k ≡ base + i)
        → (if leb (base + (i + 1)) k && ltb k (base + (i + 1) + n)
            then bit_and (update m (base + i) (bit_and (m (base + i)) (src i)) k) (src (k - base))
            else update m (base + i) (bit_and (m (base + i)) (src i)) k)
          ≡ (if leb (base + i) k && ltb k (base + i + suc n)
              then bit_and (m k) (src (k - base))
              else m k)
    step (yes e) = let here : k - base ≡ i = omega arith in ground (arith, ap src here, ap m e)
    step (no ne) = ground arith

-- The spare bytes of the programmed page that the program reaches take the AND, the others stay.
spare_loop_lem :
    (n j page : ℕ) (p : Program) (oob : ℕ → ℕ) (k : ℕ)
    → (j' : ℕ) → k + page_data ≡ page * page_oob + p.column + j'
    → spare_loop n j page p oob k ≡ (
        if leb j j'
          && ltb j' (j + n)
          && leb page_data (p.column + j')
          && ltb (p.column + j') page_raw
        then bit_and (oob k) (p.buffer j')
        else oob k)
unfolding spare_loop
spare_loop_lem zero j page p oob k j' e = ground arith
spare_loop_lem (suc n) j page p oob k j' e =
    if_elim P (leb page_raw (p.column + j)) (λ full. ground arith)
      (λ in_page. spare_loop_lem n (j + 1) page p here k j' e ∙ step in_page (ℕ_discrete j' j))
  where
    at : ℕ
    at = page * page_oob + (p.column + j) - page_data

    here : ℕ → ℕ
    here =
        if leb page_data (p.column + j) then update oob at (bit_and (oob at) (p.buffer j)) else oob

    P : (ℕ → ℕ) → Type 0
    P f = f k ≡ (
        if leb j j'
          && ltb j' (j + suc n)
          && leb page_data (p.column + j')
          && ltb (p.column + j') page_raw
        then bit_and (oob k) (p.buffer j')
        else oob k)

    written : j' ≡ j → page_data ≤ p.column + j → here k ≡ bit_and (oob k) (p.buffer j')
    written same spare =
        let place : k ≡ at = omega arith in ground (arith, ap oob place, ap p.buffer same)

    kept : (j' ≢ j) ⊎ (p.column + j < page_data) → here k ≡ oob k
    kept c = ground arith

    step :
        leb page_raw (p.column + j) ≡ false
        → Dec (j' ≡ j)
        → (if leb (j + 1) j'
              && ltb j' (j + 1 + n)
              && leb page_data (p.column + j')
              && ltb (p.column + j') page_raw
            then bit_and (here k) (p.buffer j')
            else here k)
          ≡ (if leb j j'
                && ltb j' (j + suc n)
                && leb page_data (p.column + j')
                && ltb (p.column + j') page_raw
              then bit_and (oob k) (p.buffer j')
              else oob k)
    step in_page (yes same) = ground (arith, written same, kept)
    step in_page (no other) = ground (arith, kept (inl other))

image-program :
    (m : Medium) (page : ℕ) (p : Program) (k : ℕ)
    → (program_image m page p).image k ≡ (
        if leb (page * page_data + p.column) k && ltb k (page * page_data + p.column + data_limit p)
        then bit_and (m.image k) (p.buffer (k - (page * page_data + p.column)))
        else m.image k)
image-program m page p k = and_loop_lem (data_limit p) 0 base p.buffer m.image k ∙ ground arith
  where
    base : ℕ
    base = page * page_data + p.column

-- The two that change the medium go ahead: the image is there, the page exists, its block is good.
pub record Writable (s : Nand) : Type 0 where
  pub there : s.medium.has_image ≡ true
  pub in_chip : s.page_addr < page_count
  pub good : physical_bad s.medium (s.page_addr / block_pages) ≡ false

-- A program of a writable page takes, at each byte of the data that its buffer covers, the AND of the
-- old byte and the new one, and leaves every other byte of the image.
pub image-commit_program :
    (s : Nand) (k : ℕ)
    → Writable s
    → let first = s.page_addr * page_data + s.program.column in
      (commit_program s).medium.image k ≡ (
        if leb first k && ltb k (first + data_limit s.program)
        then bit_and (s.medium.image k) (s.program.buffer (k - first))
        else s.medium.image k)
unfolding commit_program
image-commit_program s k w =
    rw (w.there, in_range, w.good)
      (image-program (program_spare s.medium s.page_addr s.program) s.page_addr s.program k)
  where
    in_range : leb page_count s.page_addr ≡ false
    in_range = ground arith

-- The same for the spare bytes, if the chip has them: byte `i` is at place 512 + `i` of the page.
pub oob-commit_program :
    (s : Nand) (i : ℕ)
    → Writable s
    → s.medium.has_oob ≡ true
    → i < page_oob
    → s.program.column ≤ page_data + i
    → (commit_program s).medium.oob (s.page_addr * page_oob + i) ≡ (
        if ltb (page_data + i) (s.program.column + s.program.length)
        then bit_and
            (s.medium.oob (s.page_addr * page_oob + i))
            (s.program.buffer (page_data + i - s.program.column))
        else s.medium.oob (s.page_addr * page_oob + i))
unfolding commit_program
oob-commit_program s i w spare h le =
    rw (w.there, in_range, w.good, spare)
      (spare_loop_lem s.program.length 0 s.page_addr s.program s.medium.oob
          (s.page_addr * page_oob + i) (page_data + i - s.program.column) (omega arith)
        ∙ ground arith)
  where
    in_range : leb page_count s.page_addr ≡ false
    in_range = ground arith

-- A program sets no bit of the image, whatever the state of the chip.
pub program_only_clears :
    (s : Nand) (k bit : ℕ)
    → (test_bit ((commit_program s).medium.image k) bit && not (test_bit (s.medium.image k) bit))
      ≡ false
unfolding commit_program
program_only_clears s k bit =
    if_elim P (not s.medium.has_image || leb page_count s.page_addr) (λ _. same)
      (λ _.
        if_elim P (physical_bad s.medium (s.page_addr / block_pages)) (λ _. same)
          (λ _. ground (
            arith,
            image-program (program_spare s.medium s.page_addr s.program) s.page_addr s.program k,
            cleared,
            same,
          )))
  where
    P : Nand → Type 0
    P t = (test_bit (t.medium.image k) bit && not (test_bit (s.medium.image k) bit)) ≡ false

    same : (test_bit (s.medium.image k) bit && not (test_bit (s.medium.image k) bit)) ≡ false
    same = ground arith

    source : ℕ
    source = s.program.buffer (k - (s.page_addr * page_data + s.program.column))

    cleared :
        (test_bit (bit_and (s.medium.image k) source) bit && not (test_bit (s.medium.image k) bit))
        ≡ false
    cleared = ground (arith, test_bit-bit_and bit (s.medium.image k) source)

-- An erase of a writable page's block sets every byte of the block to 0xFF, in the image and, if
-- the chip has them, in the spare areas; it leaves every byte of other blocks and the status, and
-- frees the block.
pub commit_erase_lem :
    (s : Nand) (k : ℕ)
    → Writable s
    → let block = s.page_addr / block_pages in
      let t = commit_erase s in
      (t.medium.image k ≡ (if k / 16_384 == block then 0xff else s.medium.image k))
      × (t.medium.oob k ≡ (if s.medium.has_oob && k / 512 == block then 0xff else s.medium.oob k))
      × (t.medium.block_data_state k ≡ (if k == block then 0 else s.medium.block_data_state k))
      × (t.status_value ≡ s.status_value)
unfolding commit_erase
commit_erase_lem s k w = rw (w.good, w.there, in_range) (ground arith, ground arith, refl, refl)
  where
    in_range : leb block_count (s.page_addr / block_pages) ≡ false
    in_range = ground arith

-- A program or an erase of a page of the chip, with an image, that lies in a bad block changes
-- nothing but the status, which tells it.
pub bad_block_lem :
    (s : Nand)
    → s.medium.has_image ≡ true
    → s.page_addr < page_count
    → physical_bad s.medium (s.page_addr / block_pages) ≡ true
    → (commit_program s ≡ record s { status_value = status_failed })
      × (commit_erase s ≡ record s { status_value = status_failed })
unfolding commit_program commit_erase
bad_block_lem s there in_chip bad = rw (there, bad) (ground arith)
