-- ===== src/Restore/Pages.antt =====
-- What the restore engine of src/hw/nand_restore.c does to the medium, and what it reads back.
use be.Base.{
  ℕ, zero, suc, ◌+◌, ◌-◌, ◌*◌, ◌/◌, ◌^◌, ◌≤◌, ◌<◌, ◌≡◌, refl, ap, ◌∙◌, true, false, not, ◌&&◌, ◌||◌,
  ltb, leb, ◌==◌, if◌then◌else◌, if_elim, bit_and, arith, u8, u32, ◌⊎◌,
}
use be.Nand.{
  Medium, physical_bad, stream_oob_byte, page_data, page_oob, page_raw, page_count, block_pages,
}
use be.Nand.Media.{and_loop_lem}
use be.Nand.Streams.{bit_and_ff}
use be.Restore.{
  Restore, c20, cc0, set_reg, begin_program, put_byte, write_loop, buffer_write, prepare_mode,
  data_rounds, accept, programmed, page_byte, page_from_addr, begin_read, commit_program,
}
use be.Restore.Port.{write, write_ecc, write_data, command, address}

-- The page exists, and its block is good.
pub record Ready (m : Medium) (page : ℕ) : Type 0 where
  pub there : m.has_image ≡ true
  pub full : m.image_size ≡ 16_777_216
  pub in_chip : page < page_count
  pub good : physical_bad m (page / block_pages) ≡ false

-- Every byte of the page, data and spare, reads 0xFF.
abbrev pub Blank : Medium → ℕ → Type 0
Blank m page =
    ((i : ℕ) → i < page_data → m.image (page * page_data + i) ≡ 0xff)
    × ((i : ℕ) → i < page_oob → m.oob (page * page_oob + i) ≡ 0xff)

image-programmed :
    (m : Medium) (page i : ℕ) (buffer : ℕ → ℕ)
    → Ready m page
    → i < page_data
    → (programmed m page buffer).image (page * page_data + i)
      ≡ bit_and (m.image (page * page_data + i)) (buffer i)
image-programmed m page i buffer r h =
    and_loop_lem (data_rounds m (page * page_data)) 0 (page * page_data) buffer m.image
      (page * page_data + i)
    ∙ ground (arith, rounds, place, ap buffer place)
  where
    rounds : data_rounds m (page * page_data) ≡ page_data
    rounds = ground (arith, r.full, r.in_chip)

    place : page * page_data + i - page * page_data ≡ i
    place = omega arith

oob-programmed :
    (m : Medium) (page i : ℕ) (buffer : ℕ → ℕ)
    → m.has_oob ≡ true
    → i < page_oob
    → (programmed m page buffer).oob (page * page_oob + i)
      ≡ bit_and (m.oob (page * page_oob + i)) (buffer (page_data + i))
oob-programmed m page i buffer spare h = rw spare (
    and_loop_lem page_oob 0 (page * page_oob) (λ (j : ℕ). buffer (page_data + j)) m.oob
      (page * page_oob + i)
    ∙ ground (arith, ap (λ (j : ℕ). buffer (page_data + j)) place))
  where
    place : page * page_oob + i - page * page_oob ≡ i
    place = omega arith

program_taken :
    (s : Restore)
    → Ready s.medium s.page_addr
    → commit_program s ≡ accept s (programmed s.medium s.page_addr s.buffer)
unfolding commit_program
program_taken s r = rw (r.good, r.there, in_range) refl
  where
    in_range : leb page_count s.page_addr ≡ false
    in_range = ground (arith, r.in_chip)

spare_byte :
    (m : Medium) (page k : ℕ)
    → m.has_oob ≡ true
    → page < page_count
    → k < page_oob
    → stream_oob_byte m page k ≡ m.oob (page * page_oob + k)
unfolding stream_oob_byte
spare_byte m page k spare in_chip h = rw (in_range, spare) refl
  where
    in_range : (leb page_oob k || leb page_count page) ≡ false
    in_range = ground arith

-- A programmed blank page reads back as the buffer that was programmed.
page_byte-programmed :
    (m : Medium) (page i : ℕ) (buffer : ℕ → ℕ)
    → Ready m page
    → Blank m page
    → m.has_oob ≡ true
    → i < page_raw
    → buffer i < 256
    → page_byte (programmed m page buffer) page i ≡ buffer i
unfolding page_byte
page_byte-programmed m page i buffer r blank spare h byte =
    if_elim (λ (x : ℕ). x ≡ buffer i) (not m.has_image || leb page_count page)
      (λ out. absurd (ground (arith, r.there, r.in_chip)))
      (λ _.
        if_elim (λ (x : ℕ). x ≡ buffer i) (ltb i page_data) (λ in_data. front (ground arith))
          (λ in_spare. rest (ground arith)))
  where
    m' : Medium
    m' = programmed m page buffer

    front :
        i < page_data
        → (if leb (page * page_data + page_data) m.image_size
            then m'.image (page * page_data + i)
            else 0xff)
          ≡ buffer i
    front in_data =
        if_elim (λ (x : ℕ). x ≡ buffer i) (leb (page * page_data + page_data) m.image_size)
          (λ _.
            image-programmed m page i buffer r in_data
            ∙ ap (λ (a : ℕ). bit_and a (buffer i)) (blank.0 i in_data)
            ∙ bit_and_ff (buffer i) byte)
          (λ out. absurd (ground (arith, r.full, r.in_chip)))

    rest : page_data ≤ i → stream_oob_byte m' page (i - page_data) ≡ buffer i
    rest above =
        spare_byte m' page (i - page_data) spare r.in_chip (omega arith)
        ∙ oob-programmed m page (i - page_data) buffer spare (omega arith)
        ∙ ap (λ (a : ℕ). bit_and a (buffer (page_data + (i - page_data))))
            (blank.1 (i - page_data) (omega arith))
        ∙ ap (λ (k : ℕ). bit_and 0xff (buffer k)) {x = page_data + (i - page_data)} {y = i}
            (omega arith)
        ∙ bit_and_ff (buffer i) byte

-- After the page buffer has been programmed into a blank page of a good block, a read of the page brings
-- every byte back, data and spare, on a chip of 16 MB that has spare bytes; the address bytes still name
-- the page, and each byte is below 256.
pub begin_read-commit_program :
    (s : Restore) (i : ℕ)
    → Ready s.medium s.page_addr
    → Blank s.medium s.page_addr
    → s.medium.has_oob ≡ true
    → page_from_addr s ≡ s.page_addr
    → i < page_raw
    → s.buffer i < 256
    → (begin_read (commit_program s)).buffer i ≡ s.buffer i
unfolding begin_read page_from_addr
begin_read-commit_program s i r blank spare named h byte =
    ap (λ t. (begin_read t).buffer i) (program_taken s r)
    ∙ ap (λ (page : ℕ). page_byte (programmed s.medium s.page_addr s.buffer) page i) named
    ∙ page_byte-programmed s.medium s.page_addr i s.buffer r blank spare h byte

-- A program into a page that the chip does not have, or into a bad block, is refused: the medium stays,
-- and the status tells it.
pub commit_program-refuses :
    (s : Restore)
    → (page_count ≤ s.page_addr) ⊎ (physical_bad s.medium (s.page_addr / block_pages) ≡ true)
    → ((commit_program s).medium ≡ s.medium) × ((commit_program s).status_ok ≡ false)
unfolding commit_program
commit_program-refuses s c =
    if_elim P (not s.medium.has_image || leb page_count s.page_addr) (λ _. (refl, refl))
      (λ in_range.
        if_elim P (physical_bad s.medium (s.page_addr / block_pages)) (λ _. (refl, refl))
          (λ good. absurd (ground (arith, c, good))))
  where
    P : Restore → Type 0
    P t = (t.medium ≡ s.medium) × (t.status_ok ≡ false)

medium-command :
    (s : Restore) (byte : ℕ)
    → (byte == 0x10) ≡ false
    → (byte == 0xd0) ≡ false
    → (command s byte).medium ≡ s.medium
unfolding command begin_program
medium-command s byte no_program no_erase = ground arith

medium-write_data :
    (s : Restore) (value : ℕ)
    → (s.phase == 0x03 && (u8 value == 0x10 || u8 value == 0xd0)) ≡ false
    → (write_data s value).medium ≡ s.medium
unfolding write_data address
medium-write_data s value h =
    if_elim (λ (t : Restore). t.medium ≡ s.medium) (s.phase == 0x03)
      (λ phase. medium-command (set_reg s c20 (u32 value)) (u8 value) (ground arith) (ground arith))
      (λ _.
        if_elim (λ (t : Restore). t.medium ≡ s.medium) (s.phase == 0x06) (λ _. refl) (λ _. refl))

medium-write_loop : (n i value : ℕ) (s : Restore) → (write_loop n i value s).medium ≡ s.medium
unfolding write_loop
medium-write_loop zero i value s = refl
medium-write_loop (suc n) i value s =
    if_elim (λ (t : Restore). t.medium ≡ s.medium) (leb s.stream_limit s.stream_pos) (λ _. refl)
      (λ _. medium-write_loop n (i + 1) value (put_byte s (u8 (value / 2 ^ (8 * i)))))

-- A write to the restore engine leaves the medium alone, unless it is a program or erase command given to
-- the data register in the command phase.
pub medium-write :
    (s : Restore) (offset size value : ℕ)
    → (offset == c20 && s.phase == 0x03 && (u8 value == 0x10 || u8 value == 0xd0)) ≡ false
    → (write s offset size value).medium ≡ s.medium
unfolding write buffer_write write_ecc prepare_mode begin_read
medium-write s offset size value h =
    if_elim P (leb 0xb00 offset && ltb offset 0xc00) (λ _. medium-write_loop size 0 value s)
      (λ _.
        if_elim P (leb 0x980 offset && ltb offset 0x990) (λ _. refl)
          (λ _.
            if_elim P (offset == 0xc14) (λ _. refl)
              (λ _.
                if_elim P (offset == c20) (λ here. medium-write_data s value (ground arith))
                  (λ _.
                    if_elim P (offset == 0xc64) (λ _. ground arith)
                      (λ _.
                        if_elim P (offset == 0xc68) (λ _. ground arith)
                          (λ _.
                            if_elim P (leb 0xc00 offset && leb offset cc0) (λ _. refl)
                              (λ _. refl)))))))
  where
    P : Restore → Type 0
    P t = t.medium ≡ s.medium
