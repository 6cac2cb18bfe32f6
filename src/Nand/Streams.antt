-- ===== src/Nand/Streams.antt =====
-- Reading the medium of src/hw/nand.c: what an erased and then programmed page streams back.
use be.Base.{
  ℕ, ◌+◌, ◌-◌, ◌*◌, ◌/◌, ◌%◌, ◌^◌, ◌≤◌, ◌<◌, ◌≡◌, refl, ap, ◌∙◌, Bool, true, false, ◌&&◌, ◌==◌, ltb,
  leb, ==_iff, bit_and, arith, u32,
}
use be.Base.Bits.{holds_below, holds_below_lem}
use be.Nand.{
  Nand, Medium, Program, commit_program, commit_erase, physical_bad, stream_byte, image_byte,
  stream_oob_byte, tag, block_is_allocated, page_data, page_oob, page_raw, page_count, block_pages,
  block_count,
}
use be.Nand.Media.{Writable, image-commit_program, commit_erase_lem}

-- A byte of the data of a page in the chip is the image's byte.
stream_byte_lem :
    (m : Medium) (page i : ℕ)
    → m.has_image ≡ true
    → m.image_size ≡ 16_777_216
    → page < page_count
    → i < page_data
    → stream_byte m page 0 i ≡ m.image (page * page_data + i)
unfolding stream_byte image_byte
stream_byte_lem m page i there size in_chip h = rw (in_page, inside, there) (ap m.image at)
  where
    in_page : ltb (u32 (0 + i) % page_raw) page_data ≡ true
    in_page = ground arith

    at :
        u32 (u32 (page + u32 (0 + i) / page_raw) * page_data + u32 (0 + i) % page_raw)
        ≡ page * page_data + i
    at = omega arith

    inside :
        leb m.image_size
          (u32 (u32 (page + u32 (0 + i) / page_raw) * page_data + u32 (0 + i) % page_raw))
        ≡ false
    inside = ground (arith, at)

abbrev passes : ℕ → Bool
passes x = bit_and 0xff x == x

passes_table : holds_below passes 256 ≡ true
unfolding holds_below
passes_table = refl

pub bit_and_ff : (x : ℕ) → x < 256 → bit_and 0xff x ≡ x
bit_and_ff x h = (==_iff (bit_and 0xff x) x).0 (holds_below_lem passes 256 x h passes_table)

erase_keeps :
    (s : Nand)
    → Writable s
    → let e = commit_erase s in
      (e.medium.has_image ≡ true)
      × (e.medium.image_size ≡ s.medium.image_size)
      × (e.medium.has_oob ≡ s.medium.has_oob)
      × (e.page_addr ≡ s.page_addr)
unfolding commit_erase
erase_keeps s w = rw (w.good, w.there, in_range) (refl, refl, refl, refl)
  where
    in_range : leb block_count (s.page_addr / block_pages) ≡ false
    in_range = ground arith

-- An erased block is good.
erased_good :
    (s : Nand)
    → Writable s
    → physical_bad (commit_erase s).medium (s.page_addr / block_pages) ≡ false
unfolding physical_bad
erased_good s w =
    let first = s.page_addr / block_pages * block_pages * page_oob + 5 in
    let second = (s.page_addr / block_pages * block_pages + 1) * page_oob + 5 in
    ground
      (arith, (commit_erase_lem s first w).1, (commit_erase_lem s second w).1, (erase_keeps s w).2)

program_keeps :
    (s : Nand)
    → Writable s
    → let t = commit_program s in
      (t.medium.has_image ≡ true) × (t.medium.image_size ≡ s.medium.image_size)
unfolding commit_program
program_keeps s w = rw (w.good, w.there, in_range) (refl, refl)
  where
    in_range : leb page_count s.page_addr ≡ false
    in_range = ground arith

-- On a chip of 16 MB: after an erase of a writable page's block, a program that ends within the
-- data of the page is what the page then streams, at every byte that it covers and that is below
-- 256.
pub stream-program-erase :
    (s : Nand) (p : Program) (i : ℕ)
    → Writable s
    → s.medium.image_size ≡ 16_777_216
    → p.column ≤ i
    → i < p.column + p.length
    → p.column + p.length ≤ page_data
    → p.buffer (i - p.column) < 256
    → stream_byte (commit_program (record (commit_erase s) { program = p })).medium s.page_addr 0 i
      ≡ p.buffer (i - p.column)
stream-program-erase s p i w size lo hi fits byte =
    stream_byte_lem (commit_program e).medium s.page_addr i held.0 (held.1 ∙ kept.1 ∙ size)
      w.in_chip (omega arith)
    ∙ image-commit_program e k e_writable
    ∙ ground (arith, kept, blanked, bit_and_ff (p.buffer (i - p.column)) byte, ap p.buffer place)
  where
    e : Nand
    e = record (commit_erase s) { program = p }

    k : ℕ
    k = s.page_addr * page_data + i

    kept :
        (e.medium.has_image ≡ true)
        × (e.medium.image_size ≡ s.medium.image_size)
        × (e.medium.has_oob ≡ s.medium.has_oob)
        × (e.page_addr ≡ s.page_addr)
    kept = erase_keeps s w

    e_writable : Writable e
    e_writable = record {
      there = kept.0;
      in_chip = omega (arith, kept.3, w.in_chip);
      good = ap (λ (a : ℕ). physical_bad e.medium (a / block_pages)) kept.3 ∙ erased_good s w;
    }

    held :
        ((commit_program e).medium.has_image ≡ true)
        × ((commit_program e).medium.image_size ≡ e.medium.image_size)
    held = program_keeps e e_writable

    blanked : e.medium.image k ≡ 0xff
    blanked = ground (arith, (commit_erase_lem s k w).0)

    place : k - (s.page_addr * page_data + p.column) ≡ i - p.column
    place = omega arith

-- A page among the first five of an allocated block of a data-only image streams the tag of an
-- allocated block and, in its spare bytes 4 to 7, the block's number.
pub allocated_tag :
    (m : Medium) (page : ℕ)
    → m.has_oob ≡ false
    → page < page_count
    → page % block_pages < 5
    → block_is_allocated m (page / block_pages) ≡ true
    → let o = stream_oob_byte m page in
      (o 0 ≡ 0xaa)
      × (o 1 ≡ 0x55)
      × (o 2 ≡ 0x0f)
      × (o 4 + o 5 * 2 ^ 8 + o 6 * 2 ^ 16 + o 7 * 2 ^ 24 ≡ page / block_pages)
unfolding stream_oob_byte tag
allocated_tag m page bare in_chip opening alloc =
    rw (in_range, bare, tagged, alloc) (refl, refl, refl, omega arith)
  where
    in_range : leb page_count page ≡ false
    in_range = ground arith

    tagged : (ltb (page % block_pages) 5 && ltb (page / block_pages) block_count) ≡ true
    tagged = ground arith
