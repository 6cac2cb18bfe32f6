-- ===== src/Restore/Inv.antt =====
-- The invariant of the restore engine in src/hw/nand_restore.c: the window stays in the page buffer.
use be.Base.{
  ℕ, zero, suc, ◌+◌, ◌*◌, ◌/◌, ◌^◌, ◌≤◌, ◌≡◌, refl, true, false, not, ◌&&◌, ◌||◌, ◌==◌, ltb, leb,
  if_elim, arith, u8, u32,
}
use be.Nand.{page_raw, physical_bad, page_count, block_count, block_pages}
use be.Restore.{
  Restore, c20, cc0, seed_regs, set_reg, set_ready, block_from_addr, begin_read, begin_program,
  commit_program, commit_erase, prepare_mode, buffer_read, buffer_write, write_loop, put_byte,
  step_on, window,
}
use be.Restore.Port.{read, write, write_data, write_ecc, command, address}

-- The window lies in the page buffer and holds the cursor, and the counts fit their arrays.
pub record InWindow (s : Restore) : Type 0 where
  pub inside : s.stream_base + s.stream_limit ≤ page_raw
  pub cursor : s.stream_pos ≤ s.stream_limit
  pub addresses : s.addr_count ≤ 4
  pub words : s.ecc_count ≤ 6

-- What the registers and the medium are does not matter.
kept-InWindow :
    {s t : Restore}
    → InWindow s
    → t.stream_base ≡ s.stream_base
    → t.stream_limit ≡ s.stream_limit
    → t.stream_pos ≡ s.stream_pos
    → t.addr_count ≡ s.addr_count
    → t.ecc_count ≡ s.ecc_count
    → InWindow t
kept-InWindow v base limit pos addr ecc = record {
  inside = ground (arith, v.inside);
  cursor = ground (arith, v.cursor);
  addresses = ground (arith, v.addresses);
  words = ground (arith, v.words);
}

commit_program-InWindow : (s : Restore) → InWindow s → InWindow (commit_program s)
unfolding commit_program
commit_program-InWindow s v =
    if_elim InWindow (not s.medium.has_image || leb page_count s.page_addr)
      (λ _. kept-InWindow v refl refl refl refl refl)
      (λ _.
        if_elim InWindow (physical_bad s.medium (s.page_addr / block_pages))
          (λ _. kept-InWindow v refl refl refl refl refl)
          (λ _. kept-InWindow v refl refl refl refl refl))

commit_erase-InWindow : (s : Restore) → InWindow s → InWindow (commit_erase s)
unfolding commit_erase
commit_erase-InWindow s v =
    if_elim InWindow (not s.medium.has_image || leb block_count (block_from_addr s))
      (λ _. kept-InWindow v refl refl refl refl refl)
      (λ _.
        if_elim InWindow (physical_bad s.medium (block_from_addr s))
          (λ _. kept-InWindow v refl refl refl refl refl)
          (λ _. kept-InWindow v refl refl refl refl refl))

command-InWindow : (s : Restore) (byte : ℕ) → InWindow s → InWindow (command s byte)
unfolding command begin_program
command-InWindow s byte v =
    if_elim InWindow (byte == 0x00) (λ _. bare)
      (λ _.
        if_elim InWindow (byte == 0x80)
          (λ _. record {
            inside = omega arith;
            cursor = omega arith;
            addresses = omega arith;
            words = v.words;
          })
          (λ _.
            if_elim InWindow (byte == 0x60) (λ _. bare)
              (λ _.
                if_elim InWindow (byte == 0xd0) (λ _. commit_erase-InWindow t noted)
                  (λ _.
                    if_elim InWindow (byte == 0x10) (λ _. commit_program-InWindow t noted)
                      (λ _.
                        if_elim InWindow (byte == 0x70)
                          (λ _. kept-InWindow v refl refl refl refl refl) (λ _. noted))))))
  where
    t : Restore
    t = record s { last_cmd = byte }

    noted : InWindow t
    noted = kept-InWindow v refl refl refl refl refl

    bare : InWindow (set_ready (record t { addr_count = 0; status_ok = true }) false)
    bare = record { inside = v.inside; cursor = v.cursor; addresses = omega arith; words = v.words }

address-InWindow : (s : Restore) (byte : ℕ) → InWindow s → InWindow (address s byte)
unfolding address
address-InWindow s byte v = record {
  inside = v.inside;
  cursor = v.cursor;
  addresses = ground (arith, v.addresses);
  words = v.words;
}

write_data-InWindow : (s : Restore) (value : ℕ) → InWindow s → InWindow (write_data s value)
unfolding write_data
write_data-InWindow s value v =
    if_elim InWindow (s.phase == 0x03) (λ _. command-InWindow t (u8 value) stored)
      (λ _.
        if_elim InWindow (s.phase == 0x06) (λ _. address-InWindow t (u8 value) stored)
          (λ _. stored))
  where
    t : Restore
    t = set_reg s c20 (u32 value)

    stored : InWindow t
    stored = kept-InWindow v refl refl refl refl refl

write_ecc-InWindow : (s : Restore) (value : ℕ) → InWindow s → InWindow (write_ecc s value)
unfolding write_ecc
write_ecc-InWindow s value v =
    if_elim InWindow (s.mode == 0x01 && ltb s.ecc_count 6)
      (λ room.
        if_elim InWindow (leb 6 (s.ecc_count + 1))
          (λ _. record {
            inside = v.inside;
            cursor = v.cursor;
            addresses = v.addresses;
            words = ground arith;
          })
          (λ _. record {
            inside = v.inside;
            cursor = v.cursor;
            addresses = v.addresses;
            words = ground arith;
          }))
      (λ _. v)

-- A window in the page buffer, with the cursor at its start.
opened-InWindow :
    {s t : Restore}
    → InWindow s
    → t.stream_base + t.stream_limit ≤ page_raw
    → t.stream_pos ≡ 0
    → t.addr_count ≡ s.addr_count
    → t.ecc_count ≡ 0
    → InWindow t
opened-InWindow v inside start addr none = record {
  inside = inside;
  cursor = ground arith;
  addresses = ground (arith, v.addresses);
  words = ground arith;
}

prepare_mode-InWindow : (s : Restore) (mode : ℕ) → InWindow s → InWindow (prepare_mode s mode)
unfolding prepare_mode begin_read
prepare_mode-InWindow s mode v =
    if_elim InWindow (mode == 0x04) (λ _. opened-InWindow v (omega arith) refl refl refl)
      (λ _.
        if_elim InWindow (mode == 0x05)
          (λ _.
            if_elim (λ (t : Restore). InWindow (set_ready (window t 0 520) true))
              (s.last_cmd == 0x00) (λ _. opened-InWindow v (omega arith) refl refl refl)
              (λ _. opened-InWindow v (omega arith) refl refl refl))
          (λ _.
            if_elim InWindow (mode == 0x06) (λ _. opened-InWindow v (omega arith) refl refl refl)
              (λ _.
                if_elim InWindow (mode == 0x07)
                  (λ _. opened-InWindow v (omega arith) refl refl refl)
                  (λ _.
                    if_elim InWindow (mode == 0x01) (λ _. opened-InWindow v v.inside refl refl refl)
                      (λ _. opened-InWindow v v.inside refl refl refl)))))

write_loop-InWindow : (n i value : ℕ) (s : Restore) → InWindow s → InWindow (write_loop n i value s)
unfolding write_loop
write_loop-InWindow zero i value s v = v
write_loop-InWindow (suc n) i value s v =
    if_elim InWindow (leb s.stream_limit s.stream_pos) (λ _. v)
      (λ room. write_loop-InWindow n (i + 1) value (put_byte s (u8 (value / 2 ^ (8 * i)))) (record {
        inside = v.inside;
        cursor = ground arith;
        addresses = v.addresses;
        words = v.words;
      }))

buffer_read-InWindow : (n : ℕ) (s : Restore) → InWindow s → InWindow (buffer_read s n).1
unfolding buffer_read
buffer_read-InWindow zero s v = v
buffer_read-InWindow (suc n) s v = buffer_read-InWindow n (step_on s) (record {
  inside = v.inside;
  cursor = ground (arith, v.cursor);
  addresses = v.addresses;
  words = v.words;
})

-- A write to the restore engine keeps these bounds: the window stays in the page buffer, with its
-- cursor in the window, and the counts of address bytes and parity words within their arrays.
pub write-InWindow :
    (s : Restore) (offset size value : ℕ) → InWindow s → InWindow (write s offset size value)
unfolding write buffer_write
write-InWindow s offset size value v =
    if_elim InWindow (leb 0xb00 offset && ltb offset 0xc00)
      (λ _. write_loop-InWindow size 0 value s v)
      (λ _.
        if_elim InWindow (leb 0x980 offset && ltb offset 0x990) (λ _. stored)
          (λ _.
            if_elim InWindow (offset == 0xc14) (λ _. kept-InWindow v refl refl refl refl refl)
              (λ _.
                if_elim InWindow (offset == c20) (λ _. write_data-InWindow s value v)
                  (λ _.
                    if_elim InWindow (offset == 0xc64)
                      (λ _. prepare_mode-InWindow t (u8 value) stored)
                      (λ _.
                        if_elim InWindow (offset == 0xc68) (λ _. write_ecc-InWindow t value stored)
                          (λ _.
                            if_elim InWindow (leb 0xc00 offset && leb offset cc0) (λ _. stored)
                              (λ _. v)))))))
  where
    t : Restore
    t = set_reg s offset (u32 value)

    stored : InWindow t
    stored = kept-InWindow v refl refl refl refl refl

-- A read of the restore engine keeps the same bounds.
read-InWindow : (s : Restore) (offset size : ℕ) → InWindow s → InWindow (read s offset size).1
unfolding read
read-InWindow s offset size v =
    if_elim P (leb 0xb00 offset && ltb offset 0xc00) (λ _. buffer_read-InWindow size s v)
      (λ _.
        if_elim P (leb 0x980 offset && ltb offset 0x990) (λ _. v)
          (λ _. if_elim P (leb 0xc00 offset && leb offset cc0) (λ _. v) (λ _. v)))
  where
    P : ℕ × Restore → Type 0
    P r = InWindow r.1

-- Setting the engine up establishes them.
seed_regs-InWindow : (s : Restore) → InWindow (seed_regs s)
unfolding seed_regs
seed_regs-InWindow s = record {
  inside = omega arith;
  cursor = omega arith;
  addresses = omega arith;
  words = omega arith;
}
