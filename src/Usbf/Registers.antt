-- ===== src/Usbf/Registers.antt =====
-- The registers of the USB function controller in src/hw/usbf.c.
use be.Base.{
  ℕ, ◌+◌, ◌-◌, ◌*◌, ◌/◌, ◌%◌, ◌^◌, Bool, true, false, not, ◌&&◌, ◌||◌, ◌==◌, ltb, leb,
  if◌then◌else◌, bit_and, bit_or, u8,
}
use be.Base.Bits.{and_not, has}
use be.Usbf.{
  Usbf, stall, put_at, emptied, word, notify, out_pending, intstat_of, top_stat, flush_fifos,
  finish_control, out_byte, out_remaining, commit, dma, desc_base, desc_words, word, ep_max_packet,
}

-- The interrupt for a SETUP is taken back with its last byte.
abbrev pub setup_read : Usbf → Usbf
setup_read u =
    if u.setup_pos == 7
    then notify
        (record u { setup_pos = 8; intstat = put_at u.intstat 1 (and_not 8 (u.intstat 1) 0x01) })
    else record u { setup_pos = if ltb u.setup_pos 8 then u.setup_pos + 1 else u.setup_pos }

-- The values that are read without an effect.
abbrev pub value_at : Usbf → ℕ → ℕ
value_at u at =
    if at == 0x1300
    then u.unit_en
    else if at == 0x1308
    then u.dma_en
    else if at == 0x130c
    then 0
    else if at == 0x1310
    then u.dma_dir
    else if at == 0x1318
    then u.dma_hi
    else if at == 0x131c
    then u.dma_len
    else if at == 0x1320
    then u.dma_addr % 2 ^ 29
    else if at == 0x1324
    then top_stat u
    else if at == 0x132c
    then u.top_en
    else if at == 0x1444
    then u.core_en
    else if at == 0x1450
    then (if u.config == 0 then 0 else 0x80)
    else if at == 0x1454
    then bit_or (if out_pending u then 0x08 else 0) (if u.ep3_ready then 0x10 else 0)
    else if at == 0x1460
    then u.ep0_ctrl
    else if at == 0x1464
    then intstat_of u 0
    else if at == 0x1468
    then intstat_of u 1
    else if at == 0x146c
    then intstat_of u 2
    else if at == 0x1470
    then u.intmask 0
    else if at == 0x1474
    then u.intmask 1
    else if at == 0x1478
    then u.intmask 2
    else if at == 0x1488
    then u.ep1_ctrl
    else if at == 0x148c
    then 0
    else if at == 0x1490
    then 0
    else if at == 0x14d8
    then out_remaining u
    else if at == 0x1530
    then u.address
    else if at == 0x1534
    then u.config
    else u.other (word at)

abbrev pub in_descriptors : ℕ → Bool
in_descriptors at = leb desc_base at && ltb at (desc_base + 4 * desc_words)

unfoldable pub read : Usbf → ℕ → ℕ × Usbf
unfolding notify out_byte
read u off =
    let at = off / 4 * 4 in
    if in_descriptors at
    then (u.desc ((at - desc_base) / 4), u)
    else if at == 0x14cc
    then (u.setup (u.setup_pos % 8), setup_read u)
    else if at == 0x14d4
    then ((out_byte u).0, notify (out_byte u).1)
    else (value_at u at, u)

-- The pulse of the reset register.
abbrev pub pulse : Usbf → Usbf
pulse u = record (flush_fifos (finish_control u stall)) {
  intstat = λ (i : ℕ). 0;
  top_latched = 0;
  ep1_off = false;
}

abbrev pub append_ep3 : Usbf → ℕ → Usbf
append_ep3 u b =
    let room = ltb u.ep3_stage.len ep_max_packet in
    record u {
      ep3_stage = record {
        bytes = if room then put_at u.ep3_stage.bytes u.ep3_stage.len b else u.ep3_stage.bytes;
        len = if room then u.ep3_stage.len + 1 else u.ep3_stage.len;
      };
    }

-- The registers that only hold a value.
abbrev pub hold : Usbf → ℕ → ℕ → Usbf
hold u at val =
    let b = u8 val in
    let known =
      at == 0x1530
      || at == 0x1534
      || at == 0x1324
      || at == 0x14cc
      || at == 0x14d4
      || at == 0x14d8 in
    record u {
      dma_en = if at == 0x1308 then b else u.dma_en;
      dma_dir = if at == 0x1310 then b else u.dma_dir;
      dma_hi = if at == 0x1318 then b else u.dma_hi;
      dma_len = if at == 0x131c then b else u.dma_len;
      dma_addr = if at == 0x1320 then val else u.dma_addr;
      top_latched = if at == 0x1328 then and_not 8 u.top_latched b else u.top_latched;
      top_en = if at == 0x132c then b else u.top_en;
      intstat =
          if at == 0x147c
          then put_at u.intstat 0 (bit_and (u.intstat 0) b)
          else if at == 0x1480
          then put_at u.intstat 1 (bit_and (u.intstat 1) b)
          else if at == 0x1484
          then put_at u.intstat 2 (bit_and (u.intstat 2) b)
          else u.intstat;
      intmask =
          if at == 0x1470
          then put_at u.intmask 0 b
          else if at == 0x1474
          then put_at u.intmask 1 b
          else if at == 0x1478
          then put_at u.intmask 2 b
          else u.intmask;
      ep1_ctrl = if at == 0x1488 then b else u.ep1_ctrl;
      unit_en = if at == 0x1300 then b % 2 else u.unit_en;
      core_en = if at == 0x1444 then b % 2 else u.core_en;
      ep1_off = if at == 0x1448 && has b 0x02 then true else u.ep1_off;
      in_stage = if at == 0x148c && has b 0x04 then emptied u.in_stage else u.in_stage;
      other = if known || holds at then u.other else put_at u.other (word at) val;
    }
  where
    holds : ℕ → Bool
    holds a =
        a == 0x1308
        || a == 0x1310
        || a == 0x1318
        || a == 0x131c
        || a == 0x1320
        || a == 0x1328
        || a == 0x132c
        || a == 0x147c
        || a == 0x1480
        || a == 0x1484
        || a == 0x1470
        || a == 0x1474
        || a == 0x1478
        || a == 0x1488
        || a == 0x1300
        || a == 0x1444
        || a == 0x1448
        || a == 0x148c

abbrev pub ep0_write : Usbf → ℕ → Usbf
ep0_write u b =
    if has b 0x08 && u.ctrl_pending
    then record (finish_control u stall) { ep0_ctrl = and_not 8 b 0x08 }
    else record u { ep0_ctrl = and_not 8 b 0x08 }

-- The switch of `usbf_write`.
abbrev pub assign : (ℕ → ℕ → Bool) → Usbf → ℕ → ℕ → Usbf
assign mapped u at val =
    let b = u8 val in
    if at == 0x130c
    then (if has b 0x01 && not (has b 0x10) then dma mapped u else u)
    else if at == 0x1338
    then (if has b 0x01 then pulse u else u)
    else if at == 0x1460
    then ep0_write u b
    else if at == 0x1490
    then commit u b
    else if at == 0x14e0
    then append_ep3 u b
    else hold u at val

unfoldable pub write : (ℕ → ℕ → Bool) → Usbf → ℕ → ℕ → Usbf
unfolding notify
write mapped u off val =
    let at = off / 4 * 4 in
    if in_descriptors at
    then record u { desc = put_at u.desc ((at - desc_base) / 4) (u8 val) }
    else notify (assign mapped u at val)
