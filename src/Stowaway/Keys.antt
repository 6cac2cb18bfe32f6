-- ===== src/Stowaway/Keys.antt =====
-- The keys of src/stowaway.c: how one key is queued, and the keys that the dock sends with Fn held.
use be.Base.{ℕ, ◌+◌, ◌-◌, Bool, true, false, not, ◌||◌, ◌==◌, ltb, if◌then◌else◌, u8, u32, bit_or}
use be.Base.Bits.{and_not, has}
use be.Stowaway.{Stowaway, fn_scancode, wake, queue_byte, queue_pending_byte}

-- The byte that a key sends.
abbrev pub key_byte : ℕ → Bool → ℕ
key_byte scancode release = if release then bit_or (u8 scancode) 0x80 else u8 scancode

unfoldable pub queue_key : Stowaway → ℕ → Bool → Bool × Stowaway
unfolding queue_byte queue_pending_byte
queue_key s scancode release =
    let byte = key_byte scancode release in
    if not s.enabled
    then (false, s)
    else if ltb 0x7f scancode
    then (false, s)
    else if not s.connected || not s.dtr_asserted
    then (if not s.modem_wait_requested
        then (false, s)
        else (true, wake (record (queue_byte s byte) { modem_delta_pending = true })))
    else if not s.rts_asserted || s.probe_ack_pending
    then (true, queue_pending_byte s byte)
    else (true, wake (queue_byte s byte))

-- The release of a key that is sent with Fn: the last one lets Fn go.
unfoldable pub release_fn : Stowaway → ℕ → Bool × Stowaway
unfolding queue_key
release_fn s scancode =
    let (ok, t) = queue_key s scancode true in
    if t.fn_refs == 0
    then (ok, t)
    else let u = record t { fn_refs = t.fn_refs - 1 } in
      if u.fn_refs == 0 then (ok, (queue_key u fn_scancode true).1) else (ok, u)

-- The press of a key that is sent with Fn: the first one presses Fn.
unfoldable pub press_fn : Stowaway → ℕ → Bool × Stowaway
unfolding queue_key
press_fn s scancode =
    let t = record s { fn_refs = u32 (s.fn_refs + 1) } in
    if s.fn_refs == 0
    then (let (ok, u) = queue_key t fn_scancode false in
        if ok then queue_key u scancode false else (false, record u { fn_refs = 0 }))
    else queue_key t scancode false

unfoldable pub queue_mapped_key : Stowaway → ℕ → Bool → Bool × Stowaway
unfolding queue_key release_fn press_fn
queue_mapped_key s value release =
    let scancode = and_not 32 value 0x100 in
    if not (has value 0x100)
    then queue_key s scancode release
    else if release
    then release_fn s scancode
    else press_fn s scancode
