-- ===== src/Usbf/Stream.antt =====
-- The bytes from the host to the guest in src/hw/usbf.c: the packets that wait, as one stream.
use mathlib.Core.Path.{ap₂}
use mathlib.Core.List.{append_assoc, append-nil}
use native.Mathlib.Decide.{ℕ_discrete}
use be.Base.{
  ℕ, zero, suc, ◌+◌, ◌-◌, ◌%◌, ◌≤◌, ◌<◌, ◌≡◌, refl, ap, sym, ◌∙◌, Bool, true, false, not, ◌||◌,
  List, [], ◌∷◌, ◌++◌, ◌==◌, ltb, leb, if_elim, if◌then◌else◌, arith, length, get_or, drop, u8,
  Bool-cases, inl, inr, length-append,
}
use be.Usbf.{
  Usbf, Packet, notify, out_byte, out_pending, out_step, ep_max_packet, out_slots, put_at,
}
use be.Usbf.Host.{bytes_from, host_out, packet_of}
use be.Base.Slots.{items, items_append, items_first}
use be.Usbf.Inv.{OutFine, InRoom}

abbrev pub packet_bytes : Packet → List ℕ
packet_bytes p = bytes_from p.bytes 0 p.len

abbrev joined : List Packet → List ℕ
joined [] = []
joined (p ∷ ps) = packet_bytes p ++ joined ps

-- The bytes that the guest has yet to read.
abbrev pub out_stream : Usbf → List ℕ
out_stream u = drop u.out_pos (joined (items u.out out_slots u.out_head u.out_count))

-- The same for the fields of the queue.
abbrev stream : (ℕ → Packet) → ℕ → ℕ → ℕ → List ℕ
stream out head count pos = drop pos (joined (items out out_slots head count))

drop_nil : (k : ℕ) → drop {A = ℕ} k [] ≡ []
drop_nil zero = refl
drop_nil (suc k) = refl

empty_list : (xs : List ℕ) → length xs ≡ 0 → xs ≡ []
empty_list [] e = refl
empty_list (x ∷ xs) e = absurd (omega arith)

-- The byte at a position, and those after it.
front :
    (m : ℕ → ℕ) (i n k : ℕ) (rest : List ℕ)
    → k < n
    → drop k (bytes_from m i n ++ rest) ≡ m (i + k) ∷ drop (suc k) (bytes_from m i n ++ rest)
unfolding bytes_from
front m i zero k rest lt = elim lt [ ]
front m i (suc n) zero rest lt =
    ap (λ (j : ℕ). m j ∷ (bytes_from m (i + 1) n ++ rest)) (omega arith)
front m i (suc n) (suc k) rest lt =
    front m (i + 1) n k rest (omega arith)
    ∙ ap (λ (j : ℕ). m j ∷ drop (suc k) (bytes_from m (i + 1) n ++ rest)) (omega arith)

past : (m : ℕ → ℕ) (i n : ℕ) (rest : List ℕ) → drop n (bytes_from m i n ++ rest) ≡ rest
unfolding bytes_from
past m i zero rest = refl
past m i (suc n) rest = past m (i + 1) n rest

drop-append : (k : ℕ) (xs ys : List ℕ) → k ≤ length xs → drop k (xs ++ ys) ≡ drop k xs ++ ys
drop-append zero xs ys le = refl
drop-append (suc k) [] ys le = elim le [ ]
drop-append (suc k) (x ∷ xs) ys le = drop-append k xs ys (omega arith)

joined-append : (ps qs : List Packet) → joined (ps ++ qs) ≡ joined ps ++ joined qs
joined-append [] qs = refl
joined-append (p ∷ ps) qs =
    ap (λ l. packet_bytes p ++ l) (joined-append ps qs)
    ∙ sym (append_assoc (packet_bytes p) (joined ps) (joined qs))

length-bytes_from : (m : ℕ → ℕ) (i n : ℕ) → length (bytes_from m i n) ≡ n
unfolding bytes_from
length-bytes_from m i zero = refl
length-bytes_from m i (suc n) = ap suc (length-bytes_from m (i + 1) n)

-- A list copied into an array and read back.
bytes_from-get_or :
    (xs : List ℕ) (m : ℕ → ℕ) (i : ℕ)
    → ((k : ℕ) → k < length xs → m (i + k) ≡ get_or xs k 0)
    → bytes_from m i (length xs) ≡ xs
unfolding bytes_from
bytes_from-get_or [] m i h = refl
bytes_from-get_or (x ∷ xs) m i h =
    ap₂ ◌∷◌ (ap m (omega arith) ∙ h 0 (omega arith))
      (bytes_from-get_or xs m (i + 1) (λ k lt. ap m (omega arith) ∙ h (suc k) (omega arith)))

packet_bytes-packet_of : (frame : List ℕ) → packet_bytes (packet_of frame) ≡ frame
packet_bytes-packet_of frame =
    bytes_from-get_or frame (λ (i : ℕ). get_or frame i 0) 0
      (λ k lt. ap (λ (j : ℕ). get_or frame j 0) (omega arith))

module _ (out : ℕ → Packet) (head count pos : ℕ) (v : OutFine out head count pos) where
  -- The packets after the first.
  later : List ℕ
  later = joined (items out out_slots ((head + 1) % out_slots) (count - 1))

  -- The stream of a queue that is not empty, from its first packet on.
  first_packet :
      (k : ℕ)
      → 0 < count
      → drop k (joined (items out out_slots head count)) ≡ drop k (packet_bytes (out head) ++ later)
  unfolding later
  first_packet k some_left =
      ap (λ l. drop k (joined l)) (items_first out out_slots head count v.head_in some_left)

  taken_first :
      0 < count
      → stream out head count pos
        ≡ (out head).bytes pos ∷ drop (suc pos) (packet_bytes (out head) ++ later)
  taken_first some_left =
      first_packet pos some_left
      ∙ front (out head).bytes 0 (out head).len pos later (v.reading some_left)
      ∙ ap (λ (j : ℕ). (out head).bytes j ∷ drop (suc pos) (packet_bytes (out head) ++ later))
          (omega arith)

  step_stream :
      0 < count
      → let q = u8 (pos + 1) in
        let ended = leb (out head).len q in
        stream out head count pos
        ≡ (out head).bytes pos
          ∷ stream out
              (if ended then (head + 1) % out_slots else head)
              (if ended then count - 1 else count)
              (if ended then 0 else q)
  unfolding later
  step_stream some_left = elim (Bool-cases (leb (out head).len (u8 (pos + 1)))) [
    | inl ended ↦ rw ended (
        taken_first some_left
        ∙ ap (λ l. (out head).bytes pos ∷ l)
            (ap (λ (k : ℕ). drop k (packet_bytes (out head) ++ later)) {x = suc pos}
                {y = (out head).len} (ground (arith, ended, v.reading some_left, v.short head))
              ∙ past (out head).bytes 0 (out head).len later))
    | inr more ↦ rw more (
        taken_first some_left
        ∙ ap (λ l. (out head).bytes pos ∷ l)
            (ap (λ (k : ℕ). drop k (packet_bytes (out head) ++ later)) {x = suc pos}
                {y = u8 (pos + 1)} (omega (arith, v.reading some_left, v.short head))
              ∙ sym (first_packet (u8 (pos + 1)) some_left)))
  ]

-- The read position lies in the stream's packets.
within :
    (u : Usbf)
    → InRoom u
    → u.out_pos ≤ length (joined (items u.out out_slots u.out_head u.out_count))
within u v = elim (ℕ_discrete u.out_count 0) [
  | yes none ↦ omega (arith, v.outs.idle none)
  | no waits ↦
      let some_left : 0 < u.out_count = omega arith in
      let p = u.out u.out_head in
      let rest = later u.out u.out_head u.out_count u.out_pos v.outs in
      omega (
        arith,
        v.outs.reading some_left,
        ap (length {A = ℕ})
            (first_packet u.out u.out_head u.out_count u.out_pos v.outs 0 some_left),
        length-append (packet_bytes p) rest,
        length-bytes_from p.bytes 0 p.len,
      )
]

-- One read takes the first byte of the stream.
pub out_byte_lem :
    (u : Usbf)
    → InRoom u
    → out_pending u ≡ true
    → out_stream u ≡ (out_byte u).0 ∷ out_stream (out_byte u).1
unfolding out_byte out_pending
out_byte_lem u v waits =
    let some_left : 0 < u.out_count = ground (arith, waits) in
    let inside = v.outs.reading some_left in
    if_elim (λ (r : ℕ × Usbf). out_stream u ≡ r.0 ∷ out_stream r.1) (out_pending u)
      (λ _.
        step_stream u.out u.out_head u.out_count u.out_pos v.outs some_left
        ∙ ap (λ (b : ℕ). b ∷ out_stream (out_step u)) (ground (arith, inside)))
      (λ none. absurd (ground (arith, none, waits)))

pub no_stream : (u : Usbf) → out_pending u ≡ false → out_stream u ≡ []
unfolding out_pending
no_stream u none =
    ap (λ (n : ℕ). drop u.out_pos (joined (items u.out out_slots u.out_head n))) {y = 0}
      (ground (arith, none))
    ∙ drop_nil u.out_pos

-- An accepted packet stands at the end of the stream.
pub host_out_lem :
    (u : Usbf) (frame : List ℕ)
    → InRoom u
    → let (ok, t) = host_out u frame in out_stream t ≡ out_stream u ++ (if ok then frame else [])
unfolding host_out notify
host_out_lem u frame v =
    if_elim P
      (not u.attached
        || u.config == 0
        || ltb ep_max_packet (length frame)
        || leb out_slots u.out_count)
      (λ _. sym (append-nil (out_stream u)))
      (λ room.
        if_elim P (length frame == 0)
          (λ none. sym (
            ap (λ l. out_stream u ++ l) (empty_list frame (ground (arith, none)))
            ∙ append-nil (out_stream u)))
          (λ _. appended (ground (arith, room))))
  where
    P : Bool × Usbf → Type 0
    P r = out_stream r.1 ≡ out_stream u ++ (if r.0 then frame else [])

    waiting : List ℕ
    waiting = joined (items u.out out_slots u.out_head u.out_count)

    appended :
        u.out_count < out_slots
        → stream
            (put_at u.out ((u.out_head + u.out_count) % out_slots) (packet_of frame))
            u.out_head
            (u.out_count + 1)
            u.out_pos
          ≡ out_stream u ++ frame
    appended room =
        ap (λ l. drop u.out_pos (joined l))
          (items_append u.out out_slots u.out_head u.out_count (packet_of frame) room)
        ∙ ap (λ l. drop u.out_pos l)
            (joined-append (items u.out out_slots u.out_head u.out_count) (packet_of frame ∷ [])
              ∙ ap (λ l. waiting ++ l)
                  (append-nil (packet_bytes (packet_of frame)) ∙ packet_bytes-packet_of frame))
        ∙ drop-append u.out_pos waiting frame (within u v)
