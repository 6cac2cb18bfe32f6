-- ===== src/Usbf/Answers.antt =====
-- Control requests of src/hw/usbf.c: the answers of the controller itself, and the setup bytes that the guest
-- reads.
use mathlib.Core.Path.{ap₂}
use be.Base.{
  ℕ, zero, suc, ◌+◌, ◌-◌, ◌*◌, ◌/◌, ◌%◌, ◌^◌, ◌≤◌, ◌<◌, ◌≡◌, ◌≢◌, refl, ap, ◌∙◌, Bool, true, false,
  not, ◌&&◌, ◌||◌, List, [], ◌∷◌, ◌==◌, ltb, if_elim, if◌then◌else◌, arith, length, u16, bit_or,
  bit_and,
}
use be.Base.Bits.{and_not, test_bit, test_bit-and_not}
use be.Usbf.{Usbf, Status, done, desc_words, notify, finish_control}
use be.Usbf.Registers.{read}
use be.Usbf.Host.{
  Reply, host_control, standard_request, get_descriptor, descriptor_copy, bytes_from,
  descriptors_ready, descriptor_start, descriptor_length, hand_over,
}

length-bytes_from : (m : ℕ → ℕ) (i n : ℕ) → length (bytes_from m i n) ≡ n
unfolding bytes_from
length-bytes_from m i zero = refl
length-bytes_from m i (suc n) = ap suc (length-bytes_from m (i + 1) n)

-- A copy is no longer than asked for, and lies in the descriptor memory.
descriptor_copy-le :
    (u : Usbf) (kind max : ℕ)
    → let n = length (descriptor_copy u kind max) in
      (n ≤ max) × (descriptor_start kind + n ≤ desc_words)
unfolding descriptor_copy
descriptor_copy-le u kind max =
    if_elim P (kind == 1 || kind == 2)
      (λ _. ground (arith, length-bytes_from u.desc start (if ltb max kept then max else kept)))
      (λ _. ground arith)
  where
    start : ℕ
    start = descriptor_start kind

    kept : ℕ
    kept =
        if ltb desc_words (start + descriptor_length u kind)
        then desc_words - start
        else descriptor_length u kind

    P : List ℕ → Type 0
    P l = (length l ≤ max) × (start + length l ≤ desc_words)

-- The length that a request asks for.
abbrev pub asked : (ℕ → ℕ) → ℕ
asked s = u16 (bit_or (s 6) (s 7 * 2 ^ 8))

-- A control request is answered with at most the bytes that it asks for, and with none unless it
-- is completed at once.
pub answer-le :
    (u : Usbf) (s : ℕ → ℕ)
    → let r = host_control u s in
      (length r.answer ≤ asked s) × (r.status ≢ done → length r.answer ≡ 0)
unfolding host_control standard_request
answer-le u s =
    if_elim P (not u.attached || not (descriptors_ready u)) (λ _. refused)
      (λ _.
        if_elim P (bit_and (s 0) 0x60 == 0)
          (λ _.
            if_elim P (req == 0x06) (λ _. copied)
              (λ _.
                if_elim P (req == 0x05) (λ _. refused)
                  (λ _.
                    if_elim P (req == 0x09)
                      (λ _. if_elim P (ltb (u.desc 17) value) (λ _. refused) (λ _. refused))
                      (λ _.
                        if_elim P (req == 0x08) (λ _. bytes _ (ground arith))
                          (λ _.
                            if_elim P (req == 0x00) (λ _. bytes _ (ground arith))
                              (λ _.
                                if_elim P (req == 0x0a) (λ _. bytes _ (ground arith))
                                  (λ _.
                                    if_elim P (req == 0x0b)
                                      (λ _. if_elim P (value == 0) (λ _. refused) (λ _. refused))
                                      (λ _.
                                        if_elim P (req == 0x01 || req == 0x03) (λ _. refused)
                                          (λ _. refused)))))))))
          (λ _. refused))
  where
    req : ℕ
    req = s 1

    value : ℕ
    value = u16 (bit_or (s 2) (s 3 * 2 ^ 8))

    P : Reply → Type 0
    P r = (length r.answer ≤ asked s) × (r.status ≢ done → length r.answer ≡ 0)

    refused : {q : Status} → (length {A = ℕ} [] ≤ asked s) × (q ≢ done → length {A = ℕ} [] ≡ 0)
    refused = (omega arith, λ _. refl)

    bytes : (l : List ℕ) → length l ≤ asked s → (length l ≤ asked s) × (done ≢ done → length l ≡ 0)
    bytes l le = (le, λ other. absurd (other refl))

    copied : P (get_descriptor u (s 0) value (asked s))
    copied =
        let copy = descriptor_copy u (value / 2 ^ 8) (asked s) in
        if_elim P (s 0 == 0x80)
          (λ _.
            if_elim P (length copy == 0) (λ _. refused)
              (λ _. bytes copy (descriptor_copy-le u (value / 2 ^ 8) (asked s)).0))
          (λ _. refused)

-- The bytes of `n` reads of the SETUP port.
unfoldable pub read_setup : ℕ → Usbf → List ℕ × Usbf
unfolding read
read_setup zero u = ([], u)
read_setup (suc n) u =
    let (b, t) = read u 0x14cc in let (bs, last) = read_setup n t in (b ∷ bs, last)

-- The bit that the last read clears.
bit_cleared : (x : ℕ) → test_bit (and_not 8 x 1) 0 ≡ false
bit_cleared x = test_bit-and_not 8 0 x 1 (omega arith) ∙ none (test_bit x 0)
  where
    none : (b : Bool) → (b && false) ≡ false
    none true = refl
    none false = refl

-- One read of the port.
read_one :
    (u : Usbf)
    → u.setup_pos < 8
    → let (b, t) = read u 0x14cc in
      (b ≡ u.setup u.setup_pos)
      × (t.setup ≡ u.setup)
      × (t.setup_pos ≡ u.setup_pos + 1)
      × (u.setup_pos ≡ 7 → test_bit (t.intstat 1) 0 ≡ false)
unfolding read notify
read_one u lt =
    if_elim P (u.setup_pos == 7)
      (λ last. (at, refl, ground (arith, last), λ _. bit_cleared (u.intstat 1)))
      (λ more. (at, refl, ground (arith, lt), λ last. absurd (ground (arith, more, last))))
  where
    P : Usbf → Type 0
    P t =
        (u.setup (u.setup_pos % 8) ≡ u.setup u.setup_pos)
        × (t.setup ≡ u.setup)
        × (t.setup_pos ≡ u.setup_pos + 1)
        × (u.setup_pos ≡ 7 → test_bit (t.intstat 1) 0 ≡ false)

    at : u.setup (u.setup_pos % 8) ≡ u.setup u.setup_pos
    at = ap u.setup (omega arith)

read_rest :
    (n : ℕ) (u : Usbf)
    → u.setup_pos + suc n ≡ 8
    → let (bytes, t) = read_setup (suc n) u in
      (bytes ≡ bytes_from u.setup u.setup_pos (suc n)) × (test_bit (t.intstat 1) 0 ≡ false)
unfolding read_setup bytes_from
read_rest zero u e =
    let (at, _, _, clear) = read_one u (omega arith) in
    (ap (λ (b : ℕ). b ∷ []) at, clear (omega arith))
read_rest (suc n) u e =
    let (b, t) = read u 0x14cc in
    let (at, kept, next, _) = read_one u (omega arith) in
    let (rest, clear) = read_rest n t (omega (arith, next)) in
    (ap₂ ◌∷◌ at (rest ∙ ap₂ (λ (m : ℕ → ℕ) (k : ℕ). bytes_from m k (suc n)) kept next), clear)

-- Of a class or vendor request to an attached controller whose descriptors are ready, eight reads
-- of the SETUP port give the eight bytes, and the last one takes the SETUP status bit back.
pub read_setup_lem :
    (u : Usbf) (s : ℕ → ℕ)
    → u.attached ≡ true
    → descriptors_ready u ≡ true
    → (bit_and (s 0) 0x60 == 0) ≡ false
    → let (bytes, t) = read_setup 8 (host_control u s).state in
      (bytes ≡ bytes_from s 0 8) × (test_bit (t.intstat 1) 0 ≡ false)
unfolding host_control notify finish_control
read_setup_lem u s on ready class =
    if_elim P (not u.attached || not (descriptors_ready u))
      (λ bad. absurd (ground (arith, bad, on, ready)))
      (λ _.
        if_elim P (bit_and (s 0) 0x60 == 0) (λ standard. absurd (ground (arith, standard, class)))
          (λ _. read_rest 7 (hand_over u s) (omega arith)))
  where
    P : Reply → Type 0
    P r =
        let (bytes, t) = read_setup 8 r.state in
        (bytes ≡ bytes_from s 0 8) × (test_bit (t.intstat 1) 0 ≡ false)
