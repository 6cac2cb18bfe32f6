-- ===== src/El3/Frames.antt =====
-- The transmit FIFO of src/hw/el3.c: the frames that are written to it are the frames that go out.
use mathlib.Core.List.{append-nil, append_assoc}
use be.Base.{
  ℕ, zero, suc, ◌+◌, ◌*◌, ◌/◌, ◌%◌, ◌≤◌, ◌<◌, ◌≡◌, refl, sym, ap, ◌∙◌, Bool, true, false, ◌&&◌,
  List, [], ◌∷◌, ◌++◌, leb, if◌then◌else◌, if_elim, arith, length, length-append, length-drop, take,
  drop, map,
}
use be.El3.{El3, send_head, flush_loop, tx_flush, head_length, needed, partial}

-- A frame as a driver writes it: the data, whether it asks for an interrupt, the upper half of the length word,
-- which the card ignores, and the padding.
pub record Packet : Type 0 where
  pub payload : List ℕ
  pub interrupt : Bool
  pub third : ℕ
  pub fourth : ℕ
  pub padding : List ℕ

-- What a driver promises: 14 to 2047 bytes, padded to a multiple of 4.
pub record Fits (p : Packet) : Type 0 where
  pub long : 14 ≤ length p.payload
  pub short : length p.payload < 2048
  pub padded : length p.payload + length p.padding ≡ (length p.payload + 3) / 4 * 4

abbrev pub encode : Packet → List ℕ
encode p =
    length p.payload % 256
    ∷ (length p.payload / 256 + (if p.interrupt then 128 else 0))
    ∷ p.third
    ∷ p.fourth
    ∷ (p.payload ++ p.padding)

abbrev pub encode_all : List Packet → List ℕ
encode_all [] = []
encode_all (p ∷ ps) = encode p ++ encode_all ps

-- Every packet fits.
pub data AllFit : List Packet → Type 0 where
  none_left : AllFit []
  one_more : {p : Packet} {ps : List Packet} → Fits p → AllFit ps → AllFit (p ∷ ps)

take-append : (a b : List ℕ) → take (length a) (a ++ b) ≡ a
take-append [] b = refl
take-append (x ∷ a) b = ap (λ l. x ∷ l) (take-append a b)

drop-append : (a b : List ℕ) → drop (length a) (a ++ b) ≡ b
drop-append [] b = refl
drop-append (x ∷ a) b = drop-append a b

head_length-encode :
    (p : Packet) (rest : List ℕ) → Fits p → head_length (encode p ++ rest) ≡ length p.payload
head_length-encode p rest f = ground (arith, f.short)

length-encode :
    (p : Packet) (rest : List ℕ)
    → Fits p
    → length (encode p ++ rest) ≡ needed (length p.payload) + length rest
length-encode p rest f = omega (
  arith,
  length-append (p.payload ++ p.padding) rest,
  length-append p.payload p.padding,
  f.padded,
)

whole : (p : Packet) (rest : List ℕ) → Fits p → partial (encode p ++ rest) ≡ false
whole p rest f = ground (arith, head_length-encode p rest f, length-encode p rest f)

rest_left :
    (p : Packet) (rest : List ℕ)
    → Fits p
    → drop (needed (length p.payload)) (encode p ++ rest) ≡ rest
rest_left p rest f =
    ap (λ (n : ℕ). drop n (encode p ++ rest)) {y = length (encode p)}
      (omega (arith, length-append p.payload p.padding, f.padded))
    ∙ drop-append (encode p) rest

-- The frame at the head goes out, and the rest of the FIFO stays.
sent_payload :
    (s : El3) (p : Packet) (rest : List ℕ)
    → Fits p
    → s.tx_enabled ≡ true
    → s.tx ≡ encode p ++ rest
    → ((send_head s).tx ≡ rest) × ((send_head s).transmitted ≡ s.transmitted ++ (p.payload ∷ []))
sent_payload s p rest f on tx = (left, out)
  where
    len : head_length s.tx ≡ length p.payload
    len = ap head_length tx ∙ head_length-encode p rest f

    left : (send_head s).tx ≡ rest
    left =
        ap (λ (n : ℕ). drop (needed n) s.tx) len
        ∙ ap (λ l. drop (needed (length p.payload)) l) tx
        ∙ rest_left p rest f

    body : take (head_length s.tx) (drop 4 s.tx) ≡ p.payload
    body =
        ap (λ (n : ℕ). take n (drop 4 s.tx)) len
        ∙ ap (λ (l : List ℕ). take (length p.payload) (drop 4 l)) tx
        ∙ ap (λ (l : List ℕ). take (length p.payload) l) (append_assoc p.payload p.padding rest)
        ∙ take-append p.payload (p.padding ++ rest)

    out : (send_head s).transmitted ≡ s.transmitted ++ (p.payload ∷ [])
    out =
        if_elim (λ (l : List (List ℕ)). l ≡ s.transmitted ++ (p.payload ∷ []))
          (s.tx_enabled && leb 14 (head_length s.tx))
          (λ _. ap (λ l. s.transmitted ++ (l ∷ [])) body)
          (λ kept. absurd (ground (arith, len, on, f.long)))

-- A round with more fuel than frames.
flush_loop_lem :
    (n : ℕ) (ps : List Packet) (s : El3)
    → AllFit ps
    → s.tx_enabled ≡ true
    → s.tx ≡ encode_all ps
    → length ps ≤ n
    → let t = flush_loop n s in
      (t.tx ≡ []) × (t.transmitted ≡ s.transmitted ++ map (λ (p : Packet). p.payload) ps)
unfolding flush_loop
flush_loop_lem zero [] s f on tx h = (tx, sym (append-nil s.transmitted))
flush_loop_lem zero (p ∷ ps) s f on tx h = absurd (omega arith)
flush_loop_lem (suc n) [] s f on tx h =
    if_elim (λ (t : El3). (t.tx ≡ []) × (t.transmitted ≡ s.transmitted ++ [])) (partial s.tx)
      (λ _. (tx, sym (append-nil s.transmitted)))
      (λ more. absurd (ground (arith, ap (length {A = ℕ}) tx)))
flush_loop_lem (suc n) (p ∷ ps) s (one_more f fs) on tx h =
    let (left, out) = sent_payload s p (encode_all ps) f on tx in
    let (empty, all) = flush_loop_lem n ps (send_head s) fs on left (omega (arith, h)) in
    if_elim
      (λ (t : El3).
        (t.tx ≡ [])
        × (t.transmitted ≡ s.transmitted ++ (p.payload ∷ map (λ (q : Packet). q.payload) ps)))
      (partial s.tx) (λ short. absurd (ground (arith, ap partial tx, whole p (encode_all ps) f)))
      (λ _. (
        empty,
        all
            ∙ ap (λ l. l ++ map (λ (q : Packet). q.payload) ps) out
            ∙ append_assoc s.transmitted (p.payload ∷ []) (map (λ (q : Packet). q.payload) ps),
      ))

fewer : (ps : List Packet) → length ps ≤ length (encode_all ps)
fewer [] = omega arith
fewer (p ∷ ps) = omega (arith, fewer ps, length-append (p.payload ++ p.padding) (encode_all ps))

-- With the transmitter on, the frames that fill the FIFO, each of 14 to 2047 bytes and padded to a multiple
-- of four, go out in order, byte for byte and without their padding, and the FIFO is empty then.
pub frames_sent :
    (s : El3) (ps : List Packet)
    → AllFit ps
    → s.tx_enabled ≡ true
    → s.tx ≡ encode_all ps
    → ((tx_flush s).tx ≡ [])
      × ((tx_flush s).transmitted ≡ s.transmitted ++ map (λ (p : Packet). p.payload) ps)
unfolding tx_flush
frames_sent s ps f on tx =
    flush_loop_lem (length s.tx) ps s f on tx (omega (arith, fewer ps, ap (length {A = ℕ}) tx))

flush_ends : (n : ℕ) (s : El3) → length s.tx ≤ n → partial (flush_loop n s).tx ≡ true
unfolding flush_loop
flush_ends zero s h = ground arith
flush_ends (suc n) s h =
    if_elim (λ (t : El3). partial t.tx ≡ true) (partial s.tx) (λ short. short)
      (λ more.
        flush_ends n (send_head s) (ground (arith, length-drop (needed (head_length s.tx)) s.tx)))

-- The flush of the FIFO ends, whatever the FIFO holds: no whole frame is left in it.
pub tx_flush_ends : (s : El3) → partial (tx_flush s).tx ≡ true
unfolding tx_flush
tx_flush_ends s = flush_ends (length s.tx) s (omega arith)
