-- ===== src/Hdlc/Decoder/Sound.antt =====
-- libmaestro/src/hdlc/decoder.rs: what `decode_buffered` returns, on every branch.
use pbpctrl.Prelude.{
  ℕ, ◌+◌, ◌-◌, ◌≤◌, ◌<◌, ◌≡◌, ◌≢◌, sym, ap, ap₂, ◌∙◌, List, [], ◌∷◌, ◌++◌, ◌==◌, ◌||◌, ◌⊎◌, none,
  some, length, arith, Bool-cases, inl, inr, Bool, ltb, take, drop, get_or, not, take-take,
  get_or-take, split_at, length-take, from_le_bytes, ok, err, Result-cases,
}
use native.Mathlib.Numerals.{add-one}
use pbpctrl.Hdlc.{Frame}
use pbpctrl.Hdlc.Varint
use pbpctrl.Hdlc.Crc.{crc32}
use pbpctrl.Hdlc.Decoder.{
  Decoder, reset, before_crc, crc_bytes, decode_rest, decode_address, decode_buffered, Error,
  from_varint,
}

pub decode_buffered-ne-none : (d : Decoder) → (decode_buffered d).0 ≢ ok none
unfolding decode_buffered decode_address decode_rest
decode_buffered-ne-none d e = elim (Result-cases (Varint.decode d.buf)) [
  | inl (p, v) ↦ ground (arith, v)
  | inr (x, v) ↦ ground (arith, v)
]

-- The checks before the address is read.
abbrev refuses : Decoder → Bool
refuses d =
    ltb (length d.buf) 6
    || not (from_le_bytes (crc_bytes d.buf) == crc32 (before_crc d.buf))
    || ltb (length d.buf) d.current_frame_size

-- A buffer that `decode_buffered` accepts.
pub record Accepted (d : Decoder) (f : Frame) (n : ℕ) : Type 0 where
  pub address : Varint.decode d.buf ≡ ok (f.address, n)
  pub layout : before_crc d.buf ≡ take n d.buf ++ f.control ∷ f.payload
  pub checksum : from_le_bytes (crc_bytes d.buf) ≡ crc32 (take n d.buf ++ f.control ∷ f.payload)
  pub complete : d.current_frame_size ≤ length d.buf

accepted_facts :
    (d d' : Decoder) (f : Frame) (a n : ℕ)
    → Varint.decode d.buf ≡ ok (a, n)
    → decode_buffered d ≡ (ok (some f), d')
    → (f.address ≡ a)
      × (f.control ≡ get_or d.buf n 0)
      × (f.payload ≡ drop (n + 1) (before_crc d.buf))
      × (from_le_bytes (crc_bytes d.buf) ≡ crc32 (before_crc d.buf))
      × (n + 5 ≤ length d.buf)
      × (d.current_frame_size ≤ length d.buf)
      × (d' ≡ reset d)
unfolding decode_buffered decode_address decode_rest
accepted_facts d d' f a n v e = ground (arith, v)

before_crc-split :
    (buf : List ℕ) (n : ℕ)
    → n + 5 ≤ length buf
    → before_crc buf ≡ take n buf ++ get_or buf n 0 ∷ drop (n + 1) (before_crc buf)
before_crc-split buf n h =
    let m : ℕ = length buf - 4 in
    let inside : n < length (before_crc buf) = omega (arith, length-take m buf (omega arith)) in
    split_at n (before_crc buf) 0 inside
    ∙ ap₂ (λ x y. x ++ y) (take-take n m buf (omega arith))
        (ap₂ (λ c k. c ∷ drop k (before_crc buf)) (get_or-take n m buf 0 (omega arith))
          (sym (add-one n)))

-- A frame is returned only for a buffer that holds the frame's address, control byte and data in
-- this order, before the checksum of just these, with no byte lost. The decoder is then reset.
pub decode_buffered-Accepted :
    (d d' : Decoder) (f : Frame)
    → decode_buffered d ≡ (ok (some f), d')
    → (n : ℕ) × Accepted d f n × (d' ≡ reset d)
decode_buffered-Accepted d d' f e = elim (Result-cases (Varint.decode d.buf)) [
  | inl ((a, n), v) ↦
      let (fa, fc, fp, sum, long, size, left) = accepted_facts d d' f a n v e in
      let layout : before_crc d.buf ≡ take n d.buf ++ f.control ∷ f.payload =
        before_crc-split d.buf n long ∙ sym (ap₂ (λ c p. take n d.buf ++ c ∷ p) fc fp) in
      (
        n,
        record {
          address = v ∙ ap (λ x. ok (x, n)) (sym fa);
          layout = layout;
          checksum = sum ∙ ap crc32 layout;
          complete = size;
        },
        left,
      )
  | inr (x, v) ↦ absurd (unfold decode_buffered decode_address in ground (arith, v))
]

-- Every error but one about the address empties the buffer. An error about the address leaves the
-- decoder exactly as it was.
pub decode_buffered_err :
    (d d' : Decoder) (e : Error)
    → decode_buffered d ≡ (err e, d')
    → ((d'.buf ≡ []) × (d'.current_frame_size ≡ 0))
      ⊎ ((x : Varint.DecodeError) × (Varint.decode d.buf ≡ err x) × (e ≡ from_varint x) × (d' ≡ d))
unfolding decode_buffered decode_address decode_rest
decode_buffered_err d d' e h = elim (Result-cases (Varint.decode d.buf)) [
  | inl ((a, n), v) ↦ inl (ground (arith, v), ground (arith, v))
  | inr (x, v) ↦ elim (Bool-cases (refuses d)) [
    | inl early ↦ inl (ground (arith, v, early), ground (arith, v, early))
    | inr late ↦ inr (x, v, ground (arith, v, late), ground (arith, v, late))
  ]
]
