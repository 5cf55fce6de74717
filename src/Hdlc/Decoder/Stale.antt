-- ===== src/Hdlc/Decoder/Stale.antt =====
-- libmaestro/src/hdlc/decoder.rs: `varint::decode(&self.buf)?` returns without a reset. What the
-- bytes left in the buffer do to the frame behind them.
use pbpctrl.Prelude.{
  ℕ, ◌+◌, ◌≤◌, ◌≡◌, refl, sym, ap, ◌∙◌, List, [], ◌∷◌, ◌++◌, append_assoc, length, length-append,
  arith, to_le_bytes, err, All, All-append, IsByte, IsU32, from_le_bytes,
}
use pbpctrl.Hdlc.{Frame, frame_flag}
use pbpctrl.Hdlc.Varint
use pbpctrl.Hdlc.Varint.RoundTrip.{encode_vec_shape}
use pbpctrl.Hdlc.Crc.{crc32}
use pbpctrl.Hdlc.Crc.Residue.{crc32_behind}
use pbpctrl.Hdlc.Encoder.{encode_bytes}
use pbpctrl.Hdlc.Encoder.Layout.{escape, content, body, encode-body}
use pbpctrl.Hdlc.Decoder.{
  Decoder, before_crc, crc_bytes, decode_address, decode_buffered, from_varint, invalid_checksum,
  leave, process,
}
use pbpctrl.Hdlc.Decoder.Reading.{reading, scan_frame, scan-flag}
use pbpctrl.Hdlc.Decoder.Resume.{process_in_frame}
use pbpctrl.Hdlc.Decoder.Detect.{decode_buffered-wrong_sum}
use pbpctrl.Hdlc.Decoder.RoundTrip.{
  before_crc-append, crc_bytes-append, sum_bytes, decode_buffered-checked,
}

-- What a frame may carry: a u32 address, and bytes.
pub record IsFrame (f : Frame) : Type 0 where
  pub address : IsU32 f.address
  pub control : IsByte f.control
  pub payload : All IsByte f.payload

pub content-IsByte : (f : Frame) → IsFrame f → All IsByte (content f)
content-IsByte f h =
    All-append IsByte (Varint.encode_vec f.address) (f.control ∷ f.payload)
      (encode_vec_shape f.address h.address).0 (h.control, h.payload)

-- A message in the buffer with its checksum.
abbrev pub checked : List ℕ → List ℕ
checked bs = bs ++ to_le_bytes (crc32 bs)

stale_sum :
    (limit size : ℕ) (bs : List ℕ) (f : Frame)
    → All IsByte bs
    → IsFrame f
    → decode_buffered (reading limit size (checked bs ++ body f))
      ≡ (err invalid_checksum, reading limit 0 [])
stale_sum limit size bs f hb hf =
    let cs : List ℕ = content f in
    let sum : List ℕ = to_le_bytes (crc32 cs) in
    let d : Decoder = reading limit size (checked bs ++ body f) in
    let split : checked bs ++ body f ≡ (checked bs ++ cs) ++ sum =
      sym (append_assoc (checked bs) cs sum) in
    let long : 6 ≤ length (checked bs ++ body f) = omega (
      arith,
      length-append (checked bs) (body f),
      length-append bs (to_le_bytes (crc32 bs)),
      length-append cs sum,
    ) in
    decode_buffered-wrong_sum d long λ e. crc32_behind bs cs hb (content-IsByte f hf) (
      sym (
        sym (sum_bytes cs)
        ∙ sym (ap from_le_bytes (ap crc_bytes split ∙ crc_bytes-append (checked bs ++ cs) sum refl))
        ∙ e
        ∙ ap crc32 (ap before_crc split ∙ before_crc-append (checked bs ++ cs) sum refl)))

stale_address :
    (limit : ℕ) (bs : List ℕ) (x : Varint.DecodeError)
    → 2 ≤ length bs
    → Varint.decode (checked bs) ≡ err x
    → decode_buffered (reading limit (length (checked bs)) (checked bs))
      ≡ (err (from_varint x), reading limit (length (checked bs)) (checked bs))
unfolding decode_address
stale_address limit bs x two bad =
    let d : Decoder = reading limit (length (checked bs)) (checked bs) in
    decode_buffered-checked d bs refl two (omega arith) ∙ ap (decode_address d) bad

-- When a message of two or more bytes with a correct checksum has an address that cannot be decoded,
-- the error leaves the message in the buffer, and the next frame, however correct, is lost: its
-- first flag repeats the error, and at its last flag it is rejected for its checksum. The buffer has
-- room for both.
pub stale_frame_lost :
    (limit : ℕ) (bs : List ℕ) (x : Varint.DecodeError) (f : Frame) (rest : List ℕ)
    → 2 ≤ length bs
    → All IsByte bs
    → Varint.decode (checked bs) ≡ err x
    → IsFrame f
    → length (checked bs) + length (body f) ≤ limit
    → let d = reading limit (length (checked bs)) (checked bs) in
      let behind = escape (body f) ++ frame_flag ∷ rest in
      (process d (frame_flag ∷ []) ≡ (err (from_varint x), d, []))
      × (process d (encode_bytes f ++ rest) ≡ (err (from_varint x), d, behind))
      × (process d behind ≡ (err invalid_checksum, reading limit 0 [], rest))
unfolding encode_bytes
stale_frame_lost limit bs x f rest two hb bad hf room =
    let size : ℕ = length (checked bs) in
    let d : Decoder = reading limit size (checked bs) in
    let behind : List ℕ = escape (body f) ++ frame_flag ∷ rest in
    let again : (ys : List ℕ) → process d (frame_flag ∷ ys) ≡ (err (from_varint x), d, ys) = λ ys.
      process_in_frame d (frame_flag ∷ ys) refl
      ∙ scan-flag limit size (checked bs) ys
      ∙ ap (λ r. leave r ys) (stale_address limit bs x two bad) in
    (
      again [],
      ap (λ t. process d (t ++ rest)) (encode-body [] f)
          ∙ ap (λ t. process d (frame_flag ∷ t))
              (append_assoc (escape (body f)) (frame_flag ∷ []) rest)
          ∙ again behind,
      process_in_frame d behind refl
          ∙ scan_frame limit size (checked bs) (body f) rest room
          ∙ ap (λ r. leave r rest) (stale_sum limit (size + length (body f)) bs f hb hf),
    )
