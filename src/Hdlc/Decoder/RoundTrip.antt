-- ===== src/Hdlc/Decoder/RoundTrip.antt =====
-- libmaestro/src/hdlc/decoder.rs and encoder.rs: the decoder reads what the encoder writes.
use pbpctrl.Prelude.{
  ℕ, suc, ◌+◌, ◌-◌, ◌≤◌, ◌<◌, ◌≡◌, refl, sym, ap, ap₂, ◌∙◌, List, [], ◌∷◌, ◌++◌, append_assoc, some,
  length, length-append, IsU32, arith, take, drop, get_or, take-append, drop-append, get_or-append,
  drop-append_cons, to_le_bytes, from_le_bytes, from_le_bytes-to_le_bytes, ok,
}
use native.Mathlib.Numerals.{add-one}
use pbpctrl.Hdlc.{Frame, frame_flag}
use pbpctrl.Hdlc.Varint
use pbpctrl.Hdlc.Varint.RoundTrip.{decode-encode_vec, encode_vec_shape}
use pbpctrl.Hdlc.Crc.{crc32}
use pbpctrl.Hdlc.Crc.Detection.{crc32-IsU32}
use pbpctrl.Hdlc.Encoder.{encode_bytes}
use pbpctrl.Hdlc.Encoder.Layout.{escape, content, body, encode-body}
use pbpctrl.Hdlc.Decoder.{
  Decoder, reset, before_crc, crc_bytes, decode_rest, decode_address, decode_buffered, leave, scan,
  seek, dispatch, process, find_frame_start, with_capacity,
}
use pbpctrl.Hdlc.Decoder.Reading.{reading, scan_frame, find_frame_start-escape}

module _ (xs ys : List ℕ) (four : length ys ≡ 4) where
  front_length : length (xs ++ ys) - 4 ≡ length xs
  front_length = omega (arith, length-append xs ys)

  pub before_crc-append : before_crc (xs ++ ys) ≡ xs
  before_crc-append = ap (λ n. take n (xs ++ ys)) front_length ∙ take-append xs ys

  pub crc_bytes-append : crc_bytes (xs ++ ys) ≡ ys
  crc_bytes-append = ap (λ n. drop n (xs ++ ys)) front_length ∙ drop-append xs ys

pub sum_bytes : (bs : List ℕ) → from_le_bytes (to_le_bytes (crc32 bs)) ≡ crc32 bs
sum_bytes bs = from_le_bytes-to_le_bytes (crc32 bs) (crc32-IsU32 bs)

-- A buffer that ends in the checksum of what stands before it goes on to its address.
pub decode_buffered-checked :
    (d : Decoder) (bs : List ℕ)
    → d.buf ≡ bs ++ to_le_bytes (crc32 bs)
    → 2 ≤ length bs
    → d.current_frame_size ≤ length d.buf
    → decode_buffered d ≡ decode_address d (Varint.decode d.buf)
unfolding decode_buffered
decode_buffered-checked d bs e two size =
    let long : length d.buf ≡ length bs + 4 =
      ap length e ∙ length-append bs (to_le_bytes (crc32 bs)) in
    let sum : from_le_bytes (crc_bytes d.buf) ≡ crc32 (before_crc d.buf) =
      ap (λ t. from_le_bytes (crc_bytes t)) e
      ∙ ap from_le_bytes (crc_bytes-append bs (to_le_bytes (crc32 bs)) refl)
      ∙ sum_bytes bs
      ∙ sym (ap crc32 (ap before_crc e ∙ before_crc-append bs (to_le_bytes (crc32 bs)) refl)) in
    ground (arith, sum, long)

decode_rest-body :
    (d : Decoder) (f : Frame)
    → d.buf ≡ body f
    → decode_rest d f.address (length (Varint.encode_vec f.address)) ≡ (ok (some f), reset d)
unfolding decode_rest
decode_rest-body d f e =
    let address : List ℕ = Varint.encode_vec f.address in
    let sum : List ℕ = to_le_bytes (crc32 (content f)) in
    let n : ℕ = length address in
    let control : get_or d.buf n 0 ≡ f.control =
      ap (λ t. get_or t n 0) (e ∙ append_assoc address (f.control ∷ f.payload) sum)
      ∙ get_or-append address f.control (f.payload ++ sum) 0 in
    let payload : drop (n + 1) (before_crc d.buf) ≡ f.payload =
      ap₂ (λ m t. drop m (before_crc t)) (add-one n) e
      ∙ ap (drop (suc n)) (before_crc-append (content f) sum refl)
      ∙ drop-append_cons address f.control f.payload in
    let long : length d.buf ≡ n + suc (length f.payload) + 4 =
      ap length e
      ∙ length-append (content f) sum
      ∙ ap (λ t. t + 4) (length-append address (f.control ∷ f.payload)) in
    ground (arith, control, payload, long)

pub decode_buffered-body :
    (d : Decoder) (f : Frame)
    → IsU32 f.address
    → d.buf ≡ body f
    → d.current_frame_size ≤ length d.buf
    → decode_buffered d ≡ (ok (some f), reset d)
unfolding decode_address
decode_buffered-body d f h e size =
    let address : List ℕ = Varint.encode_vec f.address in
    let two : 2 ≤ length (content f) =
      omega (arith, length-append address (f.control ∷ f.payload), encode_vec_shape f.address h) in
    decode_buffered-checked d (content f) e two size
    ∙ ap (decode_address d) (
        ap Varint.decode
          (e ∙ append_assoc address (f.control ∷ f.payload) (to_le_bytes (crc32 (content f))))
        ∙ decode-encode_vec f.address _ h)
    ∙ decode_rest-body d f e

process_starts :
    (limit b : ℕ) (rest : List ℕ)
    → find_frame_start (b ∷ rest) ≡ some 0
    → process (with_capacity limit) (b ∷ rest) ≡ scan (reading limit 0 []) rest
unfolding process dispatch seek
process_starts limit b rest e = rw e

body_room : (f : Frame) → IsU32 f.address → 0 < length (body f)
body_room f h = omega (arith, length-append (content f) (to_le_bytes (crc32 (content f))))

-- Inside a frame with an empty buffer, the escaped body and a flag give the frame back.
pub scan-body :
    (limit : ℕ) (f : Frame) (rest : List ℕ)
    → IsU32 f.address
    → length (body f) ≤ limit
    → scan (reading limit 0 []) (escape (body f) ++ frame_flag ∷ rest)
      ≡ (ok (some f), with_capacity limit, rest)
scan-body limit f rest h room =
    let size : ℕ = 0 + length (body f) in
    scan_frame limit 0 [] (body f) rest (omega arith)
    ∙ ap (λ r. leave r rest)
        (decode_buffered-body (reading limit size (body f)) f h refl (omega arith))

-- A fresh decoder with room for a frame, whose address is a u32, returns the frame from what the
-- encoder wrote, is fresh again, and leaves the bytes behind it in the buffer.
pub process-encode_bytes :
    (limit : ℕ) (f : Frame) (rest : List ℕ)
    → IsU32 f.address
    → length (body f) ≤ limit
    → process (with_capacity limit) (encode_bytes f ++ rest)
      ≡ (ok (some f), with_capacity limit, rest)
unfolding encode_bytes
process-encode_bytes limit f rest h room =
    let inner : List ℕ = escape (body f) in
    ap (λ t. process (with_capacity limit) (t ++ rest)) (encode-body [] f)
    ∙ ap (λ t. process (with_capacity limit) (frame_flag ∷ t))
        (append_assoc inner (frame_flag ∷ []) rest)
    ∙ process_starts limit frame_flag (inner ++ frame_flag ∷ rest)
        (find_frame_start-escape (body f) (frame_flag ∷ rest) (body_room f h))
    ∙ scan-body limit f rest h room
