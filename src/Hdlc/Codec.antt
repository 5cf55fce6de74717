-- ===== src/Hdlc/Codec.antt =====
-- libmaestro/src/hdlc/codec.rs and mod.rs: the codec that `Framed` drives, and the methods of `Frame`.
-- `Err` of the decoder is logged and becomes `Ok(None)`, so `decode` itself never fails.
use pbpctrl.Prelude.{
  ℕ, ◌≤◌, ◌≡◌, ◌≢◌, ap, List, [], ◌∷◌, ◌++◌, Option, none, some, ok, err, All, IsU32, length,
}
use pbpctrl.Hdlc.{Frame, frame_flag}
use pbpctrl.Hdlc.Encoder
use pbpctrl.Hdlc.Encoder.Layout.{escape, body}
use pbpctrl.Hdlc.Decoder
use pbpctrl.Hdlc.Decoder.{Decoder, Outcome}
use pbpctrl.Hdlc.Decoder.Reading.{reading}
use pbpctrl.Hdlc.Decoder.RoundTrip.{process-encode_bytes}
use pbpctrl.Hdlc.Decoder.Resync.{process-behind}

pub record Codec : Type 0 where
  pub dec : Decoder

abbrev pub with_capacity : ℕ → Codec
with_capacity limit = record { dec = Decoder.with_capacity limit }

abbrev pub new : Codec
new = record { dec = Decoder.new }

unfoldable pub encode : Codec → Frame → List ℕ → List ℕ
encode c frame dst = Encoder.encode dst frame

abbrev pub swallow : Outcome × Decoder × List ℕ → Option Frame × Codec × List ℕ
swallow (ok x, d, src) = (x, record { dec = d }, src)
swallow (err e, d, src) = (none, record { dec = d }, src)

unfoldable pub decode : Codec → List ℕ → Option Frame × Codec × List ℕ
decode c src = swallow (Decoder.process c.dec src)

-- `Frame::decode`, with a decoder of its own for the one call.
unfoldable pub decode_frame : List ℕ → Outcome × List ℕ
decode_frame buf = let (r, d, rest) = Decoder.process Decoder.new buf in (r, rest)

-- `Frame::decode` reads one frame that `encode_bytes` wrote, if its body fits the 4096 bytes of a
-- new decoder.
pub decode_frame-encode_bytes :
    (f : Frame) (rest : List ℕ)
    → IsU32 f.address
    → length (body f) ≤ 4096
    → decode_frame (Encoder.encode_bytes f ++ rest) ≡ (ok (some f), rest)
unfolding decode_frame
decode_frame-encode_bytes f rest h room =
    ap (λ (p : Outcome × Decoder × List ℕ). (p.0, p.2)) (process-encode_bytes 4096 f rest h room)

-- Bytes without a flag before a frame make `decode` ask for more input, although the whole frame
-- is in the buffer: it is returned by the next call, which may be made on the same buffer. The frame
-- has a u32 address and fits the decoder.
pub decode_stalls :
    (limit g0 : ℕ) (g : List ℕ) (f : Frame) (rest : List ℕ)
    → All (λ b. b ≢ frame_flag) (g0 ∷ g)
    → IsU32 f.address
    → length (body f) ≤ limit
    → let behind = escape (body f) ++ frame_flag ∷ rest in
      let waiting : Codec = record { dec = reading limit 0 [] } in
      (decode (with_capacity limit) (g0 ∷ g ++ Encoder.encode_bytes f ++ rest)
        ≡ (none, waiting, behind))
      × (decode waiting behind ≡ (some f, with_capacity limit, rest))
unfolding decode
decode_stalls limit g0 g f rest hg h room =
    let (first, second) = process-behind limit g0 g f rest hg h room in
    (ap swallow first, ap swallow second)
