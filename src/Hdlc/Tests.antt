-- ===== src/Hdlc/Tests.antt =====
-- libmaestro/src/hdlc: the theorems at concrete frames and bytes.
use pbpctrl.Prelude.{
  ℕ, ◌+◌, ◌-◌, ◌*◌, ◌^◌, ◌≤◌, ◌≡◌, ◌≢◌, refl, List, [], ◌∷◌, ◌++◌, none, some, ok, err, length,
  replicate, All, IsByte, to_le_bytes, arith,
}
use pbpctrl.Hdlc.{Frame, frame_flag}
use pbpctrl.Hdlc.Varint
use pbpctrl.Hdlc.Varint.RoundTrip.{decode-encode_vec}
use pbpctrl.Hdlc.Varint.Decode.{decode_padded}
use pbpctrl.Hdlc.Crc.{crc32}
use pbpctrl.Hdlc.Crc.Reference.{shift_bytes, crc32-shift_bytes}
use pbpctrl.Hdlc.Encoder
use pbpctrl.Hdlc.Encoder.Layout.{escape, body, encode-body}
use pbpctrl.Hdlc.Decoder
use pbpctrl.Hdlc.Decoder.{
  with_capacity, decode_buffered, reset, scan, process, from_varint, invalid_checksum,
  unexpected_data, invalid_frame,
}
use pbpctrl.Hdlc.Decoder.Reading.{reading}
use pbpctrl.Hdlc.Decoder.RoundTrip.{decode_buffered-body, process-encode_bytes}
use pbpctrl.Hdlc.Decoder.Sound.{Accepted, decode_buffered-Accepted}
use pbpctrl.Hdlc.Decoder.Resume.{process-append_none}
use pbpctrl.Hdlc.Decoder.Invariant.{IsValid, process-IsValid}
use pbpctrl.Hdlc.Decoder.Detect.{scan_damaged}
use pbpctrl.Hdlc.Decoder.Stale.{checked, stale_frame_lost}
use pbpctrl.Hdlc.Codec.{Codec, decode_stalls}
use pbpctrl.Hdlc.Codec as Codec

abbrev frame : Frame
frame = record { address = 300; control = 3; payload = 0x7E ∷ 0x7D ∷ [] }

room : length (body frame) ≤ 64
unfolding Varint.encode_vec Varint.collect Varint.next
room = omega arith

abbrev noise : List ℕ
noise = 1 ∷ 2 ∷ []

quiet : All (λ b. b ≢ frame_flag) (5 ∷ noise)
quiet = (λ e. omega (arith, e), (λ e. omega (arith, e), (λ e. omega (arith, e), tt)))

noise-IsByte : All IsByte noise
noise-IsByte = (omega arith, (omega arith, tt))

decode-encode_vec_example :
    Varint.decode (Varint.encode_vec 300 ++ noise) ≡ ok (300, length (Varint.encode_vec 300))
decode-encode_vec_example = decode-encode_vec 300 noise (omega arith)

decode_padded_example : Varint.decode (replicate 10 0 ++ (1 * 2 + 1) ∷ []) ≡ ok (1 * 64, 11)
decode_padded_example = decode_padded 1 (omega arith)

crc32-shift_bytes_example : crc32 noise ≡ 2 ^ 32 - 1 - shift_bytes 0xFFFFFFFF noise
crc32-shift_bytes_example = crc32-shift_bytes noise noise-IsByte

encode-body_example :
    Encoder.encode noise frame ≡ noise ++ frame_flag ∷ escape (body frame) ++ frame_flag ∷ []
encode-body_example = encode-body noise frame

process-encode_bytes_example :
    process (with_capacity 64) (Encoder.encode_bytes frame ++ noise)
    ≡ (ok (some frame), with_capacity 64, noise)
process-encode_bytes_example = process-encode_bytes 64 frame noise (omega arith) room

waits : (process (with_capacity 64) (0x7E ∷ noise)).0 ≡ ok none
unfolding process scan Decoder.dispatch Decoder.seek Decoder.find_frame_start Decoder.round
    Decoder.round_normal Decoder.push_byte
waits = refl

process-append_none_example :
    process (with_capacity 64) ((0x7E ∷ noise) ++ 9 ∷ [])
    ≡ process (process (with_capacity 64) (0x7E ∷ noise)).1 (9 ∷ [])
process-append_none_example = process-append_none (with_capacity 64) (0x7E ∷ noise) (9 ∷ []) waits

fresh : IsValid (with_capacity 64)
fresh = ground arith

process-IsValid_example :
    IsValid (process (with_capacity 64) noise).1
    × ((process (with_capacity 64) noise).1.capacity ≡ 64)
process-IsValid_example = process-IsValid (with_capacity 64) noise fresh noise-IsByte

scan_damaged_example :
    scan (reading 64 0 []) (
      escape ((noise ++ 4 ∷ noise) ++ to_le_bytes (crc32 (noise ++ 3 ∷ noise)))
      ++ frame_flag ∷ noise)
    ≡ (err invalid_checksum, reading 64 0 [], noise)
scan_damaged_example =
    scan_damaged 64 noise 3 4 noise noise noise-IsByte (omega arith) (omega arith) noise-IsByte
      (λ e. omega (arith, e)) (omega arith) (omega arith)

abbrev behind : List ℕ
behind = escape (body frame) ++ frame_flag ∷ noise

decode_stalls_example :
    (Codec.decode (Codec.with_capacity 64) (5 ∷ noise ++ Encoder.encode_bytes frame ++ noise)
      ≡ (none, record { dec = reading 64 0 [] }, behind))
    × (Codec.decode (record { dec = reading 64 0 [] }) behind
        ≡ (some frame, Codec.with_capacity 64, noise))
decode_stalls_example = decode_stalls 64 5 noise frame noise quiet (omega arith) room

-- An address of more than 32 bits.
abbrev long_address : List ℕ
long_address = 0xFE ∷ 0xFE ∷ 0xFE ∷ 0xFE ∷ 0xFF ∷ 3 ∷ []

unreadable : Varint.decode (checked long_address) ≡ err Varint.overflow
unfolding Varint.decode Varint.decode_loop
unreadable = refl

stale_room : length (checked long_address) + length (body frame) ≤ 64
unfolding Varint.encode_vec Varint.collect Varint.next
stale_room = omega arith

stale_frame_lost_example :
    let d = reading 64 (length (checked long_address)) (checked long_address) in
    (process d (frame_flag ∷ []) ≡ (err (from_varint Varint.overflow), d, []))
    × (process d (Encoder.encode_bytes frame ++ noise)
        ≡ (err (from_varint Varint.overflow), d, behind))
    × (process d behind ≡ (err invalid_checksum, reading 64 0 [], noise))
stale_frame_lost_example =
    stale_frame_lost 64 long_address Varint.overflow frame noise (omega arith)
      (omega arith, (omega arith, (omega arith, (omega arith, (omega arith, (omega arith, tt))))))
      unreadable
      (record {
        address = omega arith;
        control = omega arith;
        payload = (omega arith, (omega arith, tt));
      })
      stale_room

-- A buffer that holds a message, and one that is too short for any.
abbrev small : Frame
small = record { address = 300; control = 3; payload = 7 ∷ 8 ∷ [] }

abbrev full : Decoder.Decoder
full = reading 64 9 (body small)

abbrev short : Decoder.Decoder
short = reading 64 2 noise

enough : 9 ≤ length (body small)
unfolding Varint.encode_vec Varint.collect Varint.next
enough = omega arith

decode_buffered-Accepted_example : (n : ℕ) × Accepted full small n × (reset full ≡ reset full)
decode_buffered-Accepted_example =
    decode_buffered-Accepted full (reset full) small
      (decode_buffered-body full small (omega arith) refl enough)

abbrev cleared : Decoder.Decoder
cleared = reading 64 0 []

too_short : decode_buffered short ≡ (err invalid_frame, cleared)
unfolding decode_buffered
too_short = refl
