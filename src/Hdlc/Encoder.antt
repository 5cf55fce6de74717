-- ===== src/Hdlc/Encoder.antt =====
-- libmaestro/src/hdlc/encoder.rs: a frame is written between two flags, its bytes escaped, with a
-- running checksum. A `BytesMut` is the list of its bytes; `reserve` changes its capacity only and
-- has no counterpart here.
pub mod Layout
use pbpctrl.Prelude.{ℕ, bit_xor, List, [], ◌∷◌, ◌++◌, ◌==◌, ◌||◌, if◌then◌else◌, to_le_bytes}
use pbpctrl.Hdlc.{Frame, frame_flag, escape_flag, escape_mask}
use pbpctrl.Hdlc.Varint
use pbpctrl.Hdlc.Crc
use pbpctrl.Hdlc.Crc.{Crc32}

pub record ByteEscape : Type 0 where
  pub buf : List ℕ

unfoldable pub escape_u8 : ByteEscape → ℕ → ByteEscape
escape_u8 e byte =
    if byte == escape_flag || byte == frame_flag
    then record { buf = e.buf ++ escape_flag ∷ bit_xor escape_mask byte ∷ [] }
    else record { buf = e.buf ++ byte ∷ [] }

unfoldable pub put_frame_flag : ByteEscape → ByteEscape
put_frame_flag e = record { buf = e.buf ++ frame_flag ∷ [] }

pub record Encoder : Type 0 where
  pub out : ByteEscape
  pub crc : Crc32

abbrev pub new : List ℕ → Encoder
new buf = record { out = record { buf = buf }; crc = Crc.new }

-- The flag is no part of the checksum.
unfoldable pub flag : Encoder → Encoder
unfolding put_frame_flag
flag e = record e { out = put_frame_flag e.out }

unfoldable pub put_u8 : Encoder → ℕ → Encoder
unfolding escape_u8
put_u8 e byte = record { out = escape_u8 e.out byte; crc = Crc.put_u8 e.crc byte }

unfoldable pub put_bytes : Encoder → List ℕ → Encoder
unfolding put_u8
put_bytes e [] = e
put_bytes e (b ∷ bytes) = put_bytes (put_u8 e b) bytes

unfoldable pub finalize : Encoder → Encoder
unfolding flag put_bytes
finalize e = flag (put_bytes e (to_le_bytes (Crc.value e.crc)))

unfoldable pub encode : List ℕ → Frame → List ℕ
unfolding finalize flag put_bytes put_u8
encode buf frame =
    let addressed = put_bytes (flag (new buf)) (Varint.encode_vec frame.address) in
    let controlled = put_u8 addressed frame.control in
    (finalize (put_bytes controlled frame.payload)).out.buf

unfoldable pub encode_bytes : Frame → List ℕ
unfolding encode
encode_bytes frame = encode [] frame
