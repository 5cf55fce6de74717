-- ===== src/Hdlc/Decoder.antt =====
-- libmaestro/src/hdlc/decoder.rs: the frame decoder. It keeps its state between calls, so a frame
-- may arrive in pieces. The buffer that a call reads is the list of the bytes not yet consumed: a
-- call returns its result, the new state and what is left of the buffer.
pub mod Reading
pub mod RoundTrip
pub mod Resume
pub mod Sound
pub mod Invariant
pub mod Stale
pub mod Consume
pub mod Detect
pub mod Resync
use pbpctrl.Prelude.{
  ℕ, suc, ◌+◌, ◌-◌, bit_xor, Bool, true, false, not, List, [], ◌∷◌, ◌++◌, Option, none, some, ltb,
  ◌==◌, ◌&&◌, if◌then◌else◌, length, take, drop, get_or, from_le_bytes, Result, ok, err,
}
use mathlib.Core.Option as Opt
use pbpctrl.Hdlc.{Frame, frame_flag, escape_flag, escape_mask}
use pbpctrl.Hdlc.Varint
use pbpctrl.Hdlc.Crc

pub data Error : Type 0 where
  unexpected_data unexpected_end_of_frame invalid_checksum invalid_encoding invalid_frame : Error
  invalid_address buffer_overflow : Error

-- `From<varint::DecodeError>`.
unfoldable pub from_varint : Varint.DecodeError → Error
from_varint Varint.incomplete = invalid_frame
from_varint Varint.overflow = invalid_address

pub data State : Type 0 where
  discard frame : State

pub data EscState : Type 0 where
  normal escape : EscState

-- `capacity` is what `buf.capacity()` reports; `push_byte` never lets the buffer grow past it.
pub record Decoder : Type 0 where
  pub buf : List ℕ
  pub capacity : ℕ
  pub state : State
  pub esc : EscState
  pub current_frame_size : ℕ

-- `Vec::with_capacity` guarantees the capacity that was asked for.
abbrev pub with_capacity : ℕ → Decoder
with_capacity limit = record {
  buf = [];
  capacity = limit;
  state = discard;
  esc = normal;
  current_frame_size = 0;
}

abbrev pub new : Decoder
new = with_capacity 4096

unfoldable pub push_byte : Decoder → ℕ → Decoder
push_byte d byte =
    let counted = record d { current_frame_size = d.current_frame_size + 1 } in
    if ltb (length d.buf) d.capacity then record counted { buf = d.buf ++ byte ∷ [] } else counted

abbrev pub reset : Decoder → Decoder
reset d = record d { buf = []; state = discard; esc = normal; current_frame_size = 0 }

-- The last four bytes of a buffer, and what stands before them.
abbrev pub before_crc : List ℕ → List ℕ
before_crc buf = take (length buf - 4) buf

abbrev pub crc_bytes : List ℕ → List ℕ
crc_bytes buf = drop (length buf - 4) buf

abbrev pub Outcome : Type 0
Outcome = Result Error (Option Frame)

-- The end of `decode_buffered`, from the decoded address and its length on.
unfoldable pub decode_rest : Decoder → ℕ → ℕ → Outcome × Decoder
decode_rest d address n = if ltb (length d.buf) (n + 5) then (err invalid_frame, reset d) else (
  ok (
      some (record {
        address = address;
        control = get_or d.buf n 0;
        payload = drop (n + 1) (before_crc d.buf);
      })),
  reset d,
)

-- `varint::decode(&self.buf)?`: an error returns at once, and the state is left as it is.
unfoldable pub decode_address : Decoder → Result Varint.DecodeError (ℕ × ℕ) → Outcome × Decoder
decode_address d (ok (address, n)) = decode_rest d address n
decode_address d (err e) = (err (from_varint e), d)

-- Two errors leave the decoder in `frame`: the flag that ended this frame may start the next.
unfoldable pub decode_buffered : Decoder → Outcome × Decoder
decode_buffered d =
    if ltb (length d.buf) 6
    then (err invalid_frame, record (reset d) { state = frame })
    else if not (from_le_bytes (crc_bytes d.buf) == Crc.crc32 (before_crc d.buf))
    then (err invalid_checksum, record (reset d) { state = frame })
    else if ltb (length d.buf) d.current_frame_size
    then (err buffer_overflow, reset d)
    else decode_address d (Varint.decode d.buf)

-- One round of the `for` loop of `State::Frame`: it goes on, or it returns. The flag of `stop` says
-- whether the byte is consumed (`advance(i + 1)`) or left in the buffer (`advance(i)`).
pub data Round : Type 0 where
  go : Decoder → Round
  stop : Outcome × Decoder → Bool → Round

unfoldable pub round_normal : Decoder → ℕ → Round
round_normal d b =
    if b == escape_flag
    then go (record d { esc = escape })
    else if b == frame_flag
    then stop (decode_buffered d) true
    else go (push_byte d b)

unfoldable pub round_escape : Decoder → ℕ → Round
round_escape d b =
    if b == escape_flag
    then stop (err invalid_encoding, reset d) true
    else if b == frame_flag
    then stop (err unexpected_end_of_frame, reset d) false
    else go (record (push_byte d (bit_xor b escape_mask)) { esc = normal })

unfoldable pub round : Decoder → ℕ → Round
round d b = elim d.esc [ normal ↦ round_normal d b | escape ↦ round_escape d b ]

abbrev pub leave : Outcome × Decoder → List ℕ → Outcome × Decoder × List ℕ
leave (r, d) rest = (r, d, rest)

-- The loop. The list is the buffer from the loop's index on; at its end all is consumed.
unfoldable pub scan : Decoder → List ℕ → Outcome × Decoder × List ℕ
scan d [] = (ok none, d, [])
scan d (b ∷ bs) = elim (round d b) [
  | go d' ↦ scan d' bs
  | stop r consumed ↦ leave r (if consumed then bs else b ∷ bs)
]

-- The first flag that another byte than a flag follows.
unfoldable pub find_frame_start : List ℕ → Option ℕ
find_frame_start [] = none
find_frame_start (a ∷ []) = none
find_frame_start (a ∷ b ∷ bs) =
    if a == frame_flag && not (b == frame_flag)
    then some 0
    else Opt.map suc (find_frame_start (b ∷ bs))

abbrev pub ends_with_flag : List ℕ → Bool
ends_with_flag [] = false
ends_with_flag (b ∷ []) = b == frame_flag
ends_with_flag (a ∷ b ∷ bs) = ends_with_flag (b ∷ bs)

-- `State::Discard`. Only a frame that starts at once is read on; the loop of `process` then comes
-- to `State::Frame`, which returns in every case.
unfoldable pub seek : Decoder → List ℕ → Option ℕ → Outcome × Decoder × List ℕ
seek d buf (some n) =
    if n == 0
    then scan (record d { state = frame }) (drop 1 buf)
    else (err unexpected_data, record d { state = frame }, drop (n + 1) buf)
seek d buf none =
    let n = if ends_with_flag buf then length buf - 1 else length buf in
    (err unexpected_data, d, drop n buf)

unfoldable pub dispatch : State → Decoder → List ℕ → Outcome × Decoder × List ℕ
dispatch discard d buf = seek d buf (find_frame_start buf)
dispatch frame d buf = scan d buf

unfoldable pub process : Decoder → List ℕ → Outcome × Decoder × List ℕ
process d [] = (ok none, d, [])
process d (b ∷ bs) = dispatch d.state d (b ∷ bs)
