-- ===== src/Gfps/Codec.antt =====
-- libgfps/src/msg/codec.rs: messages behind a header of four bytes.
pub mod RoundTrip
use pbpctrl.Prelude.{
  ℕ, ◌+◌, ◌-◌, ◌%◌, ◌^◌, List, [], ◌∷◌, ◌++◌, Option, none, some, Result, ok, err, ltb,
  if◌then◌else◌, length, take, drop, get_or, to_be_bytes, from_be_bytes,
}

pub record Message : Type 0 where
  pub group : ℕ
  pub code : ℕ
  pub payload : List ℕ

-- The kinds of `std::io::Error` that the codec makes, with the numbers their texts show.
pub data IoError : Type 0 where
  invalid_data : (length group code : ℕ) → IoError
  invalid_input : (size : ℕ) → IoError

abbrev pub max_frame_size : ℕ
max_frame_size = 4096

-- `src` is the buffer; what is left of it stands beside the result. `reserve` changes no content.
unfoldable pub decode : List ℕ → Result IoError (Option Message) × List ℕ
decode src =
    let group = get_or src 0 0 in
    let code = get_or src 1 0 in
    let size = from_be_bytes (get_or src 2 0) (get_or src 3 0) in
    if ltb (length src) 4
    then (ok none, src)
    else if ltb max_frame_size size
    then (err (invalid_data size group code), src)
    else if ltb (length src) (4 + size)
    then (ok none, src)
    else (
      ok (some (record { group = group; code = code; payload = drop 4 (take (4 + size) src) })),
      drop (4 + size) src,
    )

unfoldable pub encode : Message → List ℕ → Result IoError (List ℕ)
encode msg buf =
    let size = length msg.payload + 4 in
    if ltb max_frame_size size
    then err (invalid_input size)
    else ok (
        (((buf ++ msg.group ∷ []) ++ msg.code ∷ []) ++ to_be_bytes (length msg.payload % 2 ^ 16))
        ++ msg.payload)
