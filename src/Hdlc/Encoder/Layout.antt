-- ===== src/Hdlc/Encoder/Layout.antt =====
-- libmaestro/src/hdlc/encoder.rs: the bytes of an encoded frame.
use pbpctrl.Prelude.{
  ℕ, ◌≡◌, ◌≢◌, refl, sym, ap, ap₂, ◌∙◌, bit_xor, List, [], ◌∷◌, ◌++◌, append-nil, append_assoc,
  ◌==◌, ◌||◌, if◌then◌else◌, to_le_bytes, All, All-append, arith,
}
use pbpctrl.Hdlc.{Frame, frame_flag, escape_flag, escape_mask}
use pbpctrl.Hdlc.Varint
use pbpctrl.Hdlc.Crc
use pbpctrl.Hdlc.Encoder.{
  ByteEscape, Encoder, new, escape_u8, flag, put_u8, put_bytes, finalize, encode,
}

unfoldable pub escape_byte : ℕ → List ℕ
escape_byte b =
    if b == escape_flag || b == frame_flag then escape_flag ∷ bit_xor escape_mask b ∷ [] else b ∷ []

unfoldable pub escape : List ℕ → List ℕ
escape [] = []
escape (b ∷ bs) = escape_byte b ++ escape bs

-- What the checksum is taken over, and what stands between the flags.
abbrev pub content : Frame → List ℕ
content f = Varint.encode_vec f.address ++ f.control ∷ f.payload

abbrev pub body : Frame → List ℕ
body f = content f ++ to_le_bytes (Crc.crc32 (content f))

pub escape-append : (xs ys : List ℕ) → escape (xs ++ ys) ≡ escape xs ++ escape ys
unfolding escape
escape-append [] ys = refl
escape-append (x ∷ xs) ys =
    ap (λ t. escape_byte x ++ t) (escape-append xs ys)
    ∙ sym (append_assoc (escape_byte x) (escape xs) (escape ys))

escape_u8-buf : (e : ByteEscape) (b : ℕ) → (escape_u8 e b).buf ≡ e.buf ++ escape_byte b
unfolding escape_u8 escape_byte
escape_u8-buf e b = ground arith

-- The bytes go out escaped, and into the checksum as they are.
put_bytes-out : (e : Encoder) (bs : List ℕ) → (put_bytes e bs).out.buf ≡ e.out.buf ++ escape bs
unfolding put_bytes escape
put_bytes-out e [] = sym (append-nil e.out.buf)
put_bytes-out e (b ∷ bs) =
    put_bytes-out (put_u8 e b) bs
    ∙ ap (λ t. t ++ escape bs) (escape_u8-buf e.out b)
    ∙ append_assoc e.out.buf (escape_byte b) (escape bs)

put_bytes-crc : (e : Encoder) (bs : List ℕ) → (put_bytes e bs).crc ≡ Crc.put_bytes e.crc bs
unfolding put_bytes Crc.put_bytes
put_bytes-crc e [] = refl
put_bytes-crc e (b ∷ bs) = put_bytes-crc (put_u8 e b) bs

put_bytes-append :
    (e : Encoder) (xs ys : List ℕ) → put_bytes e (xs ++ ys) ≡ put_bytes (put_bytes e xs) ys
unfolding put_bytes
put_bytes-append e [] ys = refl
put_bytes-append e (x ∷ xs) ys = put_bytes-append (put_u8 e x) xs ys

encode-content :
    (buf : List ℕ) (f : Frame)
    → encode buf f ≡ (finalize (put_bytes (flag (new buf)) (content f))).out.buf
unfolding encode
encode-content buf f =
    ap (λ t. (finalize t).out.buf)
      (sym
        (put_bytes-append (flag (new buf)) (Varint.encode_vec f.address) (f.control ∷ f.payload)))

finalize-out :
    (e : Encoder)
    → (finalize e).out.buf
      ≡ (e.out.buf ++ escape (to_le_bytes (Crc.value e.crc))) ++ frame_flag ∷ []
unfolding finalize
finalize-out e = ap (λ t. t ++ frame_flag ∷ []) (put_bytes-out e (to_le_bytes (Crc.value e.crc)))

-- `encode` appends to the buffer: a flag, the escaped address, control byte, data and checksum of
-- these, and a flag.
pub encode-body :
    (buf : List ℕ) (f : Frame)
    → encode buf f ≡ buf ++ frame_flag ∷ escape (body f) ++ frame_flag ∷ []
unfolding flag Crc.crc32
encode-body buf f =
    let e : Encoder = flag (new buf) in
    let start : List ℕ = buf ++ frame_flag ∷ [] in
    let sum : List ℕ = to_le_bytes (Crc.crc32 (content f)) in
    encode-content buf f
    ∙ finalize-out (put_bytes e (content f))
    ∙ ap (λ t. t ++ frame_flag ∷ [])
        (ap₂ (λ x c. x ++ escape (to_le_bytes (Crc.value c))) (put_bytes-out e (content f))
            (put_bytes-crc e (content f))
          ∙ append_assoc start (escape (content f)) (escape sum)
          ∙ ap (λ t. start ++ t) (sym (escape-append (content f) sum))
          ∙ append_assoc buf (frame_flag ∷ []) (escape (body f)))

escape_byte-not_flag : (b : ℕ) → All (λ b. b ≢ frame_flag) (escape_byte b)
unfolding escape_byte
escape_byte-not_flag b = ground arith

-- No flag stands among the escaped bytes, so a flag on the wire delimits frames.
escape-not_flag : (bs : List ℕ) → All (λ b. b ≢ frame_flag) (escape bs)
unfolding escape escape_byte
escape-not_flag [] = tt
escape-not_flag (b ∷ bs) =
    All-append (λ b. b ≢ frame_flag) (escape_byte b) (escape bs) (escape_byte-not_flag b)
      (escape-not_flag bs)
