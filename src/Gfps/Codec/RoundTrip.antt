-- ===== src/Gfps/Codec/RoundTrip.antt =====
-- libgfps/src/msg/codec.rs: what the decoder makes of encoded messages, whole or cut.
use pbpctrl.Prelude.{
  ℕ, suc, ◌+◌, ◌/◌, ◌%◌, ◌^◌, ◌≤◌, ◌<◌, ◌≡◌, refl, ap, ◌∙◌, List, [], ◌∷◌, ◌++◌, append_assoc,
  Option, none, some, Result, ok, err, ltb, if◌then◌else◌, length, length-append, take, drop,
  take-append, drop-append, get_or, to_be_bytes, from_be_bytes, arith, Bool-cases, inl, inr, true,
  false,
}
use pbpctrl.Gfps.Codec.{
  Message, IoError, invalid_data, invalid_input, max_frame_size, decode, encode,
}

-- The bytes of a message.
abbrev pub bytes : Message → List ℕ
bytes m = m.group ∷ m.code ∷ (length m.payload / 256) % 256 ∷ length m.payload % 256 ∷ m.payload

joined :
    (group code high low : ℕ) (payload buf : List ℕ)
    → (((buf ++ group ∷ []) ++ code ∷ []) ++ high ∷ low ∷ []) ++ payload
      ≡ buf ++ group ∷ code ∷ high ∷ low ∷ payload
joined group code high low payload buf = simp append_assoc

length_bytes : (n : ℕ) → n < 2 ^ 16 → to_be_bytes (n % 2 ^ 16) ≡ (n / 256) % 256 ∷ n % 256 ∷ []
length_bytes n h = let e : n % 2 ^ 16 ≡ n = omega arith in rw e

-- Messages of at most 4092 data bytes are appended to the buffer; all others are refused.
pub encode-bytes :
    (m : Message) (buf : List ℕ)
    → encode m buf ≡ (
        if ltb 4092 (length m.payload)
        then err (invalid_input (length m.payload + 4))
        else ok (buf ++ bytes m))
unfolding encode
encode-bytes m buf = elim (Bool-cases (ltb 4092 (length m.payload))) [
  | inl large ↦
      let refused : ltb max_frame_size (length m.payload + 4) ≡ true = ground arith in
      rw (refused, large)
  | inr small ↦
      let header : length m.payload < 2 ^ 16 = ground arith in
      let accepted : ltb max_frame_size (length m.payload + 4) ≡ false = ground arith in
      rw (accepted, small)
        (ap (λ t. ok ((((buf ++ m.group ∷ []) ++ m.code ∷ []) ++ t) ++ m.payload))
            (length_bytes (length m.payload) header)
          ∙ ap ok (
              joined m.group m.code (length m.payload / 256 % 256) (length m.payload % 256)
                m.payload buf))
]

-- A message of at most 4096 data bytes is read from its bytes, and what follows it is left.
pub decode-bytes :
    (m : Message) (rest : List ℕ)
    → length m.payload ≤ 4096
    → decode (bytes m ++ rest) ≡ (ok (some m), rest)
unfolding decode
decode-bytes m rest h =
    let n : ℕ = length m.payload in
    let src : List ℕ = bytes m ++ rest in
    let size : ℕ = from_be_bytes (n / 256 % 256) (n % 256) in
    let whole : 4 + size ≡ suc (suc (suc (suc n))) = omega arith in
    let payload : drop 4 (take (4 + size) src) ≡ m.payload =
      ap (λ k. drop 4 (take k src)) whole ∙ take-append m.payload rest in
    let left : drop (4 + size) src ≡ rest =
      ap (λ k. drop k src) whole ∙ drop-append m.payload rest in
    let long : length src ≡ 4 + n + length rest = omega (arith, length-append m.payload rest) in
    ground (arith, payload, left, long)

too_large :
    (group code c d : ℕ) (zs : List ℕ)
    → 4096 < from_be_bytes c d
    → decode (group ∷ code ∷ c ∷ d ∷ zs)
      ≡ (err (invalid_data (from_be_bytes c d) group code), group ∷ code ∷ c ∷ d ∷ zs)
unfolding decode
too_large group code c d zs h = ground arith

cut_header :
    (a b c d : ℕ) (front : List ℕ)
    → from_be_bytes c d ≤ 4096
    → length front < from_be_bytes c d
    → decode (a ∷ b ∷ c ∷ d ∷ front) ≡ (ok none, a ∷ b ∷ c ∷ d ∷ front)
unfolding decode
cut_header a b c d front fits short = ground arith

-- On every proper front of a message of at most 4096 data bytes the decoder asks for more and takes
-- nothing.
pub decode_incomplete :
    (m : Message) (front : List ℕ) (x : ℕ) (back : List ℕ)
    → length m.payload ≤ 4096
    → bytes m ≡ front ++ x ∷ back
    → decode front ≡ (ok none, front)
decode_incomplete m [] x back h e = unfold decode in refl
decode_incomplete m (a ∷ []) x back h e = unfold decode in refl
decode_incomplete m (a ∷ b ∷ []) x back h e = unfold decode in refl
decode_incomplete m (a ∷ b ∷ c ∷ []) x back h e = unfold decode in refl
decode_incomplete m (a ∷ b ∷ c ∷ d ∷ front) x back h e =
    let high = ap (λ (t : List ℕ). get_or t 2 0) e in
    let low = ap (λ (t : List ℕ). get_or t 3 0) e in
    let long = ap (λ (t : List ℕ). length t) e in
    cut_header a b c d front (omega (arith, high, low))
      (omega (arith, high, low, long, length-append front (x ∷ back)))

-- A header that announces more than 4096 bytes is an error, and stays in the buffer: every later
-- call on it fails in the same way, whatever has arrived.
pub decode_too_large :
    (group code c d : ℕ) (xs ys : List ℕ)
    → 4096 < from_be_bytes c d
    → (decode (group ∷ code ∷ c ∷ d ∷ xs)
        ≡ (err (invalid_data (from_be_bytes c d) group code), group ∷ code ∷ c ∷ d ∷ xs))
      × (decode ((decode (group ∷ code ∷ c ∷ d ∷ xs)).1 ++ ys)
          ≡ (err (invalid_data (from_be_bytes c d) group code), group ∷ code ∷ c ∷ d ∷ xs ++ ys))
decode_too_large group code c d xs ys h =
    let stuck : (zs : List ℕ)
        → decode (group ∷ code ∷ c ∷ d ∷ zs)
          ≡ (err (invalid_data (from_be_bytes c d) group code), group ∷ code ∷ c ∷ d ∷ zs) =
      λ zs. too_large group code c d zs h in
    (
      stuck xs,
      ap (λ (p : Result IoError (Option Message) × List ℕ). decode (p.1 ++ ys)) (stuck xs)
          ∙ stuck (xs ++ ys),
    )
