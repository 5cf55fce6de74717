-- ===== src/Hdlc/Decoder/Reading.antt =====
-- libmaestro/src/hdlc/decoder.rs: the decoder inside a frame, on the bytes that an encoder wrote.
use pbpctrl.Prelude.{
  ℕ, ◌+◌, ◌≤◌, ◌<◌, ◌≡◌, refl, sym, ap, ap₂, ◌∙◌, bit_xor, List, [], ◌∷◌, ◌++◌, append-nil,
  append_assoc, ◌==◌, ◌||◌, if◌then◌else◌, some, length, length-append, arith, Bool-cases, inl, inr,
  Bool, true, false,
}
use pbpctrl.Hdlc.{frame_flag, escape_flag, escape_mask}
use pbpctrl.Hdlc.Encoder.Layout.{escape_byte, escape}
use pbpctrl.Hdlc.Decoder.{
  Decoder, State, EscState, normal, push_byte, Outcome, decode_buffered, go, stop, round,
  round_normal, round_escape, leave, scan, find_frame_start,
}

-- Inside a frame, of which `buf` has been read, and no escape is open.
abbrev pub reading : ℕ → ℕ → List ℕ → Decoder
reading limit size buf = record {
  buf = buf;
  capacity = limit;
  state = State.frame;
  esc = normal;
  current_frame_size = size;
}

abbrev opened : ℕ → ℕ → List ℕ → Decoder
opened limit size buf = record (reading limit size buf) { esc = EscState.escape }

scan_go : (d d' : Decoder) (b : ℕ) (bs : List ℕ) → round d b ≡ go d' → scan d (b ∷ bs) ≡ scan d' bs
unfolding scan
scan_go d d' b bs e = rw (e, scan)

scan_stop :
    (d : Decoder) (b : ℕ) (bs : List ℕ) (r : Outcome × Decoder) (consumed : Bool)
    → round d b ≡ stop r consumed
    → scan d (b ∷ bs) ≡ leave r (if consumed then bs else b ∷ bs)
unfolding scan
scan_stop d b bs r consumed e = rw (e, scan)

module _ (limit size : ℕ) (buf : List ℕ) where
  round_plain :
      (b : ℕ)
      → length buf < limit
      → (b == escape_flag || b == frame_flag) ≡ false
      → round (reading limit size buf) b ≡ go (reading limit (size + 1) (buf ++ b ∷ []))
  unfolding round round_normal push_byte
  round_plain b room plain = ground arith

  round_opens : round (reading limit size buf) escape_flag ≡ go (opened limit size buf)
  unfolding round round_normal
  round_opens = refl

  round_closes :
      (b : ℕ)
      → length buf < limit
      → (b == escape_flag || b == frame_flag) ≡ true
      → round (opened limit size buf) (bit_xor escape_mask b)
        ≡ go (reading limit (size + 1) (buf ++ b ∷ []))
  unfolding round round_escape push_byte
  round_closes b room special = elim (Bool-cases (b == escape_flag)) [
    | inl e ↦ let b0 : b ≡ escape_flag = ground arith in rw b0 (ground arith)
    | inr n ↦ let b0 : b ≡ frame_flag = ground arith in rw b0 (ground arith)
  ]

  -- An escaped byte is pushed as it was before escaping.
  scan-escape_byte :
      (b : ℕ) (rest : List ℕ)
      → length buf < limit
      → scan (reading limit size buf) (escape_byte b ++ rest)
        ≡ scan (reading limit (size + 1) (buf ++ b ∷ [])) rest
  unfolding escape_byte
  scan-escape_byte b rest room = elim (Bool-cases (b == escape_flag || b == frame_flag)) [
    | inl special ↦ rw special (
        scan_go (reading limit size buf) (opened limit size buf) escape_flag
          (bit_xor escape_mask b ∷ rest) round_opens
        ∙ scan_go (opened limit size buf) (reading limit (size + 1) (buf ++ b ∷ []))
            (bit_xor escape_mask b) rest (round_closes b room special))
    | inr plain ↦ rw plain (scan_go _ _ b rest (round_plain b room plain))
  ]

  -- A flag ends the frame, and is consumed.
  pub scan-flag :
      (rest : List ℕ)
      → scan (reading limit size buf) (frame_flag ∷ rest)
        ≡ leave (decode_buffered (reading limit size buf)) rest
  unfolding round round_normal
  scan-flag rest =
      scan_stop (reading limit size buf) frame_flag rest (decode_buffered (reading limit size buf))
        true refl

-- While there is room, the escaped form of `bs` puts `bs` into the buffer.
pub scan-escape :
    (limit size : ℕ) (buf bs rest : List ℕ)
    → length buf + length bs ≤ limit
    → scan (reading limit size buf) (escape bs ++ rest)
      ≡ scan (reading limit (size + length bs) (buf ++ bs)) rest
unfolding escape
scan-escape limit size buf [] rest room =
    ap₂ (λ n b. scan (reading limit n b) rest) (omega arith) (sym (append-nil buf))
scan-escape limit size buf (b ∷ bs) rest room =
    ap (λ t. scan (reading limit size buf) t) (append_assoc (escape_byte b) (escape bs) rest)
    ∙ scan-escape_byte limit size buf b (escape bs ++ rest) (omega arith)
    ∙ scan-escape limit (size + 1) (buf ++ b ∷ []) bs rest
        (omega (arith, length-append buf (b ∷ [])))
    ∙ ap₂ (λ n t. scan (reading limit n t) rest) (omega arith) (append_assoc buf (b ∷ []) bs)

-- A frame of the escaped form of `bs`, from an empty buffer to the flag that ends it.
pub scan_frame :
    (limit size : ℕ) (buf bs rest : List ℕ)
    → length buf + length bs ≤ limit
    → scan (reading limit size buf) (escape bs ++ frame_flag ∷ rest)
      ≡ leave (decode_buffered (reading limit (size + length bs) (buf ++ bs))) rest
scan_frame limit size buf bs rest room =
    scan-escape limit size buf bs (frame_flag ∷ rest) room
    ∙ scan-flag limit (size + length bs) (buf ++ bs) rest

escape_starts_frame :
    (b : ℕ) (bs : List ℕ) → find_frame_start (frame_flag ∷ escape_byte b ++ bs) ≡ some 0
unfolding find_frame_start escape_byte
escape_starts_frame b bs = elim (Bool-cases (b == escape_flag || b == frame_flag)) [
  | inl special ↦ rw special
  | inr plain ↦ rw plain (ground arith)
]

-- A flag and the escaped form of at least one byte are seen as the start of a frame.
pub find_frame_start-escape :
    (bs rest : List ℕ) → 0 < length bs → find_frame_start (frame_flag ∷ escape bs ++ rest) ≡ some 0
unfolding escape
find_frame_start-escape [] rest h = elim h [ ]
find_frame_start-escape (b ∷ bs) rest h =
    ap (λ t. find_frame_start (frame_flag ∷ t)) (append_assoc (escape_byte b) (escape bs) rest)
    ∙ escape_starts_frame b (escape bs ++ rest)
