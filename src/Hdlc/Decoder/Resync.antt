-- ===== src/Hdlc/Decoder/Resync.antt =====
-- libmaestro/src/hdlc/decoder.rs: a frame behind bytes that belong to none.
use pbpctrl.Prelude.{
  ℕ, suc, ◌+◌, ◌≤◌, ◌≡◌, ◌≢◌, refl, ap, ◌∙◌, List, [], ◌∷◌, ◌++◌, append_assoc, length,
  length-append, arith, ok, err, All, IsU32, some, drop, to_le_bytes, drop-append_cons, false, ◌==◌,
}
use native.Mathlib.Numerals.{add-one}
use pbpctrl.Hdlc.{Frame, frame_flag}
use pbpctrl.Hdlc.Crc.{crc32}
use pbpctrl.Hdlc.Encoder.{encode_bytes}
use pbpctrl.Hdlc.Encoder.Layout.{escape, content, body, encode-body}
use pbpctrl.Hdlc.Decoder.{
  with_capacity, unexpected_data, invalid_frame, leave, seek, dispatch, process, find_frame_start,
  decode_buffered,
}
use pbpctrl.Hdlc.Decoder.Reading.{reading, scan-flag, find_frame_start-escape}
use pbpctrl.Hdlc.Decoder.Resume.{process_in_frame}
use pbpctrl.Hdlc.Decoder.RoundTrip.{scan-body}

find_frame_start-behind :
    (g : List ℕ) (xs : List ℕ)
    → All (λ b. b ≢ frame_flag) g
    → find_frame_start (frame_flag ∷ xs) ≡ some 0
    → find_frame_start (g ++ frame_flag ∷ xs) ≡ some (length g)
unfolding find_frame_start
find_frame_start-behind [] xs h e = e
find_frame_start-behind (a ∷ []) xs h e = ground (arith, e, find_frame_start-behind [] xs tt e)
find_frame_start-behind (a ∷ b ∷ g) xs h e =
    ground (arith, find_frame_start-behind (b ∷ g) xs h.1 e)

-- What `encode_bytes` writes, with the bytes behind it.
encoded :
    (f : Frame) (rest : List ℕ)
    → encode_bytes f ++ rest ≡ frame_flag ∷ escape (body f) ++ frame_flag ∷ rest
unfolding encode_bytes
encoded f rest =
    ap (λ t. t ++ rest) (encode-body [] f)
    ∙ ap (λ t. frame_flag ∷ t) (append_assoc (escape (body f)) (frame_flag ∷ []) rest)

seek_later :
    (limit b : ℕ) (bs : List ℕ) (n : ℕ)
    → find_frame_start (b ∷ bs) ≡ some (suc n)
    → process (with_capacity limit) (b ∷ bs)
      ≡ (err unexpected_data, reading limit 0 [], drop (suc n + 1) (b ∷ bs))
unfolding process dispatch seek
seek_later limit b bs n e = let later : (suc n == 0) ≡ false = ground arith in rw (e, later)

-- A fresh decoder reports bytes without a flag before a frame as one error, and stands behind the
-- flag that starts the frame. The next call returns the frame, whose address is a u32 and for which
-- there is room.
pub process-behind :
    (limit g0 : ℕ) (g : List ℕ) (f : Frame) (rest : List ℕ)
    → All (λ b. b ≢ frame_flag) (g0 ∷ g)
    → IsU32 f.address
    → length (body f) ≤ limit
    → let behind = escape (body f) ++ frame_flag ∷ rest in
      (process (with_capacity limit) (g0 ∷ g ++ encode_bytes f ++ rest)
        ≡ (err unexpected_data, reading limit 0 [], behind))
      × (process (reading limit 0 []) behind ≡ (ok (some f), with_capacity limit, rest))
process-behind limit g0 g f rest hg h room =
    let behind : List ℕ = escape (body f) ++ frame_flag ∷ rest in
    let whole : g0 ∷ g ++ encode_bytes f ++ rest ≡ (g0 ∷ g) ++ frame_flag ∷ behind =
      append_assoc (g0 ∷ g) (encode_bytes f) rest ∙ ap (λ t. (g0 ∷ g) ++ t) (encoded f rest) in
    let start : find_frame_start (frame_flag ∷ behind) ≡ some 0 =
      find_frame_start-escape (body f) (frame_flag ∷ rest)
        (omega (arith, length-append (content f) (to_le_bytes (crc32 (content f))))) in
    (
      ap (process (with_capacity limit)) whole
          ∙ seek_later limit g0 (g ++ frame_flag ∷ behind) (length g)
              (find_frame_start-behind (g0 ∷ g) behind hg start)
          ∙ ap (λ t. (err unexpected_data, reading limit 0 [], t))
              (ap (λ n. drop n (g0 ∷ g ++ frame_flag ∷ behind)) (add-one (suc (length g)))
                ∙ drop-append_cons (g0 ∷ g) frame_flag behind),
      process_in_frame (reading limit 0 []) behind refl ∙ scan-body limit f rest h room,
    )

-- After an error that leaves the decoder waiting inside a frame, the first flag of the next frame
-- is reported as an empty frame, and the frame itself, whose address is a u32 and for which there is
-- room, is read by the second call.
pub process_next :
    (limit : ℕ) (f : Frame) (rest : List ℕ)
    → IsU32 f.address
    → length (body f) ≤ limit
    → let behind = escape (body f) ++ frame_flag ∷ rest in
      (process (reading limit 0 []) (encode_bytes f ++ rest)
        ≡ (err invalid_frame, reading limit 0 [], behind))
      × (process (reading limit 0 []) behind ≡ (ok (some f), with_capacity limit, rest))
process_next limit f rest h room =
    let behind : List ℕ = escape (body f) ++ frame_flag ∷ rest in
    (
      ap (process (reading limit 0 [])) (encoded f rest)
          ∙ process_in_frame (reading limit 0 []) (frame_flag ∷ behind) refl
          ∙ scan-flag limit 0 [] behind
          ∙ ap (λ r. leave r behind) (unfold decode_buffered in refl),
      process_in_frame (reading limit 0 []) behind refl ∙ scan-body limit f rest h room,
    )
