-- ===== src/Hdlc/Decoder/Detect.antt =====
-- libmaestro/src/hdlc/decoder.rs: frames that were damaged on the way.
use pbpctrl.Prelude.{
  ℕ, ◌+◌, ◌≤◌, ◌≡◌, ◌≢◌, refl, sym, ap, ◌∙◌, List, [], ◌∷◌, ◌++◌, length, length-append, arith,
  to_le_bytes, err, All, IsByte, from_le_bytes,
}
use pbpctrl.Hdlc.{frame_flag}
use pbpctrl.Hdlc.Crc.{crc32}
use pbpctrl.Hdlc.Crc.Detection.{crc32_detects}
use pbpctrl.Hdlc.Encoder.Layout.{escape}
use pbpctrl.Hdlc.Decoder.{
  Decoder, State, reset, before_crc, crc_bytes, decode_buffered, invalid_checksum, leave, scan,
}
use pbpctrl.Hdlc.Decoder.Reading.{reading, scan_frame}
use pbpctrl.Hdlc.Decoder.RoundTrip.{before_crc-append, crc_bytes-append, sum_bytes}

pub decode_buffered-wrong_sum :
    (d : Decoder)
    → 6 ≤ length d.buf
    → from_le_bytes (crc_bytes d.buf) ≢ crc32 (before_crc d.buf)
    → decode_buffered d ≡ (err invalid_checksum, record (reset d) { state = State.frame })
unfolding decode_buffered
decode_buffered-wrong_sum d long wrong = ground arith

-- Between the flags stand a message of two or more bytes of which one was changed, and the checksum
-- of the message as it was. A decoder with room for both rejects it for its checksum, is empty
-- again, and waits inside a frame.
pub scan_damaged :
    (limit : ℕ) (xs : List ℕ) (b c : ℕ) (ys rest : List ℕ)
    → All IsByte xs
    → IsByte b
    → IsByte c
    → All IsByte ys
    → b ≢ c
    → 1 ≤ length xs + length ys
    → length xs + length ys + 5 ≤ limit
    → scan
        (reading limit 0 [])
        (escape ((xs ++ c ∷ ys) ++ to_le_bytes (crc32 (xs ++ b ∷ ys))) ++ frame_flag ∷ rest)
      ≡ (err invalid_checksum, reading limit 0 [], rest)
scan_damaged limit xs b c ys rest hx hb hc hy ne two room =
    let bs : List ℕ = xs ++ c ∷ ys in
    let sum : List ℕ = to_le_bytes (crc32 (xs ++ b ∷ ys)) in
    let size : length (bs ++ sum) ≡ length xs + length ys + 5 =
      omega (arith, length-append bs sum, length-append xs (c ∷ ys)) in
    let d : Decoder = reading limit (0 + length (bs ++ sum)) (bs ++ sum) in
    scan_frame limit 0 [] (bs ++ sum) rest (omega (arith, size))
    ∙ ap (λ r. leave r rest)
        (decode_buffered-wrong_sum d (omega (arith, size)) λ e. ne (
          crc32_detects xs b c ys hx hb hc hy (
            sym (sum_bytes (xs ++ b ∷ ys))
            ∙ sym (ap from_le_bytes (crc_bytes-append bs sum refl))
            ∙ e
            ∙ ap crc32 (before_crc-append bs sum refl))))
