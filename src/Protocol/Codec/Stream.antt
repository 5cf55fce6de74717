-- ===== src/Protocol/Codec/Stream.antt =====
-- libmaestro/src/protocol/codec.rs: packets that are sent one behind the other. What the library
-- `tokio_util` does with the codec is the loop of its `Framed`: it encodes each packet behind the last,
-- and decodes until the codec asks for more input or fails.
use pbpctrl.Prelude.{
  ℕ, zero, suc, ◌≤◌, ◌<◌, ◌≡◌, refl, sym, ap, ◌∙◌, List, [], ◌∷◌, ◌++◌, append-nil, append_assoc,
  length, All, Option, none, some, Result, ok, err, arith,
}
use pbpctrl.Hdlc.{frame_flag}
use pbpctrl.Hdlc.Codec as Hdlc
use pbpctrl.Hdlc.Encoder
use pbpctrl.Hdlc.Encoder.Layout.{body, escape, encode-body}
use pbpctrl.Hdlc.Decoder
use pbpctrl.Pwrpc.Types.{RpcPacket}
use pbpctrl.Protocol.Addr.{Address, address_for_channel}
use pbpctrl.Protocol.Codec.{Codec, new, frame_for, encode, decode}
use pbpctrl.Protocol.Codec.RoundTrip.{decode-encode}

module _ {E : Type 0} (encode_to_vec : RpcPacket → List ℕ)
    (decode_packet : List ℕ → Result E RpcPacket) where
  abbrev pub encode_more : Option (List ℕ) → (List ℕ → Option (List ℕ)) → Option (List ℕ)
  encode_more none rest = none
  encode_more (some dst) rest = rest dst

  unfoldable pub encode_all : List RpcPacket → List ℕ → Option (List ℕ)
  encode_all [] dst = some dst
  encode_all (p ∷ packets) dst =
      encode_more (encode encode_to_vec decode_packet new p dst) (encode_all packets)

  abbrev pub Received : Type 0
  Received = List RpcPacket × Codec × List ℕ

  abbrev pub decode_more :
      Result E (Option RpcPacket) × Codec × List ℕ → (Codec → List ℕ → Received) → Received
  decode_more (ok (some p), c, src) rest = let more = rest c src in (p ∷ more.0, more.1, more.2)
  decode_more (ok none, c, src) rest = ([], c, src)
  decode_more (err e, c, src) rest = ([], c, src)

  -- By at most that many calls of the codec.
  unfoldable pub decode_all : ℕ → Codec → List ℕ → Received
  decode_all zero c src = ([], c, src)
  decode_all (suc fuel) c src =
      decode_more (decode encode_to_vec decode_packet c src) (decode_all fuel)

  -- Its channel has an address, and its frame fits the decoder.
  abbrev pub IsSendable : RpcPacket → Type 0
  IsSendable p =
      (a : Address) × (address_for_channel p.channel_id ≡ some a)
      × (length (body (frame_for encode_to_vec decode_packet p a)) ≤ 4096)

  decode-empty : decode encode_to_vec decode_packet new [] ≡ (ok none, new, [])
  unfolding decode Hdlc.decode Decoder.process Decoder.seek Decoder.find_frame_start
  decode-empty = refl

  abbrev bytes_of : Option (List ℕ) → List ℕ
  bytes_of none = []
  bytes_of (some out) = out

  abbrev bytes : RpcPacket → Address → List ℕ
  bytes p a = Encoder.encode [] (frame_for encode_to_vec decode_packet p a)

  encode-append :
      (p : RpcPacket) (a : Address) (dst : List ℕ)
      → address_for_channel p.channel_id ≡ some a
      → encode encode_to_vec decode_packet new p dst ≡ some (dst ++ bytes p a)
  unfolding encode Hdlc.encode
  encode-append p a dst e =
      let f = frame_for encode_to_vec decode_packet p a in
      rw e (
        ap some (
          encode-body dst f
          ∙ append_assoc dst (frame_flag ∷ escape (body f)) (frame_flag ∷ [])
          ∙ ap (λ t. dst ++ t) (sym (encode-body [] f))))

  -- The packet's own bytes are decoded, whatever stands behind them.
  decode-bytes :
      ((p : RpcPacket) → decode_packet (encode_to_vec p) ≡ ok p)
      → (p : RpcPacket) (a : Address) (rest : List ℕ) → address_for_channel p.channel_id ≡ some a
      → length (body (frame_for encode_to_vec decode_packet p a)) ≤ 4096
      → decode encode_to_vec decode_packet new (bytes p a ++ rest) ≡ (ok (some p), new, rest)
  decode-bytes undo p a rest e room =
      let (out, written, read) = decode-encode encode_to_vec decode_packet undo p a rest e room in
      let same : out ≡ bytes p a = ap bytes_of (sym written ∙ encode-append p a [] e) in
      ap (λ t. decode encode_to_vec decode_packet new (t ++ rest)) (sym same) ∙ read

  -- What `encode_all` appends is decoded to the packets.
  IsDecoded : List RpcPacket → List ℕ → Type 0
  IsDecoded packets dst =
      (tail : List ℕ) × (encode_all packets dst ≡ some (dst ++ tail))
      × ((fuel : ℕ) → length packets < fuel → decode_all fuel new tail ≡ (packets, new, []))

  decode_all-cons :
      (p : RpcPacket) (packets : List RpcPacket) (src tail : List ℕ)
      → decode encode_to_vec decode_packet new src ≡ (ok (some p), new, tail)
      → ((fuel : ℕ) → length packets < fuel → decode_all fuel new tail ≡ (packets, new, []))
      → (fuel : ℕ) → length (p ∷ packets) < fuel
      → decode_all fuel new src ≡ (p ∷ packets, new, [])
  unfolding decode_all
  decode_all-cons p packets src tail read more zero enough = absurd (omega arith)
  decode_all-cons p packets src tail read more (suc fuel) enough =
      rw read (ap (λ (r : Received). (p ∷ r.0, r.1, r.2)) (more fuel (omega arith)))

  decode_all-nil : (fuel : ℕ) → 0 < fuel → decode_all fuel new [] ≡ ([], new, [])
  unfolding decode_all
  decode_all-nil zero enough = absurd (omega arith)
  decode_all-nil (suc fuel) enough = rw decode-empty refl

  all_IsDecoded :
      (undo : (p : RpcPacket) → decode_packet (encode_to_vec p) ≡ ok p) (packets : List RpcPacket)
      (dst : List ℕ)
      → All IsSendable packets
      → IsDecoded packets dst
  unfolding IsDecoded encode_all
  all_IsDecoded undo [] dst h = ([], ap some (sym (append-nil dst)), decode_all-nil)
  all_IsDecoded undo (p ∷ packets) dst ((a, e, room), h) =
      let (tail, written, decoded) = all_IsDecoded undo packets (dst ++ bytes p a) h in
      (
        bytes p a ++ tail,
        rw (encode-append p a dst e) (written ∙ ap some (append_assoc dst (bytes p a) tail)),
        decode_all-cons p packets (bytes p a ++ tail) tail (decode-bytes undo p a tail e room)
            decoded,
      )

  -- If decoding a packet undoes encoding it, then packets on channels with an address, whose frames
  -- fit the decoder, are all encoded behind one another, and from those bytes the decoder returns
  -- the same packets in the same order, with one call for each and one that finds no more, and is
  -- left as new.
  pub decode_all-encode_all :
      ((p : RpcPacket) → decode_packet (encode_to_vec p) ≡ ok p)
      → (packets : List RpcPacket) → All IsSendable packets
      → (out : List ℕ) × (encode_all packets [] ≡ some out)
        × ((fuel : ℕ) → length packets < fuel → decode_all fuel new out ≡ (packets, new, []))
  unfolding IsDecoded
  decode_all-encode_all undo packets h = all_IsDecoded undo packets [] h
