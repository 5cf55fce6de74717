-- ===== src/Protocol/Codec/RoundTrip.antt =====
-- libmaestro/src/protocol/codec.rs: a packet that was encoded for a known channel is decoded again.
use pbpctrl.Prelude.{
  ℕ, List, [], ◌++◌, none, some, Result, ok, ◌≡◌, ◌≤◌, ◌<◌, ap, ◌∙◌, length, arith, ◌↔◌, ◌⊎◌,
  Option-cases, inl, inr,
}
use pbpctrl.Hdlc.{Frame}
use pbpctrl.Hdlc.Codec as Hdlc
use pbpctrl.Hdlc.Encoder
use pbpctrl.Hdlc.Encoder.Layout.{body}
use pbpctrl.Hdlc.Decoder.RoundTrip.{process-encode_bytes}
use pbpctrl.Pwrpc.Types.{RpcPacket}
use pbpctrl.Protocol.Addr.{Address, address_for_channel}
use pbpctrl.Protocol.Addr.Channels.{address_for_channel-channel, address_for_channel-none}
use pbpctrl.Protocol.Codec.{Codec, new, frame_for, encode, decode, take_frame, unpack}

module _ {E : Type 0} (encode_to_vec : RpcPacket → List ℕ)
    (decode_packet : List ℕ → Result E RpcPacket) where
  -- Encoding panics on exactly the packets whose channel is not one of 18 to 27.
  pub encode_panics :
      (c : Codec) (packet : RpcPacket) (dst : List ℕ)
      → (encode encode_to_vec decode_packet c packet dst ≡ none)
        ↔ ((packet.channel_id < 18) ⊎ (27 < packet.channel_id))
  unfolding encode
  encode_panics c packet dst = elim (Option-cases (address_for_channel packet.channel_id)) [
    | inl e ↦ (λ _. (address_for_channel-none packet.channel_id).0 e, λ _. rw e)
    | inr (a, e) ↦ (
      λ h. absurd (ground (arith, e, h)),
      λ h. absurd (ground (arith, e, (address_for_channel-none packet.channel_id).1 h)),
    )
  ]

  -- If decoding a packet undoes encoding it, then a packet on a channel with an address, whose
  -- frame fits the decoder, is returned by the decoder from what the encoder wrote.
  pub decode-encode :
      ((p : RpcPacket) → decode_packet (encode_to_vec p) ≡ ok p)
      → (packet : RpcPacket) (a : Address) (rest : List ℕ)
      → address_for_channel packet.channel_id ≡ some a
      → length (body (frame_for encode_to_vec decode_packet packet a)) ≤ 4096
      → (out : List ℕ) × (encode encode_to_vec decode_packet new packet [] ≡ some out)
        × (decode encode_to_vec decode_packet new (out ++ rest) ≡ (ok (some packet), new, rest))
  unfolding encode decode Hdlc.encode Hdlc.decode Encoder.encode_bytes
  decode-encode undo packet a rest e room =
      let f : Frame = frame_for encode_to_vec decode_packet packet a in
      (
        Encoder.encode [] f,
        rw e,
        ap (λ r. take_frame encode_to_vec decode_packet (Hdlc.swallow r))
              (process-encode_bytes 4096 f rest
                (address_for_channel-channel packet.channel_id a e).1 room)
            ∙ ap (λ r. (unpack encode_to_vec decode_packet r, new, rest)) (undo packet),
      )
