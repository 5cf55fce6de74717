-- ===== src/Protocol/Codec.antt =====
-- libmaestro/src/protocol/codec.rs: RPC packets in HDLC frames. The encoding of a packet is that of
-- the library `prost` and the code it generates: a parameter here.
pub mod RoundTrip
pub mod Stream
use pbpctrl.Prelude.{ℕ, List, Option, none, some, Result, ok, err, not, ◌==◌, if◌then◌else◌}
use mathlib.Core.Option as Opt
use pbpctrl.Hdlc.{Frame}
use pbpctrl.Hdlc.Codec as Hdlc
use pbpctrl.Pwrpc.Types.{RpcPacket}
use pbpctrl.Protocol.Addr.{Address, address_for_channel}

pub record Codec : Type 0 where
  pub hdlc : Hdlc.Codec

abbrev pub new : Codec
new = record { hdlc = Hdlc.new }

module _ {E : Type 0} (encode_to_vec : RpcPacket → List ℕ)
    (decode_packet : List ℕ → Result E RpcPacket) where
  abbrev pub frame_for : RpcPacket → Address → Frame
  frame_for packet address = record {
    address = address.value;
    control = 0x03;
    payload = encode_to_vec packet;
  }

  -- `none` is the panic of `unwrap` on a channel without an address.
  unfoldable pub encode : Codec → RpcPacket → List ℕ → Option (List ℕ)
  encode c packet dst =
      Opt.map (λ address. Hdlc.encode c.hdlc (frame_for packet address) dst)
        (address_for_channel packet.channel_id)

  abbrev pub unpack : Result E RpcPacket → Result E (Option RpcPacket)
  unpack (ok packet) = ok (some packet)
  unpack (err e) = err e

  -- A frame of another control type is dropped with a warning.
  abbrev pub take_frame :
      Option Frame × Hdlc.Codec × List ℕ → Result E (Option RpcPacket) × Codec × List ℕ
  take_frame (none, h, src) = (ok none, record { hdlc = h }, src)
  take_frame (some frame, h, src) = (
    if not (frame.control == 0x03) then ok none else unpack (decode_packet frame.payload),
    record { hdlc = h },
    src,
  )

  unfoldable pub decode : Codec → List ℕ → Result E (Option RpcPacket) × Codec × List ℕ
  decode c src = take_frame (Hdlc.decode c.hdlc src)
