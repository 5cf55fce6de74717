-- ===== src/Protocol/Tests.antt =====
-- libmaestro/src/protocol: the theorems at concrete peers, channels and packets.
use pbpctrl.Prelude.{
  ℕ, ◌≤◌, ◌<◌, ◌≡◌, refl, ◌↔◌, ◌⊎◌, List, [], ◌∷◌, ◌++◌, none, some, Result, ok, err, length, arith,
  All, Bool, true, false, if◌then◌else◌,
}
use pbpctrl.Hdlc.Varint
use pbpctrl.Hdlc.Encoder.Layout.{body}
use pbpctrl.Pwrpc.Types.{RpcPacket}
use pbpctrl.Protocol.Addr.{
  maestro_a, left_bt_core, Address, from_peers, channel_id, address_for_channel, into_u8,
}
use pbpctrl.Protocol.Addr.Channels.{channel_id-address}
use mathlib.Core.List as Lst
use pbpctrl.Pwrpc.Status as Codes
use pbpctrl.Pwrpc.Client.{CallUpdate, CallRequest}
use pbpctrl.Pwrpc.Handle.{Queues}
use pbpctrl.Protocol.Codec.Stream.{encode_all, decode_all, IsSendable, decode_all-encode_all}
use pbpctrl.Protocol.Resolve.{channels, resolve_channel}
use pbpctrl.Protocol.Resolve.First.{resolve_channel_first}
use pbpctrl.Protocol.Resolve.Found.{HasAddress, resolve_channel-HasAddress}
use pbpctrl.Protocol.Codec.{new, frame_for, encode, decode}
use pbpctrl.Protocol.Codec.RoundTrip.{encode_panics, decode-encode}

channel : channel_id maestro_a left_bt_core ≡ some 19
unfolding channel_id
channel = refl

abbrev left : Address
left = from_peers maestro_a left_bt_core

left_channel : address_for_channel 19 ≡ some left
left_channel = (channel_id-address maestro_a left_bt_core 19 channel).0

-- A packet as the list of its fields, each number below 128.
abbrev encode_to_vec : RpcPacket → List ℕ
encode_to_vec p =
    p.type ∷ p.channel_id ∷ p.service_id ∷ p.method_id ∷ p.status ∷ p.call_id ∷ p.payload

abbrev decode_packet : List ℕ → Result ℕ RpcPacket
decode_packet (type ∷ channel_id ∷ service_id ∷ method_id ∷ status ∷ call_id ∷ payload) =
    ok (record {
      type = type;
      channel_id = channel_id;
      service_id = service_id;
      method_id = method_id;
      payload = payload;
      status = status;
      call_id = call_id;
    })
decode_packet _ = err 0

abbrev packet : RpcPacket
packet = record {
  type = 1;
  channel_id = 19;
  service_id = 5;
  method_id = 6;
  payload = 0x7E ∷ [];
  status = 0;
  call_id = 8;
}

encode_panics_example :
    (encode encode_to_vec decode_packet new packet [] ≡ none) ↔ ((19 < 18) ⊎ (27 < 19))
encode_panics_example = encode_panics encode_to_vec decode_packet new packet []

room : length (body (frame_for encode_to_vec decode_packet packet left)) ≤ 4096
unfolding Varint.encode_vec Varint.collect Varint.next from_peers into_u8
room = omega arith

decode-encode_example :
    (out : List ℕ) × (encode encode_to_vec decode_packet new packet [] ≡ some out)
    × (decode encode_to_vec decode_packet new (out ++ 7 ∷ []) ≡ (ok (some packet), new, 7 ∷ []))
decode-encode_example =
    decode-encode encode_to_vec decode_packet (λ p. refl) packet left (7 ∷ []) left_channel room

sendable : All (IsSendable encode_to_vec decode_packet) (packet ∷ packet ∷ [])
sendable = ((left, left_channel, room), ((left, left_channel, room), tt))

decode_all-encode_all_example :
    (out : List ℕ) × (encode_all encode_to_vec decode_packet (packet ∷ packet ∷ []) [] ≡ some out)
    × ((fuel : ℕ)
        → 2 < fuel
        → decode_all encode_to_vec decode_packet fuel new out ≡ (packet ∷ packet ∷ [], new, []))
decode_all-encode_all_example =
    decode_all-encode_all encode_to_vec decode_packet (λ p. refl) (packet ∷ packet ∷ []) sendable

-- A queue that takes every request, and messages of one byte.
abbrev open_queue : Queues
open_queue = record {
  World = List (CallRequest ℕ);
  Sender = ℕ;
  QueueTx = Bool;
  unbounded = λ w. (length w, w);
  unbounded_send = λ t r w. if t then (true, r ∷ w) else (false, w);
  is_closed = λ t w. if t then false else true;
  disconnect = λ t. false;
}

abbrev one_byte : List ℕ → Result ℕ ℕ
one_byte [] = err 0
one_byte (b ∷ bs) = ok b

abbrev terminated : Codes.Error ℕ
terminated = Codes.new Codes.Status.aborted "client terminated"

six_channels : channels ≡ (18 ∷ []) ++ 19 ∷ 21 ∷ 23 ∷ 24 ∷ 26 ∷ []
unfolding channels channel_id
six_channels = refl

-- The left bud answers first.
resolve_channel_first_example :
    (resolve_channel open_queue one_byte true
      (Lst.map (λ (c : ℕ). none) (18 ∷ [])
        ++ some (CallUpdate.complete (1 ∷ []) Codes.Status.ok ∷ []) ∷ [])
      terminated
      []).0
    ≡ some (ok 19)
resolve_channel_first_example =
    resolve_channel_first open_queue one_byte true (λ r w. refl) (18 ∷ []) 19
      (21 ∷ 23 ∷ 24 ∷ 26 ∷ []) (1 ∷ []) 1 [] [] terminated [] six_channels refl

resolve_channel-HasAddress_example : HasAddress 19
resolve_channel-HasAddress_example =
    resolve_channel-HasAddress open_queue one_byte true
      (none ∷ some (CallUpdate.complete (1 ∷ []) Codes.Status.ok ∷ []) ∷ []) terminated [] 19
      resolve_channel_first_example
