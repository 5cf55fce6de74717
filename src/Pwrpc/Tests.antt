-- ===== src/Pwrpc/Tests.antt =====
-- libmaestro/src/pwrpc: the theorems at concrete paths, and for a client with a recording
-- environment.
use pbpctrl.Prelude.{
  ℕ, ◌+◌, ◌%◌, ◌^◌, ◌≡◌, refl, List, [], ◌∷◌, ◌++◌, none, some, Result, ok, err, Bool, true, false,
  ◌||◌, ◌==◌, if◌then◌else◌, arith,
}
use pbpctrl.Pwrpc.Id.{byte_len, hash_const, hash_65599, new_path, service, method}
use pbpctrl.Pwrpc.Id.Hash.{weighted, hash_65599-weighted}
use pbpctrl.Pwrpc.Id.Split.{new_path-no_slash}
use pbpctrl.Pwrpc.Types.{RpcType, RpcPacket, has_server_stream}
use pbpctrl.Pwrpc.Status.{Status, from_u32}
use pbpctrl.Pwrpc.Status as Codes
use pbpctrl.Pwrpc.Client
use pbpctrl.Pwrpc.Client.{
  CallUid, CallUpdate, CallRequest, Call, Io, from_packet, same_uid, find_call_mut, complete_call,
  complete_with_error, drop_call, client_error, send_client_error, process_packet,
}
use pbpctrl.Pwrpc.Client.Pending.{others}
use pbpctrl.Pwrpc.Client.Replies.{process_packet-others}
use pbpctrl.Pwrpc.Handle as Handle
use pbpctrl.Pwrpc.Handle.{Queues, CallHandle}
use pbpctrl.Pwrpc.Client.Terminate.{terminate, terminate_clears}
use pbpctrl.Pwrpc.Handle.Stream.{read_all, item, read_all_lem}
use mathlib.Core.List as Lst

hash_65599-weighted_example :
    hash_65599 (b'a' ∷ b'b' ∷ [])
    ≡ (byte_len (b'a' ∷ b'b' ∷ []) + weighted hash_const (b'a' ∷ b'b' ∷ [])) % 2 ^ 32
hash_65599-weighted_example = hash_65599-weighted (b'a' ∷ b'b' ∷ [])

new_path-no_slash_example :
    (service (new_path (b'a' ∷ b'b' ∷ [])) ≡ [])
    × (method (new_path (b'a' ∷ b'b' ∷ [])) ≡ b'b' ∷ [])
new_path-no_slash_example = new_path-no_slash b'a' (b'b' ∷ []) (omega arith) (refl, (refl, tt))

-- What the callers and the peer have received, and the closed channels. Every tenth call's error
-- cannot be sent.
record World : Type 0 where
  told : List (ℕ × CallUpdate)
  closed : List ℕ
  sent : List RpcPacket

abbrev member : ℕ → List ℕ → Bool
member n [] = false
member n (m ∷ ms) = (n == m) || member n ms

abbrev recorder : Io
recorder = record {
  World = World;
  Sender = ℕ;
  Failure = ℕ;
  unbounded_send = λ s u w. if member s w.closed then w else record w { told = (s, u) ∷ w.told };
  close_channel = λ s w. record w { closed = s ∷ w.closed };
  is_closed = λ s w. member s w.closed;
  send = λ p w. if p.call_id == 10 then (err 1, w) else (ok tt, record w { sent = p ∷ w.sent });
  close = λ w. (ok tt, w);
}

closes : (s : ℕ) (w : World) → recorder.is_closed s (recorder.close_channel s w) ≡ true
closes s w = ground arith

abbrev uid : ℕ → CallUid
uid n = record { channel = 19; service = 5; method = 6; call = n }

abbrev unary_call : ℕ → Call ℕ
unary_call n = record { type = RpcType.unary; uid = uid n; sender = n }

abbrev client : Client.Client recorder
client = record {
  pending = unary_call 1 ∷ unary_call 2 ∷ unary_call 10 ∷ [];
  queue =
      CallRequest.error (uid 2) Status.cancelled true
      ∷ CallRequest.new RpcType.unary (uid 4) [] 4 true
      ∷ [];
  world = record { told = []; closed = []; sent = [] };
}

abbrev packet : ℕ → ℕ → RpcPacket
packet type n = record {
  type = type;
  channel_id = 19;
  service_id = 5;
  method_id = 6;
  payload = 7 ∷ [];
  status = 0;
  call_id = n;
}

process_packet-others_example :
    others (from_packet (packet 7 2)) (process_packet recorder (packet 7 2) client).1.pending
    ≡ others (from_packet (packet 7 2)) client.pending
process_packet-others_example = process_packet-others recorder (packet 7 2) client

other : same_uid (uid 1) (uid 2) ≡ false
unfolding same_uid
other = refl

same : same_uid (uid 2) (uid 2) ≡ true
unfolding same_uid
same = refl

no_stream : has_server_stream RpcType.unary ≡ false
unfolding has_server_stream
no_stream = refl

absent : find_call_mut (uid 3) client.pending ≡ none
unfolding find_call_mut same_uid
absent = refl

terminate_clears_example :
    ((terminate recorder client).1.pending ≡ []) × ((terminate recorder client).1.queue ≡ [])
terminate_clears_example = terminate_clears recorder client

-- The end of a queue, which may be disconnected, and the requests that were sent.
abbrev queues : Queues
queues = record {
  World = List (CallRequest ℕ);
  Sender = ℕ;
  QueueTx = Bool;
  unbounded = λ w. (0, w);
  unbounded_send = λ t r w. if t then (true, r ∷ w) else (false, w);
  is_closed = λ t w. if t then false else true;
  disconnect = λ t. false;
}

abbrev call_handle : CallHandle queues
call_handle = record {
  uid = uid 1;
  queue_tx = true;
  receiver = CallUpdate.stream_item (1 ∷ []) ∷ CallUpdate.error Status.not_found ∷ [];
  cancel_on_drop = true;
}

failure :
    (Handle.cancel_and_wait queues {B = ℕ} call_handle []).0
    ≡ err (Codes.from_status Status.not_found)
unfolding Handle.cancel_and_wait Handle.cancel Handle.send_error Handle.wait
failure = refl

-- A response of one byte.
abbrev one_byte : List ℕ → Result ℕ ℕ
one_byte [] = err 0
one_byte (b ∷ bs) = ok b

abbrev answered : CallHandle queues
answered = record call_handle { receiver = CallUpdate.complete (9 ∷ []) Status.ok ∷ [] }

abbrev fetched : CallHandle queues
fetched = record call_handle { receiver = []; queue_tx = false }

fetch : Handle.result queues {B = ℕ} one_byte answered ≡ some (ok 9, fetched)
unfolding Handle.result
fetch = refl

-- Three items, the second of which does not decode, and an error.
abbrev streaming : CallHandle queues
streaming = record call_handle {
  receiver =
      CallUpdate.stream_item (5 ∷ [])
      ∷ CallUpdate.stream_item []
      ∷ CallUpdate.stream_item (6 ∷ [])
      ∷ CallUpdate.error Status.not_found
      ∷ [];
}

read_all_lem_example :
    ((read_all queues (λ updates. updates) one_byte 4 streaming []).0
      ≡ Lst.map (item queues (λ updates. updates) one_byte) ((5 ∷ []) ∷ [] ∷ (6 ∷ []) ∷ [])
        ++ err (Codes.from_status Status.not_found) ∷ [])
    × ((read_all queues (λ updates. updates) one_byte 4 streaming []).1.receiver ≡ [])
read_all_lem_example =
    read_all_lem queues (λ updates. updates) one_byte refl ((5 ∷ []) ∷ [] ∷ (6 ∷ []) ∷ [])
      (CallUpdate.error Status.not_found) 4 streaming [] refl refl (omega arith)
