-- ===== src/Pwrpc/Client.antt =====
-- libmaestro/src/pwrpc/client.rs: the client's pending calls. The channels to the callers and the
-- transport are those of the libraries `futures` and `tokio`: a parameter here. Logging is left out.
pub mod Pending
pub mod Table
pub mod Replies
pub mod Terminate
pub mod Run
pub mod Callers
pub mod Logger
mod Tests
use pbpctrl.Prelude.{
  ℕ, List, [], ◌∷◌, ◌++◌, Option, none, some, Result, ok, err, Bool, true, false, ◌&&◌, ◌==◌,
  if◌then◌else◌,
}
use mathlib.Core.Option as Opt
use mathlib.Core.List as Lst
use pbpctrl.Pwrpc.Types.{RpcType, RpcPacket, has_server_stream}
use pbpctrl.Pwrpc.Status.{Status, from_u32, into_u32}

pub record CallUid : Type 0 where
  pub channel : ℕ
  pub service : ℕ
  pub method : ℕ
  pub call : ℕ

abbrev pub from_packet : RpcPacket → CallUid
from_packet packet = record {
  channel = packet.channel_id;
  service = packet.service_id;
  method = packet.method_id;
  call = packet.call_id;
}

-- The derived equality of `CallUid`.
unfoldable pub same_uid : CallUid → CallUid → Bool
same_uid a b =
    (a.channel == b.channel)
    && (a.service == b.service)
    && (a.method == b.method)
    && (a.call == b.call)

pub data CallUpdate : Type 0 where
  complete : (data_bytes : List ℕ) (status : Status) → CallUpdate
  stream_item : (data_bytes : List ℕ) → CallUpdate
  error : (status : Status) → CallUpdate

pub data CallRequest (Sender : Type 0) : Type 0 where
  new :
      (type : RpcType) (uid : CallUid) (payload : List ℕ) (sender : Sender) (tx : Bool)
      → CallRequest Sender
  error : (uid : CallUid) (code : Status) (tx : Bool) → CallRequest Sender

pub record Call (Sender : Type 0) : Type 0 where
  pub type : RpcType
  pub uid : CallUid
  pub sender : Sender

-- `Result<(), E>`.
abbrev pub Done : Type 0 → Type 0
Done E = Result E (Unit {0})

-- What lies outside of the client: `unbounded_send`, `close_channel` and `is_closed` of a caller's
-- channel, and `send` and `close` of the transport. `Failure` is the client's error type, `World`
-- the state of all channels and of the transport.
pub record Io : Type 1 where
  pub World : Type 0
  pub Sender : Type 0
  pub Failure : Type 0
  pub unbounded_send : Sender → CallUpdate → World → World
  pub close_channel : Sender → World → World
  pub is_closed : Sender → World → Bool
  pub send : RpcPacket → World → Done Failure × World
  pub close : World → Done Failure × World

-- The part of `Client` that its handlers change. `queue` is what waits in `queue_rx`.
pub record Client (io : Io) : Type 0 where
  pub pending : List (Call io.Sender)
  pub queue : List (CallRequest io.Sender)
  pub world : io.World

unfoldable pub find_and_remove_call :
    {S : Type 0} → CallUid → List (Call S) → Option (Call S × List (Call S))
find_and_remove_call uid [] = none
find_and_remove_call uid (c ∷ pending) =
    let rest = find_and_remove_call uid pending in
    if same_uid c.uid uid then some (c, pending) else Opt.map (λ r. (r.0, c ∷ r.1)) rest

unfoldable pub find_call_mut : {S : Type 0} → CallUid → List (Call S) → Option (Call S)
find_call_mut uid [] = none
find_call_mut uid (c ∷ pending) =
    let rest = find_call_mut uid pending in if same_uid c.uid uid then some c else rest

abbrev pub client_error : CallUid → Status → RpcPacket
client_error uid status = record {
  type = 4;
  channel_id = uid.channel;
  service_id = uid.service;
  method_id = uid.method;
  payload = [];
  status = into_u32 status;
  call_id = uid.call;
}

abbrev pub request_packet : CallUid → List ℕ → RpcPacket
request_packet uid payload = record {
  type = 0;
  channel_id = uid.channel;
  service_id = uid.service;
  method_id = uid.method;
  payload = payload;
  status = into_u32 Status.ok;
  call_id = uid.call;
}

module _ (io : Io) where
  abbrev pub push_update : Call io.Sender → CallUpdate → io.World → io.World
  push_update c update w = io.unbounded_send c.sender update w

  abbrev pub complete_call : Call io.Sender → List ℕ → Status → io.World → io.World
  complete_call c payload status w =
      io.close_channel c.sender (push_update c (CallUpdate.complete payload status) w)

  abbrev pub complete_with_error : Call io.Sender → Status → io.World → io.World
  complete_with_error c status w =
      io.close_channel c.sender (push_update c (CallUpdate.error status) w)

  abbrev pub push_item : Call io.Sender → List ℕ → io.World → io.World
  push_item c payload w = push_update c (CallUpdate.stream_item payload) w

  -- `Drop for Call`.
  unfoldable pub drop_call : Call io.Sender → io.World → io.World
  drop_call c w = if io.is_closed c.sender w then w else complete_with_error c Status.aborted w

  -- The sink's result, with the client's other fields.
  abbrev pub on_world : Client io → Done io.Failure × io.World → Done io.Failure × Client io
  on_world client (r, w) = (r, record client { world = w })

  unfoldable pub send_client_error : CallUid → Status → Client io → Done io.Failure × Client io
  send_client_error uid status client =
      on_world client (io.send (client_error uid status) client.world)

  unfoldable pub rpc_complete : RpcPacket → Client io → Client io
  rpc_complete packet client = elim (find_and_remove_call (from_packet packet) client.pending) [
    | none ↦ client
    | some (c, rest) ↦ record client {
      pending = rest;
      world = drop_call c (complete_call c packet.payload (from_u32 packet.status) client.world);
    }
  ]

  unfoldable pub rpc_complete_with_error : RpcPacket → Client io → Client io
  rpc_complete_with_error packet client =
      elim (find_and_remove_call (from_packet packet) client.pending) [
        | none ↦ client
        | some (c, rest) ↦ record client {
          pending = rest;
          world = drop_call c (complete_with_error c (from_u32 packet.status) client.world);
        }
      ]

  -- At the end of a block that holds a removed call, whichever way it is left.
  abbrev pub then_drop : Call io.Sender → Done io.Failure × Client io → Done io.Failure × Client io
  then_drop c (r, client) = (r, record client { world = drop_call c client.world })

  -- A stream packet for a call that takes none. The source unwraps the removed call: the first case
  -- stands for a panic.
  unfoldable pub reject_stream : CallUid → Client io → Done io.Failure × Client io
  reject_stream uid client = elim (find_and_remove_call uid client.pending) [
    | none ↦ (ok tt, client)
    | some (c, rest) ↦ then_drop c (
        send_client_error uid Status.invalid_argument (record client {
          pending = rest;
          world = complete_with_error c Status.invalid_argument client.world;
        }))
  ]

  unfoldable pub rpc_stream_push : RpcPacket → Client io → Done io.Failure × Client io
  rpc_stream_push packet client =
      let uid = from_packet packet in
      elim (find_call_mut uid client.pending) [
        | none ↦ send_client_error uid Status.failed_precondition client
        | some c ↦
            if has_server_stream c.type
            then (ok tt, record client { world = push_item c packet.payload client.world })
            else reject_stream uid client
      ]

  -- The packet types are numbered: 1 response, 5 server error, 7 server stream.
  unfoldable pub process_packet : RpcPacket → Client io → Done io.Failure × Client io
  process_packet packet client =
      if packet.type == 1
      then (ok tt, rpc_complete packet client)
      else if packet.type == 5
      then (ok tt, rpc_complete_with_error packet client)
      else if packet.type == 7
      then rpc_stream_push packet client
      else (ok tt, client)

  unfoldable pub process_request : CallRequest io.Sender → Client io → Done io.Failure × Client io
  process_request (CallRequest.new type uid payload sender tx) client =
      let opened = record client {
        pending = client.pending ++ record { type = type; uid = uid; sender = sender } ∷ [];
      } in
      if tx
      then on_world opened (io.send (request_packet uid payload) opened.world)
      else (ok tt, opened)
  process_request (CallRequest.error uid code tx) client =
      elim (find_and_remove_call uid client.pending) [
        | none ↦ (ok tt, client)
        | some (c, rest) ↦
            let closed = record client {
              pending = rest;
              world = complete_with_error c code client.world;
            } in
            then_drop c (if tx then send_client_error uid code closed else (ok tt, closed))
      ]
