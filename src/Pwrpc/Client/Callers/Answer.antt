-- ===== src/Pwrpc/Client/Callers/Answer.antt =====
-- libmaestro/src/pwrpc/client.rs: a call, from its request to its answer.
use pbpctrl.Prelude.{
  ℕ, ◌≡◌, refl, ap, ◌∙◌, List, [], ◌∷◌, ◌++◌, append-nil, none, ok, true, false, All, arith,
}
use pbpctrl.Pwrpc.Types.{RpcType, RpcPacket}
use pbpctrl.Pwrpc.Status.{from_u32}
use pbpctrl.Pwrpc.Client.{
  CallUid, CallUpdate, CallRequest, Call, Io, Client, from_packet, same_uid, request_packet,
  complete_call, process_request,
}
use pbpctrl.Pwrpc.Client.Pending.{IsOther}
use pbpctrl.Pwrpc.Client.Replies.{process_packet_response}
use pbpctrl.Pwrpc.Client.Run.{packet, run, run_queue, run_events, handle_event, next_round}
use pbpctrl.Pwrpc.Client.Callers.{Channels}

-- What the documentation of the channels says of one whose receiver is kept: it takes every update
-- while it is open, and sending to the peer does not close it.
pub record Delivers (io : Io) (ch : Channels io) : Type 0 where
  pub taken :
      (s : io.Sender) (u : CallUpdate) (w : io.World)
      → io.is_closed s w ≡ false
      → ch.received s (io.unbounded_send s u w) ≡ ch.received s w ++ u ∷ []
  pub open_send :
      (s : io.Sender) (p : RpcPacket) (w : io.World)
      → io.is_closed s w ≡ false
      → io.is_closed s (io.send p w).1 ≡ false

same_uid_self : (uid : CallUid) → same_uid uid uid ≡ true
unfolding same_uid
same_uid_self uid = ground arith

module _ (io : Io) (ch : Channels io) (delivers : Delivers io ch) where
  process_request-sent :
      (type : RpcType) (uid : CallUid) (payload : List ℕ) (sender : io.Sender) (client : Client io)
      → (io.send (request_packet uid payload) client.world).0 ≡ ok tt
      → process_request io (CallRequest.new type uid payload sender true) client ≡ (
        ok tt,
        record client {
          pending = client.pending ++ record { type = type; uid = uid; sender = sender } ∷ [];
          world = (io.send (request_packet uid payload) client.world).1;
        },
      )
  unfolding process_request
  process_request-sent type uid payload sender client sent =
      ap
        (λ r. (
          r,
          record client {
            pending = client.pending ++ record { type = type; uid = uid; sender = sender } ∷ [];
            world = (io.send (request_packet uid payload) client.world).1;
          },
        ))
        sent

  -- The client behind the call.
  abbrev answered : RpcType → List ℕ → io.Sender → RpcPacket → Client io → Client io
  answered type message sender p client =
      let c : Call io.Sender = record { type = type; uid = from_packet p; sender = sender } in
      record {
        pending = client.pending ++ [];
        queue = [];
        world =
            complete_call io c p.payload (from_u32 p.status)
              (io.send (request_packet (from_packet p) message) client.world).1;
      }

  run-answered :
      (stream_closed : io.Failure) (type : RpcType) (message : List ℕ) (sender : io.Sender)
      (client : Client io) (p : RpcPacket)
      → client.queue ≡ CallRequest.new type (from_packet p) message sender true ∷ []
      → All (IsOther (from_packet p)) client.pending
      → (io.send (request_packet (from_packet p) message) client.world).0 ≡ ok tt
      → p.type ≡ 1
      → run io stream_closed (packet (ok p) ∷ []) client
        ≡ (none, answered type message sender p client)
  unfolding run run_queue run_events handle_event
  run-answered stream_closed type message sender client p queued others sent response =
      let c : Call io.Sender = record { type = type; uid = from_packet p; sender = sender } in
      let idle : Client io = record client { queue = [] } in
      let called : Client io = record {
        pending = client.pending ++ c ∷ [];
        queue = [];
        world = (io.send (request_packet (from_packet p) message) client.world).1;
      } in
      let events = run_events io stream_closed (packet (ok p) ∷ []) in
      ap (λ queue. run_queue io stream_closed queue idle events) queued
      ∙ ap (λ round. next_round io stream_closed round events)
          (process_request-sent type (from_packet p) message sender idle sent)
      ∙ ap (λ round. next_round io stream_closed round (run_events io stream_closed []))
          (process_packet_response io ch.closed_self p called client.pending c [] refl others
            (same_uid_self (from_packet p)) response)

  -- A call whose request waits when the client starts is answered: where the peer can be told, no
  -- pending call has the same identifier and the caller's channel is open with its receiver kept,
  -- the response to the call leaves the pending calls as they were, and the caller's channel has
  -- delivered the response's payload and status, and nothing else, and is closed.
  pub run_answers :
      (stream_closed : io.Failure) (type : RpcType) (message : List ℕ) (sender : io.Sender)
      (client : Client io) (p : RpcPacket)
      → client.queue ≡ CallRequest.new type (from_packet p) message sender true ∷ []
      → All (IsOther (from_packet p)) client.pending
      → io.is_closed sender client.world ≡ false
      → (io.send (request_packet (from_packet p) message) client.world).0 ≡ ok tt
      → p.type ≡ 1
      → let done = run io stream_closed (packet (ok p) ∷ []) client in
        (done.0 ≡ none)
        × (done.1.pending ≡ client.pending)
        × (ch.received sender done.1.world
            ≡ ch.received sender client.world
              ++ CallUpdate.complete p.payload (from_u32 p.status) ∷ [])
        × (io.is_closed sender done.1.world ≡ true)
  run_answers stream_closed type message sender client p queued others is_open sent response =
      let whole =
        run-answered stream_closed type message sender client p queued others sent response in
      let request = request_packet (from_packet p) message in
      let update = CallUpdate.complete p.payload (from_u32 p.status) in
      (
        ap (λ r. r.0) whole,
        ap (λ r. r.1.pending) whole ∙ append-nil client.pending,
        ap (λ r. ch.received sender r.1.world) whole
            ∙ ch.received_closed sender sender _
            ∙ delivers.taken sender update _
                (delivers.open_send sender request client.world is_open)
            ∙ ap (λ l. l ++ update ∷ []) (ch.received_sent sender request client.world),
        ap (λ r. io.is_closed sender r.1.world) whole ∙ ch.closed_self sender _,
      )
