-- ===== src/Pwrpc/Client/Run/Rule.antt =====
-- libmaestro/src/pwrpc/client.rs: what each of the client's steps on a caller's channel keeps, the
-- whole client keeps, over every run.
use pbpctrl.Prelude.{
  ℕ, List, [], ◌∷◌, Option, ok, err, Option-cases, Bool-cases, inl, inr, Bool, true, false,
  if◌then◌else◌, ◌==◌,
}
use pbpctrl.Pwrpc.Types.{RpcPacket, has_server_stream}
use pbpctrl.Pwrpc.Status.{Status, from_u32}
use pbpctrl.Pwrpc.Client
use Client.{
  CallUid, CallUpdate, CallRequest, Call, Io, Done, from_packet, find_and_remove_call,
  find_call_mut, complete_call, complete_with_error, push_item, drop_call, on_world, then_drop,
  client_error, request_packet, send_client_error, rpc_complete, rpc_complete_with_error,
  reject_stream, rpc_stream_push, process_packet, process_request,
}
use pbpctrl.Pwrpc.Client.Run.{
  Event, packet, closed, request, handle_event, next_round, run_events, run_queue, run,
}

-- A predicate on the world that every step on a caller's channel and every send keeps.
pub record IsStable (io : Io) (P : io.World → Type 0) : Type 0 where
  pub completes :
      (c : Call io.Sender) (b : List ℕ) (s : Status) (w : io.World)
      → P w
      → P (complete_call io c b s w)
  pub fails :
      (c : Call io.Sender) (s : Status) (w : io.World) → P w → P (complete_with_error io c s w)
  pub pushes : (c : Call io.Sender) (b : List ℕ) (w : io.World) → P w → P (push_item io c b w)
  pub sends : (p : RpcPacket) (w : io.World) → P w → P (io.send p w).1

module _ (io : Io) (P : io.World → Type 0) (stable : IsStable io P) where
  pub drops : (c : Call io.Sender) (w : io.World) → P w → P (drop_call io c w)
  unfolding drop_call
  drops c w h = elim (Bool-cases (io.is_closed c.sender w)) [
    | inl shut ↦ rw (drop_call, shut) h
    | inr left ↦ rw (drop_call, left) (stable.fails c Status.aborted w h)
  ]

  rpc_complete-keeps :
      (p : RpcPacket) (client : Client.Client io)
      → P client.world
      → P (rpc_complete io p client).world
  unfolding rpc_complete
  rpc_complete-keeps p client h =
      elim (Option-cases (find_and_remove_call (from_packet p) client.pending)) [
        | inl e ↦ rw (rpc_complete, e) h
        | inr (r, e) ↦
            rw (rpc_complete, e)
              (drops r.0 _ (stable.completes r.0 p.payload (from_u32 p.status) _ h))
      ]

  rpc_complete_with_error-keeps :
      (p : RpcPacket) (client : Client.Client io)
      → P client.world
      → P (rpc_complete_with_error io p client).world
  unfolding rpc_complete_with_error
  rpc_complete_with_error-keeps p client h =
      elim (Option-cases (find_and_remove_call (from_packet p) client.pending)) [
        | inl e ↦ rw (rpc_complete_with_error, e) h
        | inr (r, e) ↦
            rw (rpc_complete_with_error, e) (drops r.0 _ (stable.fails r.0 (from_u32 p.status) _ h))
      ]

  reject_stream-keeps :
      (uid : CallUid) (client : Client.Client io)
      → P client.world
      → P (reject_stream io uid client).1.world
  unfolding reject_stream send_client_error
  reject_stream-keeps uid client h = elim (Option-cases (find_and_remove_call uid client.pending)) [
    | inl e ↦ rw (reject_stream, e) h
    | inr (r, e) ↦
        rw (reject_stream, e)
          (drops r.0 _ (stable.sends _ _ (stable.fails r.0 Status.invalid_argument _ h)))
  ]

  rpc_stream_push-keeps :
      (p : RpcPacket) (client : Client.Client io)
      → P client.world
      → P (rpc_stream_push io p client).1.world
  unfolding rpc_stream_push send_client_error
  rpc_stream_push-keeps p client h =
      elim (Option-cases (find_call_mut (from_packet p) client.pending)) [
        | inl e ↦ rw (rpc_stream_push, e) (stable.sends _ _ h)
        | inr (c, e) ↦ elim (Bool-cases (has_server_stream c.type)) [
          | inl streams ↦ rw (rpc_stream_push, e, streams) (stable.pushes c p.payload _ h)
          | inr other ↦
              rw (rpc_stream_push, e, other) (reject_stream-keeps (from_packet p) client h)
        ]
      ]

  pub process_packet-keeps :
      (p : RpcPacket) (client : Client.Client io)
      → P client.world
      → P (process_packet io p client).1.world
  unfolding process_packet
  process_packet-keeps p client h = elim (Bool-cases (p.type == 1)) [
    | inl response ↦ rw (process_packet, response) (rpc_complete-keeps p client h)
    | inr a ↦ elim (Bool-cases (p.type == 5)) [
      | inl server_error ↦
          rw (process_packet, a, server_error) (rpc_complete_with_error-keeps p client h)
      | inr b ↦ elim (Bool-cases (p.type == 7)) [
        | inl server_stream ↦
            rw (process_packet, a, b, server_stream) (rpc_stream_push-keeps p client h)
        | inr c ↦ rw (process_packet, a, b, c) h
      ]
    ]
  ]

  -- A failed call whose peer is told, or not.
  error_sent :
      (uid : CallUid) (code : Status) (tx : Bool) (client : Client.Client io)
      → P client.world
      → P (if tx then send_client_error io uid code client else (ok tt, client)).1.world
  unfolding send_client_error
  error_sent uid code true client h = stable.sends _ _ h
  error_sent uid code false client h = h

  pub process_request-keeps :
      (r : CallRequest io.Sender) (client : Client.Client io)
      → P client.world
      → P (process_request io r client).1.world
  unfolding process_request send_client_error
  process_request-keeps (CallRequest.new type uid payload sender true) client h = stable.sends _ _ h
  process_request-keeps (CallRequest.new type uid payload sender false) client h = h
  process_request-keeps (CallRequest.error uid code tx) client h =
      elim (Option-cases (find_and_remove_call uid client.pending)) [
        | inl e ↦ rw (process_request, e) h
        | inr (r, e) ↦
            rw (process_request, e)
              (drops r.0 _ (error_sent uid code tx _ (stable.fails r.0 code _ h)))
      ]

  handle_event-keeps :
      (stream_closed : io.Failure) (e : Event io) (client : Client.Client io)
      → P client.world
      → P (handle_event io stream_closed e client).1.world
  unfolding handle_event
  handle_event-keeps stream_closed (packet (ok p)) client h = process_packet-keeps p client h
  handle_event-keeps stream_closed (packet (err e)) client h = h
  handle_event-keeps stream_closed closed client h = h
  handle_event-keeps stream_closed (request r) client h = process_request-keeps r client h

  next_round-keeps :
      (stream_closed : io.Failure) (round : Done io.Failure × Client.Client io)
      (rest : Client.Client io → Option io.Failure × Client.Client io)
      → P round.1.world
      → ((client : Client.Client io) → P client.world → P (rest client).1.world)
      → P (next_round io stream_closed round rest).1.world
  next_round-keeps stream_closed (ok u, client) rest h keep = keep client h
  next_round-keeps stream_closed (err e, client) rest h keep = h

  run_events-keeps :
      (stream_closed : io.Failure) (events : List (Event io)) (client : Client.Client io)
      → P client.world
      → P (run_events io stream_closed events client).1.world
  unfolding run_events
  run_events-keeps stream_closed [] client h = h
  run_events-keeps stream_closed (e ∷ events) client h =
      next_round-keeps stream_closed (handle_event io stream_closed e client)
        (run_events io stream_closed events) (handle_event-keeps stream_closed e client h)
        (run_events-keeps stream_closed events)

  run_queue-keeps :
      (stream_closed : io.Failure) (queue : List (CallRequest io.Sender))
      (client : Client.Client io) (rest : Client.Client io → Option io.Failure × Client.Client io)
      → P client.world
      → ((client : Client.Client io) → P client.world → P (rest client).1.world)
      → P (run_queue io stream_closed queue client rest).1.world
  unfolding run_queue
  run_queue-keeps stream_closed [] client rest h keep = keep client h
  run_queue-keeps stream_closed (r ∷ queue) client rest h keep =
      next_round-keeps stream_closed (process_request io r client) _
        (process_request-keeps r client h)
        (λ client' h'. run_queue-keeps stream_closed queue client' rest h' keep)

  pub run-keeps :
      (stream_closed : io.Failure) (events : List (Event io)) (client : Client.Client io)
      → P client.world
      → P (run io stream_closed events client).1.world
  unfolding run
  run-keeps stream_closed events client h =
      run_queue-keeps stream_closed client.queue _ (run_events io stream_closed events) h
        (run_events-keeps stream_closed events)
