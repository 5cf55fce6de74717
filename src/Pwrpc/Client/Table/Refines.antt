-- ===== src/Pwrpc/Client/Table/Refines.antt =====
-- libmaestro/src/pwrpc/client.rs: the client's handlers, and its run, change the pending calls as the
-- operations of a table say.
use pbpctrl.Prelude.{
  ◌≡◌, refl, sym, fun_ext, ap, ◌∙◌, subst, List, [], ◌∷◌, Option, none, some, ok, err, Bool, true,
  false, if◌then◌else◌, Bool-cases, Option-cases, arith, inl, inr, ◌==◌,
}
use pbpctrl.Pwrpc.Types.{RpcPacket, has_server_stream}
use pbpctrl.Pwrpc.Status.{Status}
use pbpctrl.Pwrpc.Client
use Client.{
  Done, CallUid, CallRequest, Call, Io, same_uid, from_packet, find_and_remove_call, find_call_mut,
  rpc_complete, rpc_complete_with_error, reject_stream, rpc_stream_push, process_packet,
  process_request, send_client_error, complete_with_error,
}
use pbpctrl.Pwrpc.Client.Run.{
  Event, packet, closed, request, handle_event, next_round, run_events, run_queue, run,
}
use pbpctrl.Pwrpc.Client.Table.{
  table_packet, reject_first, table_request, table_event, table_of, table_events, table_requests,
  Table, calls_of, first_of, dequeue, left_of, calls_of-find_call_mut, calls_of-append,
  find_and_remove_call-dequeue,
}

module _ (io : Io) where
  -- The calls that a removal leaves, from what it returned.
  removed-dequeue :
      (uid : CallUid) (pending : List (Call io.Sender))
      (found : Option (Call io.Sender × List (Call io.Sender)))
      → find_and_remove_call uid pending ≡ found
      → (u : CallUid) → calls_of (left_of pending found) u ≡ dequeue uid (calls_of pending) u
  removed-dequeue uid pending found e u =
      subst (λ f. calls_of (left_of pending f) u ≡ dequeue uid (calls_of pending) u) e
        (find_and_remove_call-dequeue uid pending u)

  rpc_complete-table :
      (p : RpcPacket) (client : Client.Client io) (u : CallUid)
      → table_of io (rpc_complete io p client) u ≡ dequeue (from_packet p) (table_of io client) u
  unfolding rpc_complete
  rpc_complete-table p client u =
      let after = removed-dequeue (from_packet p) client.pending in
      elim (Option-cases (find_and_remove_call (from_packet p) client.pending)) [
        | inl e ↦ rw (rpc_complete, e) (after none e u)
        | inr (r, e) ↦ rw (rpc_complete, e) (after (some r) e u)
      ]

  rpc_complete_with_error-table :
      (p : RpcPacket) (client : Client.Client io) (u : CallUid)
      → table_of io (rpc_complete_with_error io p client) u
        ≡ dequeue (from_packet p) (table_of io client) u
  unfolding rpc_complete_with_error
  rpc_complete_with_error-table p client u =
      let after = removed-dequeue (from_packet p) client.pending in
      elim (Option-cases (find_and_remove_call (from_packet p) client.pending)) [
        | inl e ↦ rw (rpc_complete_with_error, e) (after none e u)
        | inr (r, e) ↦ rw (rpc_complete_with_error, e) (after (some r) e u)
      ]

  reject_stream-table :
      (uid : CallUid) (client : Client.Client io) (u : CallUid)
      → table_of io (reject_stream io uid client).1 u ≡ dequeue uid (table_of io client) u
  unfolding reject_stream send_client_error
  reject_stream-table uid client u =
      let after = removed-dequeue uid client.pending in
      elim (Option-cases (find_and_remove_call uid client.pending)) [
        | inl e ↦ rw (reject_stream, e) (after none e u)
        | inr (r, e) ↦ rw (reject_stream, e) (after (some r) e u)
      ]

  rpc_stream_push-table :
      (p : RpcPacket) (client : Client.Client io) (u : CallUid)
      → table_of io (rpc_stream_push io p client).1 u
        ≡ reject_first
            (first_of (table_of io client (from_packet p)))
            (from_packet p)
            (table_of io client)
            u
  unfolding rpc_stream_push send_client_error
  rpc_stream_push-table p client u =
      let uid = from_packet p in
      let first = sym (calls_of-find_call_mut uid client.pending) in
      elim (Option-cases (find_call_mut uid client.pending)) [
        | inl e ↦ rw (rpc_stream_push, e, first ∙ e) refl
        | inr (c, e) ↦ elim (Bool-cases (has_server_stream c.type)) [
          | inl streams ↦ rw (rpc_stream_push, e, first ∙ e, streams) refl
          | inr other ↦ rw (rpc_stream_push, e, first ∙ e, other) (reject_stream-table uid client u)
        ]
      ]

  process_packet-table :
      (p : RpcPacket) (client : Client.Client io) (u : CallUid)
      → table_of io (process_packet io p client).1 u ≡ table_packet p (table_of io client) u
  unfolding process_packet
  process_packet-table p client u = elim (Bool-cases (p.type == 1)) [
    | inl response ↦ rw (process_packet, response) (rpc_complete-table p client u)
    | inr a ↦ elim (Bool-cases (p.type == 5)) [
      | inl server_error ↦
          rw (process_packet, a, server_error) (rpc_complete_with_error-table p client u)
      | inr b ↦ elim (Bool-cases (p.type == 7)) [
        | inl server_stream ↦
            rw (process_packet, a, b, server_stream) (rpc_stream_push-table p client u)
        | inr c ↦ rw (process_packet, a, b, c) refl
      ]
    ]
  ]

  -- Whether the peer is told or not.
  error_sent-table :
      (uid : CallUid) (code : Status) (tx : Bool) (client : Client.Client io)
      → (if tx then send_client_error io uid code client else (ok tt, client)).1.pending
        ≡ client.pending
  unfolding send_client_error
  error_sent-table uid code true client = refl
  error_sent-table uid code false client = refl

  process_request-table :
      (r : CallRequest io.Sender) (client : Client.Client io) (u : CallUid)
      → table_of io (process_request io r client).1 u ≡ table_request r (table_of io client) u
  unfolding process_request
  process_request-table (CallRequest.new type uid payload sender true) client u =
      calls_of-append client.pending _ u
  process_request-table (CallRequest.new type uid payload sender false) client u =
      calls_of-append client.pending _ u
  process_request-table (CallRequest.error uid code tx) client u =
      let after = removed-dequeue uid client.pending in
      elim (Option-cases (find_and_remove_call uid client.pending)) [
        | inl e ↦ rw (process_request, e) (after none e u)
        | inr (r, e) ↦
            let closed = record client {
              pending = r.1;
              world = complete_with_error io r.0 code client.world;
            } in
            rw (process_request, e)
              (ap (λ l. calls_of l u) (error_sent-table uid code tx closed) ∙ after (some r) e u)
      ]

  -- Each event changes the table of pending calls as its specification says, under every identifier:
  -- a response or a server error takes the oldest call with its identifier away, a stream item does
  -- so if that call takes no stream, a new call is added behind those with its identifier, a
  -- cancelled or failed call is taken away, and nothing else happens to any call. This is so
  -- whatever the channels and the transport answer.
  pub handle_event_refines :
      (stream_closed : io.Failure) (e : Event io) (client : Client.Client io) (u : CallUid)
      → table_of io (handle_event io stream_closed e client).1 u
        ≡ table_event io e (table_of io client) u
  unfolding handle_event
  handle_event_refines stream_closed (packet (ok p)) client u = process_packet-table p client u
  handle_event_refines stream_closed (packet (err e)) client u = refl
  handle_event_refines stream_closed closed client u = refl
  handle_event_refines stream_closed (request r) client u = process_request-table r client u

  -- Where the events before it did not end the loop.
  next_round-table :
      (stream_closed : io.Failure) (round : Done io.Failure × Client.Client io)
      (rest : Client.Client io → Option io.Failure × Client.Client io) (t : Table io.Sender)
      → (next_round io stream_closed round rest).0 ≡ none
      → ((rest round.1).0 ≡ none → table_of io (rest round.1).1 ≡ t)
      → table_of io (next_round io stream_closed round rest).1 ≡ t
  next_round-table stream_closed (ok u, client) rest t h f = f h
  next_round-table stream_closed (err e, client) rest t h f = absurd (ground (arith, h))

  run_events-table :
      (stream_closed : io.Failure) (events : List (Event io)) (client : Client.Client io)
      → (run_events io stream_closed events client).0 ≡ none
      → table_of io (run_events io stream_closed events client).1
        ≡ table_events io events (table_of io client)
  unfolding run_events
  run_events-table stream_closed [] client h = refl
  run_events-table stream_closed (e ∷ events) client h =
      let round = handle_event io stream_closed e client in
      next_round-table stream_closed round (run_events io stream_closed events) _ h (λ h'.
        run_events-table stream_closed events round.1 h'
        ∙ ap (table_events io events) (fun_ext (handle_event_refines stream_closed e client)))

  run_queue-table :
      (stream_closed : io.Failure) (queue : List (CallRequest io.Sender)) (events : List (Event io))
      (client : Client.Client io)
      → (run_queue io stream_closed queue client (run_events io stream_closed events)).0 ≡ none
      → table_of io (run_queue io stream_closed queue client (run_events io stream_closed events)).1
        ≡ table_events io events (table_requests io queue (table_of io client))
  unfolding run_queue
  run_queue-table stream_closed [] events client h = run_events-table stream_closed events client h
  run_queue-table stream_closed (r ∷ queue) events client h =
      let round = process_request io r client in
      next_round-table stream_closed round _ _ h (λ h'.
        run_queue-table stream_closed queue events round.1 h'
        ∙ ap (λ t. table_events io events (table_requests io queue t))
            (fun_ext (process_request-table r client)))

  -- The client refines a table that holds for each identifier the calls that wait under it, the
  -- oldest first. While the client runs, the requests that waited at the start and then the events
  -- change the table one after the other: a response or a server error takes the oldest call with its
  -- identifier away, a stream item does so if that call takes no stream, a new call is added behind
  -- those with its identifier, a cancelled or failed call is taken away, and no other call changes.
  pub run_refines :
      (stream_closed : io.Failure) (events : List (Event io)) (client : Client.Client io)
      → (run io stream_closed events client).0 ≡ none
      → table_of io (run io stream_closed events client).1
        ≡ table_events io events (table_requests io client.queue (table_of io client))
  unfolding run
  run_refines stream_closed events client h =
      run_queue-table stream_closed client.queue events (record client { queue = [] }) h
