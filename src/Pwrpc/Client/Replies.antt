-- ===== src/Pwrpc/Client/Replies.antt =====
-- libmaestro/src/pwrpc/client.rs: what the packets of the peer do to the pending calls.
use pbpctrl.Prelude.{
  ◌≡◌, refl, sym, ap, ◌∙◌, List, ◌∷◌, ◌++◌, none, some, ok, true, false, ◌==◌, if◌then◌else◌, All,
  Bool-cases, Option-cases, inl, inr, arith,
}
use pbpctrl.Pwrpc.Types.{RpcPacket, has_server_stream}
use pbpctrl.Pwrpc.Status.{Status, from_u32}
use pbpctrl.Pwrpc.Client
use Client.{
  CallUid, Call, Io, Done, from_packet, same_uid, find_and_remove_call, find_call_mut,
  complete_call, complete_with_error, drop_call, push_update, CallUpdate, client_error,
  send_client_error, rpc_complete, rpc_complete_with_error, reject_stream, rpc_stream_push,
  process_packet,
}
use pbpctrl.Pwrpc.Client.Pending as Pending
use pbpctrl.Pwrpc.Client.Pending.{
  IsOther, others, find_and_remove_call-rest, find_and_remove_call-first,
  find_and_remove_call-find_call_mut,
}

module _ (io : Io) where
  -- A closed channel stays closed to the drop of its call.
  pub drop_call-closed :
      ((s : io.Sender) (w : io.World) → io.is_closed s (io.close_channel s w) ≡ true)
      → (c : Call io.Sender) (w : io.World)
      → drop_call io c (io.close_channel c.sender w) ≡ io.close_channel c.sender w
  unfolding drop_call
  drop_call-closed closes c w = rw (closes c.sender w) refl

  module _ (packet : RpcPacket) (client : Client.Client io) where
    abbrev uid : CallUid
    uid = from_packet packet

    abbrev IsKept : Client.Client io → Type 0
    IsKept after = others uid after.pending ≡ others uid client.pending

    rpc_complete-others : IsKept (rpc_complete io packet client)
    unfolding rpc_complete
    rpc_complete-others = elim (Option-cases (find_and_remove_call uid client.pending)) [
      | inl e ↦ rw (rpc_complete, e) refl
      | inr (r, e) ↦ rw (rpc_complete, e) (find_and_remove_call-rest uid client.pending r e)
    ]

    rpc_complete_with_error-others : IsKept (rpc_complete_with_error io packet client)
    unfolding rpc_complete_with_error
    rpc_complete_with_error-others = elim (Option-cases (find_and_remove_call uid client.pending)) [
      | inl e ↦ rw (rpc_complete_with_error, e) refl
      | inr (r, e) ↦
          rw (rpc_complete_with_error, e) (find_and_remove_call-rest uid client.pending r e)
    ]

    reject_stream-others : IsKept (reject_stream io uid client).1
    unfolding reject_stream send_client_error
    reject_stream-others = elim (Option-cases (find_and_remove_call uid client.pending)) [
      | inl e ↦ rw (reject_stream, e) refl
      | inr (r, e) ↦ rw (reject_stream, e) (find_and_remove_call-rest uid client.pending r e)
    ]

    rpc_stream_push-others : IsKept (rpc_stream_push io packet client).1
    unfolding rpc_stream_push send_client_error
    rpc_stream_push-others = elim (Option-cases (find_call_mut uid client.pending)) [
      | inl e ↦ rw (rpc_stream_push, e) refl
      | inr (c, e) ↦ elim (Bool-cases (has_server_stream c.type)) [
        | inl streams ↦ rw (rpc_stream_push, e, streams) refl
        | inr other ↦ rw (rpc_stream_push, e, other) reject_stream-others
      ]
    ]

    -- A packet, of whatever type, leaves the pending calls with other identifiers, and their order,
    -- as they are.
    pub process_packet-others :
        others (from_packet packet) (process_packet io packet client).1.pending
        ≡ others (from_packet packet) client.pending
    unfolding process_packet
    process_packet-others = elim (Bool-cases (packet.type == 1)) [
      | inl response ↦ rw (process_packet, response) rpc_complete-others
      | inr a ↦ elim (Bool-cases (packet.type == 5)) [
        | inl server_error ↦ rw (process_packet, a, server_error) rpc_complete_with_error-others
        | inr b ↦ elim (Bool-cases (packet.type == 7)) [
          | inl server_stream ↦ rw (process_packet, a, b, server_stream) rpc_stream_push-others
          | inr c ↦ rw (process_packet, a, b, c) refl
        ]
      ]
    ]

  -- Where a closed channel reads as closed, a response removes the first pending call with its
  -- identifier, sends that call's caller the payload and the status, closes the caller's channel,
  -- and does nothing else.
  pub process_packet_response :
      ((s : io.Sender) (w : io.World) → io.is_closed s (io.close_channel s w) ≡ true)
      → (packet : RpcPacket) (client : Client.Client io) (front : List (Call io.Sender))
        (c : Call io.Sender) (back : List (Call io.Sender))
      → client.pending ≡ front ++ c ∷ back
      → All (IsOther (from_packet packet)) front
      → same_uid c.uid (from_packet packet) ≡ true
      → packet.type ≡ 1
      → process_packet io packet client ≡ (
        ok tt,
        record client {
          pending = front ++ back;
          world = complete_call io c packet.payload (from_u32 packet.status) client.world;
        },
      )
  unfolding process_packet rpc_complete
  process_packet_response closes packet client front c back shape others_first same type =
      let found : find_and_remove_call (from_packet packet) client.pending
          ≡ some (c, front ++ back) =
        ap (λ p. find_and_remove_call (from_packet packet) p) shape
        ∙ find_and_remove_call-first (from_packet packet) front c back others_first same in
      let told =
        push_update io c (CallUpdate.complete packet.payload (from_u32 packet.status))
          client.world in
      let is : (packet.type == 1) ≡ true = ground (arith, type) in
      rw (is, rpc_complete, found, drop_call-closed closes c told) refl

  -- A stream packet for a pending call that takes no stream ends the first such call: it is
  -- removed, its caller is told of an invalid argument, and then the peer, whose answer to that is
  -- the result. The removed call is dropped last.
  pub process_packet_stream_rejected :
      (packet : RpcPacket) (client : Client.Client io) (front : List (Call io.Sender))
      (c : Call io.Sender) (back : List (Call io.Sender))
      → client.pending ≡ front ++ c ∷ back
      → All (IsOther (from_packet packet)) front
      → same_uid c.uid (from_packet packet) ≡ true
      → packet.type ≡ 7
      → has_server_stream c.type ≡ false
      → process_packet io packet client ≡ (
        (io.send
            (client_error (from_packet packet) Status.invalid_argument)
            (complete_with_error io c Status.invalid_argument client.world)).0,
        record client {
          pending = front ++ back;
          world =
              drop_call io c
                (io.send
                  (client_error (from_packet packet) Status.invalid_argument)
                  (complete_with_error io c Status.invalid_argument client.world)).1;
        },
      )
  unfolding process_packet rpc_stream_push reject_stream send_client_error
  process_packet_stream_rejected packet client front c back shape others_first same type single =
      let removed : find_and_remove_call (from_packet packet) client.pending
          ≡ some (c, front ++ back) =
        ap (λ p. find_and_remove_call (from_packet packet) p) shape
        ∙ find_and_remove_call-first (from_packet packet) front c back others_first same in
      let found : find_call_mut (from_packet packet) client.pending ≡ some c =
        sym (find_and_remove_call-find_call_mut (from_packet packet) client.pending)
        ∙ ap (λ r. Pending.removed (from_packet packet) r) removed in
      let t1 : (packet.type == 1) ≡ false = ground (arith, type) in
      let t5 : (packet.type == 5) ≡ false = ground (arith, type) in
      let t7 : (packet.type == 7) ≡ true = ground (arith, type) in
      rw (t1, t5, t7, rpc_stream_push, found, single, reject_stream, removed) refl

  -- A packet for no pending call changes nothing but that a stream packet is answered with an
  -- error to the peer.
  pub process_packet_unknown :
      (packet : RpcPacket) (client : Client.Client io)
      → find_call_mut (from_packet packet) client.pending ≡ none
      → process_packet io packet client ≡ (
          if packet.type == 7
          then send_client_error io (from_packet packet) Status.failed_precondition client
          else (ok tt, client))
  unfolding process_packet rpc_complete rpc_complete_with_error rpc_stream_push
  process_packet_unknown packet client e =
      let uid = from_packet packet in
      let gone =
        Pending.removed-none uid (find_and_remove_call uid client.pending)
          (find_and_remove_call-find_call_mut uid client.pending ∙ e) in
      elim (Bool-cases (packet.type == 1)) [
        | inl response ↦
            let t7 : (packet.type == 7) ≡ false = ground arith in
            rw (process_packet, response, t7, rpc_complete, gone) refl
        | inr a ↦ elim (Bool-cases (packet.type == 5)) [
          | inl server_error ↦
              let t7 : (packet.type == 7) ≡ false = ground arith in
              rw (process_packet, a, server_error, t7, rpc_complete_with_error, gone) refl
          | inr b ↦ elim (Bool-cases (packet.type == 7)) [
            | inl server_stream ↦ rw (process_packet, a, b, server_stream, rpc_stream_push, e) refl
            | inr c ↦ rw (process_packet, a, b, c) refl
          ]
        ]
      ]
