-- ===== src/Pwrpc/Client/Callers/Serving.antt =====
-- libmaestro/src/pwrpc/client.rs: no packet and no request makes the client forget a caller.
use pbpctrl.Prelude.{
  ℕ, ◌≡◌, refl, ◌⊎◌, inl, inr, List, [], ◌∷◌, ◌++◌, ok, Bool, true, false, Bool-cases, Option-cases,
  if◌then◌else◌, ◌==◌,
}
use pbpctrl.Pwrpc.Types.{RpcType, RpcPacket, has_server_stream}
use pbpctrl.Pwrpc.Status.{Status, from_u32}
use pbpctrl.Pwrpc.Client
use Client.{
  CallUid, CallRequest, Call, Io, Done, from_packet, find_and_remove_call, find_call_mut,
  complete_call, complete_with_error, push_item, drop_call, on_world, then_drop, client_error,
  request_packet, send_client_error, rpc_complete, rpc_complete_with_error, reject_stream,
  rpc_stream_push, process_packet, process_request,
}
use pbpctrl.Pwrpc.Client.Callers.{Channels}
use pbpctrl.Pwrpc.Client.Callers.Closing.{
  HasCaller, HasNew, IsClosed, IsServed, IsClosed-IsStable, close_channel-IsClosed, dropped,
  removed-IsServed,
}

module _ (io : Io) (ch : Channels io) (t : io.Sender) where
  -- The caller that was served is served still, and the waiting requests are the same.
  abbrev pub Serves : Client.Client io → Client.Client io → Type 0
  Serves before after =
      (IsServed io ch t before → IsServed io ch t after) × (after.queue ≡ before.queue)

  -- The removed call's channel is closed, or the call is another's.
  settled :
      (r : Call io.Sender × List (Call io.Sender)) (f : io.World → io.World) (w : io.World)
      → ((w' : io.World) → IsClosed io ch t w' → IsClosed io ch t (f w'))
      → (r.0.sender ≡ t → IsClosed io ch t (f w))
      → IsClosed io ch t w ⊎ ((r.0.sender ≡ t) ⊎ HasCaller t r.1)
      → IsClosed io ch t (f w) ⊎ HasCaller t r.1
  settled r f w keeps closes (inl shut) = inl (keeps w shut)
  settled r f w keeps closes (inr (inl e)) = inl (closes e)
  settled r f w keeps closes (inr (inr h)) = inr h

  failed :
      (c : Call io.Sender) (s : Status) (w : io.World)
      → c.sender ≡ t
      → IsClosed io ch t (complete_with_error io c s w)
  failed c s w e = close_channel-IsClosed io ch t c.sender _ e

  rpc_complete-Serves :
      (p : RpcPacket) (client : Client.Client io) → Serves client (rpc_complete io p client)
  unfolding rpc_complete
  rpc_complete-Serves p client =
      let stable = IsClosed-IsStable io ch t in
      elim (Option-cases (find_and_remove_call (from_packet p) client.pending)) [
        | inl e ↦ rw (rpc_complete, e) (λ h. h, refl)
        | inr (r, e) ↦
            let status = from_u32 p.status in
            rw (rpc_complete, e)
              (
                λ h.
                    settled r (λ w. drop_call io r.0 (complete_call io r.0 p.payload status w))
                      client.world
                      (λ w shut.
                        dropped io ch t r.0 _ (stable.completes r.0 p.payload status w shut))
                      (λ own.
                        dropped io ch t r.0 _ (close_channel-IsClosed io ch t r.0.sender _ own))
                      (removed-IsServed io ch t (from_packet p) client r e h),
                refl,
              )
      ]

  rpc_complete_with_error-Serves :
      (p : RpcPacket) (client : Client.Client io)
      → Serves client (rpc_complete_with_error io p client)
  unfolding rpc_complete_with_error
  rpc_complete_with_error-Serves p client =
      let stable = IsClosed-IsStable io ch t in
      elim (Option-cases (find_and_remove_call (from_packet p) client.pending)) [
        | inl e ↦ rw (rpc_complete_with_error, e) (λ h. h, refl)
        | inr (r, e) ↦
            let status = from_u32 p.status in
            rw (rpc_complete_with_error, e)
              (
                λ h.
                    settled r (λ w. drop_call io r.0 (complete_with_error io r.0 status w))
                      client.world
                      (λ w shut. dropped io ch t r.0 _ (stable.fails r.0 status w shut))
                      (λ own. dropped io ch t r.0 _ (failed r.0 status _ own))
                      (removed-IsServed io ch t (from_packet p) client r e h),
                refl,
              )
      ]

  -- What a send leaves of a served caller.
  sent-Serves :
      (p : RpcPacket) (client : Client.Client io)
      → Serves client (on_world io client (io.send p client.world)).1
  sent-Serves p client = (
    λ h. elim h [
      | inl shut ↦ inl (ch.stays_send t p client.world shut)
      | inr pending ↦ inr pending
    ],
    refl,
  )

  reject_stream-Serves :
      (uid : CallUid) (client : Client.Client io) → Serves client (reject_stream io uid client).1
  unfolding reject_stream send_client_error
  reject_stream-Serves uid client =
      let stable = IsClosed-IsStable io ch t in
      let status = Status.invalid_argument in
      elim (Option-cases (find_and_remove_call uid client.pending)) [
        | inl e ↦ rw (reject_stream, e) (λ h. h, refl)
        | inr (r, e) ↦
            rw (reject_stream, e)
              (
                λ h.
                    settled r
                      (λ w.
                        drop_call io r.0
                          (io.send (client_error uid status)
                            (complete_with_error io r.0 status w)).1)
                      client.world
                      (λ w shut.
                        dropped io ch t r.0 _
                          (ch.stays_send t _ _ (stable.fails r.0 status w shut)))
                      (λ own. dropped io ch t r.0 _ (ch.stays_send t _ _ (failed r.0 status _ own)))
                      (removed-IsServed io ch t uid client r e h),
                refl,
              )
      ]

  rpc_stream_push-Serves :
      (p : RpcPacket) (client : Client.Client io) → Serves client (rpc_stream_push io p client).1
  unfolding rpc_stream_push send_client_error
  rpc_stream_push-Serves p client =
      elim (Option-cases (find_call_mut (from_packet p) client.pending)) [
        | inl e ↦ rw (rpc_stream_push, e) (sent-Serves _ client)
        | inr (c, e) ↦ elim (Bool-cases (has_server_stream c.type)) [
          | inl streams ↦
              rw (rpc_stream_push, e, streams)
                (
                  λ h. elim h [
                    | inl shut ↦ inl ((IsClosed-IsStable io ch t).pushes c p.payload _ shut)
                    | inr pending ↦ inr pending
                  ],
                  refl,
                )
          | inr other ↦ rw (rpc_stream_push, e, other) (reject_stream-Serves (from_packet p) client)
        ]
      ]

  pub process_packet-Serves :
      (p : RpcPacket) (client : Client.Client io) → Serves client (process_packet io p client).1
  unfolding process_packet
  process_packet-Serves p client = elim (Bool-cases (p.type == 1)) [
    | inl response ↦ rw (process_packet, response) (rpc_complete-Serves p client)
    | inr a ↦ elim (Bool-cases (p.type == 5)) [
      | inl server_error ↦
          rw (process_packet, a, server_error) (rpc_complete_with_error-Serves p client)
      | inr b ↦ elim (Bool-cases (p.type == 7)) [
        | inl server_stream ↦
            rw (process_packet, a, b, server_stream) (rpc_stream_push-Serves p client)
        | inr c ↦ rw (process_packet, a, b, c) (λ h. h, refl)
      ]
    ]
  ]

  HasCaller-append :
      (pending more : List (Call io.Sender))
      → HasCaller t pending ⊎ HasCaller t more
      → HasCaller t (pending ++ more)
  HasCaller-append [] more (inl h) = absurd h
  HasCaller-append [] more (inr h) = h
  HasCaller-append (c ∷ pending) more (inl (inl e)) = inl e
  HasCaller-append (c ∷ pending) more (inl (inr h)) = inr (HasCaller-append pending more (inl h))
  HasCaller-append (c ∷ pending) more (inr h) = inr (HasCaller-append pending more (inr h))

  -- A caller that is served, or whose new call the request is, is served behind the request.
  abbrev Takes : CallRequest io.Sender → Client.Client io → Client.Client io → Type 0
  Takes r before after =
      (IsServed io ch t before ⊎ HasNew t (r ∷ []) → IsServed io ch t after)
      × (after.queue ≡ before.queue)

  opened-Takes :
      (type : RpcType) (uid : CallUid) (payload : List ℕ) (sender : io.Sender) (tx : Bool)
      (client : Client.Client io)
      → Takes (CallRequest.new type uid payload sender tx) client (record client {
        pending = client.pending ++ record { type = type; uid = uid; sender = sender } ∷ [];
      })
  opened-Takes type uid payload sender tx client = (
    λ h. elim h [
      | inl (inl shut) ↦ inl shut
      | inl (inr pending) ↦ inr (HasCaller-append client.pending _ (inl pending))
      | inr (inl e) ↦ inr (HasCaller-append client.pending _ (inr (inl e)))
      | inr (inr none_left) ↦ absurd none_left
    ],
    refl,
  )

  error_sent-Serves :
      (uid : CallUid) (code : Status) (tx : Bool) (client : Client.Client io)
      → Serves client (if tx then send_client_error io uid code client else (ok tt, client)).1
  unfolding send_client_error
  error_sent-Serves uid code true client = sent-Serves _ client
  error_sent-Serves uid code false client = (λ h. h, refl)

  then_drop-Serves :
      (c : Call io.Sender) (before : Client.Client io) (done : Done io.Failure × Client.Client io)
      → Serves before done.1
      → Serves before (then_drop io c done).1
  then_drop-Serves c before (r, after) (keeps, same) = (
    λ h. elim (keeps h) [
      | inl shut ↦ inl (dropped io ch t c after.world shut)
      | inr pending ↦ inr pending
    ],
    same,
  )

  pub process_request-Takes :
      (r : CallRequest io.Sender) (client : Client.Client io)
      → Takes r client (process_request io r client).1
  unfolding process_request
  process_request-Takes (CallRequest.new type uid payload sender true) client =
      let opened = opened-Takes type uid payload sender true client in
      let sent = sent-Serves (request_packet uid payload) (record client {
        pending = client.pending ++ record { type = type; uid = uid; sender = sender } ∷ [];
      }) in
      (λ h. sent.0 (opened.0 h), refl)
  process_request-Takes (CallRequest.new type uid payload sender false) client =
      opened-Takes type uid payload sender false client
  process_request-Takes (CallRequest.error uid code tx) client =
      elim (Option-cases (find_and_remove_call uid client.pending)) [
        | inl e ↦ rw (process_request, e) (λ h. served h, refl)
        | inr (r, e) ↦
            let closed = record client {
              pending = r.1;
              world = complete_with_error io r.0 code client.world;
            } in
            let sent = if tx then send_client_error io uid code closed else (ok tt, closed) in
            let told = then_drop-Serves r.0 closed sent (error_sent-Serves uid code tx closed) in
            rw (process_request, e)
              (
                λ h. told.0 (
                    settled r (complete_with_error io r.0 code) client.world
                      (λ w. (IsClosed-IsStable io ch t).fails r.0 code w)
                      (failed r.0 code client.world)
                      (removed-IsServed io ch t uid client r e (served h))),
                told.1,
              )
      ]
    where
      served :
          IsServed io ch t client ⊎ HasNew t (CallRequest.error uid code tx ∷ [])
          → IsServed io ch t client
      served (inl h) = h
      served (inr h) = absurd h
