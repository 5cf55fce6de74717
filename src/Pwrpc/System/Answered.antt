-- ===== src/Pwrpc/System/Answered.antt =====
-- libmaestro/src/pwrpc/client.rs: a unary call, from the caller through the request queue, the client
-- and the peer back to the caller.
use pbpctrl.Prelude.{
  ℕ, ◌≡◌, refl, sym, ap, ◌∙◌, List, [], ◌∷◌, ◌++◌, some, Result, ok, err, true, false, All,
}
use pbpctrl.Pwrpc.Types.{RpcType, RpcPacket}
use pbpctrl.Pwrpc.Status.{Status, from_u32}
use pbpctrl.Pwrpc.Status as Codes
use pbpctrl.Pwrpc.Client.{CallUpdate, CallRequest, Io, from_packet, request_packet}
use pbpctrl.Pwrpc.Client.Pending.{IsOther}
use pbpctrl.Pwrpc.Client.Run.{packet, run}
use pbpctrl.Pwrpc.Client.Callers.{Channels}
use pbpctrl.Pwrpc.Client.Callers.Answer.{Delivers, run_answers}
use pbpctrl.Pwrpc.Handle.{CallHandle, Request, request_uid, call, decoded, result}
use pbpctrl.Pwrpc.Rpc.{UnaryRpc, request_for, unary_call, await_result}
use pbpctrl.Pwrpc.System
use System.{Mpsc, queues, new_channel, push_request, send_request}

module _ (io : Io) (mpsc : Mpsc io) (ch : Channels io) (delivers : Delivers io ch) {B M : Type 0}
    (decode_message : List ℕ → Result B M) where
  -- What a caller makes of a response.
  abbrev pub answer_of : Status → List ℕ → Result (Codes.Error B) M
  answer_of Status.ok payload = decoded (queues io mpsc) decode_message (decode_message payload)
  answer_of status payload = err (Codes.from_status status)

  abbrev handle_of : mpsc.QueueTx → Request → List CallUpdate → CallHandle (queues io mpsc)
  handle_of tx r updates = record {
    uid = request_uid r;
    queue_tx = tx;
    receiver = updates;
    cancel_on_drop = true;
  }

  abbrev request_of : Request → System.System io → CallRequest io.Sender
  request_of r s =
      CallRequest.new RpcType.unary (request_uid r) r.message (mpsc.unbounded s.client.world).0 true

  call-open :
      (tx : mpsc.QueueTx) (r : Request) (updates : List CallUpdate) (s : System.System io)
      → mpsc.takes tx (new_channel io mpsc s).1 ≡ true
      → call (queues io mpsc) {B = B} tx RpcType.unary r updates s ≡ (
        ok (handle_of tx r updates),
        push_request io mpsc (request_of r s) (new_channel io mpsc s).1,
      )
  unfolding call
  call-open tx r updates s up = rw up refl

  answered_one :
      (tx : mpsc.QueueTx) (r : Request) (s : System.System io) (status : Status) (payload : List ℕ)
      → (await_result
          (queues io mpsc)
          decode_message
          (ok (handle_of tx r (CallUpdate.complete payload status ∷ [])), s)).0
        ≡ some (answer_of status payload)
  unfolding await_result result
  answered_one tx r s Status.ok payload = refl
  answered_one tx r s _ payload = refl

  -- A unary call of a method comes back with its own answer. A caller calls it while no
  -- request waits, and the request queue takes the call; the client takes the request and then the response to the call, and the
  -- caller's channel is kept. Then the call's result is the decoded payload, or the error of decoding
  -- it, if the response's status is ok, and the error of that status if not. No pending call has the
  -- call's identifier, the peer can be told, and a new channel is open and empty.
  pub unary_call_answered :
      (tx : mpsc.QueueTx) (stream_closed : io.Failure) (rpc : UnaryRpc) (channel_id call_id : ℕ)
      (message : List ℕ) (s : System.System io) (p : RpcPacket) (updates : List CallUpdate)
      → mpsc.takes tx (new_channel io mpsc s).1 ≡ true
      → s.client.queue ≡ []
      → from_packet p ≡ request_uid (request_for rpc.path channel_id call_id message)
      → All (IsOther (from_packet p)) s.client.pending
      → io.is_closed (mpsc.unbounded s.client.world).0 (mpsc.unbounded s.client.world).1 ≡ false
      → ch.received (mpsc.unbounded s.client.world).0 (mpsc.unbounded s.client.world).1 ≡ []
      → (io.send (request_packet (from_packet p) message) (mpsc.unbounded s.client.world).1).0
        ≡ ok tt
      → p.type ≡ 1
      → let called =
          unary_call (queues io mpsc) {B = B} rpc tx channel_id call_id message updates s in
        updates
          ≡ ch.received
              (mpsc.unbounded s.client.world).0
              (run io stream_closed (packet (ok p) ∷ []) called.1.client).1.world
        → (await_result (queues io mpsc) decode_message called).0
          ≡ some (answer_of (from_u32 p.status) p.payload)
  unfolding unary_call
  unary_call_answered tx stream_closed rpc channel_id call_id message s p updates up idle own others
        is_open empty sent response delivered =
      let r = request_for rpc.path channel_id call_id message in
      let taken : System.System io =
        push_request io mpsc (request_of r s) (new_channel io mpsc s).1 in
      let called = call-open tx r updates s up in
      let queued : taken.client.queue
          ≡ CallRequest.new RpcType.unary (from_packet p) message (mpsc.unbounded s.client.world).0
              true
            ∷ [] =
        ap (λ q. q ++ request_of r s ∷ []) idle
        ∙ ap
            (λ u.
              CallRequest.new RpcType.unary u message (mpsc.unbounded s.client.world).0 true ∷ [])
            (sym own) in
      let answered =
        run_answers io ch delivers stream_closed RpcType.unary message
          (mpsc.unbounded s.client.world).0 taken.client p queued others is_open sent response in
      let one : updates ≡ CallUpdate.complete p.payload (from_u32 p.status) ∷ [] =
        delivered
        ∙ ap
            (λ c.
              ch.received (mpsc.unbounded s.client.world).0
                (run io stream_closed (packet (ok p) ∷ []) c.1.client).1.world)
            called
        ∙ answered.2
        ∙ ap (λ l. l ++ CallUpdate.complete p.payload (from_u32 p.status) ∷ []) empty in
      ap (λ c. (await_result (queues io mpsc) decode_message c).0) called
      ∙ ap (λ u. (await_result (queues io mpsc) decode_message (ok (handle_of tx r u), taken)).0)
          one
      ∙ answered_one tx r taken (from_u32 p.status) p.payload
