-- ===== src/Pwrpc/Handle.antt =====
-- libmaestro/src/pwrpc/client.rs: the callers' side, ClientHandle, CallHandle and UnaryResponse. The
-- client's request queue and the channels of updates are those of the library `futures`. A receiver
-- is the list of the updates that its channel still delivers, in order, up to the channel's end.
pub mod Cancel
pub mod Stream
pub mod UnaryResponse
pub mod StreamResponse
use pbpctrl.Prelude.{
  ℕ, List, [], ◌∷◌, Result, ok, err, Option, none, some, Bool, true, false, if◌then◌else◌,
}
use pbpctrl.Pwrpc.Types.{RpcType}
use pbpctrl.Pwrpc.Status.{Status}
use pbpctrl.Pwrpc.Status as Codes
use pbpctrl.Pwrpc.Client.{CallUid, CallUpdate, CallRequest, Done}

-- `mpsc::unbounded`, and `unbounded_send`, `is_closed` and `disconnect` of an end of the request
-- queue. `World` is the state of all channels.
pub record Queues : Type 1 where
  pub World : Type 0
  pub Sender : Type 0
  pub QueueTx : Type 0
  pub unbounded : World → Sender × World
  pub unbounded_send : QueueTx → CallRequest Sender → World → Bool × World
  pub is_closed : QueueTx → World → Bool
  pub disconnect : QueueTx → QueueTx

-- `message` is the encoded message.
pub record Request : Type 0 where
  pub channel_id : ℕ
  pub service_id : ℕ
  pub method_id : ℕ
  pub call_id : ℕ
  pub message : List ℕ

abbrev pub request_uid : Request → CallUid
request_uid request = record {
  channel = request.channel_id;
  service = request.service_id;
  method = request.method_id;
  call = request.call_id;
}

abbrev pub is_cancelled : Status → Bool
is_cancelled Status.cancelled = true
is_cancelled _ = false

module _ (q : Queues) where
  pub record CallHandle : Type 0 where
    pub uid : CallUid
    pub queue_tx : q.QueueTx
    pub receiver : List CallUpdate
    pub cancel_on_drop : Bool

  abbrev pub is_complete : CallHandle → q.World → Bool
  is_complete h w = q.is_closed h.queue_tx w

  -- The end of the queue is disconnected whether the request could be sent or not.
  unfoldable pub send_error : CallHandle → Status → Bool → q.World → Bool × CallHandle × q.World
  send_error h code tx w =
      let sent = q.unbounded_send h.queue_tx (CallRequest.error h.uid code tx) w in
      (sent.0, record h { queue_tx = q.disconnect h.queue_tx }, sent.1)

  unfoldable pub abandon : CallHandle → q.World → Bool × CallHandle × q.World
  abandon h w = send_error h Status.cancelled false w

  unfoldable pub cancel : CallHandle → q.World → Bool × CallHandle × q.World
  cancel h w = send_error h Status.cancelled true w

  abbrev pub set_cancel_on_drop : CallHandle → Bool → CallHandle
  set_cancel_on_drop h yes_or_no = record h { cancel_on_drop = yes_or_no }

  -- `Drop for CallHandle`.
  unfoldable pub drop_handle : CallHandle → q.World → q.World
  drop_handle h w = if h.cancel_on_drop then (cancel h w).2 else (abandon h w).2

  module _ {B : Type 0} where
    -- The loop of `cancel_and_wait`, with the updates that are not received yet.
    unfoldable pub wait : List CallUpdate → Done (Codes.Error B) × List CallUpdate
    wait [] = (ok tt, [])
    wait (CallUpdate.stream_item payload ∷ updates) = wait updates
    wait (CallUpdate.complete payload status ∷ updates) = (ok tt, updates)
    wait (CallUpdate.error status ∷ updates) =
        (if is_cancelled status then ok tt else err (Codes.from_status status), updates)

    abbrev pub with_receiver :
        CallHandle
        → q.World
        → Done (Codes.Error B) × List CallUpdate
        → Done (Codes.Error B) × CallHandle × q.World
    with_receiver h w (r, updates) = (r, record h { receiver = updates }, w)

    unfoldable pub cancel_and_wait :
        CallHandle → q.World → Done (Codes.Error B) × CallHandle × q.World
    cancel_and_wait h w =
        let (sent, h', w') = cancel h w in
        if sent then with_receiver h' w' (wait h'.receiver) else (ok tt, h', w')

    -- `call` and `open` differ in the payload, in whether the request is sent to the peer, and in
    -- what the handle's drop does. `updates` is what the new channel will deliver.
    abbrev pub start :
        q.QueueTx
        → RpcType
        → Request
        → List ℕ
        → Bool
        → List CallUpdate
        → q.World
        → Result (Codes.Error B) CallHandle × q.World
    start queue_tx type request payload tx updates w =
        let (sender, w') = q.unbounded w in
        let handle : CallHandle = record {
          uid = request_uid request;
          queue_tx = queue_tx;
          receiver = updates;
          cancel_on_drop = tx;
        } in
        let sent =
          q.unbounded_send queue_tx (CallRequest.new type (request_uid request) payload sender tx)
            w' in
        (
          if sent.0
              then ok handle
              else err (
                  Codes.new Status.aborted "the channel has been closed, no new calls are allowed"),
          if sent.0 then sent.1 else drop_handle handle sent.1,
        )

    unfoldable pub call :
        q.QueueTx
        → RpcType
        → Request
        → List CallUpdate
        → q.World
        → Result (Codes.Error B) CallHandle × q.World
    call queue_tx type request updates w =
        start queue_tx type request request.message true updates w

    unfoldable pub open_call :
        q.QueueTx
        → RpcType
        → Request
        → List CallUpdate
        → q.World
        → Result (Codes.Error B) CallHandle × q.World
    open_call queue_tx type request updates w = start queue_tx type request [] false updates w

    -- `UnaryResponse::result`, on the response's handle. `none` is the panic of `unreachable!`.
    module _ {M : Type 0} (decode_message : List ℕ → Result B M) where
      abbrev pub decoded : Result B M → Result (Codes.Error B) M
      decoded (ok message) = ok message
      decoded (err e) = err (Codes.from_decode_error e)

      abbrev pub take_update :
          CallHandle → CallUpdate → Option (Result (Codes.Error B) M × CallHandle)
      take_update h (CallUpdate.complete payload Status.ok) =
          some (decoded (decode_message payload), record h { queue_tx = q.disconnect h.queue_tx })
      take_update h (CallUpdate.complete payload status) = some (err (Codes.from_status status), h)
      take_update h (CallUpdate.error status) = some (err (Codes.from_status status), h)
      take_update h (CallUpdate.stream_item payload) = none

      unfoldable pub result : CallHandle → Option (Result (Codes.Error B) M × CallHandle)
      result h = elim h.receiver [
        | [] ↦
            some
              (err (Codes.new Status.resource_exhausted "cannot fetch result() multiple times"), h)
        | update ∷ updates ↦ take_update (record h { receiver = updates }) update
      ]
