-- ===== src/Pwrpc/Handle/StreamResponse.antt =====
-- libmaestro/src/pwrpc/client.rs: StreamResponse, which passes its operations on to the handle of its call.
use pbpctrl.Prelude.{Bool}
use pbpctrl.Pwrpc.Status as Codes
use pbpctrl.Pwrpc.Client.{Done}
use pbpctrl.Pwrpc.Handle as Handle
use Handle.{Queues, CallHandle}

module _ (q : Queues) where
  pub record StreamResponse : Type 0 where
    pub handle : CallHandle q

  abbrev with_handle :
      {A : Type 0} → StreamResponse → A × CallHandle q × q.World → A × StreamResponse × q.World
  with_handle response (a, h, w) = (a, record response { handle = h }, w)

  abbrev pub abandon : StreamResponse → q.World → Bool × StreamResponse × q.World
  abandon response w = with_handle response (Handle.abandon q response.handle w)

  abbrev pub set_cancel_on_drop : StreamResponse → Bool → StreamResponse
  set_cancel_on_drop response yes_or_no = record response {
    handle = Handle.set_cancel_on_drop q response.handle yes_or_no;
  }

  abbrev pub cancel : StreamResponse → q.World → Bool × StreamResponse × q.World
  cancel response w = with_handle response (Handle.cancel q response.handle w)

  abbrev pub cancel_and_wait :
      {B : Type 0} → StreamResponse → q.World → Done (Codes.Error B) × StreamResponse × q.World
  cancel_and_wait response w = with_handle response (Handle.cancel_and_wait q response.handle w)

  abbrev pub is_complete : StreamResponse → q.World → Bool
  is_complete response w = Handle.is_complete q response.handle w
