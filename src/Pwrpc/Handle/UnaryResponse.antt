-- ===== src/Pwrpc/Handle/UnaryResponse.antt =====
-- libmaestro/src/pwrpc/client.rs: UnaryResponse, which passes its operations on to the handle of its call.
use pbpctrl.Prelude.{Bool}
use pbpctrl.Pwrpc.Status as Codes
use pbpctrl.Pwrpc.Client.{Done}
use pbpctrl.Pwrpc.Handle as Handle
use Handle.{Queues, CallHandle}

module _ (q : Queues) where
  pub record UnaryResponse : Type 0 where
    pub handle : CallHandle q

  abbrev with_handle :
      {A : Type 0} → UnaryResponse → A × CallHandle q × q.World → A × UnaryResponse × q.World
  with_handle response (a, h, w) = (a, record response { handle = h }, w)

  abbrev pub abandon : UnaryResponse → q.World → Bool × UnaryResponse × q.World
  abandon response w = with_handle response (Handle.abandon q response.handle w)

  abbrev pub set_cancel_on_drop : UnaryResponse → Bool → UnaryResponse
  set_cancel_on_drop response yes_or_no = record response {
    handle = Handle.set_cancel_on_drop q response.handle yes_or_no;
  }

  abbrev pub cancel : UnaryResponse → q.World → Bool × UnaryResponse × q.World
  cancel response w = with_handle response (Handle.cancel q response.handle w)

  abbrev pub cancel_and_wait :
      {B : Type 0} → UnaryResponse → q.World → Done (Codes.Error B) × UnaryResponse × q.World
  cancel_and_wait response w = with_handle response (Handle.cancel_and_wait q response.handle w)

  abbrev pub is_complete : UnaryResponse → q.World → Bool
  is_complete response w = Handle.is_complete q response.handle w
