-- ===== src/Pwrpc/Rpc.antt =====
-- libmaestro/src/pwrpc/client.rs: the calls of ClientHandle, and UnaryRpc and ServerStreamRpc, calls of a method by its path. What
-- `message` encodes to is given as bytes; `updates` is what the channel of the call will deliver.
use Prim.Native.Char.{code}
use Prim.Native.String.{String}
use pbpctrl.Prelude.{ℕ, List, [], ◌∷◌, Result, ok, err, Option, none, some}
use pbpctrl.Pwrpc.Types.{RpcType}
use pbpctrl.Pwrpc.Status as Codes
use pbpctrl.Pwrpc.Id.{RpcPath, new_path, service, method, hash_65599}
use pbpctrl.Pwrpc.Client.{CallUpdate}
use pbpctrl.Pwrpc.Handle as Handle
use pbpctrl.Pwrpc.Handle.{Queues, CallHandle, Request, drop_handle, result}

-- The characters of a text.
abbrev pub codes : String → List ℕ
codes String.[] = []
codes (String.◌∷◌ c s) = code c ∷ codes s

pub record UnaryRpc : Type 0 where
  pub path : RpcPath

pub record ServerStreamRpc : Type 0 where
  pub path : RpcPath

abbrev pub new_unary : List ℕ → UnaryRpc
new_unary path = record { path = new_path path }

abbrev pub new_server_stream : List ℕ → ServerStreamRpc
new_server_stream path = record { path = new_path path }

abbrev pub request_for : RpcPath → ℕ → ℕ → List ℕ → Request
request_for path channel_id call_id message = record {
  channel_id = channel_id;
  service_id = hash_65599 (service path);
  method_id = hash_65599 (method path);
  call_id = call_id;
  message = message;
}

abbrev pub Started : Queues → Type 0 → Type 0
Started q B = Result (Codes.Error B) (CallHandle q) × q.World

-- The outer `none` is a panic.
abbrev pub Answer : Queues → Type 0 → Type 0 → Type 0
Answer q B M = Option (Result (Codes.Error B) M) × q.World

module _ (q : Queues) {B : Type 0} where
  -- ClientHandle's calls.
  abbrev pub call_unary : q.QueueTx → Request → List CallUpdate → q.World → Started q B
  call_unary queue_tx request updates w = Handle.call q queue_tx RpcType.unary request updates w

  abbrev pub call_server_stream : q.QueueTx → Request → List CallUpdate → q.World → Started q B
  call_server_stream queue_tx request updates w =
      Handle.call q queue_tx RpcType.server_stream request updates w

  abbrev pub open_unary : q.QueueTx → Request → List CallUpdate → q.World → Started q B
  open_unary queue_tx request updates w =
      Handle.open_call q queue_tx RpcType.unary request updates w

  abbrev pub open_server_stream : q.QueueTx → Request → List CallUpdate → q.World → Started q B
  open_server_stream queue_tx request updates w =
      Handle.open_call q queue_tx RpcType.server_stream request updates w

  unfoldable pub unary_call :
      UnaryRpc → q.QueueTx → ℕ → ℕ → List ℕ → List CallUpdate → q.World → Started q B
  unary_call rpc queue_tx channel_id call_id message updates w =
      call_unary queue_tx (request_for rpc.path channel_id call_id message) updates w

  unfoldable pub unary_open : UnaryRpc → q.QueueTx → ℕ → ℕ → List CallUpdate → q.World → Started q B
  unary_open rpc queue_tx channel_id call_id updates w =
      open_unary queue_tx (request_for rpc.path channel_id call_id []) updates w

  unfoldable pub server_stream_call :
      ServerStreamRpc → q.QueueTx → ℕ → ℕ → List ℕ → List CallUpdate → q.World → Started q B
  server_stream_call rpc queue_tx channel_id call_id message updates w =
      call_server_stream queue_tx (request_for rpc.path channel_id call_id message) updates w

  unfoldable pub server_stream_open :
      ServerStreamRpc → q.QueueTx → ℕ → ℕ → List CallUpdate → q.World → Started q B
  server_stream_open rpc queue_tx channel_id call_id updates w =
      open_server_stream queue_tx (request_for rpc.path channel_id call_id []) updates w

  -- `call(..)?.result().await`: the response is dropped behind it.
  module _ {M : Type 0} (decode_message : List ℕ → Result B M) where
    abbrev pub then_drop_handle :
        CallHandle q → q.World → Option (Result (Codes.Error B) M × CallHandle q) → Answer q B M
    then_drop_handle h w none = (none, drop_handle q h w)
    then_drop_handle h w (some (r, h')) = (some r, drop_handle q h' w)

    unfoldable pub await_result : Started q B → Answer q B M
    await_result (err e, w) = (some (err e), w)
    await_result (ok h, w) = then_drop_handle h w (result q decode_message h)
