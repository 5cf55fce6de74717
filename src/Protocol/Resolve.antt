-- ===== src/Protocol/Resolve.antt =====
-- libmaestro/src/protocol/utils.rs: resolve_channel and try_open_channel. The branches of `select!` that
-- are ready when it ends are given: for each of the six tasks the updates that its call delivers, if it
-- has any, and the error with which the client's run ends, which the biased `select!` takes last.
pub mod Found
pub mod First
use pbpctrl.Prelude.{
  ℕ, ◌≡◌, refl, sym, ap, ◌∙◌, List, [], ◌∷◌, Option, none, some, Result, ok, err, Bool, true, false,
  if◌then◌else◌, All, arith, Option-cases, inl, inr,
}
use pbpctrl.Pwrpc.Status as Codes
use pbpctrl.Pwrpc.Id.{RpcPath, new_path, service, method, hash_65599}
use pbpctrl.Pwrpc.Client.{CallUpdate}
use pbpctrl.Pwrpc.Handle.{Queues, CallHandle, Request, drop_handle, result}
use pbpctrl.Pwrpc.Rpc.{codes, Started, open_unary}
use pbpctrl.Protocol.Addr.{
  Peer, maestro_a, maestro_b, case, left_bt_core, right_bt_core, Address, channel_id,
  address_for_channel,
}

abbrev pub unwrap_or : Option ℕ → ℕ → ℕ
unwrap_or none d = d
unwrap_or (some n) d = n

-- The source unwraps each channel; all six are there.
unfoldable pub channels : List ℕ
channels =
    unwrap_or (channel_id maestro_a case) 0
    ∷ unwrap_or (channel_id maestro_a left_bt_core) 0
    ∷ unwrap_or (channel_id maestro_a right_bt_core) 0
    ∷ unwrap_or (channel_id maestro_b case) 0
    ∷ unwrap_or (channel_id maestro_b left_bt_core) 0
    ∷ unwrap_or (channel_id maestro_b right_bt_core) 0
    ∷ []

abbrev pub path : RpcPath
path = new_path (codes "maestro_pw.Maestro/GetSoftwareInfo")

abbrev pub open_request : ℕ → Request
open_request channel_id = record {
  channel_id = channel_id;
  service_id = hash_65599 (service path);
  method_id = hash_65599 (method path);
  call_id = 0;
  message = [];
}

-- The channels that are tried, each with its call.
abbrev pub Tasks : Queues → Type 0
Tasks q = List (ℕ × CallHandle q)

-- The tasks that are dropped with their calls.
unfoldable pub drop_tasks : (q : Queues) → Tasks q → q.World → q.World
drop_tasks q [] w = w
drop_tasks q ((channel, h) ∷ tasks) w = drop_tasks q tasks (drop_handle q h w)

-- The tasks whose calls were opened, with the error of the one that could not.
abbrev pub OpenTasks : Queues → Type 0 → Type 0
OpenTasks q B = Option (Codes.Error B) × Tasks q × q.World

module _ (q : Queues) {B : Type 0} where
  abbrev pub open_first : ℕ → Started q B → (q.World → OpenTasks q B) → OpenTasks q B
  open_first channel (err e, w) rest = (some e, [], w)
  open_first channel (ok h, w) rest = let r = rest w in (r.0, (channel, h) ∷ r.1, r.2)

  -- The first poll of the tasks, in order: each opens its call, and one that cannot ends it all.
  unfoldable pub open_tasks : List ℕ → q.QueueTx → q.World → OpenTasks q B
  open_tasks [] queue_tx w = (none, [], w)
  open_tasks (channel ∷ later) queue_tx w =
      open_first channel (open_unary q queue_tx (open_request channel) [] w)
        (open_tasks later queue_tx)

-- What `select!` returns, the call of the task that it took, and the other tasks. The outer `none` of
-- the first is a panic.
abbrev pub Chosen : Queues → Type 0 → Type 0
Chosen q B = Option (Result (Codes.Error B) ℕ) × Option (CallHandle q) × Tasks q

module _ (q : Queues) {B M : Type 0} (decode_message : List ℕ → Result B M) where
  -- The end of `try_open_channel`.
  abbrev pub opened :
      ℕ → CallHandle q → Option (Result (Codes.Error B) M × CallHandle q) → Tasks q → Chosen q B
  opened channel h none others = (none, some h, others)
  opened channel h (some (ok message, h')) others = (some (ok channel), some h', others)
  opened channel h (some (err e, h')) others = (some (err e), some h', others)

  -- The first task that is ready, or the client's end.
  unfoldable pub first_ready :
      Tasks q → List (Option (List CallUpdate)) → Codes.Error B → Chosen q B
  first_ready [] ready ended = (some (err ended), none, [])
  first_ready ((channel, h) ∷ tasks) [] ended = (some (err ended), none, (channel, h) ∷ tasks)
  first_ready ((channel, h) ∷ tasks) (none ∷ ready) ended =
      let r = first_ready tasks ready ended in (r.0, r.1, (channel, h) ∷ r.2)
  first_ready ((channel, h) ∷ tasks) (some updates ∷ ready) ended =
      opened channel h (result q decode_message (record h { receiver = updates })) tasks

  -- The task that was taken drops its call at its end, the others are dropped behind it.
  abbrev pub drop_chosen : Chosen q B → q.World → Option (Result (Codes.Error B) ℕ) × q.World
  drop_chosen (answer, none, others) w = (answer, drop_tasks q others w)
  drop_chosen (answer, some h, others) w = (answer, drop_tasks q others (drop_handle q h w))

  abbrev pub select :
      List (Option (List CallUpdate))
      → Codes.Error B
      → OpenTasks q B
      → Option (Result (Codes.Error B) ℕ) × q.World
  select ready ended (some e, tasks, w) = (some (err e), drop_tasks q tasks w)
  select ready ended (none, tasks, w) = drop_chosen (first_ready tasks ready ended) w

  unfoldable pub resolve_channel :
      q.QueueTx
      → List (Option (List CallUpdate))
      → Codes.Error B
      → q.World
      → Option (Result (Codes.Error B) ℕ) × q.World
  resolve_channel queue_tx ready ended w = select ready ended (open_tasks q channels queue_tx w)
