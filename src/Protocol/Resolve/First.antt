-- ===== src/Protocol/Resolve/First.antt =====
-- libmaestro/src/protocol/utils.rs: the first channel that is answered is the one resolved.
use pbpctrl.Prelude.{
  ℕ, ◌≡◌, refl, ap, subst, List, [], ◌∷◌, ◌++◌, Option, none, some, Result, ok, true, arith, drop,
  ◌∙◌,
}
use mathlib.Core.List as Lst
use pbpctrl.Pwrpc.Status.{Status}
use pbpctrl.Pwrpc.Status as Codes
use pbpctrl.Pwrpc.Client.{CallUpdate, CallRequest}
use pbpctrl.Pwrpc.Handle.{Queues, open_call, result}
use pbpctrl.Protocol.Resolve.Found.{drop_chosen-answer}
use pbpctrl.Protocol.Resolve.{
  Tasks, OpenTasks, channels, open_tasks, first_ready, select, resolve_channel,
}

abbrev tried_channels : {q : Queues} → Tasks q → List ℕ
tried_channels tasks = Lst.map (λ t. t.0) tasks

module _ (q : Queues) (B : Type 0) where
  -- All calls are open.
  abbrev AreOpen : List ℕ → OpenTasks q B → Type 0
  AreOpen tried r = (r.0 ≡ none) × (tried_channels {q = q} r.1 ≡ tried)

  open_tasks-AreOpen :
      (queue_tx : q.QueueTx)
      → ((r : CallRequest q.Sender) (w : q.World) → (q.unbounded_send queue_tx r w).0 ≡ true)
      → (tried : List ℕ) (w : q.World) → AreOpen tried (open_tasks q {B = B} tried queue_tx w)
  unfolding open_tasks open_call
  open_tasks-AreOpen queue_tx is_open [] w = (refl, refl)
  open_tasks-AreOpen queue_tx is_open (channel ∷ later) w =
      let behind = open_tasks-AreOpen queue_tx is_open later in
      rw (is_open _ _) ((behind _).0, ap (λ l. channel ∷ l) (behind _).1)

module _ (q : Queues) {B M : Type 0} (decode_message : List ℕ → Result B M) where
  first_ready_lem :
      (front : List ℕ) (c : ℕ) (back : List ℕ) (tasks : Tasks q) (payload : List ℕ) (m : M)
      (more : List CallUpdate) (ready : List (Option (List CallUpdate))) (ended : Codes.Error B)
      → tried_channels {q = q} tasks ≡ front ++ c ∷ back
      → decode_message payload ≡ ok m
      → (first_ready q decode_message tasks
          (Lst.map (λ channel. none) front
            ++ some (CallUpdate.complete payload Status.ok ∷ more) ∷ ready)
          ended).0
        ≡ some (ok c)
  unfolding first_ready result
  first_ready_lem [] c back [] payload m more ready ended e answered = absurd (ground (arith, e))
  first_ready_lem [] c back (t ∷ tasks) payload m more ready ended e answered =
      rw answered (ap (λ n. some (ok n)) (ground (arith, e)))
  first_ready_lem (f ∷ front) c back [] payload m more ready ended e answered =
      absurd (ground (arith, e))
  first_ready_lem (f ∷ front) c back (t ∷ tasks) payload m more ready ended e answered =
      first_ready_lem front c back tasks payload m more ready ended (ap (λ l. drop 1 l) e) answered

  select_first :
      (front : List ℕ) (c : ℕ) (back : List ℕ) (r : OpenTasks q B) (payload : List ℕ) (m : M)
      (more : List CallUpdate) (ready : List (Option (List CallUpdate))) (ended : Codes.Error B)
      → AreOpen q B (front ++ c ∷ back) r
      → decode_message payload ≡ ok m
      → (select q decode_message
          (Lst.map (λ channel. none) front
            ++ some (CallUpdate.complete payload Status.ok ∷ more) ∷ ready)
          ended
          r).0
        ≡ some (ok c)
  select_first front c back (none, tasks, w) payload m more ready ended all answered =
      drop_chosen-answer q decode_message (first_ready q decode_message tasks _ ended) w
      ∙ first_ready_lem front c back tasks payload m more ready ended all.1 answered
  select_first front c back (some x, tasks, w) payload m more ready ended all answered =
      absurd (ground (arith, all.0))

  -- Where the request queue is open, the first of the six channels, in their order, whose task is
  -- ready is the one resolved, if its answer can be decoded, whatever later tasks and the client do.
  pub resolve_channel_first :
      (queue_tx : q.QueueTx)
      → ((r : CallRequest q.Sender) (w : q.World) → (q.unbounded_send queue_tx r w).0 ≡ true)
      → (front : List ℕ) (c : ℕ) (back : List ℕ) (payload : List ℕ) (m : M) (more : List CallUpdate)
        (ready : List (Option (List CallUpdate))) (ended : Codes.Error B) (w : q.World)
      → channels ≡ front ++ c ∷ back
      → decode_message payload ≡ ok m
      → (resolve_channel q decode_message queue_tx
          (Lst.map (λ channel. none) front
            ++ some (CallUpdate.complete payload Status.ok ∷ more) ∷ ready)
          ended
          w).0
        ≡ some (ok c)
  unfolding resolve_channel
  resolve_channel_first queue_tx is_open front c back payload m more ready ended w e answered =
      select_first front c back (open_tasks q {B = B} channels queue_tx w) payload m more ready
        ended
        (subst (λ l. AreOpen q B l (open_tasks q {B = B} channels queue_tx w)) e
          (open_tasks-AreOpen q B queue_tx is_open channels w))
        answered
