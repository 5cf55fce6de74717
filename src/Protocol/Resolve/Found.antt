-- ===== src/Protocol/Resolve/Found.antt =====
-- libmaestro/src/protocol/utils.rs: the channels that can be resolved.
use pbpctrl.Prelude.{
  ℕ, ◌≡◌, refl, sym, ◌∙◌, subst, List, [], ◌∷◌, Option, none, some, Result, ok, err, All, arith,
}
use pbpctrl.Pwrpc.Status as Codes
use pbpctrl.Pwrpc.Client.{CallUpdate}
use pbpctrl.Pwrpc.Handle.{Queues, CallHandle, result}
use pbpctrl.Pwrpc.Rpc.{Started, open_unary}
use pbpctrl.Protocol.Addr.{Address, channel_id, address_for_channel}
use pbpctrl.Protocol.Resolve.{
  Tasks, OpenTasks, Chosen, channels, open_request, open_first, open_tasks, opened, first_ready,
  drop_chosen, select, resolve_channel,
}

abbrev pub HasAddress : ℕ → Type 0
HasAddress c = (a : Address) × (address_for_channel c ≡ some a)

channels-HasAddress : All HasAddress channels
unfolding channels channel_id address_for_channel
channels-HasAddress =
    ((_, refl), ((_, refl), ((_, refl), ((_, refl), ((_, refl), ((_, refl), tt))))))

abbrev AllFound : {q : Queues} → Tasks q → Type 0
AllFound tasks = All (λ t. HasAddress t.0) tasks

module _ (q : Queues) (B : Type 0) where
  open_first-AllFound :
      (channel : ℕ) (started : Started q B) (rest : q.World → OpenTasks q B)
      → HasAddress channel
      → ((w : q.World) → AllFound {q = q} (rest w).1)
      → AllFound {q = q} (open_first q channel started rest).1
  open_first-AllFound channel (err e, w) rest found more = tt
  open_first-AllFound channel (ok t, w) rest found more = (found, more w)

  open_tasks-AllFound :
      (tried : List ℕ) (queue_tx : q.QueueTx) (w : q.World)
      → All HasAddress tried
      → AllFound {q = q} (open_tasks q {B = B} tried queue_tx w).1
  unfolding open_tasks
  open_tasks-AllFound [] queue_tx w h = tt
  open_tasks-AllFound (channel ∷ later) queue_tx w h =
      open_first-AllFound channel (open_unary q queue_tx (open_request channel) [] w)
        (open_tasks q later queue_tx) h.0 (λ w'. open_tasks-AllFound later queue_tx w' h.1)

module _ (q : Queues) {B M : Type 0} (decode_message : List ℕ → Result B M) where
  opened-channel :
      (channel c : ℕ) (t : CallHandle q) (answer : Option (Result (Codes.Error B) M × CallHandle q))
      (others : Tasks q)
      → (opened q decode_message channel t answer others).0 ≡ some (ok c)
      → channel ≡ c
  opened-channel channel c t none others e = absurd (ground (arith, e))
  opened-channel channel c t (some (ok m, h)) others e = ground (arith, e)
  opened-channel channel c t (some (err x, h)) others e = absurd (ground (arith, e))

  first_ready-HasAddress :
      (tasks : Tasks q) (ready : List (Option (List CallUpdate))) (ended : Codes.Error B) (c : ℕ)
      → AllFound {q = q} tasks
      → (first_ready q decode_message tasks ready ended).0 ≡ some (ok c)
      → HasAddress c
  unfolding first_ready
  first_ready-HasAddress [] ready ended c h e = absurd (ground (arith, e))
  first_ready-HasAddress ((channel, t) ∷ tasks) [] ended c h e = absurd (ground (arith, e))
  first_ready-HasAddress ((channel, t) ∷ tasks) (none ∷ ready) ended c h e =
      first_ready-HasAddress tasks ready ended c h.1 e
  first_ready-HasAddress ((channel, t) ∷ tasks) (some updates ∷ ready) ended c h e =
      subst HasAddress
        (opened-channel channel c t (result q decode_message (record t { receiver = updates }))
          tasks e)
        h.0

  pub drop_chosen-answer :
      (chosen : Chosen q B) (w : q.World) → (drop_chosen q decode_message chosen w).0 ≡ chosen.0
  drop_chosen-answer (answer, none, others) w = refl
  drop_chosen-answer (answer, some h, others) w = refl

  select-HasAddress :
      (ready : List (Option (List CallUpdate))) (ended : Codes.Error B) (r : OpenTasks q B) (c : ℕ)
      → AllFound {q = q} r.1
      → (select q decode_message ready ended r).0 ≡ some (ok c)
      → HasAddress c
  select-HasAddress ready ended (none, tasks, w) c h e =
      first_ready-HasAddress tasks ready ended c h
        (sym (drop_chosen-answer (first_ready q decode_message tasks ready ended) w) ∙ e)
  select-HasAddress ready ended (some x, tasks, w) c h e = absurd (ground (arith, e))

  -- A channel that is resolved has an address, whatever the device answers and whichever task is
  -- first, so the packets that are then sent on it can be encoded.
  pub resolve_channel-HasAddress :
      (queue_tx : q.QueueTx) (ready : List (Option (List CallUpdate))) (ended : Codes.Error B)
      (w : q.World) (c : ℕ)
      → (resolve_channel q decode_message queue_tx ready ended w).0 ≡ some (ok c)
      → HasAddress c
  unfolding resolve_channel
  resolve_channel-HasAddress queue_tx ready ended w c e =
      select-HasAddress ready ended (open_tasks q channels queue_tx w) c
        (open_tasks-AllFound q B channels queue_tx w channels-HasAddress) e
