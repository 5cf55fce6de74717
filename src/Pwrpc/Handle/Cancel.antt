-- ===== src/Pwrpc/Handle/Cancel.antt =====
-- libmaestro/src/pwrpc/client.rs: cancelling a call, and fetching its result.
use pbpctrl.Prelude.{
  ℕ, ◌≡◌, refl, sym, ap, ◌∙◌, List, [], ◌∷◌, ◌++◌, Result, ok, err, some, Bool, true, false,
  if◌then◌else◌, All, Bool-cases, inl, inr, arith,
}
use pbpctrl.Pwrpc.Status.{Status}
use pbpctrl.Pwrpc.Status as Codes
use pbpctrl.Pwrpc.Client.{CallUpdate, CallRequest, Done}
use pbpctrl.Pwrpc.Handle.{
  Queues, CallHandle, send_error, abandon, cancel, drop_handle, is_cancelled, wait, with_receiver,
  cancel_and_wait, take_update, result,
}

module _ (q : Queues) where
  -- Where nothing can be sent over a disconnected end of the queue, a cancelled call sends nothing
  -- more: neither cancelling nor abandoning it again does, nor dropping its handle.
  pub cancel_once :
      ((t : q.QueueTx) (r : CallRequest q.Sender) (w : q.World)
        → q.unbounded_send (q.disconnect t) r w ≡ (false, w))
      → (h : CallHandle q) (w : q.World)
      → let h' = (cancel q h w).1 in
        let w' = (cancel q h w).2 in
        ((cancel q h' w').2 ≡ w') × ((abandon q h' w').2 ≡ w') × (drop_handle q h' w' ≡ w')
  unfolding cancel abandon drop_handle send_error
  cancel_once closed h w =
      let h' = (cancel q h w).1 in
      let w' = (cancel q h w).2 in
      let again : (tx : Bool) → (send_error q h' Status.cancelled tx w').2 ≡ w' =
        λ tx. ap (λ p. p.1) (closed h.queue_tx (CallRequest.error h.uid Status.cancelled tx) w') in
      (
        again true,
        again false,
        elim (Bool-cases h.cancel_on_drop) [
          | inl yes_or ↦ rw (drop_handle, yes_or) (again true)
          | inr or_no ↦ rw (drop_handle, or_no) (again false)
        ],
      )

abbrev pub IsItem : CallUpdate → Type 0
IsItem u = (payload : List ℕ) × (u ≡ CallUpdate.stream_item payload)

module _ (q : Queues) {B : Type 0} where
  -- The first update that is no stream item, which is an error but not `cancelled`.
  pub record Failed (updates : List CallUpdate) (e : Codes.Error B) : Type 0 where
    pub items : List CallUpdate
    pub status : Status
    pub rest : List CallUpdate
    pub shape : updates ≡ items ++ CallUpdate.error status ∷ rest
    pub streamed : All IsItem items
    pub other : is_cancelled status ≡ false
    pub reported : e ≡ Codes.from_status status

  wait_err :
      (updates : List CallUpdate) (e : Codes.Error B)
      → (wait q {B = B} updates).0 ≡ err e
      → Failed updates e
  unfolding wait
  wait_err [] e h = absurd (ground (arith, h))
  wait_err (CallUpdate.stream_item payload ∷ updates) e h =
      let f = wait_err updates e h in
      record {
        items = CallUpdate.stream_item payload ∷ f.items;
        status = f.status;
        rest = f.rest;
        shape = ap (λ t. CallUpdate.stream_item payload ∷ t) f.shape;
        streamed = ((payload, refl), f.streamed);
        other = f.other;
        reported = f.reported;
      }
  wait_err (CallUpdate.complete payload status ∷ updates) e h = absurd (ground (arith, h))
  wait_err (CallUpdate.error status ∷ updates) e h = elim (Bool-cases (is_cancelled status)) [
    | inl is ↦ absurd (ground (arith, is, h))
    | inr other ↦ record {
      items = [];
      status = status;
      rest = updates;
      shape = refl;
      streamed = tt;
      other = other;
      reported = ground (arith, other, h);
    }
  ]

  -- `cancel_and_wait` fails only with the status of the first update that is no stream item, which
  -- is then an error other than `cancelled`.
  pub cancel_and_wait_err :
      (h : CallHandle q) (w : q.World) (e : Codes.Error B)
      → (cancel_and_wait q h w).0 ≡ err e
      → Failed h.receiver e
  unfolding cancel_and_wait cancel send_error
  cancel_and_wait_err h w e failed =
      let sent = q.unbounded_send h.queue_tx (CallRequest.error h.uid Status.cancelled true) w in
      let h' = (cancel q h w).1 in
      let whole : (b : Bool) → Done (Codes.Error B) × CallHandle q × q.World =
        λ b. if b then with_receiver q h' sent.1 (wait q h.receiver) else (ok tt, h', sent.1) in
      elim (Bool-cases sent.0) [
        | inl went ↦ wait_err h.receiver e (ap (λ b. (whole b).0) (sym went) ∙ failed)
        | inr lost ↦
            let silent : (whole false).0 ≡ err e = ap (λ b. (whole b).0) (sym lost) ∙ failed in
            absurd (ground (arith, silent))
      ]

  take_update-receiver :
      {M : Type 0} (decode_message : List ℕ → Result B M) (h h' : CallHandle q) (u : CallUpdate)
      (r : Result (Codes.Error B) M)
      → take_update q decode_message h u ≡ some (r, h')
      → h'.receiver ≡ h.receiver
  take_update-receiver decode_message h h' (CallUpdate.complete payload Status.ok) r e =
      ground (arith, e)
  take_update-receiver decode_message h h' (CallUpdate.complete payload status) r e =
      ground (arith, e)
  take_update-receiver decode_message h h' (CallUpdate.error status) r e = ground (arith, e)
  take_update-receiver decode_message h h' (CallUpdate.stream_item payload) r e = ground (arith, e)

  result-one :
      {M : Type 0} (decode_message : List ℕ → Result B M) (h : CallHandle q) (u : CallUpdate)
      → h.receiver ≡ u ∷ []
      → result q decode_message h ≡ take_update q decode_message (record h { receiver = [] }) u
  unfolding result
  result-one decode_message h u one = rw (result, one) refl

  -- The result of a call can be fetched once: where one update is left, a second call of `result`
  -- reports that, and changes nothing.
  pub result_once :
      {M : Type 0} (decode_message : List ℕ → Result B M) (h h' : CallHandle q) (u : CallUpdate)
      (r : Result (Codes.Error B) M)
      → h.receiver ≡ u ∷ []
      → result q decode_message h ≡ some (r, h')
      → result q decode_message h'
        ≡ some
            (err (Codes.new Status.resource_exhausted "cannot fetch result() multiple times"), h')
  unfolding result
  result_once decode_message h h' u r one fetched =
      let left =
        take_update-receiver decode_message (record h { receiver = [] }) h' u r
          (sym (result-one decode_message h u one) ∙ fetched) in
      simp (result, left)
