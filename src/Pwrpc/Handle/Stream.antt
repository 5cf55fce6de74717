-- ===== src/Pwrpc/Handle/Stream.antt =====
-- libmaestro/src/pwrpc/client.rs: ServerStream. A poll that has to wait for the next update changes
-- nothing and is left out. `close_receiver` is what a closed receiver still delivers.
use pbpctrl.Prelude.{
  ℕ, zero, suc, ◌<◌, ◌≡◌, refl, ap, List, [], ◌∷◌, ◌++◌, length, Option, none, some, Result, ok,
  err, true, false, arith,
}
use mathlib.Core.List as Lst
use pbpctrl.Pwrpc.Status.{Status}
use pbpctrl.Pwrpc.Status as Codes
use pbpctrl.Pwrpc.Client.{CallUpdate}
use pbpctrl.Pwrpc.Client.Callers.{is_item}
use pbpctrl.Pwrpc.Handle.{Queues, CallHandle, send_error, decoded}

module _ (q : Queues) (close_receiver : List CallUpdate → List CallUpdate) {B M : Type 0}
    (decode_message : List ℕ → Result B M) where
  abbrev pub Item : Type 0
  Item = Result (Codes.Error B) M

  abbrev pub Polled : Type 0
  Polled = Option Item × CallHandle q × q.World

  -- What does not decode is reported to the client, and the stream goes on.
  abbrev pub poll_item : CallHandle q → q.World → Result B M → Polled
  poll_item h w (ok message) = (some (ok message), h, w)
  poll_item h w (err e) =
      let (sent, h', w') = send_error q h Status.invalid_argument true w in
      (some (err (Codes.from_decode_error e)), h', w')

  abbrev pub end_stream : CallHandle q → CallHandle q
  end_stream h = record h {
    receiver = close_receiver h.receiver;
    queue_tx = q.disconnect h.queue_tx;
  }

  abbrev pub poll_update : CallHandle q → CallUpdate → q.World → Polled
  poll_update h (CallUpdate.stream_item payload) w = poll_item h w (decode_message payload)
  poll_update h (CallUpdate.complete payload status) w = (none, end_stream h, w)
  poll_update h (CallUpdate.error status) w =
      (some (err (Codes.from_status status)), end_stream h, w)

  unfoldable pub poll_next : CallHandle q → q.World → Polled
  poll_next h w = elim h.receiver [
    | [] ↦ (none, h, w)
    | update ∷ updates ↦ poll_update (record h { receiver = updates }) update w
  ]

  abbrev pub read_more :
      Polled → (CallHandle q → q.World → List Item × CallHandle q) → List Item × CallHandle q
  read_more (none, h, w) rest = ([], h)
  read_more (some item, h, w) rest = let more = rest h w in (item ∷ more.0, more.1)

  -- All items of the stream, by at most that many polls.
  unfoldable pub read_all : ℕ → CallHandle q → q.World → List Item × CallHandle q
  read_all zero h w = ([], h)
  read_all (suc fuel) h w = read_more (poll_next h w) (read_all fuel)

  abbrev pub item : List ℕ → Item
  item payload = decoded q decode_message (decode_message payload)

  abbrev pub end_items : CallUpdate → List Item
  end_items (CallUpdate.error status) = err (Codes.from_status status) ∷ []
  end_items _ = []

  read_more_lem :
      (h : CallHandle q) (w : q.World) (r : Result B M)
      (rest : CallHandle q → q.World → List Item × CallHandle q) (items : List Item)
      → ((h' : CallHandle q) (w' : q.World)
          → h'.receiver ≡ h.receiver
          → ((rest h' w').0 ≡ items) × ((rest h' w').1.receiver ≡ []))
      → ((read_more (poll_item h w r) rest).0 ≡ decoded q decode_message r ∷ items)
        × ((read_more (poll_item h w r) rest).1.receiver ≡ [])
  unfolding send_error
  read_more_lem h w (ok m) rest items more =
      let (read, left) = more h w refl in (ap (λ l. ok m ∷ l) read, left)
  read_more_lem h w (err e) rest items more =
      let sent = send_error q h Status.invalid_argument true w in
      let (read, left) = more sent.1 sent.2 refl in
      (ap (λ l. err (Codes.from_decode_error e) ∷ l) read, left)

  -- Behind the last update the receiver is empty, closed or not.
  module _ (closed_empty : close_receiver [] ≡ []) where
    read_all_empty :
        (fuel : ℕ) (h : CallHandle q) (w : q.World)
        → h.receiver ≡ []
        → ((read_all fuel h w).0 ≡ []) × ((read_all fuel h w).1.receiver ≡ [])
    unfolding read_all poll_next
    read_all_empty zero h w e = (refl, e)
    read_all_empty (suc fuel) h w e = rw (read_all, poll_next, e) (refl, e)

    read_all_last :
        (fuel : ℕ) (last : CallUpdate) (h : CallHandle q) (w : q.World)
        → is_item last ≡ false
        → h.receiver ≡ last ∷ []
        → ((read_all (suc fuel) h w).0 ≡ end_items last)
          × ((read_all (suc fuel) h w).1.receiver ≡ [])
    unfolding read_all poll_next
    read_all_last fuel (CallUpdate.complete payload status) h w final e =
        rw (poll_next, e) (refl, closed_empty)
    read_all_last fuel (CallUpdate.error status) h w final e =
        let ended = record h { receiver = close_receiver []; queue_tx = q.disconnect h.queue_tx } in
        let (read, left) = read_all_empty fuel ended w closed_empty in
        rw (poll_next, e) (ap (λ l. err (Codes.from_status status) ∷ l) read, left)
    read_all_last fuel (CallUpdate.stream_item payload) h w final e = absurd (ground (arith, final))

    -- A stream yields every item's payload, decoded or as a decoding error, in the order in which
    -- the channel delivers them, then the error that ended the call, if one did. One poll for each
    -- item and one for the last update read it to its end, after which its channel is empty. A
    -- closed receiver that is empty has nothing to deliver.
    pub read_all_lem :
        (payloads : List (List ℕ)) (last : CallUpdate) (fuel : ℕ) (h : CallHandle q) (w : q.World)
        → is_item last ≡ false
        → h.receiver ≡ Lst.map CallUpdate.stream_item payloads ++ last ∷ []
        → length payloads < fuel
        → ((read_all fuel h w).0 ≡ Lst.map item payloads ++ end_items last)
          × ((read_all fuel h w).1.receiver ≡ [])
    unfolding read_all poll_next
    read_all_lem payloads last zero h w final e enough = absurd (omega arith)
    read_all_lem [] last (suc fuel) h w final e enough = read_all_last fuel last h w final e
    read_all_lem (p ∷ payloads) last (suc fuel) h w final e enough =
        let rest = Lst.map CallUpdate.stream_item payloads ++ last ∷ [] in
        rw (read_all, poll_next, e)
          (read_more_lem (record h { receiver = rest }) w (decode_message p) (read_all fuel)
            (Lst.map item payloads ++ end_items last)
            (λ h' w' e'. read_all_lem payloads last fuel h' w' final e' (omega arith)))
