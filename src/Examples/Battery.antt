-- ===== src/Examples/Battery.antt =====
-- libmaestro/examples/maestro_get_battery.rs: the batteries' levels, from the runtime information.
use Prim.Native.String.{String}
use pbpctrl.Prelude.{
  ℕ, ◌≡◌, ap, List, [], ◌∷◌, Option, none, some, Result, ok, err, Bool, true, false, ◌==◌,
  if◌then◌else◌, arith,
}
use pbpctrl.Pwrpc.Status as Codes
use pbpctrl.Pwrpc.Client.{CallUpdate, Done}
use pbpctrl.Pwrpc.Handle.{Queues, CallHandle, drop_handle, cancel_and_wait, call, request_uid}
use pbpctrl.Pwrpc.Handle.Stream.{Polled, poll_next, poll_item}
use pbpctrl.Pwrpc.Rpc.{Started, request_for, server_stream_call}
use pbpctrl.Service.Settings.{ℤ, pos, negsuc}
use pbpctrl.Service.Settings.Display.{text}
use pbpctrl.Service.Messages.{DeviceBatteryInfo, RuntimeInfo}
use pbpctrl.Service.Maestro.{new_maestro, subscribe_to_runtime_info}
use pbpctrl.Cli.Session.{Failure, rpc, message}

module _ (int : ℤ → String) where
  -- What follows the level.
  unfoldable pub state_text : ℤ → String
  state_text (pos n) =
      if n == 1
      then "% (not charging)"
      else if n == 2
      then "% (charging)"
      else text ("% (unknown state: " ∷ int (pos n) ∷ ")" ∷ [])
  state_text (negsuc n) = text ("% (unknown state: " ∷ int (negsuc n) ∷ ")" ∷ [])

  abbrev pub level_line : String → String → Option DeviceBatteryInfo → String
  level_line known unknown (some info) = text (known ∷ int info.level ∷ state_text info.state ∷ [])
  level_line known unknown none = text (unknown ∷ "unknown" ∷ [])

  -- `none` is the panic of `expect`.
  unfoldable pub report : RuntimeInfo → Option (List String)
  report info = elim info.battery_info [
    | none ↦ none
    | some battery ↦ some (
        "Battery status:"
        ∷ level_line "  case:  " "  case: " battery.case
        ∷ level_line "  left:  " "  left: " battery.left
        ∷ level_line "  right: " "  right: " battery.right
        ∷ [])
  ]

module _ (q : Queues) {B : Type 0} (close_receiver : List CallUpdate → List CallUpdate)
    (decode_runtime : List ℕ → Result B RuntimeInfo) where
  abbrev pub Got : Type 0
  Got = Result (Failure B) RuntimeInfo × q.World

  -- `call.cancel_and_wait().await?`, and the end of the function.
  abbrev pub after_cancel : RuntimeInfo → Done (Codes.Error B) × CallHandle q × q.World → Got
  after_cancel info (ok u, h, w) = (ok info, drop_handle q h w)
  after_cancel info (err e, h, w) = (err (rpc e), drop_handle q h w)

  abbrev pub after_poll : Polled q close_receiver decode_runtime → Got
  after_poll (none, h, w) =
      (err (message "did not receive any runtime-info event"), drop_handle q h w)
  after_poll (some (err e), h, w) = (err (rpc e), drop_handle q h w)
  after_poll (some (ok info), h, w) = after_cancel info (cancel_and_wait q h w)

  abbrev pub first_info : Started q B → Got
  first_info (err e, w) = (err (rpc e), w)
  first_info (ok h, w) = after_poll (poll_next q close_receiver decode_runtime h w)

  unfoldable pub get_battery : q.QueueTx → ℕ → List CallUpdate → q.World → Got
  get_battery handle channel updates w =
      first_info (subscribe_to_runtime_info q (new_maestro q handle channel) updates w)

  -- The update that the stream's channel delivers first.
  abbrev pub FirstIs : List CallUpdate → RuntimeInfo → Type 0
  FirstIs [] info = ⊥
  FirstIs (CallUpdate.stream_item payload ∷ updates) info = decode_runtime payload ≡ ok info
  FirstIs (_ ∷ updates) info = ⊥

  after_cancel_ok :
      (info got : RuntimeInfo) (done : Done (Codes.Error B) × CallHandle q × q.World)
      → (after_cancel info done).0 ≡ ok got
      → info ≡ got
  after_cancel_ok info got (ok u, h, w) e = ground (arith, e)
  after_cancel_ok info got (err x, h, w) e = absurd (ground (arith, e))

  after_item_ok :
      (h : CallHandle q) (w : q.World) (r : Result B RuntimeInfo) (got : RuntimeInfo)
      → (after_poll (poll_item q close_receiver decode_runtime h w r)).0 ≡ ok got
      → r ≡ ok got
  after_item_ok h w (ok info) got e = ap ok (after_cancel_ok info got (cancel_and_wait q h w) e)
  after_item_ok h w (err x) got e = absurd (ground (arith, e))

  first_update_ok :
      (h : CallHandle q) (w : q.World) (updates : List CallUpdate) (got : RuntimeInfo)
      → (after_poll
          (poll_next q close_receiver decode_runtime (record h { receiver = updates }) w)).0
        ≡ ok got
      → FirstIs updates got
  unfolding poll_next
  first_update_ok h w [] got e = absurd (ground (arith, e))
  first_update_ok h w (CallUpdate.stream_item payload ∷ updates) got e =
      after_item_ok (record h { receiver = updates }) w (decode_runtime payload) got e
  first_update_ok h w (CallUpdate.complete payload status ∷ updates) got e =
      absurd (ground (arith, e))
  first_update_ok h w (CallUpdate.error status ∷ updates) got e = absurd (ground (arith, e))

  -- Whether the request could be sent or not.
  started_ok :
      (sent : Bool) (h : CallHandle q) (x : Codes.Error B) (w : q.World) (updates : List CallUpdate)
      (got : RuntimeInfo)
      → (first_info (if sent then ok (record h { receiver = updates }) else err x, w)).0 ≡ ok got
      → FirstIs updates got
  started_ok true h x w updates got e = first_update_ok h w updates got e
  started_ok false h x w updates got e = absurd (ground (arith, e))

  -- The information that the program reports is what the first update of its subscription holds.
  pub get_battery_first :
      (handle : q.QueueTx) (channel : ℕ) (updates : List CallUpdate) (w : q.World)
      (got : RuntimeInfo)
      → (get_battery handle channel updates w).0 ≡ ok got
      → FirstIs updates got
  unfolding get_battery subscribe_to_runtime_info server_stream_call call
  get_battery_first handle channel updates w got e =
      let service = new_maestro q handle channel in
      let h : CallHandle q = record {
        uid = request_uid (request_for service.rpc_sub_runtime_info.path channel 0 []);
        queue_tx = handle;
        receiver = updates;
        cancel_on_drop = true;
      } in
      started_ok _ h _ _ updates got e
