-- ===== src/Service/Maestro/Reading.antt =====
-- libmaestro/src/service/impls/maestro.rs: reading a setting from what the device answers.
use pbpctrl.Prelude.{
  ℕ, ◌≡◌, ◌↔◌, refl, sym, ap, ◌∙◌, List, ◌∷◌, Option, none, some, Result, ok, true, arith,
}
use pbpctrl.Pwrpc.Status.{Status}
use pbpctrl.Pwrpc.Status as Codes
use pbpctrl.Pwrpc.Client.{CallUpdate, CallRequest}
use pbpctrl.Pwrpc.Handle.{Queues, call, result, decoded}
use pbpctrl.Pwrpc.Rpc.{UnaryRpc, unary_call, await_result}
use pbpctrl.Service.Settings.Value.{Floats, ValueOneof, value_from, value_into}
use pbpctrl.Service.Settings.Value.RoundTrip.{IsSendable, value_from-value_into}
use pbpctrl.Service.Settings.Keys.{SettingKey, SettingType, from_var}
use pbpctrl.Service.Settings.Keys.Typed.{setting_of, from_var_iff}
use pbpctrl.Service.Messages.{WriteOneof, WriteSettingMsg, SettingsOneof, SettingsRsp, Messages}
use pbpctrl.Service.Maestro.{
  MaestroService, write_setting_msg, and_then, or_undecodable, read_setting_raw, read_setting_var,
  read_setting,
}

-- The answer that carries a value.
abbrev pub answer : {F : Type 0} → ValueOneof F → SettingsRsp F
answer v = record { value_oneof = some (SettingsOneof.value (record { value_oneof = some v })) }

-- The answer that gives back what was written.
abbrev pub echo_value : {F : Type 0} → Option (WriteOneof F) → Option (SettingsOneof F)
echo_value none = none
echo_value (some (WriteOneof.setting m)) = some (SettingsOneof.value m)

abbrev pub echo : {F : Type 0} → WriteSettingMsg F → SettingsRsp F
echo m = record { value_oneof = echo_value m.value_oneof }

-- The request queue takes every request.
abbrev pub IsOpen : (q : Queues) → q.QueueTx → Type 0
IsOpen q queue_tx =
    (r : CallRequest q.Sender) (w : q.World) → (q.unbounded_send queue_tx r w).0 ≡ true

and_then-ok :
    {W B M N : Type 0} (a : Option (Result (Codes.Error B) M) × W)
    (rest : M → Result (Codes.Error B) N) (m : M)
    → a.0 ≡ some (ok m)
    → (and_then a rest).0 ≡ some (rest m)
and_then-ok a rest m e = ap (λ x. (and_then (x, a.1) rest).0) e

module _ (q : Queues) {B : Type 0} where
  await_result-complete :
      {M : Type 0} (decode_message : List ℕ → Result B M) (rpc : UnaryRpc) (queue_tx : q.QueueTx)
      (channel_id call_id : ℕ) (message payload : List ℕ) (more : List CallUpdate) (w : q.World)
      → IsOpen q queue_tx
      → (await_result q decode_message (
          unary_call q rpc queue_tx channel_id call_id message
            (CallUpdate.complete payload Status.ok ∷ more)
            w)).0
        ≡ some (decoded q decode_message (decode_message payload))
  unfolding await_result unary_call call result
  await_result-complete decode_message rpc queue_tx channel_id call_id message payload more w
        is_open =
      rw (is_open _ _) refl

  module _ (f : Floats) (messages : Messages f B) (s : MaestroService q) where
    read_setting-answer :
        (key : SettingKey) (payload : List ℕ) (more : List CallUpdate) (w : q.World)
        (v : ValueOneof f.F)
        → IsOpen q s.client
        → messages.decode_settings_rsp payload ≡ ok (answer v)
        → (read_setting q f messages s key (CallUpdate.complete payload Status.ok ∷ more) w).0
          ≡ some (or_undecodable (from_var key (value_from v)))
    unfolding read_setting read_setting_var read_setting_raw
    read_setting-answer key payload more w v is_open answered =
        let raw =
          await_result-complete messages.decode_settings_rsp s.rpc_read_setting s.client
            s.channel_id 0 _ payload more w is_open in
        and_then-ok _ _ (value_from v) (
          and_then-ok _ _ (answer v)
            (raw ∙ ap (λ r. some (decoded q messages.decode_settings_rsp r)) answered))

    or_undecodable_iff :
        {A : Type 0} (found : Option A) (x : A)
        → (some (or_undecodable {B = B} found) ≡ some (ok x)) ↔ (found ≡ some x)
    or_undecodable_iff none x =
        ((λ e. absurd (ground (arith, e))), (λ e. absurd (ground (arith, e))))
    or_undecodable_iff (some y) x = ((λ e. ground (arith, e)), (λ e. ground (arith, e)))

    -- Where the request queue is open and the device answers the call with a value, a setting is read
    -- as `x` exactly if the answered value is the setting of the asked key with the value `x`.
    pub read_setting_iff :
        (key : SettingKey) (payload : List ℕ) (more : List CallUpdate) (w : q.World)
        (v : ValueOneof f.F) (x : SettingType f.F key)
        → IsOpen q s.client
        → messages.decode_settings_rsp payload ≡ ok (answer v)
        → ((read_setting q f messages s key (CallUpdate.complete payload Status.ok ∷ more) w).0
            ≡ some (ok x))
          ↔ (value_from v ≡ setting_of f.F key x)
    read_setting_iff key payload more w v x is_open answered =
        let read = read_setting-answer key payload more w v is_open answered in
        let (there, back) = or_undecodable_iff (from_var key (value_from v)) x in
        let (typed, untyped) = from_var_iff f.F key (value_from v) x in
        ((λ e. typed (there (sym read ∙ e))), (λ e. read ∙ back (untyped e)))

    -- A setting that can be sent, asked for by its own key, is read as it was written where the device
    -- answers with what the message of `write_setting` holds.
    pub read_setting-write_setting_msg :
        (key : SettingKey) (x : SettingType f.F key) (payload : List ℕ) (more : List CallUpdate)
        (w : q.World)
        → IsSendable f (setting_of f.F key x)
        → IsOpen q s.client
        → messages.decode_settings_rsp payload
          ≡ ok (echo (write_setting_msg f (setting_of f.F key x)))
        → (read_setting q f messages s key (CallUpdate.complete payload Status.ok ∷ more) w).0
          ≡ some (ok x)
    read_setting-write_setting_msg key x payload more w sendable is_open answered =
        (read_setting_iff key payload more w (value_into f (setting_of f.F key x)) x is_open
            answered).1
          (value_from-value_into f (setting_of f.F key x) sendable)
