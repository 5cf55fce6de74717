-- ===== src/Service/Tests.antt =====
-- libmaestro/src/service: the theorems at concrete settings.
use pbpctrl.Prelude.{
  ℕ, ◌≡◌, ◌↔◌, refl, List, [], ◌∷◌, length, Bool, true, false, ltb, if◌then◌else◌, none, some,
  Result, ok, err,
}
use pbpctrl.Pwrpc.Status.{Status}
use pbpctrl.Pwrpc.Client.{CallUpdate, CallRequest}
use pbpctrl.Pwrpc.Handle.{Queues}
use pbpctrl.Service.Settings.Value.{
  Floats, EqBands, SettingValue, ValueOneof, value_from, value_into, eq_bands_into,
}
use pbpctrl.Service.Settings.Value.RoundTrip.{IsSendable}
use pbpctrl.Service.Settings.Keys.{SettingKey, from_var}
use pbpctrl.Service.Settings.Keys.Typed.{setting_of, from_var_iff}
use pbpctrl.Service.Settings.Display.Balance.{Shares, from_normalized-Shares}
use pbpctrl.Service.Messages.{SettingsRsp, Messages}
use pbpctrl.Service.Maestro.{MaestroService, new_maestro, write_setting_msg, read_setting}
use pbpctrl.Service.Maestro.Reading.{answer, echo, read_setting_iff}
use pbpctrl.Service.Settings.{pos, negsuc, from_normalized, GestureControlMessage}

abbrev one_side : GestureControlMessage
one_side = record { left = some (record { value_oneof = some (pos 5) }); right = none }

-- Bands in half steps above -6.0.
abbrev half_steps : Floats
half_steps = record {
  F = ℕ;
  zero_band = 12;
  clamp = λ x. if ltb 24 x then 24 else x;
  above_max = λ x. ltb 24 x;
  below_min = λ x. false;
}

abbrev bands : EqBands ℕ
bands = record { low_bass = 0; bass = 6; mid = 12; treble = 18; upper_treble = 24 }

from_var_iff_example :
    (from_var {F = ℕ} SettingKey.otts_mode (SettingValue.otts_mode (pos 3)) ≡ some (pos 3))
    ↔ (SettingValue.otts_mode (pos 3) ≡ setting_of ℕ SettingKey.otts_mode (pos 3))
from_var_iff_example = from_var_iff ℕ SettingKey.otts_mode (SettingValue.otts_mode (pos 3)) (pos 3)

from_normalized-Shares_example : Shares (from_normalized (negsuc 29))
from_normalized-Shares_example = from_normalized-Shares (negsuc 29)

-- A device whose answers are five bands, or one number for the mode.
abbrev decode_answer : List ℕ → Result ℕ (SettingsRsp ℕ)
decode_answer (a ∷ b ∷ c ∷ d ∷ e ∷ []) = ok (
    answer (
      ValueOneof.current_user_eq
        (record { low_bass = a; bass = b; mid = c; treble = d; upper_treble = e })))
decode_answer (n ∷ []) = ok (answer (ValueOneof.otts_mode (pos n)))
decode_answer _ = err 1

abbrev device : Messages half_steps ℕ
device = record {
  encode_read_setting = λ m. 1 ∷ [];
  encode_write_setting = λ m. 2 ∷ [];
  decode_software_info = λ bs. err 1;
  decode_hardware_info = λ bs. err 1;
  decode_settings_rsp = decode_answer;
  decode_unit = λ bs. ok tt;
}

abbrev open_queue : Queues
open_queue = record {
  World = List (CallRequest ℕ);
  Sender = ℕ;
  QueueTx = Bool;
  unbounded = λ w. (length w, w);
  unbounded_send = λ t r w. if t then (true, r ∷ w) else (false, w);
  is_closed = λ t w. if t then false else true;
  disconnect = λ t. false;
}

abbrev service : MaestroService open_queue
service = new_maestro open_queue true 19

read_setting_iff_example :
    ((read_setting open_queue half_steps device service SettingKey.otts_mode
        (CallUpdate.complete (3 ∷ []) Status.ok ∷ [])
        []).0
      ≡ some (ok (pos 3)))
    ↔ (value_from (ValueOneof.otts_mode (pos 3)) ≡ setting_of ℕ SettingKey.otts_mode (pos 3))
read_setting_iff_example =
    read_setting_iff open_queue half_steps device service SettingKey.otts_mode (3 ∷ []) [] []
      (ValueOneof.otts_mode (pos 3)) (pos 3) (λ r w. refl) refl

echoed :
    decode_answer (0 ∷ 6 ∷ 12 ∷ 18 ∷ 24 ∷ [])
    ≡ ok (echo (write_setting_msg half_steps (setting_of ℕ SettingKey.current_user_eq bands)))
unfolding value_into eq_bands_into setting_of
echoed = refl

bands-IsSendable : IsSendable half_steps (setting_of ℕ SettingKey.current_user_eq bands)
unfolding setting_of
bands-IsSendable = (refl, refl, refl, refl, refl)
