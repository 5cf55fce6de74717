-- ===== src/Examples/Settings.antt =====
-- libmaestro/examples/maestro_read_settings.rs and maestro_write_settings.rs: every setting is read
-- and printed, and one state of the noise cancellation is set.
use Prim.Native.String.{String}
use pbpctrl.Prelude.{ℕ, List, [], ◌∷◌, ◌++◌, none, some, Result, ok, err, Bool, true, false}
use pbpctrl.Pwrpc.Client.{CallUpdate}
use pbpctrl.Pwrpc.Handle.{Queues}
use pbpctrl.Service.Settings.{AncState}
use pbpctrl.Service.Settings.Value.{Floats, SettingId, SettingValue}
use pbpctrl.Service.Settings.Keys.{SettingKey, SettingType}
use pbpctrl.Service.Settings.Display.{
  Formats, text, gesture_control_text, gesture_loop_text, anc_state_text, eq_bands_text,
  volume_text,
}
use pbpctrl.Service.Messages.{Messages}
use pbpctrl.Service.Maestro.{new_maestro, read_setting, write_setting}
use pbpctrl.Cli.Session.{Failure, message, Task, on_answer}

-- The settings in the order in which they are read, with the labels.
abbrev pub reads : List (String × SettingKey)
reads =
    ("  Auto-OTA enabled:         ", SettingKey.auto_ota_enable)
    ∷ ("  OHD enabled:              ", SettingKey.ohd_enable)
    ∷ ("  OOBE finished:            ", SettingKey.oobe_is_finished)
    ∷ ("  Gestures enabled:         ", SettingKey.gesture_enable)
    ∷ ("  Diagnostics enabled:      ", SettingKey.diagnostics_enable)
    ∷ ("  OOBE mode:                ", SettingKey.oobe_mode)
    ∷ ("  Gesture control:          ", SettingKey.gesture_control)
    ∷ ("  Multi-point enabled:      ", SettingKey.multipoint_enable)
    ∷ ("  ANCR gesture loop:        ", SettingKey.ancr_gesture_loop)
    ∷ ("  ANC status:               ", SettingKey.current_ancr_state)
    ∷ ("  OTTS mode:                ", SettingKey.otts_mode)
    ∷ ("  Volume-EQ enabled:        ", SettingKey.volume_eq_enable)
    ∷ ("  Current user EQ:          ", SettingKey.current_user_eq)
    ∷ ("  Volume balance/asymmetry: ", SettingKey.volume_asymmetry)
    ∷ []

abbrev pub bool_text : Bool → String
bool_text true = "true"
bool_text false = "false"

-- `debug` is the derived text of a setting's value.
module _ (f : Floats) (formats : Formats f.F) (debug : SettingValue f.F → String) where
  unfoldable pub value_text : (key : SettingKey) → SettingType f.F key → String
  value_text SettingKey.auto_ota_enable x = bool_text x
  value_text SettingKey.ohd_enable x = bool_text x
  value_text SettingKey.oobe_is_finished x = bool_text x
  value_text SettingKey.gesture_enable x = bool_text x
  value_text SettingKey.diagnostics_enable x = bool_text x
  value_text SettingKey.oobe_mode x = bool_text x
  value_text SettingKey.gesture_control x = gesture_control_text formats x
  value_text SettingKey.multipoint_enable x = bool_text x
  value_text SettingKey.ancr_gesture_loop x = gesture_loop_text x
  value_text SettingKey.current_ancr_state x = anc_state_text formats x
  value_text SettingKey.otts_mode x = formats.int x
  value_text SettingKey.volume_eq_enable x = bool_text x
  value_text SettingKey.current_user_eq x = eq_bands_text formats x
  value_text SettingKey.volume_asymmetry x = volume_text formats x
  value_text (SettingKey.var id) x = debug x

module _ (q : Queues) {B : Type 0} (f : Floats) (messages : Messages f B) (formats : Formats f.F)
    (debug : SettingValue f.F → String) (handle : q.QueueTx) (channel : ℕ) where
  -- One `read_setting(key).await?` and the line that is printed for it.
  unfoldable pub read_line : String × SettingKey → List CallUpdate → q.World → Task q B String
  read_line (label, key) updates w =
      let (r, w') = read_setting q f messages (new_maestro q handle channel) key updates w in
      (on_answer (λ value. text (label ∷ value_text f formats debug key value ∷ [])) r, w')

  -- The lines so far, and how the task ends; the outer `none` is a panic.
  abbrev pub Printed : Type 0
  Printed = List String × Task q B (Unit {0})

  abbrev pub then_read : Task q B String → (q.World → Printed) → Printed
  then_read (none, w) rest = ([], (none, w))
  then_read (some (err e), w) rest = ([], (some (err e), w))
  then_read (some (ok line), w) rest = let more = rest w in (line ∷ more.0, more.1)

  abbrev pub then_lines : Printed → (q.World → Printed) → Printed
  then_lines (lines, (some (ok u), w)) rest = let more = rest w in (lines ++ more.0, more.1)
  then_lines (lines, (r, w)) rest = (lines, (r, w))

  -- `updates` are what the channels of the reads will deliver, one after the other.
  unfoldable pub read_lines :
      List (String × SettingKey) → List (List CallUpdate) → q.World → Printed
  read_lines [] updates w = ([], (some (ok tt), w))
  read_lines (read ∷ more) [] w = then_read (read_line read [] w) (read_lines more [])
  read_lines (read ∷ more) (u ∷ updates) w =
      then_read (read_line read u w) (read_lines more updates)

  -- `last` is what the last read's channel will deliver.
  unfoldable pub read_settings : List (List CallUpdate) → List CallUpdate → q.World → Printed
  read_settings updates last w =
      let variant : String × SettingKey =
        ("  Gesture enable: ", SettingKey.var SettingId.gesture_enable) in
      let says : List String → q.World → Printed = λ lines w'. (lines, (some (ok tt), w')) in
      then_lines (says ("" ∷ "Read via types:" ∷ []) w) (λ w1.
        then_lines (read_lines reads updates w1) (λ w2.
          then_lines (says ("" ∷ "Read via variants:" ∷ []) w2)
            (λ w3. then_read (read_line variant last w3) (says []))))

  -- The states that the argument may name.
  abbrev pub checked : AncState → Result (Failure B) AncState
  checked (AncState.unknown x) = err (message (text ("invalid ANC state " ∷ formats.int x ∷ [])))
  checked state = ok state

  unfoldable pub write_anc_state :
      AncState → List CallUpdate → q.World → List String × Task q B (Unit {0})
  write_anc_state state updates w =
      let (r, w') =
        write_setting q f messages (new_maestro q handle channel)
          (SettingValue.current_ancr_state state) updates w in
      (
        "" ∷ text ("Setting ANC status to '" ∷ anc_state_text formats state ∷ "'" ∷ []) ∷ [],
        (on_answer (λ u. u) r, w'),
      )
