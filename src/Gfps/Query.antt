-- ===== src/Gfps/Query.antt =====
-- libgfps/examples/gfps_get_battery.rs: the program that waits for the levels of the batteries. What
-- `select!` takes is a list of events, in order, with the time of `Instant::now`, in milliseconds, where
-- the source reads it.
pub mod Latest
mod Tests
use Prim.Native.String.{String}
use pbpctrl.Prelude.{
  ℕ, ◌-◌, List, [], ◌∷◌, Option, none, some, Result, ok, err, Bool, true, false, ltb, if◌then◌else◌,
}
use pbpctrl.Service.Settings.Display.{text}
use pbpctrl.Gfps.Codec.{Message}
use pbpctrl.Gfps.Battery.{BatteryInfo, from_byte, battery_text}
use pbpctrl.Gfps.Events.{EventGroup, event_group_from, DeviceEventCode, device_event_code_from}

pub data Event (E : Type 0) : Type 0 where
  received : (msg : Message) (now : ℕ) → Event E
  failed : E → Event E
  closed : Event E
  -- The timer of half a second, and the deadline.
  settle : (now : ℕ) → Event E
  deadline_passed : Event E

-- The loop's variables.
pub record Reading : Type 0 where
  pub timestamp : ℕ
  pub bat_left : BatteryInfo
  pub bat_right : BatteryInfo
  pub bat_case : BatteryInfo

abbrev pub start : ℕ → Reading
start deadline = record {
  timestamp = deadline;
  bat_left = BatteryInfo.unknown;
  bat_right = BatteryInfo.unknown;
  bat_case = BatteryInfo.unknown;
}

-- How the loop ends. `panicked` is an index out of the message's data.
pub data Ended (E : Type 0) : Type 0 where
  reports : Reading → Ended E
  io_error : E → Ended E
  connection_aborted panicked : Ended E

abbrev pub time_settle : ℕ
time_settle = 500

-- `==` with one of the values.
abbrev pub is_device : EventGroup → Bool
is_device EventGroup.device = true
is_device _ = false

abbrev pub is_battery_info : DeviceEventCode → Bool
is_battery_info DeviceEventCode.battery_info = true
is_battery_info _ = false

abbrev pub is_battery_message : Message → Bool
is_battery_message msg =
    if is_device (event_group_from msg.group)
    then is_battery_info (device_event_code_from msg.code)
    else false

-- `none` is a panic.
unfoldable pub read_batteries : ℕ → List ℕ → Option Reading
read_batteries now (left ∷ right ∷ case ∷ _) = some (record {
  timestamp = now;
  bat_left = from_byte left;
  bat_right = from_byte right;
  bat_case = from_byte case;
})
read_batteries now _ = none

module _ {E : Type 0} where
  abbrev pub or_panic : Option Reading → Result (Ended E) Reading
  or_panic none = err panicked
  or_panic (some r) = ok r

  -- One round of the loop. A difference of times is 0 at least.
  unfoldable pub round : Reading → Event E → Result (Ended E) Reading
  round r (received msg now) =
      if is_battery_message msg then or_panic (read_batteries now msg.payload) else ok r
  round r (failed e) = err (io_error e)
  round r closed = err connection_aborted
  round r (settle now) = if ltb time_settle (now - r.timestamp) then err (reports r) else ok r
  round r deadline_passed = err (reports r)

  abbrev pub continue : Result (Ended E) Reading → (Reading → Option (Ended E)) → Option (Ended E)
  continue (err end) rest = some end
  continue (ok r) rest = rest r

  -- `none` while the loop goes on.
  unfoldable pub query_loop : Reading → List (Event E) → Option (Ended E)
  query_loop r [] = none
  query_loop r (e ∷ events) = continue (round r e) (λ r'. query_loop r' events)

  unfoldable pub query : ℕ → List (Event E) → Option (Ended E)
  query deadline events = query_loop (start deadline) events

unfoldable pub report : (ℕ → String) → Reading → List String
report int r =
    "Battery status:"
    ∷ text ("  left bud:  " ∷ battery_text int r.bat_left ∷ [])
    ∷ text ("  right bud: " ∷ battery_text int r.bat_right ∷ [])
    ∷ text ("  case:      " ∷ battery_text int r.bat_case ∷ [])
    ∷ []
