-- ===== src/Gfps/Query/Tests.antt =====
-- libgfps/examples/gfps_get_battery.rs: two messages, and the timer behind the second.
use pbpctrl.Prelude.{ℕ, List, [], ◌∷◌, true, false}
use pbpctrl.Gfps.Codec.{Message}
use pbpctrl.Gfps.Battery.{BatteryInfo}
use pbpctrl.Gfps.Query.{Event, received, settle, deadline_passed, Reading}

abbrev levels : ℕ → Message
levels right = record { group = 3; code = 3; payload = 100 ∷ right ∷ 0xFF ∷ [] }

abbrev events : List (Event ℕ)
events =
    received (levels 0xFF) 100
    ∷ received (record { group = 4; code = 1; payload = [] }) 150
    ∷ settle 600
    ∷ received (levels 0x85) 650
    ∷ settle 1100
    ∷ settle 1600
    ∷ deadline_passed
    ∷ []

abbrev second : Reading
second = record {
  timestamp = 650;
  bat_left = BatteryInfo.known false 100;
  bat_right = BatteryInfo.known true 5;
  bat_case = BatteryInfo.unknown;
}
