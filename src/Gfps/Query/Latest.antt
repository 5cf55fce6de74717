-- ===== src/Gfps/Query/Latest.antt =====
-- libgfps/examples/gfps_get_battery.rs: what the program reports.
use pbpctrl.Prelude.{ℕ, ◌+◌, ◌<◌, ◌≡◌, List, [], ◌∷◌, ◌++◌, Option, none, some, if◌then◌else◌, All}
use pbpctrl.Gfps.Query.{
  Event, received, settle, deadline_passed, Reading, is_battery_message, read_batteries,
}

abbrev pub or_else : Option Reading → Reading → Reading
or_else none r = r
or_else (some r) _ = r

module _ {E : Type 0} where
  -- The reading that an event brings.
  abbrev pub reading_of : Event E → Option Reading
  reading_of (received msg now) =
      if is_battery_message msg then read_batteries now msg.payload else none
  reading_of _ = none

  -- The last reading of all, or a given one.
  abbrev pub latest : List (Event E) → Reading → Reading
  latest [] r = r
  latest (e ∷ events) r = latest events (or_else (reading_of e) r)

  -- The deadline, or the timer when the last reading is more than half a second old.
  abbrev pub IsEnd : Event E → ℕ → Type 0
  IsEnd deadline_passed t = Unit
  IsEnd (settle now) t = t + 500 < now
  IsEnd _ t = ⊥

  abbrev pub IsQuiet : Event E → Type 0
  IsQuiet (received msg now) = Unit
  IsQuiet (settle now) = Unit
  IsQuiet _ = ⊥

  pub record Reported (events : List (Event E)) (first r : Reading) : Type 0 where
    pub front : List (Event E)
    pub last : Event E
    pub back : List (Event E)
    pub split : events ≡ front ++ last ∷ back
    pub quiet : All IsQuiet front
    pub read : r ≡ latest front first
    pub ends : IsEnd last r.timestamp
