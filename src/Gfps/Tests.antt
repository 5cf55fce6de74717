-- ===== src/Gfps/Tests.antt =====
-- libgfps/src/msg: the theorems at concrete messages.
use pbpctrl.Prelude.{
  ℕ, List, none, refl, ◌+◌, ◌≡◌, [], ◌∷◌, ◌++◌, some, ok, err, if◌then◌else◌, ltb, length, arith,
}
use pbpctrl.Gfps.Codec.{Message, invalid_input, decode, encode}
use pbpctrl.Gfps.Codec.RoundTrip.{bytes, encode-bytes, decode-bytes}
use pbpctrl.Gfps.Ring as Ring
use pbpctrl.Gfps.Connect as Connect
use pbpctrl.Gfps.Connect.{connect_device_to_profile}
use pbpctrl.Gfps.Ring.{Event, await_ack, await_updates, update_step, check_status}
use pbpctrl.Gfps.Ring.Acknowledge.{Finished, await_updates_finished, await_ack-nak}
use pbpctrl.Gfps.Events.{event_group_from}

abbrev battery : Message
battery = record { group = 3; code = 3; payload = 100 ∷ 90 ∷ 0x7F ∷ [] }

encode-bytes_example : encode battery (1 ∷ []) ≡ (
    if ltb 4092 (length battery.payload)
    then err (invalid_input (length battery.payload + 4))
    else ok ((1 ∷ []) ++ bytes battery))
encode-bytes_example = encode-bytes battery (1 ∷ [])

decode-bytes_example : decode (bytes battery ++ 7 ∷ []) ≡ (ok (some battery), 7 ∷ [])
decode-bytes_example = decode-bytes battery (7 ∷ []) (omega arith)

abbrev update : ℕ → Message
update status = record { group = 4; code = 1; payload = status ∷ [] }

-- The buds ring, report a battery, and stop behind a timeout.
abbrev events : List (Event ℕ)
events =
    Ring.received (update 3) none
    ∷ Ring.received battery none
    ∷ Ring.timeout none
    ∷ Ring.received (update 0) none
    ∷ Ring.closed
    ∷ []

stopped : (await_updates events).1 ≡ some Ring.finished
unfolding await_updates update_step check_status event_group_from
stopped = refl

await_updates_finished_example : Finished events (await_updates events).0
await_updates_finished_example = await_updates_finished events stopped

await_ack-nak_example :
    await_ack {E = ℕ} (
      Ring.received (record { group = 255; code = 2; payload = 1 ∷ 4 ∷ 1 ∷ [] }) none
      ∷ Ring.timeout none
      ∷ [])
    ≡ await_ack (Ring.timeout none ∷ [])
await_ack-nak_example = await_ack-nak 1 [] none (Ring.timeout none ∷ [])

-- A failed attempt, a stranger's request, and the device's own.
abbrev connecting : List (Connect.Event ℕ ℕ)
connecting =
    Connect.attempted (err 1)
    ∷ Connect.requested (record { device = 8; accept = ok 80 })
    ∷ Connect.requested (record { device = 3; accept = ok 30 })
    ∷ Connect.no_requests
    ∷ []

connected : (connect_device_to_profile 3 connecting).1 ≡ Connect.accepts (ok 30)
unfolding connect_device_to_profile
connected = refl
