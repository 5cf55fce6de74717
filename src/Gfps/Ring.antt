-- ===== src/Gfps/Ring.antt =====
-- libgfps/examples/ring.rs: the program that rings the buds, from its command on. What `select!` takes
-- is a list of events, in order; an event also holds the failure, if any, of what is sent because of it.
-- Printing is left out.
pub mod Acknowledge
use pbpctrl.Prelude.{
  ℕ, List, [], ◌∷◌, ◌++◌, Option, none, some, Bool, true, false, not, bit_and, ◌==◌, if◌then◌else◌,
}
use pbpctrl.Gfps.Codec.{Message}
use pbpctrl.Gfps.Events.{
  EventGroup, event_group_from, event_group_into, DeviceActionEventCode,
  device_action_event_code_from, device_action_event_code_into, AcknowledgementEventCode,
  acknowledgement_event_code_from, acknowledgement_event_code_into,
}

pub data Event (E : Type 0) : Type 0 where
  received : (msg : Message) (send_error : Option E) → Event E
  failed : E → Event E
  closed : Event E
  timeout : (send_error : Option E) → Event E

-- How a loop ends. `panicked` is an index out of the message's data.
pub data Ended (E : Type 0) : Type 0 where
  finished unsupported connection_aborted timed_out panicked : Ended E
  io_error : E → Ended E

-- `==` with one of the values.
abbrev pub is_acknowledgement : EventGroup → Bool
is_acknowledgement EventGroup.acknowledgement = true
is_acknowledgement _ = false

abbrev pub is_device_action : EventGroup → Bool
is_device_action EventGroup.device_action = true
is_device_action _ = false

abbrev pub is_ring : DeviceActionEventCode → Bool
is_ring DeviceActionEventCode.ring = true
is_ring (DeviceActionEventCode.unknown _) = false

abbrev pub ack_for : Message → Message
ack_for msg = record {
  group = event_group_into EventGroup.acknowledgement;
  code = acknowledgement_event_code_into AcknowledgementEventCode.ack;
  payload = msg.group ∷ msg.code ∷ [];
}

-- The command: 3 rings both buds, 0 none.
abbrev pub ring_message : ℕ → Message
ring_message buds = record {
  group = event_group_into EventGroup.device_action;
  code = device_action_event_code_into DeviceActionEventCode.ring;
  payload = buds ∷ [];
}

-- `none` is `continue`, or the end of the loop's body.
module _ {E : Type 0} where
  abbrev pub check_code : AcknowledgementEventCode → Option (Ended E)
  check_code AcknowledgementEventCode.ack = some finished
  check_code AcknowledgementEventCode.nak = some unsupported
  check_code (AcknowledgementEventCode.unknown _) = none

  -- The data of a message of the acknowledgement group.
  unfoldable pub check_data : ℕ → List ℕ → Option (Ended E)
  check_data code [] = some panicked
  check_data code (ack_group ∷ []) =
      if is_device_action (event_group_from ack_group) then some panicked else none
  check_data code (ack_group ∷ ack_code ∷ more) =
      if not (is_device_action (event_group_from ack_group))
      then none
      else if not (is_ring (device_action_event_code_from ack_code))
      then none
      else check_code (acknowledgement_event_code_from code)

  unfoldable pub check_ack : Message → Option (Ended E)
  check_ack msg =
      if not (is_acknowledgement (event_group_from msg.group))
      then none
      else check_data msg.code msg.payload

  abbrev pub or_else :
      Option (Ended E) × List (Event E)
      → Option (Ended E) × List (Event E)
      → Option (Ended E) × List (Event E)
  or_else (none, events) later = later
  or_else (some e, events) later = (some e, events)

  -- The first loop, which waits for the acknowledgement of the command. `none` is a loop that still
  -- waits at the end of the events; the events behind the end of the loop are left.
  unfoldable pub await_ack : List (Event E) → Option (Ended E) × List (Event E)
  await_ack [] = (none, [])
  await_ack (received msg _ ∷ events) =
      let later = await_ack events in or_else (check_ack msg, events) later
  await_ack (failed e ∷ events) = (some (io_error e), events)
  await_ack (closed ∷ events) = (some connection_aborted, events)
  await_ack (timeout _ ∷ events) = (some timed_out, events)

  unfoldable pub check_status : List ℕ → Option (Ended E)
  check_status [] = some panicked
  check_status (status ∷ more) = if bit_and status 3 == 0 then some finished else none

  -- What one event sends, and whether it ends the second loop.
  abbrev pub after_send : Option E → Option (Ended E) → Option (Ended E)
  after_send none rest = rest
  after_send (some e) rest = some (io_error e)

  unfoldable pub update_step : Event E → List Message × Option (Ended E)
  update_step (received msg send_error) =
      if not (is_device_action (event_group_from msg.group))
      then ([], none)
      else (ack_for msg ∷ [], after_send send_error (check_status msg.payload))
  update_step (failed e) = ([], some (io_error e))
  update_step closed = ([], some connection_aborted)
  update_step (timeout send_error) = (ring_message 0 ∷ [], after_send send_error none)

  abbrev pub then_updates :
      List Message × Option (Ended E)
      → List Message × Option (Ended E)
      → List Message × Option (Ended E)
  then_updates (sent, none) (later, end) = (sent ++ later, end)
  then_updates (sent, some e) later = (sent, some e)

  -- The second loop, with the messages that are sent. The new deadline behind a timeout is a later
  -- event.
  unfoldable pub await_updates : List (Event E) → List Message × Option (Ended E)
  await_updates [] = ([], none)
  await_updates (event ∷ events) =
      let later = await_updates events in then_updates (update_step event) later
