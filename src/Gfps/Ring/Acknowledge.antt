-- ===== src/Gfps/Ring/Acknowledge.antt =====
-- libgfps/examples/ring.rs: which answers the program recognizes, and what it answers itself.
use pbpctrl.Prelude.{
  ℕ, ◌≡◌, ◌==◌, refl, sym, ap, ap₂, ◌∙◌, List, [], ◌∷◌, ◌++◌, append_assoc, Option, none, some,
  true, Bool-cases, if◌then◌else◌, inl, inr, arith, bit_and,
}
use pbpctrl.Gfps.Codec.{Message}
use pbpctrl.Gfps.Events.{
  event_group_from, device_action_event_code_from, event_group_into,
  acknowledgement_event_code_into, device_action_event_code_into,
}
use pbpctrl.Gfps.Ring.{
  Event, Ended, is_device_action, check_ack, check_data, await_ack, ack_for, ring_message,
  check_status, after_send, update_step, await_updates, then_updates,
}
use pbpctrl.Gfps.Ring as Ring

-- The group of device actions is 4, and no other value is read as it.
is_device_action-event_group_from : (g : ℕ) → is_device_action (event_group_from g) ≡ (g == 4)
unfolding event_group_from
is_device_action-event_group_from g = ground arith

module _ {E : Type 0} where
  check_data-nak :
      (reason : ℕ) (more : List ℕ) → check_data {E = E} 2 (reason ∷ 4 ∷ 1 ∷ more) ≡ none
  unfolding check_data device_action_event_code_from
  check_data-nak reason more = elim (Bool-cases (is_device_action (event_group_from reason))) [
    | inl action ↦ rw action refl
    | inr other ↦ rw other refl
  ]

  -- A negative acknowledgement of the ring command, whose data hold the reason before the group and
  -- the code, is passed over, whatever the reason: the program waits on.
  pub await_ack-nak :
      (reason : ℕ) (more : List ℕ) (send_error : Option E) (events : List (Event E))
      → await_ack (
          Ring.received
            (record { group = 255; code = 2; payload = reason ∷ 4 ∷ 1 ∷ more })
            send_error
          ∷ events)
        ≡ await_ack events
  unfolding await_ack check_ack event_group_from
  await_ack-nak reason more send_error events = rw (check_data-nak reason more) refl

  -- The answers that the events call for, in order, as the protocol's numbers: group 255 and code 1
  -- acknowledge the message whose group and code the data hold; group 4 and code 1 ring the buds of
  -- the data, here none.
  abbrev pub reply : Event E → List Message
  reply (Ring.received msg send_error) =
      if msg.group == 4
      then record { group = 255; code = 1; payload = msg.group ∷ msg.code ∷ [] } ∷ []
      else []
  reply (Ring.failed e) = []
  reply Ring.closed = []
  reply (Ring.timeout send_error) = record { group = 4; code = 1; payload = 0 ∷ [] } ∷ []

  abbrev pub replies : List (Event E) → List Message
  replies [] = []
  replies (event ∷ events) = reply event ++ replies events

  -- An update by which no bud rings any more, whose answer could be sent.
  abbrev pub IsStop : Event E → Type 0
  IsStop (Ring.received msg send_error) =
      (msg.group ≡ 4)
      × (send_error ≡ none)
      × ((status : ℕ) × (more : List ℕ) × (msg.payload ≡ status ∷ more) × (bit_and status 3 ≡ 0))
  IsStop _ = ⊥

  update_step-reply : (event : Event E) → (update_step event).0 ≡ reply event
  unfolding update_step event_group_into acknowledgement_event_code_into
      device_action_event_code_into
  update_step-reply (Ring.received msg send_error) =
      let group = is_device_action-event_group_from msg.group in
      elim (Bool-cases (msg.group == 4)) [
        | inl action ↦ rw (group, action) refl
        | inr other ↦ rw (group, other) refl
      ]
  update_step-reply (Ring.failed e) = refl
  update_step-reply Ring.closed = refl
  update_step-reply (Ring.timeout send_error) = refl

  check_status_finished :
      (payload : List ℕ)
      → check_status {E = E} payload ≡ some Ring.finished
      → (status : ℕ) × (more : List ℕ) × (payload ≡ status ∷ more) × (bit_and status 3 ≡ 0)
  unfolding check_status
  check_status_finished [] e = absurd (ground (arith, e))
  check_status_finished (status ∷ more) e = (status, more, refl, ground (arith, e))

  after_send_finished :
      (send_error : Option E) (rest : Option (Ended E))
      → after_send send_error rest ≡ some Ring.finished
      → (send_error ≡ none) × (rest ≡ some Ring.finished)
  after_send_finished none rest e = (refl, e)
  after_send_finished (some x) rest e = absurd (ground (arith, e))

  update_step_finished :
      (event : Event E) → (update_step event).1 ≡ some Ring.finished → IsStop event
  unfolding update_step
  update_step_finished (Ring.received msg send_error) e =
      elim (Bool-cases (is_device_action (event_group_from msg.group))) [
        | inl action ↦
            let step : (update_step (Ring.received msg send_error)).1
                ≡ after_send send_error (check_status msg.payload) =
              rw action refl in
            let (sent, status) =
              after_send_finished send_error (check_status msg.payload) (sym step ∙ e) in
            let four : (msg.group == 4) ≡ true =
              sym (is_device_action-event_group_from msg.group) ∙ action in
            (ground (arith, four), sent, check_status_finished msg.payload status)
        | inr other ↦
            let step : (update_step (Ring.received msg send_error)).1 ≡ none = rw other refl in
            absurd (ground (arith, sym step ∙ e))
      ]
  update_step_finished (Ring.failed x) e = absurd (ground (arith, e))
  update_step_finished Ring.closed e = absurd (ground (arith, e))
  update_step_finished (Ring.timeout none) e = absurd (ground (arith, e))
  update_step_finished (Ring.timeout (some x)) e = absurd (ground (arith, e))

  pub record Finished (events : List (Event E)) (sent : List Message) : Type 0 where
    pub front : List (Event E)
    pub last : Event E
    pub back : List (Event E)
    pub split : events ≡ front ++ last ∷ back
    pub stops : IsStop last
    pub answered : sent ≡ replies front ++ reply last

  then_updates_finished :
      (event : Event E) (events : List (Event E)) (step later : List Message × Option (Ended E))
      → step.0 ≡ reply event
      → (step.1 ≡ some Ring.finished → IsStop event)
      → (later.1 ≡ some Ring.finished → Finished events later.0)
      → (then_updates step later).1 ≡ some Ring.finished
      → Finished (event ∷ events) (then_updates step later).0
  then_updates_finished event events (sent, some r) later replied stop rest e = record {
    front = [];
    last = event;
    back = events;
    split = refl;
    stops = stop e;
    answered = replied;
  }
  then_updates_finished event events (sent, none) (l, end) replied stop rest e =
      let r = rest e in
      record {
        front = event ∷ r.front;
        last = r.last;
        back = r.back;
        split = ap (λ t. event ∷ t) r.split;
        stops = r.stops;
        answered =
            ap₂ (λ a b. a ++ b) replied r.answered
            ∙ sym (append_assoc (reply event) (replies r.front) (reply r.last));
      }

  -- The program ends well only behind an update by which no bud rings any more, and has then sent,
  -- in order, an acknowledgement of every message on device actions up to that one, and a command to
  -- stop at each timeout before it.
  pub await_updates_finished :
      (events : List (Event E))
      → (await_updates events).1 ≡ some Ring.finished
      → Finished events (await_updates events).0
  unfolding await_updates
  await_updates_finished [] e = absurd (ground (arith, e))
  await_updates_finished (event ∷ events) e =
      then_updates_finished event events (update_step event) (await_updates events)
        (update_step-reply event) (update_step_finished event) (await_updates_finished events) e
