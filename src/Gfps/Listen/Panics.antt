-- ===== src/Gfps/Listen/Panics.antt =====
-- libgfps/examples/gfps_listen.rs: which messages the program can print.
use Prim.Native.String.{String}
use pbpctrl.Prelude.{
  ℕ, suc, ◌≡◌, refl, ap, ◌∙◌, List, [], ◌∷◌, length, Bool, true, false, ◌==◌, ◌||◌, ◌&&◌, not,
  Bool-cases, inl, inr, leb, arith,
}
use pbpctrl.Gfps.Codec.{Message}
use pbpctrl.Gfps.Events.{
  EventGroup, event_group_from, DeviceEventCode, device_event_code_from, AcknowledgementEventCode,
  acknowledgement_event_code_from, PlatformType, platform_type_from,
}
use pbpctrl.Gfps.Listen
use pbpctrl.Gfps.Listen.Stream.{
  Received, message, failed, Listened, reconnects, panicked, returns, is_reset, listen_on, listen,
}
use Listen.{
  Formats, Printed, print_message, print_group, print_device, print_device_data,
  print_acknowledgement, print_ack, print_nak, print_platform, print_batteries, print_battery_time,
  print_model, print_address, print_bits, print_platform_data, then_empty,
}

-- The bytes that a message of the device group holds at least. The battery time takes one or two.
abbrev pub device_fits : DeviceEventCode → ℕ → Bool
device_fits DeviceEventCode.model_id n = leb 3 n
device_fits DeviceEventCode.ble_address n = leb 6 n
device_fits DeviceEventCode.battery_info n = leb 3 n
device_fits DeviceEventCode.battery_time n = (n == 1) || (n == 2)
device_fits DeviceEventCode.active_components_response n = leb 1 n
device_fits DeviceEventCode.capability n = leb 1 n
device_fits DeviceEventCode.platform_type n = leb 2 n
device_fits _ n = true

abbrev pub acknowledgement_fits : AcknowledgementEventCode → ℕ → Bool
acknowledgement_fits AcknowledgementEventCode.ack n = leb 2 n
acknowledgement_fits AcknowledgementEventCode.nak n = leb 3 n
acknowledgement_fits (AcknowledgementEventCode.unknown _) n = true

abbrev pub fits : EventGroup → ℕ → ℕ → Bool
fits EventGroup.device code n = device_fits (device_event_code_from code) n
fits EventGroup.acknowledgement code n =
    acknowledgement_fits (acknowledgement_event_code_from code) n
fits _ code n = true

module _ (fmt : Formats) where
  then_empty-end : (p : Printed) → (then_empty fmt p).1 ≡ p.1
  then_empty-end (lines, true) = refl
  then_empty-end (lines, false) = refl

  print_platform-end : (bytes : List ℕ) → (print_platform fmt bytes).1 ≡ leb 2 (length bytes)
  unfolding print_platform print_platform_data
  print_platform-end [] = refl
  print_platform-end (a ∷ []) =
      elim (platform_type_from a) as (λ x. (print_platform_data fmt x a []).1 ≡ false) [
        | PlatformType.android ↦ refl
        | PlatformType.unknown _ ↦ refl
      ]
  print_platform-end (a ∷ b ∷ rest) =
      elim (platform_type_from a)
        as (λ x. (print_platform_data fmt x a (b ∷ rest)).1 ≡ leb 2 (suc (suc (length rest)))) [
          | PlatformType.android ↦ ground arith
          | PlatformType.unknown _ ↦ ground arith
        ]

  print_ack-end : (bytes : List ℕ) → (print_ack fmt bytes).1 ≡ leb 2 (length bytes)
  unfolding print_ack
  print_ack-end [] = refl
  print_ack-end (a ∷ []) = refl
  print_ack-end (a ∷ b ∷ rest) = ground arith

  print_nak-end : (bytes : List ℕ) → (print_nak fmt bytes).1 ≡ leb 3 (length bytes)
  unfolding print_nak
  print_nak-end [] = refl
  print_nak-end (a ∷ []) = refl
  print_nak-end (a ∷ b ∷ []) = refl
  print_nak-end (a ∷ b ∷ c ∷ rest) = ground arith

  print_batteries-end : (bytes : List ℕ) → (print_batteries fmt bytes).1 ≡ leb 3 (length bytes)
  unfolding print_batteries
  print_batteries-end [] = refl
  print_batteries-end (a ∷ []) = refl
  print_batteries-end (a ∷ b ∷ []) = refl
  print_batteries-end (a ∷ b ∷ c ∷ rest) = ground arith

  print_battery_time-end :
      (bytes : List ℕ)
      → (print_battery_time fmt bytes).1 ≡ ((length bytes == 1) || (length bytes == 2))
  unfolding print_battery_time
  print_battery_time-end [] = refl
  print_battery_time-end (a ∷ []) = refl
  print_battery_time-end (a ∷ b ∷ []) = refl
  print_battery_time-end (a ∷ b ∷ c ∷ rest) = ground arith

  print_model-end : (bytes : List ℕ) → (print_model fmt bytes).1 ≡ leb 3 (length bytes)
  unfolding print_model
  print_model-end [] = refl
  print_model-end (a ∷ []) = refl
  print_model-end (a ∷ b ∷ []) = refl
  print_model-end (a ∷ b ∷ c ∷ rest) = ground arith

  print_address-end : (bytes : List ℕ) → (print_address fmt bytes).1 ≡ leb 6 (length bytes)
  unfolding print_address
  print_address-end [] = refl
  print_address-end (a ∷ []) = refl
  print_address-end (a ∷ b ∷ []) = refl
  print_address-end (a ∷ b ∷ c ∷ []) = refl
  print_address-end (a ∷ b ∷ c ∷ d ∷ []) = refl
  print_address-end (a ∷ b ∷ c ∷ d ∷ e ∷ []) = refl
  print_address-end (a ∷ b ∷ c ∷ d ∷ e ∷ f ∷ rest) = ground arith

  print_bits-end :
      (label : String) (bytes : List ℕ) → (print_bits fmt label bytes).1 ≡ leb 1 (length bytes)
  unfolding print_bits
  print_bits-end label [] = refl
  print_bits-end label (a ∷ rest) = ground arith

  print_device_data-end :
      (code : DeviceEventCode) (msg : Message)
      → (print_device_data fmt code msg).1 ≡ device_fits code (length msg.payload)
  unfolding print_device_data
  print_device_data-end DeviceEventCode.model_id msg = print_model-end msg.payload
  print_device_data-end DeviceEventCode.ble_address msg = print_address-end msg.payload
  print_device_data-end DeviceEventCode.battery_info msg = print_batteries-end msg.payload
  print_device_data-end DeviceEventCode.battery_time msg = print_battery_time-end msg.payload
  print_device_data-end DeviceEventCode.active_components_request msg = refl
  print_device_data-end DeviceEventCode.active_components_response msg =
      print_bits-end _ msg.payload
  print_device_data-end DeviceEventCode.capability msg = print_bits-end _ msg.payload
  print_device_data-end DeviceEventCode.platform_type msg = print_platform-end msg.payload
  print_device_data-end DeviceEventCode.firmware_version msg = refl
  print_device_data-end DeviceEventCode.section_nonce msg = refl
  print_device_data-end (DeviceEventCode.unknown _) msg = refl

  print_acknowledgement-end :
      (code : AcknowledgementEventCode) (msg : Message)
      → (print_acknowledgement fmt code msg).1 ≡ acknowledgement_fits code (length msg.payload)
  unfolding print_acknowledgement
  print_acknowledgement-end AcknowledgementEventCode.ack msg = print_ack-end msg.payload
  print_acknowledgement-end AcknowledgementEventCode.nak msg = print_nak-end msg.payload
  print_acknowledgement-end (AcknowledgementEventCode.unknown _) msg = refl

  print_group-end :
      (group : EventGroup) (msg : Message)
      → (print_group fmt group msg).1 ≡ fits group msg.code (length msg.payload)
  unfolding print_group print_device
  print_group-end EventGroup.bluetooth msg = refl
  print_group-end EventGroup.logging msg = refl
  print_group-end EventGroup.device msg =
      let code = device_event_code_from msg.code in
      then_empty-end (print_device_data fmt code msg) ∙ print_device_data-end code msg
  print_group-end EventGroup.device_action msg = refl
  print_group-end EventGroup.device_configuration msg = refl
  print_group-end EventGroup.device_capability_sync msg = refl
  print_group-end EventGroup.smart_audio_source_switching msg = refl
  print_group-end EventGroup.acknowledgement msg =
      print_acknowledgement-end (acknowledgement_event_code_from msg.code) msg
  print_group-end (EventGroup.unknown _) msg = refl

  -- A message is printed to its end if it holds the bytes that its group and code call for: of the
  -- device group three for a model or battery levels, six for an address, one or two and no more for
  -- a battery time, one for components or capabilities and two for a platform; two for an
  -- acknowledgement and three for its refusal; none otherwise. On any other message the program
  -- panics.
  pub print_message-end :
      (msg : Message)
      → (print_message fmt msg).1 ≡ fits (event_group_from msg.group) msg.code (length msg.payload)
  unfolding print_message
  print_message-end msg = print_group-end (event_group_from msg.group) msg

-- Whether each message before the first error can be printed.
abbrev pub all_fit : {E : Type 0} → List (Received E) → Bool
all_fit [] = true
all_fit (message msg ∷ items) =
    fits (event_group_from msg.group) msg.code (length msg.payload) && all_fit items
all_fit (failed e code ∷ items) = true

abbrev pub has_panicked : {E : Type 0} → Listened E → Bool
has_panicked panicked = true
has_panicked reconnects = false
has_panicked (returns e) = false

not-not : (b : Bool) → not (not b) ≡ b
not-not true = refl
not-not false = refl

module _ (fmt : Formats) {E : Type 0} where
  listen_on-panicked :
      (p : Printed) (rest : List String × Listened E)
      → has_panicked (listen_on fmt p rest).1 ≡ not (p.1 && not (has_panicked rest.1))
  listen_on-panicked (lines, true) (more, end) = ground arith
  listen_on-panicked (lines, false) (more, end) = refl

  -- The listener survives a connection, whether it then connects again or returns an error, just if
  -- every message before the first error can be printed.
  pub listen_panics :
      (items : List (Received E)) → has_panicked (listen fmt items).1 ≡ not (all_fit items)
  unfolding listen
  listen_panics [] = refl
  listen_panics (message msg ∷ items) =
      let rest = listen_panics items in
      rw
        (
          listen_on-panicked (print_message fmt msg) (listen fmt items),
          print_message-end fmt msg,
          rest,
        )
        (ap (λ b. not (fits (event_group_from msg.group) msg.code (length msg.payload) && b))
          (not-not (all_fit items)))
  listen_panics (failed e code ∷ items) = elim (Bool-cases (is_reset code)) [
    | inl reset ↦ rw reset refl
    | inr other ↦ rw other refl
  ]
