-- ===== src/Cli/Bluetooth.antt =====
-- cli/src/bt.rs: finding the device and connecting to its Maestro profile. What BlueZ answers is a
-- parameter. Logging and the waiting between two attempts are left out.
pub mod Connect
pub mod Choice
pub mod Profile
mod Tests
use pbpctrl.Prelude.{
  ℕ, zero, suc, List, [], ◌∷◌, Option, none, some, Result, ok, err, Bool, true, false, ◌==◌, leb,
  if◌then◌else◌,
}

abbrev pub pixel_buds_class : ℕ
pixel_buds_class = 0x240404

abbrev pub max_tries : ℕ
max_tries = 3

-- Of a device, what `class` and `uuids` answer. `E` is bluer's error type.
pub record Device (E : Type 0) : Type 0 where
  pub address : ℕ
  pub class : Result E (Option ℕ)
  pub uuids : Result E (Option (List ℕ))

-- A request to connect, and what accepting it gives.
pub record Request (E Stream : Type 0) : Type 0 where
  pub device : ℕ
  pub accept : Result E Stream

-- How the code fails: with an error of bluer, or with one of its own two.
pub data Failure (E : Type 0) : Type 0 where
  bluetooth : E → Failure E
  no_compatible_device profile_terminated : Failure E

unfoldable pub contains : ℕ → List ℕ → Bool
contains u [] = false
contains u (v ∷ uuids) = let rest = contains u uuids in if v == u then true else rest

abbrev pub unwrap_or : {A : Type 0} → A → Option A → A
unwrap_or a none = a
unwrap_or a (some b) = b

module _ {E : Type 0} where
  abbrev pub and_then :
      {A B : Type 0} → Result E A → (A → Result (Failure E) B) → Result (Failure E) B
  and_then (ok a) f = f a
  and_then (err e) f = err (bluetooth e)

  -- `maestro_uuid` is the profile's UUID. `none` is `continue`.
  unfoldable pub check_device : ℕ → Device E → Result (Failure E) Bool
  check_device maestro_uuid dev = and_then dev.class (λ class.
      if unwrap_or 0 class == pixel_buds_class
      then and_then dev.uuids (λ uuids. ok (contains maestro_uuid (unwrap_or [] uuids)))
      else ok false)

  abbrev pub found_or :
      Device E
      → Result (Failure E) Bool
      → Result (Failure E) (Device E)
      → Result (Failure E) (Device E)
  found_or dev (ok true) rest = ok dev
  found_or dev (ok false) rest = rest
  found_or dev (err e) rest = err e

  -- The loop of `find_maestro_device`.
  unfoldable pub first_compatible : ℕ → List (Result E (Device E)) → Result (Failure E) (Device E)
  first_compatible maestro_uuid [] = err no_compatible_device
  first_compatible maestro_uuid (device ∷ devices) =
      let rest = first_compatible maestro_uuid devices in
      and_then device (λ dev. found_or dev (check_device maestro_uuid dev) rest)

  -- What `device_addresses` answers are the addresses' devices, in the adapter's order, each where
  -- BlueZ has it.
  unfoldable pub find_maestro_device :
      ℕ → Result E (List (Result E (Device E))) → Result (Failure E) (Device E)
  find_maestro_device maestro_uuid device_addresses =
      and_then device_addresses (first_compatible maestro_uuid)

  -- The device in `main`: the one whose address is given, as the adapter has it, or the first that is
  -- compatible.
  unfoldable pub set_up_device :
      (device : ℕ → Result E (Device E))
      → ℕ
      → Result E (List (Result E (Device E)))
      → Option ℕ
      → Result (Failure E) (Device E)
  set_up_device device maestro_uuid devices (some address) =
      and_then (device address) (λ dev. ok dev)
  set_up_device device maestro_uuid devices none = find_maestro_device maestro_uuid devices

  -- The loop of `try_connect_profile`, from the count `i` on. `connect` is the error of each attempt,
  -- if it fails; `none` is out of fuel.
  unfoldable pub try_from :
      (connect : ℕ → Option E) → ℕ → ℕ → Option (Result (Failure E) (Unit {0}))
  try_from connect zero i = none
  try_from connect (suc fuel) i =
      let rest = try_from connect fuel (suc i) in
      elim (connect i) [
        | none ↦ some (ok tt)
        | some e ↦ if leb max_tries i then some (err (bluetooth e)) else rest
      ]

  unfoldable pub try_connect_profile :
      (connect : ℕ → Option E) → Option (Result (Failure E) (Unit {0}))
  try_connect_profile connect = try_from connect 4 0

  module _ {Stream : Type 0} where
    abbrev pub accepted : Result E Stream → Result (Failure E) Stream
    accepted (ok stream) = ok stream
    accepted (err e) = err (bluetooth e)

    -- The devices whose requests were rejected, in order, and the result.
    unfoldable pub handle_requests_for_profile :
        ℕ → List (Request E Stream) → List ℕ × Result (Failure E) Stream
    handle_requests_for_profile address [] = ([], err profile_terminated)
    handle_requests_for_profile address (req ∷ requests) =
        let rest = handle_requests_for_profile address requests in
        if req.device == address then ([], accepted req.accept) else (req.device ∷ rest.0, rest.1)
