-- ===== src/Cli/Bluetooth/Tests.antt =====
-- cli/src/bt.rs: three devices, of which the last is compatible, a stranger's request, and a connection
-- at the second attempt.
use pbpctrl.Prelude.{
  ℕ, ◌≡◌, refl, List, [], ◌∷◌, Result, ok, err, Option, none, some, ◌↔◌, zero, suc,
}
use pbpctrl.Cli.Bluetooth.{
  Device, Request, Failure, contains, check_device, find_maestro_device, first_compatible,
  handle_requests_for_profile, try_connect_profile, try_from,
}
use pbpctrl.Cli.Bluetooth.Choice.{IsFirst, find_maestro_device_iff}
use pbpctrl.Cli.Bluetooth.Profile.{
  Profile, TryJoin, Connected, connect_maestro_rfcomm, connect_maestro_rfcomm_iff,
}

abbrev phone : Device ℕ
phone = record { address = 1; class = ok (some 0x5a020c); uuids = ok none }

abbrev older : Device ℕ
older = record { address = 2; class = ok (some 0x240404); uuids = ok (some (6 ∷ [])) }

abbrev buds : Device ℕ
buds = record { address = 3; class = ok (some 0x240404); uuids = ok (some (6 ∷ 7 ∷ [])) }

abbrev devices : List (Result ℕ (Device ℕ))
devices = ok phone ∷ ok older ∷ ok buds ∷ err 5 ∷ []

chosen : find_maestro_device 7 (ok devices) ≡ ok buds
unfolding find_maestro_device first_compatible check_device contains
chosen = refl

find_maestro_device_iff_example : (find_maestro_device 7 (ok devices) ≡ ok buds) ↔ (
    (ds : List (Result ℕ (Device ℕ))) × (◌≡◌ {A = Result ℕ (List (Result ℕ (Device ℕ)))}
      (ok devices)
      (ok ds))
    × IsFirst 7 ds buds)
find_maestro_device_iff_example = find_maestro_device_iff 7 (ok devices) buds

abbrev requests : List (Request ℕ ℕ)
requests =
    record { device = 8; accept = ok 80 }
    ∷ record { device = 3; accept = ok 30 }
    ∷ record { device = 3; accept = ok 31 }
    ∷ []

accepted_own : handle_requests_for_profile 3 requests ≡ (8 ∷ [], ok 30)
unfolding handle_requests_for_profile
accepted_own = refl

-- Both futures are waited for, the first one's error before the second one's.
abbrev wait_both : {F A B : Type 0} → Result F A → Result F B → Result F (A × B)
wait_both (ok a) (ok b) = ok (a, b)
wait_both (ok a) (err e) = err e
wait_both (err e) y = err e

wait_both-right :
    {F A B : Type 0} (x : Result F A) (e : F) → (f : F) × (wait_both {B = B} x (err e) ≡ err f)
wait_both-right (ok a) e = (e, refl)
wait_both-right (err d) e = (d, refl)

abbrev join : TryJoin (Failure ℕ)
join = record {
  try_join = wait_both;
  both = λ a b. refl;
  left_fails = λ e y. (e, refl);
  right_fails = wait_both-right;
}

abbrev register : Profile ℕ → Result ℕ (List (Request ℕ ℕ))
register profile = ok requests

-- Only the second attempt succeeds.
abbrev busy : ℕ → Option ℕ
busy (suc zero) = none
busy i = some 111

connects : connect_maestro_rfcomm join register 0 7 busy 3 ≡ some (ok 30)
unfolding connect_maestro_rfcomm try_connect_profile try_from handle_requests_for_profile
connects = refl

connect_maestro_rfcomm_iff_example :
    (connect_maestro_rfcomm join register 0 7 busy 3 ≡ some (ok 30))
    ↔ Connected join register 0 7 busy 3 30
connect_maestro_rfcomm_iff_example = connect_maestro_rfcomm_iff join register 0 7 busy 3 30
