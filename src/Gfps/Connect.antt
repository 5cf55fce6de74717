-- ===== src/Gfps/Connect.antt =====
-- libgfps/examples/gfps_listen.rs: `connect_device_to_profile`, as in the other two programs. What
-- `select!` takes is a list of events, in order. Printing and waiting are left out.
use pbpctrl.Prelude.{
  ℕ, ◌≡◌, ap, subst, List, [], ◌∷◌, Result, ok, ◌==◌, if◌then◌else◌, Bool-cases, inl, inr, arith,
}
use pbpctrl.Cli.Bluetooth.{Request, accepted, handle_requests_for_profile}
use pbpctrl.Cli.Bluetooth.Connect.{Accepted, handle_requests_accepts}

-- An attempt to connect to the profile ends, or a request comes in, or there are no more requests.
pub data Event (E Stream : Type 0) : Type 0 where
  attempted : Result E (Unit {0}) → Event E Stream
  requested : Request E Stream → Event E Stream
  no_requests : Event E Stream

-- How the loop ends. `panicked` is `expect` without a request.
pub data Ended (E Stream : Type 0) : Type 0 where
  accepts : Result E Stream → Ended E Stream
  panicked waiting : Ended E Stream

module _ {E Stream : Type 0} where
  -- The devices whose requests were rejected, in order, and the end.
  unfoldable pub connect_device_to_profile : ℕ → List (Event E Stream) → List ℕ × Ended E Stream
  connect_device_to_profile address [] = ([], waiting)
  connect_device_to_profile address (attempted r ∷ events) =
      connect_device_to_profile address events
  connect_device_to_profile address (no_requests ∷ events) = ([], panicked)
  connect_device_to_profile address (requested req ∷ events) =
      let rest = connect_device_to_profile address events in
      if req.device == address then ([], accepts req.accept) else (req.device ∷ rest.0, rest.1)

  abbrev pub requests_of : List (Event E Stream) → List (Request E Stream)
  requests_of [] = []
  requests_of (attempted r ∷ events) = requests_of events
  requests_of (no_requests ∷ events) = []
  requests_of (requested req ∷ events) = req ∷ requests_of events

  connect-requests :
      (address : ℕ) (events : List (Event E Stream)) (r : Result E Stream)
      → (connect_device_to_profile address events).1 ≡ accepts r
      → handle_requests_for_profile address (requests_of events)
        ≡ ((connect_device_to_profile address events).0, accepted r)
  unfolding connect_device_to_profile handle_requests_for_profile
  connect-requests address [] r h = absurd (ground (arith, h))
  connect-requests address (attempted x ∷ events) r h = connect-requests address events r h
  connect-requests address (no_requests ∷ events) r h = absurd (ground (arith, h))
  connect-requests address (requested req ∷ events) r h =
      let rest = connect-requests address events r in
      elim (Bool-cases (req.device == address)) [
        | inl own ↦
            let same : req.accept ≡ r = ground (arith, own, h) in
            rw own (ap (λ x. ([], accepted x)) same)
        | inr other ↦
            let e = rest (ground (arith, other, h)) in
            rw other (ap (λ x. (req.device ∷ x.0, x.1)) e)
      ]

  -- The connection is one that the device itself asked for: its first request is accepted, and every
  -- request before it, which is another device's, is rejected.
  pub connect_device_accepts :
      (address : ℕ) (events : List (Event E Stream)) (stream : Stream)
      → (connect_device_to_profile address events).1 ≡ accepts (ok stream)
      → Accepted address (requests_of events) (connect_device_to_profile address events).0 stream
  connect_device_accepts address events stream h =
      let e = connect-requests address events (ok stream) h in
      subst (λ rejected. Accepted address (requests_of events) rejected stream) (ap (λ x. x.0) e)
        (handle_requests_accepts address (requests_of events) stream (ap (λ x. x.1) e))
