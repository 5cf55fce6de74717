-- ===== src/Cli/Bluetooth/Connect.antt =====
-- cli/src/bt.rs: how often the profile is tried, and whose request is accepted.
use pbpctrl.Prelude.{
  ℕ, zero, suc, ◌<◌, Option-cases, ◌≡◌, refl, ap, inl, inr, List, [], ◌∷◌, ◌++◌, Option, none, some,
  Result, ok, err, false, Bool-cases, ◌==◌, All, arith,
}
use mathlib.Core.List as Lst
use pbpctrl.Cli.Bluetooth.{
  Request, Failure, bluetooth, accepted, try_from, try_connect_profile, handle_requests_for_profile,
}

module _ {E Stream : Type 0} (address : ℕ) where
  -- The first request of the device, with the requests before it.
  pub record Accepted (requests : List (Request E Stream)) (rejected : List ℕ) (stream : Stream)
      : Type 0 where
    pub front : List (Request E Stream)
    pub own : Request E Stream
    pub back : List (Request E Stream)
    pub split : requests ≡ front ++ own ∷ back
    pub others : All (λ req. (req.device == address) ≡ false) front
    pub same : own.device ≡ address
    pub given : own.accept ≡ ok stream
    pub told : rejected ≡ Lst.map (λ req. req.device) front

  accepted_ok :
      (r : Result E Stream) (stream : Stream)
      → ◌≡◌ {A = Result (Failure E) Stream} (accepted r) (ok stream)
      → r ≡ ok stream
  accepted_ok (ok s) stream h = ground (arith, h)
  accepted_ok (err e) stream h = absurd (ground (arith, h))

  -- A connection is the one that the device itself asked for: its first request is accepted, and
  -- every request before it, which is another device's, is rejected.
  pub handle_requests_accepts :
      (requests : List (Request E Stream)) (stream : Stream)
      → (handle_requests_for_profile address requests).1 ≡ ok stream
      → Accepted requests (handle_requests_for_profile address requests).0 stream
  unfolding handle_requests_for_profile
  handle_requests_accepts [] stream h = absurd (ground (arith, h))
  handle_requests_accepts (req ∷ requests) stream h =
      let later = handle_requests_accepts requests stream in
      elim (Bool-cases (req.device == address)) [
        | inl own ↦ rw own (record {
          front = [];
          own = req;
          back = requests;
          split = refl;
          others = tt;
          same = ground (arith, own);
          given = accepted_ok req.accept stream (ground (arith, own, h));
          told = refl;
        })
        | inr other ↦
            let rest = later (ground (arith, other, h)) in
            rw other (record {
              front = req ∷ rest.front;
              own = rest.own;
              back = rest.back;
              split = ap (λ t. req ∷ t) rest.split;
              others = (other, rest.others);
              same = rest.same;
              given = rest.given;
              told = ap (λ t. req.device ∷ t) rest.told;
            })
      ]

module _ {E : Type 0} where
  -- An attempt before the last succeeds, or the last decides.
  abbrev pub attempts : (ℕ → Option E) → Option (Result (Failure E) (Unit {0}))
  attempts connect = elim (connect 0) [
    | none ↦ some (ok tt)
    | some _ ↦ elim (connect 1) [
      | none ↦ some (ok tt)
      | some _ ↦ elim (connect 2) [
        | none ↦ some (ok tt)
        | some _ ↦ elim (connect 3) [ none ↦ some (ok tt) | some e ↦ some (err (bluetooth e)) ]
      ]
    ]
  ]

  -- The profile is tried four times at most, and the fuel is enough: the first attempt that
  -- succeeds ends it, and where all four fail the error is the fourth one's.
  pub try_connect_profile_lem :
      (connect : ℕ → Option E) → try_connect_profile connect ≡ attempts connect
  unfolding try_connect_profile try_from
  try_connect_profile_lem connect = refl

  pub tried :
      (connect : ℕ → Option E)
      → attempts connect ≡ some (ok tt)
      → (i : ℕ) × (i < 4) × (connect i ≡ none)
  tried connect h = elim (Option-cases (connect 0)) [
    | inl e ↦ (0, omega arith, e)
    | inr s ↦ elim (Option-cases (connect 1)) [
      | inl e ↦ (1, omega arith, e)
      | inr t ↦ elim (Option-cases (connect 2)) [
        | inl e ↦ (2, omega arith, e)
        | inr u ↦ elim (Option-cases (connect 3)) [
          | inl e ↦ (3, omega arith, e)
          | inr v ↦ absurd (ground (arith, s.1, t.1, u.1, v.1, h))
        ]
      ]
    ]
  ]

  pub tries :
      (connect : ℕ → Option E) (i : ℕ) → i < 4 → connect i ≡ none → attempts connect ≡ some (ok tt)
  tries connect zero few e = rw (attempts, e) refl
  tries connect (suc zero) few e = elim (Option-cases (connect 0)) [
    | inl s ↦ rw (attempts, s) refl
    | inr s ↦ rw (attempts, s.1, e) refl
  ]
  tries connect (suc (suc zero)) few e = elim (Option-cases (connect 0)) [
    | inl s ↦ rw (attempts, s) refl
    | inr s ↦ elim (Option-cases (connect 1)) [
      | inl t ↦ rw (attempts, s.1, t) refl
      | inr t ↦ rw (attempts, s.1, t.1, e) refl
    ]
  ]
  tries connect (suc (suc (suc zero))) few e = elim (Option-cases (connect 0)) [
    | inl s ↦ rw (attempts, s) refl
    | inr s ↦ elim (Option-cases (connect 1)) [
      | inl t ↦ rw (attempts, s.1, t) refl
      | inr t ↦ elim (Option-cases (connect 2)) [
        | inl u ↦ rw (attempts, s.1, t.1, u) refl
        | inr u ↦ rw (attempts, s.1, t.1, u.1, e) refl
      ]
    ]
  ]
  tries connect (suc (suc (suc (suc i)))) few e = absurd (omega (arith, few))
