-- ===== src/Cli/Bluetooth/Profile.antt =====
-- cli/src/bt.rs: `connect_maestro_rfcomm`, which registers the profile, and connects to it while it
-- waits for the device's own request. The session is a parameter, and so is tokio's `try_join!`.
use pbpctrl.Prelude.{
  ℕ, ◌<◌, ◌≡◌, refl, sym, ap, ◌∙◌, ◌↔◌, List, [], ◌∷◌, ◌++◌, Option, none, some, Result, ok, err,
  Bool, true, false, ◌==◌, All, arith,
}
use pbpctrl.Cli.Bluetooth.{
  Request, Failure, bluetooth, handle_requests_for_profile, try_connect_profile,
}
use pbpctrl.Cli.Bluetooth.Connect.{
  Accepted, handle_requests_accepts, tried, tries, try_connect_profile_lem,
}

-- The fields of bluer's `Profile` that the code sets. `R` is the type of its `Role`.
pub record Profile (R : Type 0) : Type 0 where
  pub uuid : ℕ
  pub role : Option R
  pub require_authentication : Option Bool
  pub require_authorization : Option Bool
  pub auto_connect : Option Bool

abbrev pub maestro_profile : {R : Type 0} → ℕ → R → Profile R
maestro_profile maestro_uuid client = record {
  uuid = maestro_uuid;
  role = some client;
  require_authentication = some false;
  require_authorization = some false;
  auto_connect = some false;
}

-- `try_join!` of two futures, given what each ends with if it is run to its end.
pub record TryJoin (F : Type 0) : Type 1 where
  pub try_join : {A B : Type 0} → Result F A → Result F B → Result F (A × B)
  -- What the documentation says: it gives both values if both futures end well, and an error as soon
  -- as one ends in an error.
  pub both : {A B : Type 0} (a : A) (b : B) → try_join (ok a) (ok b) ≡ ok (a, b)
  pub left_fails :
      {A B : Type 0} (e : F) (y : Result F B) → (f : F) × (try_join {A = A} (err e) y ≡ err f)
  pub right_fails :
      {A B : Type 0} (x : Result F A) (e : F) → (f : F) × (try_join {B = B} x (err e) ≡ err f)

module _ {E Stream R : Type 0} (join : TryJoin (Failure E))
    (register_profile : Profile R → Result E (List (Request E Stream))) (client : R) where
  abbrev pub second : {A B : Type 0} → Result (Failure E) (A × B) → Result (Failure E) B
  second (ok p) = ok p.1
  second (err e) = err e

  abbrev pub joined :
      Option (Result (Failure E) (Unit {0}))
      → Result (Failure E) Stream
      → Option (Result (Failure E) Stream)
  joined none handled = none
  joined (some connected) handled = some (second (join.try_join connected handled))

  abbrev pub with_handle :
      (connect : ℕ → Option E)
      → (address : ℕ) → Result E (List (Request E Stream))
      → Option (Result (Failure E) Stream)
  with_handle connect address (err e) = some (err (bluetooth e))
  with_handle connect address (ok handle) =
      joined (try_connect_profile connect) (handle_requests_for_profile address handle).1

  -- The registered profile delivers requests. `none` is out of fuel in the attempts.
  unfoldable pub connect_maestro_rfcomm :
      (maestro_uuid : ℕ)
      → (connect : ℕ → Option E) → (address : ℕ) → Option (Result (Failure E) Stream)
  connect_maestro_rfcomm maestro_uuid connect address =
      with_handle connect address (register_profile (maestro_profile maestro_uuid client))

  -- How a connection comes about: the profile is registered, with these fields, one of the first four
  -- attempts to connect to it succeeds, `stream` is of the device's own first request, and what the
  -- handler of the requests rejects are those before it.
  pub record Connected (maestro_uuid : ℕ) (connect : ℕ → Option E) (address : ℕ) (stream : Stream)
      : Type 0 where
    pub handle : List (Request E Stream)
    pub registered :
        register_profile (record {
          uuid = maestro_uuid;
          role = some client;
          require_authentication = some false;
          require_authorization = some false;
          auto_connect = some false;
        })
        ≡ ok handle
    pub attempt : ℕ
    pub few : attempt < 4
    pub succeeds : connect attempt ≡ none
    pub own : Accepted address handle (handle_requests_for_profile address handle).0 stream

  accepts_own :
      (address : ℕ) (front : List (Request E Stream)) (own : Request E Stream)
      (back : List (Request E Stream)) (stream : Stream)
      → All (λ req. (req.device == address) ≡ false) front
      → own.device ≡ address
      → own.accept ≡ ok stream
      → (handle_requests_for_profile address (front ++ own ∷ back)).1 ≡ ok stream
  unfolding handle_requests_for_profile
  accepts_own address [] own back stream others same given =
      let is : (own.device == address) ≡ true = ground (arith, same) in rw (is, given) refl
  accepts_own address (req ∷ front) own back stream others same given =
      rw (others.0) (accepts_own address front own back stream others.1 same given)

  second_ok :
      (connected : Result (Failure E) (Unit {0})) (handled : Result (Failure E) Stream)
      (stream : Stream)
      → second (join.try_join connected handled) ≡ ok stream
      → (connected ≡ ok tt) × (handled ≡ ok stream)
  second_ok (ok u) (ok s) stream h = (refl, sym (ap second (join.both u s)) ∙ h)
  second_ok (ok u) (err e) stream h =
      let (f, fails) = join.right_fails (ok u) e in
      let wrong : err f ≡ ok stream = sym (ap second fails) ∙ h in absurd (ground (arith, wrong))
  second_ok (err e) handled stream h =
      let (f, fails) = join.left_fails e handled in
      let wrong : err f ≡ ok stream = sym (ap second fails) ∙ h in absurd (ground (arith, wrong))

  with_attempts :
      (t : Option (Result (Failure E) (Unit {0}))) (handled : Result (Failure E) Stream)
      (stream : Stream)
      → joined t handled ≡ some (ok stream)
      → (t ≡ some (ok tt)) × (handled ≡ ok stream)
  with_attempts none handled stream h = absurd (ground (arith, h))
  with_attempts (some c) handled stream h =
      let both = second_ok c handled stream (ground (arith, h)) in (ap some both.0, both.1)

  connect_maestro_rfcomm-Connected :
      (maestro_uuid : ℕ) (connect : ℕ → Option E) (address : ℕ) (stream : Stream)
      (registration : Result E (List (Request E Stream)))
      → register_profile (maestro_profile maestro_uuid client) ≡ registration
      → with_handle connect address registration ≡ some (ok stream)
      → Connected maestro_uuid connect address stream
  connect_maestro_rfcomm-Connected uuid connect address stream (err e) registered h =
      absurd (ground (arith, h))
  connect_maestro_rfcomm-Connected uuid connect address stream (ok handle) registered h =
      let (made, handled) = with_attempts _ _ stream h in
      let (i, few, succeeds) = tried connect (sym (try_connect_profile_lem connect) ∙ made) in
      record {
        handle = handle;
        registered = registered;
        attempt = i;
        few = few;
        succeeds = succeeds;
        own = handle_requests_accepts address handle stream handled;
      }

  Connected-connect_maestro_rfcomm :
      (maestro_uuid : ℕ) (connect : ℕ → Option E) (address : ℕ) (stream : Stream)
      → Connected maestro_uuid connect address stream
      → connect_maestro_rfcomm maestro_uuid connect address ≡ some (ok stream)
  unfolding connect_maestro_rfcomm
  Connected-connect_maestro_rfcomm uuid connect address stream c =
      let made = try_connect_profile_lem connect ∙ tries connect c.attempt c.few c.succeeds in
      let handled =
        ap (λ l. (handle_requests_for_profile address l).1) c.own.split
        ∙ accepts_own address c.own.front c.own.own c.own.back stream c.own.others c.own.same
            c.own.given in
      ap (with_handle connect address) c.registered
      ∙ ap (λ t. joined t (handle_requests_for_profile address c.handle).1) made
      ∙ ap (joined (some (ok tt))) handled
      ∙ ap (λ x. some (second x)) (join.both tt stream)

  -- A connection to the profile is made exactly if the profile can be registered, one of the first
  -- four attempts to connect to it succeeds, and the device's own first request can be accepted. The
  -- requests that are rejected are then those before it, which are other devices'. The profile is
  -- registered as a client's, which asks for no authentication or authorization and does not connect
  -- by itself.
  pub connect_maestro_rfcomm_iff :
      (maestro_uuid : ℕ) (connect : ℕ → Option E) (address : ℕ) (stream : Stream)
      → (connect_maestro_rfcomm maestro_uuid connect address ≡ some (ok stream))
        ↔ Connected maestro_uuid connect address stream
  unfolding connect_maestro_rfcomm
  connect_maestro_rfcomm_iff uuid connect address stream = (
    connect_maestro_rfcomm-Connected uuid connect address stream _ refl,
    Connected-connect_maestro_rfcomm uuid connect address stream,
  )
