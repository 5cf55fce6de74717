-- ===== src/Cli/Bluetooth/Choice.antt =====
-- cli/src/bt.rs: which device is chosen.
use pbpctrl.Prelude.{
  ℕ, ◌≡◌, ◌≢◌, refl, sym, ap, ◌∙◌, subst, inl, inr, ◌↔◌, List, [], ◌∷◌, ◌++◌, Option, none, some,
  Result, ok, err, Bool, true, false, Bool-cases, ◌==◌, if◌then◌else◌, All, arith,
}
use mathlib.Core.List.{Memᴰ}
use pbpctrl.Cli.Bluetooth.{
  Device, Failure, contains, unwrap_or, and_then, found_or, check_device, first_compatible,
  find_maestro_device,
}

contains-Mem : (u : ℕ) (uuids : List ℕ) → contains u uuids ≡ true → Memᴰ u uuids
unfolding contains
contains-Mem u [] h = absurd (ground (arith, h))
contains-Mem u (v ∷ uuids) h =
    let rest = contains-Mem u uuids in
    elim (Bool-cases (v == u)) [
      | inl same ↦ Memᴰ.head (ground (arith, same))
      | inr other ↦ Memᴰ.tail (rest (ground (arith, other, h)))
    ]

Mem-contains : (u : ℕ) (uuids : List ℕ) → Memᴰ u uuids → contains u uuids ≡ true
unfolding contains
Mem-contains u [] m = elim m [ ]
Mem-contains u (v ∷ uuids) (Memᴰ.head e) = ground (arith, e)
Mem-contains u (v ∷ uuids) (Memᴰ.tail m) = let rest = Mem-contains u uuids m in ground (arith, rest)

module _ {E : Type 0} (uuid : ℕ) where
  -- What a device answers that has the class of the buds, 0x240404, and the profile.
  pub record IsCompatible (class : Result E (Option ℕ)) (uuids : Result E (Option (List ℕ)))
      : Type 0 where
    pub buds : class ≡ ok (some 0x240404)
    pub services : List ℕ
    pub listed : uuids ≡ ok (some services)
    pub profile : Memᴰ uuid services

  -- What a device answers that lacks one of the two.
  pub data Lacks (class : Result E (Option ℕ)) (uuids : Result E (Option (List ℕ))) : Type 0 where
    other_class : (c : Option ℕ) → class ≡ ok c → c ≢ some 0x240404 → Lacks class uuids
    no_profile :
        (l : Option (List ℕ))
        → class ≡ ok (some 0x240404)
        → uuids ≡ ok l
        → ((us : List ℕ) → l ≡ some us → Memᴰ uuid us → ⊥)
        → Lacks class uuids

  abbrev check : Result E (Option ℕ) → Result E (Option (List ℕ)) → Result (Failure E) Bool
  check class uuids = and_then class (λ c.
      if unwrap_or 0 c == 0x240404
      then and_then uuids (λ us. ok (contains uuid (unwrap_or [] us)))
      else ok false)

  with_class :
      (uuids : Result E (Option (List ℕ)))
      → ◌≡◌ {A = Result (Failure E) Bool}
          (and_then uuids (λ us. ok (contains uuid (unwrap_or [] us))))
          (ok false)
      → Lacks (ok (some 0x240404)) uuids
  with_class (err e) h = absurd (ground (arith, h))
  with_class (ok none) h = no_profile none refl refl (λ us e. absurd (ground (arith, e)))
  with_class (ok (some l)) h = no_profile (some l) refl refl (λ us e m.
      let same : l ≡ us = ground (arith, e) in
      let is = Mem-contains uuid l (subst (Memᴰ uuid) (sym same) m) in ground (arith, h, is))

  check-Lacks :
      (class : Result E (Option ℕ)) (uuids : Result E (Option (List ℕ)))
      → check class uuids ≡ ok false
      → Lacks class uuids
  check-Lacks (err e) uuids h = absurd (ground (arith, h))
  check-Lacks (ok none) uuids h = other_class none refl (λ e. ground (arith, e))
  check-Lacks (ok (some c)) uuids h = elim (Bool-cases (c == 0x240404)) [
    | inl same ↦
        let e : c ≡ 0x240404 = ground (arith, same) in
        let h' : check (ok (some 0x240404)) uuids ≡ ok false =
          subst (λ n. check (ok (some n)) uuids ≡ ok false) e h in
        subst (λ n. Lacks (ok (some n)) uuids) (sym e) (with_class uuids h')
    | inr other ↦ other_class (some c) refl (λ e. ground (arith, other, e))
  ]

  Lacks-check :
      (class : Result E (Option ℕ)) (uuids : Result E (Option (List ℕ)))
      → Lacks class uuids
      → check class uuids ≡ ok false
  unfolding contains
  Lacks-check class uuids (other_class none e other) = rw e refl
  Lacks-check class uuids (other_class (some c) e other) =
      let differs : (c == 0x240404) ≡ false = elim (Bool-cases (c == 0x240404)) [
        | inl same ↦ absurd (other (ap some (ground (arith, same))))
        | inr differs ↦ differs
      ] in
      rw (e, differs) refl
  Lacks-check class uuids (no_profile none e answered absent) = rw (e, answered) refl
  Lacks-check class uuids (no_profile (some l) e answered absent) =
      let missing : contains uuid l ≡ false = elim (Bool-cases (contains uuid l)) [
        | inl is ↦ absurd (absent l refl (contains-Mem uuid l is))
        | inr missing ↦ missing
      ] in
      rw (e, answered, missing) refl

  check-IsCompatible :
      (class : Result E (Option ℕ)) (uuids : Result E (Option (List ℕ)))
      → check class uuids ≡ ok true
      → IsCompatible class uuids
  unfolding contains
  check-IsCompatible (err e) uuids h = absurd (ground (arith, h))
  check-IsCompatible (ok none) uuids h = absurd (ground (arith, h))
  check-IsCompatible (ok (some c)) (err e) h = absurd (ground (arith, h))
  check-IsCompatible (ok (some c)) (ok none) h = elim (Bool-cases (c == 0x240404)) [
    | inl same ↦ absurd (ground (arith, same, h))
    | inr other ↦ absurd (ground (arith, other, h))
  ]
  check-IsCompatible (ok (some c)) (ok (some l)) h = elim (Bool-cases (c == 0x240404)) [
    | inl same ↦ record {
      buds = ap (λ n. ok (some n)) (ground (arith, same));
      services = l;
      listed = refl;
      profile = contains-Mem uuid l (ground (arith, same, h));
    }
    | inr other ↦ absurd (ground (arith, other, h))
  ]

  IsCompatible-check :
      (class : Result E (Option ℕ)) (uuids : Result E (Option (List ℕ)))
      → IsCompatible class uuids
      → check class uuids ≡ ok true
  IsCompatible-check class uuids c =
      rw (c.buds, c.listed, Mem-contains uuid c.services c.profile) refl

  abbrev pub IsSkipped : Result E (Device E) → Type 0
  IsSkipped device = (dev : Device E) × (device ≡ ok dev) × Lacks dev.class dev.uuids

  -- `dev` is the first that is compatible, and those before it answered and are not.
  pub record IsFirst (devices : List (Result E (Device E))) (dev : Device E) : Type 0 where
    pub front : List (Result E (Device E))
    pub back : List (Result E (Device E))
    pub split : devices ≡ front ++ ok dev ∷ back
    pub skipped : All IsSkipped front
    pub compatible : IsCompatible dev.class dev.uuids

  found_or-IsFirst :
      (first dev : Device E) (devices : List (Result E (Device E)))
      (checked : Result (Failure E) Bool)
      → check first.class first.uuids ≡ checked
      → found_or first checked (first_compatible uuid devices) ≡ ok dev
      → (first_compatible uuid devices ≡ ok dev → IsFirst devices dev)
      → IsFirst (ok first ∷ devices) dev
  found_or-IsFirst first dev devices (err e) checked h rest = absurd (ground (arith, h))
  found_or-IsFirst first dev devices (ok true) checked h rest =
      let same : first ≡ dev = ground (arith, h) in
      record {
        front = [];
        back = devices;
        split = ap (λ d. ok d ∷ devices) same;
        skipped = tt;
        compatible =
            subst (λ d. IsCompatible d.class d.uuids) same (check-IsCompatible _ _ checked);
      }
  found_or-IsFirst first dev devices (ok false) checked h rest =
      let later = rest h in
      record {
        front = ok first ∷ later.front;
        back = later.back;
        split = ap (λ t. ok first ∷ t) later.split;
        skipped = ((first, refl, check-Lacks _ _ checked), later.skipped);
        compatible = later.compatible;
      }

  first_compatible-IsFirst :
      (devices : List (Result E (Device E))) (dev : Device E)
      → first_compatible uuid devices ≡ ok dev
      → IsFirst devices dev
  unfolding first_compatible check_device
  first_compatible-IsFirst [] dev h = absurd (ground (arith, h))
  first_compatible-IsFirst (err e ∷ devices) dev h = absurd (ground (arith, h))
  first_compatible-IsFirst (ok first ∷ devices) dev h =
      found_or-IsFirst first dev devices _ refl h (first_compatible-IsFirst devices dev)

  skip_all :
      (front : List (Result E (Device E))) (dev : Device E) (back : List (Result E (Device E)))
      → All IsSkipped front
      → IsCompatible dev.class dev.uuids
      → first_compatible uuid (front ++ ok dev ∷ back) ≡ ok dev
  unfolding first_compatible check_device
  skip_all [] dev back skipped compatible =
      ap (λ c. found_or dev c (first_compatible uuid back)) (IsCompatible-check _ _ compatible)
  skip_all (device ∷ front) dev back ((d, is, lacks), skipped) compatible =
      let rest = first_compatible uuid (front ++ ok dev ∷ back) in
      ap (λ x. and_then x (λ d. found_or d (check d.class d.uuids) rest)) is
      ∙ ap (λ c. found_or d c rest) (Lacks-check _ _ lacks)
      ∙ skip_all front dev back skipped compatible

  -- A device is found exactly if the adapter answers with its addresses, the device has the class of
  -- the buds, 0x240404, and the profile among its services, and every device before it answered and
  -- lacks one of the two.
  pub find_maestro_device_iff :
      (device_addresses : Result E (List (Result E (Device E)))) (dev : Device E)
      → (find_maestro_device uuid device_addresses ≡ ok dev) ↔ (
          (devices : List (Result E (Device E))) × (device_addresses ≡ ok devices)
          × IsFirst devices dev)
  unfolding find_maestro_device
  find_maestro_device_iff device_addresses dev = (
    forth device_addresses,
    λ (devices, answered, first).
        ap (λ a. and_then a (first_compatible uuid)) answered
        ∙ ap (first_compatible uuid) first.split
        ∙ skip_all first.front dev first.back first.skipped first.compatible,
  )
    where
      forth :
          (addresses : Result E (List (Result E (Device E))))
          → find_maestro_device uuid addresses ≡ ok dev
          → (devices : List (Result E (Device E))) × (addresses ≡ ok devices) × IsFirst devices dev
      forth (err e) h = absurd (ground (arith, h))
      forth (ok devices) h = (devices, refl, first_compatible-IsFirst devices dev h)
