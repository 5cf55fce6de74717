-- ===== src/Pwrpc/Client/Pending.antt =====
-- libmaestro/src/pwrpc/client.rs: the search of the pending calls.
use pbpctrl.Prelude.{
  ◌≡◌, refl, sym, ap, ◌∙◌, List, [], ◌∷◌, ◌++◌, Option, none, some, true, false, if◌then◌else◌, All,
  Bool-cases, arith, inl, inr,
}
use mathlib.Core.Option as Opt
use pbpctrl.Pwrpc.Client.{CallUid, Call, same_uid, find_and_remove_call, find_call_mut}

module _ {S : Type 0} (uid : CallUid) where
  abbrev pub IsOther : Call S → Type 0
  IsOther c = same_uid c.uid uid ≡ false

  -- The calls with another identifier.
  unfoldable pub others : List (Call S) → List (Call S)
  others [] = []
  others (c ∷ pending) = let rest = others pending in if same_uid c.uid uid then rest else c ∷ rest

  -- What a call's removal leaves of the others.
  abbrev pub others_left : List (Call S) → Option (Call S × List (Call S)) → List (Call S)
  others_left pending none = others pending
  others_left pending (some r) = others r.1

  behind :
      (c : Call S) (pending : List (Call S)) (found : Option (Call S × List (Call S)))
      → IsOther c
      → others_left pending found ≡ others pending
      → others_left (c ∷ pending) (Opt.map (λ r. (r.0, c ∷ r.1)) found) ≡ c ∷ others pending
  unfolding others
  behind c pending none other e = rw other refl
  behind c pending (some r) other e = rw other (ap (λ t. c ∷ t) e)

  -- Removing a call changes no call with another identifier, nor their order.
  pub find_and_remove_call-others :
      (pending : List (Call S))
      → others_left pending (find_and_remove_call uid pending) ≡ others pending
  unfolding find_and_remove_call others
  find_and_remove_call-others [] = refl
  find_and_remove_call-others (c ∷ pending) =
      let rest = find_and_remove_call-others pending in
      elim (Bool-cases (same_uid c.uid uid)) [
        | inl same ↦ rw same refl
        | inr other ↦ rw other (behind c pending (find_and_remove_call uid pending) other rest)
      ]

  pub find_and_remove_call-rest :
      (pending : List (Call S)) (r : Call S × List (Call S))
      → find_and_remove_call uid pending ≡ some r
      → others r.1 ≡ others pending
  find_and_remove_call-rest pending r e =
      ap (λ found. others_left pending found) (sym e) ∙ find_and_remove_call-others pending

  -- The first call with the identifier is removed, and no other.
  pub find_and_remove_call-first :
      (front : List (Call S)) (c : Call S) (back : List (Call S))
      → All IsOther front
      → same_uid c.uid uid ≡ true
      → find_and_remove_call uid (front ++ c ∷ back) ≡ some (c, front ++ back)
  unfolding find_and_remove_call
  find_and_remove_call-first [] c back h e = rw e refl
  find_and_remove_call-first (d ∷ front) c back h e =
      rw (h.0, find_and_remove_call-first front c back h.1 e) refl

  abbrev pub removed : Option (Call S × List (Call S)) → Option (Call S)
  removed found = Opt.map (λ r. r.0) found

  map_first :
      (c : Call S) (found : Option (Call S × List (Call S)))
      → removed (Opt.map (λ r. (r.0, c ∷ r.1)) found) ≡ removed found
  map_first c none = refl
  map_first c (some r) = refl

  -- A call that is found can be removed, and the removed call is the one found.
  pub find_and_remove_call-find_call_mut :
      (pending : List (Call S))
      → removed (find_and_remove_call uid pending) ≡ find_call_mut uid pending
  unfolding find_and_remove_call find_call_mut
  find_and_remove_call-find_call_mut [] = refl
  find_and_remove_call-find_call_mut (c ∷ pending) =
      let rest = find_and_remove_call-find_call_mut pending in
      elim (Bool-cases (same_uid c.uid uid)) [
        | inl same ↦ rw same refl
        | inr other ↦ rw other (map_first c (find_and_remove_call uid pending) ∙ rest)
      ]

  pub removed-none : (found : Option (Call S × List (Call S))) → removed found ≡ none → found ≡ none
  removed-none none e = refl
  removed-none (some r) e = ground (arith, e)
