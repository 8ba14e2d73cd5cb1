-- ===== src/Witness/PortConflict/Blocked.antt =====
-- `portConflictFinding` of app/witness/conflicts.rules.go: when a port is a blocker, and what that means.
use deploy_witness_cli.Witness.PortConflict.{port_conflict_finding}
use deploy_witness_cli.Model.Outcome.{blocker}
use deploy_witness_cli.Prelude.{
  ◌≡◌, refl, ap, ◌↔◌, ◌⊎◌, inl, inr, true, false, not, ◌&&◌, none, List, [], ◌∷◌, arith, ltb,
  Bool-cases, length, All, Exists,
}
use deploy_witness_cli.Model.Plan.{PortMapping, ManifestService}
use deploy_witness_cli.Witness.Input.{source_containers, engine_list, Input}
use deploy_witness_cli.Witness.PortMatch.{PortClaim, certain}
use deploy_witness_cli.Witness.PortHolders.{
  ownership_known, is_there, blocked, own_holder, PortHolder, certain_holders, foreign_container,
  is_certain, is_own, is_foreign, is_container, has_container,
}

is_certain_iff : (h : PortHolder) → (is_certain h ≡ true) ↔ (h.overlap ≡ certain)
unfolding is_certain
is_certain_iff h = ground arith

-- A container is either released or not; a socket is neither.
pub own_or_foreign :
    (i : Input) (h : PortHolder) → is_foreign i h ≡ (is_container h && not (is_own i h))
unfolding is_foreign is_own is_container
own_or_foreign i h = ground arith

module _ (i : Input) where
  -- A holder that holds the binding for certain, and is a container that the run does not release.
  abbrev pub IsForeign : PortHolder → Type 0
  IsForeign h = (h.overlap ≡ certain) × (is_foreign i h ≡ true)

  IsForeign-found :
      (hs : List PortHolder) → foreign_container i (certain_holders hs) ≡ true → Exists IsForeign hs
  unfolding foreign_container certain_holders
  IsForeign-found [] h = cc h
  IsForeign-found (x ∷ hs) h = elim (Bool-cases (is_certain x)) [
    | inr e ↦ inr (IsForeign-found hs (rw e at h))
    | inl e ↦ elim (Bool-cases (is_foreign i x)) [
      | inl f ↦ inl ((is_certain_iff x).0 e, f)
      | inr f ↦ inr (IsForeign-found hs (rw (e, f) at h))
    ]
  ]

  pub found-IsForeign :
      (hs : List PortHolder)
      → Exists IsForeign hs
      → (foreign_container i (certain_holders hs) ≡ true)
        × (has_container (certain_holders hs) ≡ true)
        × (ltb 0 (length (certain_holders hs)) ≡ true)
  unfolding foreign_container certain_holders has_container
  found-IsForeign [] h = elim h [ ]
  found-IsForeign (x ∷ hs) (inl h) =
      ground (arith, h.0, h.1, (is_certain_iff x).1 h.0, own_or_foreign i x)
  found-IsForeign (x ∷ hs) (inr h) = ground (arith, found-IsForeign hs h)

  no_own :
      (hs : List PortHolder) → is_there (own_holder i hs) ≡ false → All (λ k. is_own i k ≡ false) hs
  unfolding own_holder
  no_own [] h = tt
  no_own (x ∷ hs) h = elim (Bool-cases (is_own i x)) [
    | inl e ↦ cc (rw e at h)
    | inr e ↦ (e, no_own hs (rw e at h))
  ]

  own_none : (hs : List PortHolder) → All (λ k. is_own i k ≡ false) hs → own_holder i hs ≡ none
  unfolding own_holder
  own_none [] h = refl
  own_none (x ∷ hs) h = rw (h.0, own_none hs h.1) refl

  sure_found :
      (hs : List PortHolder)
      → ltb 0 (length (certain_holders hs)) ≡ true
      → Exists (λ k. k.overlap ≡ certain) hs
  unfolding certain_holders
  sure_found [] h = cc h
  sure_found (x ∷ hs) h = elim (Bool-cases (is_certain x)) [
    | inl e ↦ inl ((is_certain_iff x).0 e)
    | inr e ↦ inr (sure_found hs (rw e at h))
  ]

  found_sure :
      (hs : List PortHolder)
      → Exists (λ k. k.overlap ≡ certain) hs
      → ltb 0 (length (certain_holders hs)) ≡ true
  unfolding certain_holders
  found_sure [] h = elim h [ ]
  found_sure (x ∷ hs) (inl h) = ground (arith, (is_certain_iff x).1 h)
  found_sure (x ∷ hs) (inr h) = ground (arith, found_sure hs h)

  -- A container that is not released and holds the binding for certain is foreign.
  container_foreign :
      (hs : List PortHolder)
      → All (λ k. is_own i k ≡ false) hs
      → has_container (certain_holders hs) ≡ true
      → foreign_container i (certain_holders hs) ≡ true
  unfolding certain_holders has_container foreign_container
  container_foreign [] a h = h
  container_foreign (x ∷ hs) a h = ground (arith, a.0, own_or_foreign i x, container_foreign hs a.1)

  -- The binding is taken: by a container that the run does not release, or, if none of the holders is
  -- released and the engine's list is whole, by anything.
  abbrev pub IsTaken : List PortHolder → Type 0
  IsTaken hs =
      Exists IsForeign hs
      ⊎ (Exists (λ k. k.overlap ≡ certain) hs
          × All (λ k. is_own i k ≡ false) hs
          × ((engine_list i source_containers).0 ≡ true))

  IsTaken-known :
      (hs : List PortHolder)
      → (blocked i hs && ownership_known i (certain_holders hs)) ≡ true
      → IsTaken hs
  unfolding blocked ownership_known
  IsTaken-known hs h = elim (Bool-cases (foreign_container i (certain_holders hs))) [
    | inl e ↦ inl (IsForeign-found hs e)
    | inr e ↦
        let none_own = no_own hs (ground (arith, e)) in
        inr
          (sure_found hs (ground arith), none_own, ground (arith, e, container_foreign hs none_own))
  ]

  known-IsTaken :
      (hs : List PortHolder)
      → IsTaken hs
      → (blocked i hs && ownership_known i (certain_holders hs)) ≡ true
  unfolding blocked ownership_known
  known-IsTaken hs (inl h) = ground (arith, found-IsForeign hs h)
  known-IsTaken hs (inr h) = ground (arith, found_sure hs h.0, ap is_there (own_none hs h.1), h.2)

  module _ (svc : ManifestService) (m : PortMapping) (want : PortClaim) where
    verdict_blocker :
        (hs : List PortHolder)
        → ((port_conflict_finding i svc m want hs).severity ≡ blocker)
          ↔ ((blocked i hs && ownership_known i (certain_holders hs)) ≡ true)
    unfolding port_conflict_finding
    verdict_blocker hs = (λ h. ground arith, λ h. ground arith)

    -- A port is a blocker exactly if a container that the run does not release holds the binding for
    -- certain, or anything holds it for certain while no holder is released and the engine's list of
    -- containers is whole.
    pub blocker_iff :
        (hs : List PortHolder)
        → ((port_conflict_finding i svc m want hs).severity ≡ blocker) ↔ IsTaken hs
    blocker_iff hs = (
      λ h. IsTaken-known hs ((verdict_blocker hs).0 h),
      λ h. (verdict_blocker hs).1 (known-IsTaken hs h),
    )
