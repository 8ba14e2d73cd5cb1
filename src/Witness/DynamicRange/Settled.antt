-- ===== src/Witness/DynamicRange/Settled.antt =====
-- `dynamicRange` of app/witness/conflicts.rules.go: what it says of a host range.
use deploy_witness_cli.Prelude.{
  ℕ, ◌≡◌, refl, ap, ◌≢◌, ◌↔◌, inl, inr, Bool, true, false, none, some, List, [], ◌∷◌, arith,
  Bool-cases, Option-cases, All, is_empty, Exists,
}
use deploy_witness_cli.Model.Outcome.{blocker}
use deploy_witness_cli.Model.Finding.{Finding}
use deploy_witness_cli.Model.Plan.{PortMapping, ManifestService, host_ports}
use deploy_witness_cli.Witness.Input.{Input}
use deploy_witness_cli.Witness.PortMatch.{base_protocol, observable_protocol}
use deploy_witness_cli.Witness.HolderText.{protocol_of}
use deploy_witness_cli.Witness.PortState.{PortAvailability, port_free, port_taken, port_state}
use deploy_witness_cli.Witness.DynamicRange.{
  RangeState, range_state, range_finding, dynamic_range, unobservable_protocol,
}

module _ (i : Input) (m : PortMapping) where
  abbrev pub IsFree : ℕ → Type 0
  IsFree p = (port_state i m p).0 ≡ port_free

  abbrev pub IsHeld : ℕ → Type 0
  IsHeld p = (port_state i m p).0 ≡ port_taken

  is_free : PortAvailability → Bool
  is_free port_free = true
  is_free _ = false

  -- A round on a port that is not free.
  not_free :
      (p : ℕ) (ps : List ℕ)
      → (port_state i m p).0 ≢ port_free
      → range_state i m (p ∷ ps) ≡ none
      → range_state i m ps ≡ none
  unfolding range_state
  not_free p ps n h = ground arith

  none-IsFree : (ps : List ℕ) → range_state i m ps ≡ none → Exists IsFree ps
  unfolding range_state is_free
  none-IsFree [] h = cc h
  none-IsFree (p ∷ ps) h = elim (Bool-cases (is_free (port_state i m p).0)) [
    | inl e ↦ inl (ground (arith, e))
    | inr e ↦ inr (none-IsFree ps (not_free p ps (λ n. cc (e, ap is_free n)) h))
  ]

  IsFree-none : (ps : List ℕ) → Exists IsFree ps → range_state i m ps ≡ none
  unfolding range_state
  IsFree-none [] h = elim h [ ]
  IsFree-none (p ∷ ps) (inl h) = ground (arith, h)
  IsFree-none (p ∷ ps) (inr h) = ground (arith, IsFree-none ps h)

  sure-IsHeld :
      (ps : List ℕ) (r : RangeState)
      → range_state i m ps ≡ some r
      → is_empty r.maybe ≡ true
      → All IsHeld ps
  unfolding range_state
  sure-IsHeld [] r h e = tt
  sure-IsHeld (p ∷ ps) r h e = elim (Option-cases (range_state i m ps)) [
    | inl q ↦ ground (arith, q)
    | inr (s, q) ↦ (ground (arith, q), sure-IsHeld ps s q (ground (arith, q)))
  ]

  IsHeld-sure :
      (ps : List ℕ) (r : RangeState)
      → range_state i m ps ≡ some r
      → All IsHeld ps
      → is_empty r.maybe ≡ true
  unfolding range_state
  IsHeld-sure [] r h a = ground arith
  IsHeld-sure (p ∷ ps) r h a = elim (Option-cases (range_state i m ps)) [
    | inl q ↦ ground (arith, q, a.0)
    | inr (s, q) ↦ ground (arith, q, a.0, IsHeld-sure ps s q a.1)
  ]

  module _ (svc : ManifestService) where
    none_found : dynamic_range i svc m ≡ none → range_state i m (host_ports m) ≡ none
    unfolding dynamic_range
    none_found h = ground arith

    found_none :
        observable_protocol (base_protocol (protocol_of m)) ≡ true
        → range_state i m (host_ports m) ≡ none
        → dynamic_range i svc m ≡ none
    unfolding dynamic_range
    found_none o h = rw (o, h) refl

    blocker_sure :
        (f : Finding)
        → dynamic_range i svc m ≡ some f
        → f.severity ≡ blocker
        → (r : RangeState) × (range_state i m (host_ports m) ≡ some r) × (is_empty r.maybe ≡ true)
    unfolding dynamic_range range_finding unobservable_protocol
    blocker_sure f h b = elim (Option-cases (range_state i m (host_ports m))) [
      | inl q ↦ ground (arith, q)
      | inr (r, q) ↦ (r, q, ground (arith, q))
    ]

    sure_blocker :
        (f : Finding) (r : RangeState)
        → observable_protocol (base_protocol (protocol_of m)) ≡ true
        → dynamic_range i svc m ≡ some f
        → range_state i m (host_ports m) ≡ some r
        → is_empty r.maybe ≡ true
        → f.severity ≡ blocker
    unfolding dynamic_range range_finding
    sure_blocker f r o h q e = ground (arith, o, q)

    -- A host range for one container port, of a protocol that is checked, has no finding exactly if some
    -- port of it is free; and if it has one, that is a blocker exactly if every port of it is taken.
    pub dynamic_range_settles :
        observable_protocol (base_protocol (protocol_of m)) ≡ true
        → ((dynamic_range i svc m ≡ none) ↔ Exists IsFree (host_ports m))
          × ((f : Finding)
              → dynamic_range i svc m ≡ some f
              → (f.severity ≡ blocker) ↔ All IsHeld (host_ports m))
    dynamic_range_settles o = (
      (
        λ h. none-IsFree (host_ports m) (none_found h),
        λ e. found_none o (IsFree-none (host_ports m) e),
      ),
      λ f h. (
        λ b. let (r, q, e) = blocker_sure f h b in sure-IsHeld (host_ports m) r q e,
        λ a. elim (Option-cases (range_state i m (host_ports m))) [
          | inl q ↦ cc (h, found_none o q)
          | inr (r, q) ↦ sure_blocker f r o h q (IsHeld-sure (host_ports m) r q a)
        ],
      ),
    )
