-- ===== src/Witness/PortRule/Clear.antt =====
-- `portConflicts` of app/witness/conflicts.rules.go: what a passed check of the ports means.
use deploy_witness_cli.Prelude.{
  ℕ, ◌≡◌, refl, sym, ◌⊎◌, inl, inr, Bool, true, false, not, ◌&&◌, some, List, [], ◌∷◌, ◌++◌, arith,
  ◌==◌, ==_iff, Bool-cases, Option-cases, All, codes, text_eq, is_empty, Exists, is_empty_sound,
}
use deploy_witness_cli.Model.Outcome.{no_problem, manual_check}
use deploy_witness_cli.Model.Finding.{Finding}
use deploy_witness_cli.Model.Plan.{PortMapping, ManifestService, host_ports, dynamic}
use deploy_witness_cli.Model.Host.{observed}
use deploy_witness_cli.Witness.Input.{Input, source_sockets}
use deploy_witness_cli.Witness.Outcomes.{undecided, verdict_of, conclude}
use deploy_witness_cli.Witness.Outcomes.Low.{
  IsLow, no_problem-IsLow, problem_high, unknown_high, manual_check_high, All-left,
}
use deploy_witness_cli.Witness.PortMatch.{PortClaim, claim_from_mapping, observable_protocol}
use deploy_witness_cli.Witness.PortHolders.{
  is_own, PortHolder, port_holders, blocked, own_holder, certain_holders, ownership_known,
}
use deploy_witness_cli.Witness.PortConflict.{port_conflict_finding}
use deploy_witness_cli.Witness.PortConflict.Blocked.{IsForeign, found-IsForeign}
use deploy_witness_cli.Witness.DynamicRange.{unobservable_protocol}
use deploy_witness_cli.Witness.PortRule.{
  port_findings, all_port_findings, mapping_findings, all_mapping_findings, service_findings,
  all_service_findings, port_conflicts,
}
use deploy_witness_cli.Witness.PortRule.Verdict.{
  published_ports, is_failed, assess_ports, port_conflict_rule,
}

-- Every finding leaves the rule at no problem.
abbrev AreLow : List Finding → Type 0
AreLow fs = All (λ f. IsLow f.outcome) fs

-- One of the parts that findings are collected from.
part_AreLow :
    {A : Type 0} (part : A → List Finding) (a : A) (xs : List A) (all_parts : List A → List Finding)
    → ((x : A) (ys : List A) → all_parts (x ∷ ys) ≡ part x ++ all_parts ys)
    → Exists (λ x. x ≡ a) xs
    → AreLow (all_parts xs)
    → AreLow (part a)
part_AreLow part a [] all_parts step e h = elim e [ ]
part_AreLow part a (x ∷ xs) all_parts step (inl e) h =
    let k = All-left (λ f. IsLow f.outcome) (part x) (all_parts xs) (rw (step x xs) at h) in
    rw (sym e) k.0
part_AreLow part a (x ∷ xs) all_parts step (inr e) h =
    let k = All-left (λ f. IsLow f.outcome) (part x) (all_parts xs) (rw (step x xs) at h) in
    part_AreLow part a xs all_parts step e k.1

-- A binding of a checked protocol: nothing observed overlaps it, or some container that the run releases
-- does, and none that the run leaves in place holds it for certain.
abbrev pub IsPortFree : Input → PortClaim → Type 0
IsPortFree i want =
    (observable_protocol want.protocol ≡ true)
    × ((port_holders i want ≡ [])
        ⊎ (Exists (λ k. is_own i k ≡ true) (port_holders i want)
            × (¬ Exists (IsForeign i) (port_holders i want))))

own_holder-Exists :
    (i : Input) (hs : List PortHolder) (own : PortHolder)
    → own_holder i hs ≡ some own
    → Exists (λ k. is_own i k ≡ true) hs
unfolding own_holder
own_holder-Exists i [] own h = cc h
own_holder-Exists i (x ∷ hs) own h = elim (Bool-cases (is_own i x)) [
  | inl e ↦ inl e
  | inr e ↦ inr (own_holder-Exists i hs own (rw e at h))
]

blocked-IsForeign :
    (i : Input) (hs : List PortHolder) → blocked i hs ≡ false → ¬ Exists (IsForeign i) hs
unfolding blocked
blocked-IsForeign i hs h x = ground (arith, h, found-IsForeign i hs x)

conflict-free :
    (i : Input) (svc : ManifestService) (m : PortMapping) (want : PortClaim) (hs : List PortHolder)
    → IsLow (port_conflict_finding i svc m want hs).outcome
    → Exists (λ k. is_own i k ≡ true) hs × (¬ Exists (IsForeign i) hs)
unfolding port_conflict_finding
conflict-free i svc m want hs h = elim (Bool-cases (blocked i hs)) [
  | inl b ↦ elim (Bool-cases (ownership_known i (certain_holders hs))) [
    | inl k ↦ elim (problem_high (rw (b, k, port_conflict_finding) at h)) [ ]
    | inr k ↦ elim (unknown_high (rw (b, k, port_conflict_finding) at h)) [ ]
  ]
  | inr b ↦ elim (Option-cases (own_holder i hs)) [
    | inl o ↦ elim (unknown_high (rw (b, o, port_conflict_finding) at h)) [ ]
    | inr (own, o) ↦ (own_holder-Exists i hs own o, blocked-IsForeign i hs b)
  ]
]

port_findings-IsPortFree :
    (i : Input) (svc : ManifestService) (m : PortMapping) (port : ℕ)
    → AreLow (port_findings i svc m port)
    → IsPortFree i (claim_from_mapping m port)
unfolding port_findings unobservable_protocol
port_findings-IsPortFree i svc m port h =
    let want = claim_from_mapping m port in
    elim (Bool-cases (observable_protocol want.protocol)) [
      | inr o ↦
          let k : IsLow manual_check × Unit = rw (o, port_findings) at h in
          elim (manual_check_high k.0) [ ]
      | inl o ↦ elim (Bool-cases (is_empty (port_holders i want))) [
        | inl e ↦ (o, inl (is_empty_sound (port_holders i want) e))
        | inr e ↦
            let k : AreLow (port_conflict_finding i svc m want (port_holders i want) ∷ []) =
              rw (o, e, port_findings) at h in
            (o, inr (conflict-free i svc m want (port_holders i want) k.0))
      ]
    ]

-- The sockets were to be read, and reading them did not fail, as far as the verdict asks: an observation
-- that is partial passes.
abbrev pub sockets_read : Input → Bool
sockets_read i = not i.ports_unchecked && not (is_failed (observed i.caps source_sockets).state)

assess-sockets_read :
    (i : Input)
    → IsLow (assess_ports i).outcome
    → (published_ports i == 0) ≡ false
    → sockets_read i ≡ true
unfolding assess_ports undecided
assess-sockets_read i h e = elim (Bool-cases i.ports_unchecked) [
  | inl u ↦ elim (unknown_high (rw (e, u, assess_ports) at h)) [ ]
  | inr u ↦ elim (Bool-cases (is_failed (observed i.caps source_sockets).state)) [
    | inl f ↦ elim (unknown_high (rw (e, u, f, assess_ports) at h)) [ ]
    | inr f ↦ ground (arith, u, f)
  ]
]

service-IsPortFree :
    (i : Input) (svc : ManifestService) (m : PortMapping) (port : ℕ)
    → Exists (λ x. x ≡ m) svc.ports
    → Exists (λ p. p ≡ port) (host_ports m)
    → text_eq svc.network_mode (codes "host") ≡ false
    → dynamic m ≡ false
    → AreLow (service_findings i svc)
    → IsPortFree i (claim_from_mapping m port)
unfolding service_findings mapping_findings all_mapping_findings all_port_findings
service-IsPortFree i svc m port hm hp net dyn h =
    let ms : AreLow (all_mapping_findings i svc svc.ports) = rw (net, service_findings) at h in
    let one : AreLow (mapping_findings i svc m) =
      part_AreLow (mapping_findings i svc) m svc.ports (all_mapping_findings i svc) (λ x ys. refl)
        hm ms in
    let ps : AreLow (all_port_findings i svc m (host_ports m)) =
      rw (dyn, mapping_findings) at one in
    port_findings-IsPortFree i svc m port (
      part_AreLow (port_findings i svc m) port (host_ports m) (all_port_findings i svc m)
        (λ x ys. refl) hp ps)

-- If the rule on ports ends in no problem, then for every port of every mapping of every service of the
-- plan, if the service is not on the network of the host and the mapping is not a range for one
-- container port: the protocol is one that is checked; and no claim of an observed container or socket
-- overlaps the binding, or a container that the run releases has one that does and no container that
-- the run leaves in place holds the binding for certain. And the observation of the sockets was asked
-- for and is not marked as failed, though it may be partial, unless the plan publishes no port.
pub port_conflicts_clear :
    (i : Input) (svc : ManifestService) (m : PortMapping) (port : ℕ)
    → (conclude i port_conflict_rule (port_conflicts i)).0.outcome ≡ no_problem
    → Exists (λ x. x ≡ svc) i.manifest.services
    → Exists (λ x. x ≡ m) svc.ports
    → Exists (λ p. p ≡ port) (host_ports m)
    → text_eq svc.network_mode (codes "host") ≡ false
    → dynamic m ≡ false
    → IsPortFree i (claim_from_mapping m port) × ((published_ports i ≡ 0) ⊎ (sockets_read i ≡ true))
unfolding port_conflicts all_service_findings verdict_of
port_conflicts_clear i svc m port h hs hm hp net dyn =
    let low = no_problem-IsLow i port_conflict_rule (port_conflicts i) h in
    (
      service-IsPortFree i svc m port hm hp net dyn (
          part_AreLow (service_findings i) svc i.manifest.services (all_service_findings i)
            (λ x ys. refl) hs low.1),
      elim (Bool-cases (published_ports i == 0)) [
        | inl e ↦ inl ((==_iff (published_ports i) 0).0 e)
        | inr e ↦ inr (assess-sockets_read i low.0 e)
      ],
    )
