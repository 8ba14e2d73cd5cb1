-- ===== src/Witness/PortRule/Publishable.antt =====
-- `portConflicts` of app/witness/conflicts.rules.go: `Evaluate` publishes its findings as they are.
use deploy_witness_cli.Prelude.{
  ℕ, ◌≡◌, refl, inl, inr, true, false, not, ◌&&◌, ◌||◌, List, [], ◌∷◌, arith, Bool-cases,
  Option-cases, All, All-append, any, codes, text_eq, is_empty,
}
use deploy_witness_cli.Model.Outcome.{
  Outcome, problem, no_problem, unknown, manual_check, Severity, blocker, warning, info,
}
use deploy_witness_cli.Model.Finding.{Finding}
use deploy_witness_cli.Model.Plan.{PortMapping, ManifestService, host_ports, dynamic}
use deploy_witness_cli.Witness.HolderText.{protocol_of}
use deploy_witness_cli.Witness.PortMatch.{base_protocol}
use deploy_witness_cli.Witness.Input.{Input}
use deploy_witness_cli.Witness.Outcomes.Fixed.{IsAllowed}
use deploy_witness_cli.Witness.PortMatch.{
  base_protocol, PortClaim, claim_from_mapping, observable_protocol, stack_of,
}
use deploy_witness_cli.Witness.PortHolders.{
  PortHolder, port_holders, socket_holders, blocked, ownership_known, certain_holders, own_holder,
}
use deploy_witness_cli.Witness.PortConflict.{port_conflict_finding}
use deploy_witness_cli.Witness.DynamicRange.{
  dynamic_range, unobservable_protocol, range_state, range_finding, RangeState,
}
use deploy_witness_cli.Witness.HostNetwork.{
  declared_claim, running_own_container, holds_all, host_network_ports, declared_findings,
  all_declared_findings, host_port_finding, undeclared_finding, Declared, declared_ports,
}
use deploy_witness_cli.Witness.PortRule.{
  port_findings, all_port_findings, mapping_findings, all_mapping_findings, service_findings,
  all_service_findings, port_conflicts,
}

-- A finding that is published as it is: it has evidence, and nothing to correct.
pub record IsPublishable (f : Finding) : Type 0 where
  pub backed : is_empty f.evidence ≡ false
  pub allowed : IsAllowed f

-- The combinations of outcome and severity that the rule writes.
pub data Pairing : Type 0 where
  taken harmless open_question by_hand undeclared : Pairing

abbrev paired : Pairing → Outcome × Severity
paired taken = (problem, blocker)
paired harmless = (no_problem, info)
paired open_question = (unknown, warning)
paired by_hand = (manual_check, warning)
paired undeclared = (manual_check, info)

paired-IsPublishable :
    (p : Pairing) (f : Finding)
    → (f.outcome ≡ (paired p).0) × (f.severity ≡ (paired p).1)
    → is_empty f.evidence ≡ false
    → IsPublishable f
paired-IsPublishable p f h e = record {
  backed = e;
  allowed = record {
    sound = record {
      decided = λ n. ground (arith, h.0, h.1, n);
      proven = λ b. ground (arith, h.0, h.1, b);
    };
    harmless = λ n. ground (arith, h.0, h.1, n);
    absent = λ n. ground (arith, h.0, h.1, n);
  };
}

conflict-IsPublishable :
    (i : Input) (svc : ManifestService) (m : PortMapping) (want : PortClaim) (hs : List PortHolder)
    → IsPublishable (port_conflict_finding i svc m want hs)
unfolding port_conflict_finding
conflict-IsPublishable i svc m want hs =
    elim (Bool-cases (blocked i hs && not (ownership_known i (certain_holders hs)))) [
      | inl e ↦ rw e (paired-IsPublishable open_question _ (refl, refl) refl)
      | inr e ↦ elim (Bool-cases (blocked i hs)) [
        | inl b ↦ rw (e, b) (paired-IsPublishable taken _ (refl, refl) refl)
        | inr b ↦ elim (Option-cases (own_holder i hs)) [
          | inl q ↦ rw (e, b, q) (paired-IsPublishable open_question _ (refl, refl) refl)
          | inr (own, q) ↦ rw (e, b, q) (paired-IsPublishable harmless _ (refl, refl) refl)
        ]
      ]
    ]

unobservable-IsPublishable :
    (i : Input) (svc : ManifestService) (m : PortMapping) (want : PortClaim)
    → IsPublishable (unobservable_protocol i svc m want)
unfolding unobservable_protocol
unobservable-IsPublishable i svc m want = paired-IsPublishable by_hand _ (refl, refl) refl

range-IsPublishable :
    (i : Input) (svc : ManifestService) (m : PortMapping) (r : RangeState)
    → IsPublishable (range_finding i svc m r)
unfolding range_finding
range-IsPublishable i svc m r = elim (Bool-cases (is_empty r.maybe)) [
  | inl e ↦ paired-IsPublishable taken _ (rw e refl, rw e refl) refl
  | inr e ↦ paired-IsPublishable open_question _ (rw e refl, rw e refl) refl
]

host_port-IsPublishable :
    (i : Input) (svc : ManifestService) (d : Declared) (hs : List PortHolder)
    → IsPublishable (host_port_finding i svc d hs)
unfolding host_port_finding
host_port-IsPublishable i svc d hs =
    elim (Bool-cases (any holds_all hs && is_empty (running_own_container i svc.name))) [
      | inl e ↦ paired-IsPublishable taken _ (rw e refl, rw e refl) refl
      | inr e ↦ paired-IsPublishable open_question _ (rw e refl, rw e refl) refl
    ]

declared-IsPublishable :
    (i : Input) (svc : ManifestService) (ds : List Declared)
    → All IsPublishable (all_declared_findings i svc ds)
unfolding all_declared_findings declared_findings
declared-IsPublishable i svc [] = tt
declared-IsPublishable i svc (d ∷ ds) =
    let holders = socket_holders (stack_of i) (declared_claim d) i.caps.ports in
    let rest = declared-IsPublishable i svc ds in
    elim (Bool-cases (not (observable_protocol d.protocol) || is_empty holders)) [
      | inl e ↦ rw e rest
      | inr e ↦ rw e (host_port-IsPublishable i svc d holders, rest)
    ]

host_network-IsPublishable :
    (i : Input) (svc : ManifestService) → All IsPublishable (host_network_ports i svc)
unfolding host_network_ports undeclared_finding
host_network-IsPublishable i svc = elim (Bool-cases (is_empty (declared_ports svc))) [
  | inl e ↦ rw e (paired-IsPublishable undeclared _ (refl, refl) refl, tt)
  | inr e ↦ rw e (declared-IsPublishable i svc (declared_ports svc))
]

ports-IsPublishable :
    (i : Input) (svc : ManifestService) (m : PortMapping) (ps : List ℕ)
    → All IsPublishable (all_port_findings i svc m ps)
unfolding all_port_findings port_findings
ports-IsPublishable i svc m [] = tt
ports-IsPublishable i svc m (p ∷ ps) =
    let want = claim_from_mapping m p in
    let rest = ports-IsPublishable i svc m ps in
    elim (Bool-cases (observable_protocol want.protocol)) [
      | inr o ↦ rw o (unobservable-IsPublishable i svc m want, rest)
      | inl o ↦ elim (Bool-cases (is_empty (port_holders i want))) [
        | inl e ↦ rw (o, e) rest
        | inr e ↦ rw (o, e) (conflict-IsPublishable i svc m want (port_holders i want), rest)
      ]
    ]

range_mapping-IsPublishable :
    (i : Input) (svc : ManifestService) (m : PortMapping)
    → dynamic m ≡ true
    → All IsPublishable (mapping_findings i svc m)
unfolding mapping_findings dynamic_range
range_mapping-IsPublishable i svc m d =
    elim (Bool-cases (observable_protocol (base_protocol (protocol_of m)))) [
      | inr o ↦
          rw (d, o) (unobservable-IsPublishable i svc m (claim_from_mapping m m.host_port), tt)
      | inl o ↦ elim (Option-cases (range_state i m (host_ports m))) [
        | inl q ↦ rw (d, o, q) tt
        | inr (r, q) ↦ rw (d, o, q) (range-IsPublishable i svc m r, tt)
      ]
    ]

mapping-IsPublishable :
    (i : Input) (svc : ManifestService) (m : PortMapping)
    → All IsPublishable (mapping_findings i svc m)
unfolding mapping_findings
mapping-IsPublishable i svc m = elim (Bool-cases (dynamic m)) [
  | inl d ↦ range_mapping-IsPublishable i svc m d
  | inr d ↦ rw d (ports-IsPublishable i svc m (host_ports m))
]

mappings-IsPublishable :
    (i : Input) (svc : ManifestService) (ms : List PortMapping)
    → All IsPublishable (all_mapping_findings i svc ms)
unfolding all_mapping_findings
mappings-IsPublishable i svc [] = tt
mappings-IsPublishable i svc (m ∷ ms) =
    All-append IsPublishable (mapping_findings i svc m) (all_mapping_findings i svc ms)
      (mapping-IsPublishable i svc m) (mappings-IsPublishable i svc ms)

services-IsPublishable :
    (i : Input) (ss : List ManifestService) → All IsPublishable (all_service_findings i ss)
unfolding all_service_findings service_findings
services-IsPublishable i [] = tt
services-IsPublishable i (s ∷ ss) =
    let rest = services-IsPublishable i ss in
    elim (Bool-cases (text_eq s.network_mode (codes "host"))) [
      | inl e ↦ rw e (
          All-append IsPublishable (host_network_ports i s) (all_service_findings i ss)
            (host_network-IsPublishable i s) rest)
      | inr e ↦ rw e (
          All-append IsPublishable (all_mapping_findings i s s.ports) (all_service_findings i ss)
            (mappings-IsPublishable i s s.ports) rest)
    ]

-- Every finding of the rule about ports has evidence and satisfies the two invariants between outcome
-- and severity, so none is discarded and none is corrected: in particular, only a problem is a blocker.
pub port_conflicts-IsPublishable : (i : Input) → All IsPublishable (port_conflicts i)
unfolding port_conflicts
port_conflicts-IsPublishable i = services-IsPublishable i i.manifest.services
