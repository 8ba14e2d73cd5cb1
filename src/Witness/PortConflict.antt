-- ===== src/Witness/PortConflict.antt =====
-- app/witness/conflicts.rules.go: `portConflicts`, the rule about ports that are already in use; and
-- `portState` of app/witness/changes.go. The titles and descriptions of the findings are left out.
pub mod Blocked
pub mod Real
use deploy_witness_cli.Prelude.{
  ◌+◌, not, ◌&&◌, none, some, List, [], ◌∷◌, ◌++◌, if◌then◌else◌, codes, itoa,
}
use deploy_witness_cli.Model.Outcome.{
  Outcome, problem, no_problem, unknown, Severity, blocker, warning, info,
}
use deploy_witness_cli.Model.Finding.{Finding, Evidence, Confidence, conflict, medium, high}
use deploy_witness_cli.Model.Plan.{PortMapping, ManifestService, host_ports}
use deploy_witness_cli.Model.Host.{Container, Socket}
use deploy_witness_cli.Witness.Input.{
  Input, evidence, manifest_evidence, engine_list, source_containers,
}
use deploy_witness_cli.Witness.PortMatch.{
  PortClaim, IpStack, stack_of, Overlap, nowhere, undecidable, certain, overlap_rank, collides,
  claim_from_mapping, claim_from_socket, observable_protocol, subject, describe,
}
use deploy_witness_cli.Witness.Ownership.{owner_of, describe_owner, arrow}
use deploy_witness_cli.Witness.HolderText.{holder_evidence}
use deploy_witness_cli.Witness.PortHolders.{
  HolderSource, by_container, by_socket, PortHolder, blocked, certain_holders, ownership_known,
  own_holder,
}

-- The finding before its verdict.
draft : Input → ManifestService → PortMapping → PortClaim → Finding
draft i svc m want = record {
  code = codes "witness.port_conflict";
  collector = [];
  category = conflict;
  severity = Severity.unset;
  subject = subject want;
  confidence = high;
  sort_order = want.port;
  evidence =
      manifest_evidence i svc.name (
        codes "ports: publishes host "
        ++ (describe want
            ++ (b' ' ∷ (arrow ++ (codes " container port " ++ itoa m.container_port)))))
      ∷ [];
  outcome = Outcome.unset;
}

-- The verdict of a case of the switch, and what it adds as evidence.
settle : Input → Finding → Outcome → Severity → Confidence → List PortHolder → Finding
settle i f o s c hs = record f {
  outcome = o;
  severity = s;
  confidence = c;
  evidence = f.evidence ++ holder_evidence i hs;
}

-- `portConflictFinding`.
unfoldable pub port_conflict_finding :
    Input → ManifestService → PortMapping → PortClaim → List PortHolder → Finding
unfolding draft settle
port_conflict_finding i svc m want hs =
    let f = draft i svc m want in
    let sure = certain_holders hs in
    if blocked i hs && not (ownership_known i sure)
    then settle i f unknown warning medium sure
    else if blocked i hs
    then settle i f problem blocker high sure
    else elim (own_holder i hs) [
      | some own ↦ settle i f no_problem info high (own ∷ [])
      | none ↦ settle i f unknown warning medium hs
    ]
