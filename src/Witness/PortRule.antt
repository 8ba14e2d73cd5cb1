-- ===== src/Witness/PortRule.antt =====
-- app/witness/conflicts.rules.go: `portConflicts`, the rule about ports that are already in use.
pub mod Verdict
pub mod Clear
pub mod Publishable
pub mod Published
pub mod Stated
use deploy_witness_cli.Prelude.{
  ℕ, ◌+◌, not, none, some, List, [], ◌∷◌, ◌++◌, if◌then◌else◌, codes, text_eq, is_empty,
}
use deploy_witness_cli.Model.Finding.{Finding}
use deploy_witness_cli.Model.Plan.{PortMapping, ManifestService, host_ports, dynamic}
use deploy_witness_cli.Witness.Input.{Input}
use deploy_witness_cli.Witness.PortMatch.{PortClaim, claim_from_mapping, observable_protocol}
use deploy_witness_cli.Witness.PortHolders.{PortHolder, port_holders}
use deploy_witness_cli.Witness.PortConflict.{port_conflict_finding}
use deploy_witness_cli.Witness.DynamicRange.{dynamic_range, unobservable_protocol}
use deploy_witness_cli.Witness.HostNetwork.{host_network_ports}

-- The body of the innermost loop.
unfoldable pub port_findings : Input → ManifestService → PortMapping → ℕ → List Finding
port_findings i svc m port =
    let want = claim_from_mapping m port in
    let holders = port_holders i want in
    if not (observable_protocol want.protocol)
    then unobservable_protocol i svc m want ∷ []
    else if is_empty holders
    then []
    else port_conflict_finding i svc m want holders ∷ []

unfoldable pub all_port_findings : Input → ManifestService → PortMapping → List ℕ → List Finding
all_port_findings i svc m [] = []
all_port_findings i svc m (p ∷ ps) = port_findings i svc m p ++ all_port_findings i svc m ps

-- The body of the loop over the mappings of a service.
unfoldable pub mapping_findings : Input → ManifestService → PortMapping → List Finding
mapping_findings i svc m =
    if dynamic m
    then elim (dynamic_range i svc m) [ none ↦ [] | some f ↦ f ∷ [] ]
    else all_port_findings i svc m (host_ports m)

unfoldable pub all_mapping_findings : Input → ManifestService → List PortMapping → List Finding
all_mapping_findings i svc [] = []
all_mapping_findings i svc (m ∷ ms) = mapping_findings i svc m ++ all_mapping_findings i svc ms

-- The body of the loop over the services.
unfoldable pub service_findings : Input → ManifestService → List Finding
service_findings i svc =
    if text_eq svc.network_mode (codes "host")
    then host_network_ports i svc
    else all_mapping_findings i svc svc.ports

unfoldable pub all_service_findings : Input → List ManifestService → List Finding
all_service_findings i [] = []
all_service_findings i (s ∷ ss) = service_findings i s ++ all_service_findings i ss

-- `portConflicts`.
unfoldable pub port_conflicts : Input → List Finding
port_conflicts i = all_service_findings i i.manifest.services
