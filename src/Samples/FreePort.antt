-- ===== src/Samples/FreePort.antt =====
-- A plan that publishes a port which nothing on the host holds.
use deploy_witness_cli.Prelude.{
  ◌≡◌, refl, ◌⊎◌, inl, inr, true, false, [], ◌∷◌, codes, text_eq, trim_space, to_lower,
  trim_suffix_byte, Exists,
}
use deploy_witness_cli.Model.Outcome.{no_problem}
use deploy_witness_cli.Model.Plan.{PortMapping, ManifestService, host_ports, dynamic}
use deploy_witness_cli.Model.Host.{observed, find_observation}
use deploy_witness_cli.Witness.Input.{Input}
use deploy_witness_cli.Witness.Outcomes.{
  lowest, conclude, verdict_of, checked, not_applicable_verdict, undecided,
}
use deploy_witness_cli.Witness.PortMatch.{claim_from_mapping, observable_protocol, stack_of}
use deploy_witness_cli.Witness.PortHolders.{port_holders, container_holders, socket_holders}
use deploy_witness_cli.Witness.PortRule.{
  port_findings, all_port_findings, mapping_findings, all_mapping_findings, service_findings,
  all_service_findings, port_conflicts,
}
use deploy_witness_cli.Witness.PortRule.Verdict.{
  published_by, published_by_services, published_ports, assess_ports, port_conflict_rule,
}
use deploy_witness_cli.Witness.PortRule.Clear.{IsPortFree, sockets_read, port_conflicts_clear}
use deploy_witness_cli.Samples.Inputs.{input, manifest}

abbrev https : PortMapping
https = record {
  host_ip = [];
  host_port = 443;
  host_port_end = 444;
  container_port = 8443;
  container_port_end = 8444;
  protocol = codes "tcp";
}

abbrev front : ManifestService
front = record {
  name = codes "front";
  container_name = [];
  image = [];
  build = [];
  user = [];
  network_mode = [];
  ports = https ∷ [];
  expose = [];
  volumes = [];
}

abbrev idle : Input
idle = record input { manifest = record manifest { services = front ∷ [] } }

rule_passes : (conclude idle port_conflict_rule (port_conflicts idle)).0.outcome ≡ no_problem
unfolding lowest conclude verdict_of checked not_applicable_verdict undecided port_conflicts
    all_service_findings service_findings all_mapping_findings mapping_findings all_port_findings
    port_findings port_holders container_holders socket_holders observable_protocol
    claim_from_mapping stack_of dynamic host_ports assess_ports published_ports
    published_by_services published_by observed find_observation trim_space to_lower
    trim_suffix_byte text_eq
rule_passes = refl

second_port : Exists (λ p. p ≡ 444) (host_ports https)
unfolding host_ports
second_port = inr (inl refl)

no_host_network : text_eq front.network_mode (codes "host") ≡ false
unfolding text_eq
no_host_network = refl

no_range : dynamic https ≡ false
unfolding dynamic
no_range = refl

port_conflicts_clear_example :
    IsPortFree idle (claim_from_mapping https 444)
    × ((published_ports idle ≡ 0) ⊎ (sockets_read idle ≡ true))
port_conflicts_clear_example =
    port_conflicts_clear idle front https 444 rule_passes (inl refl) (inl refl) second_port
      no_host_network no_range
