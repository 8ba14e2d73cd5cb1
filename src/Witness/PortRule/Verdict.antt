-- ===== src/Witness/PortRule/Verdict.antt =====
-- `assessPorts` of app/witness/outcomes.go, the verdict of the rule on ports.
use deploy_witness_cli.Prelude.{
  ℕ, ◌+◌, Bool, true, false, some, List, [], ◌∷◌, ◌++◌, ◌==◌, if◌then◌else◌, length, Text, codes,
  itoa,
}
use deploy_witness_cli.Model.Plan.{PortMapping, ManifestService, host_ports}
use deploy_witness_cli.Model.Host.{ObservationState, failed, observed}
use deploy_witness_cli.Witness.Input.{Input, source_sockets}
use deploy_witness_cli.Witness.Outcomes.{Verdict, checked, not_applicable_verdict, undecided, Rule}
use deploy_witness_cli.Witness.PortRule.{port_conflicts}

-- The loops of `publishedPorts`.
unfoldable pub published_by : List PortMapping → ℕ
published_by [] = 0
published_by (m ∷ ms) = length (host_ports m) + published_by ms

unfoldable pub published_by_services : List ManifestService → ℕ
published_by_services [] = 0
published_by_services (svc ∷ services) = published_by svc.ports + published_by_services services

-- `publishedPorts`.
unfoldable pub published_ports : Input → ℕ
published_ports i = published_by_services i.manifest.services

abbrev pub is_failed : ObservationState → Bool
is_failed failed = true
is_failed _ = false

abbrev pub socket_tables : Text
socket_tables = codes "/proc/net/tcp, /proc/net/tcp6, /proc/net/udp, /proc/net/udp6"

-- `assessPorts`.
unfoldable pub assess_ports : Input → Verdict
assess_ports i =
    let o = observed i.caps source_sockets in
    if published_ports i == 0
    then not_applicable_verdict (codes "the plan publishes no host port")
    else if i.ports_unchecked
    then undecided i
        (codes
          "the ports section was not selected, so the listening sockets were not read and no published port could be checked against them")
        socket_tables (codes "not read on this run")
        (codes "Re-run with the ports section selected (it is by default).")
    else if is_failed o.state
    then undecided i (codes "the listening sockets could not be read: " ++ o.note) socket_tables
        o.note (codes "Re-run on the host itself, as root, so the socket tables are readable.")
    else checked (
        itoa (published_ports i)
        ++ codes
            " published binding(s) were compared with the listening sockets and the containers' publications")

-- The row of the rule in `rules`.
abbrev pub port_conflict_rule : Rule
port_conflict_rule = record {
  name = codes "port-conflict";
  code = codes "witness.port_conflict";
  title = codes "Port conflicts";
  requires =
      codes
        "the published ports; the listening sockets (ports section); the containers' publications";
  eval = port_conflicts;
  assess = some assess_ports;
}
