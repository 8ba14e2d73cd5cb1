-- ===== src/Witness/HostNetwork.antt =====
-- app/witness/conflicts.rules.go: `hostNetworkPorts`, a service on the network stack of the host.
use deploy_witness_cli.Prelude.{
  ℕ, ◌+◌, ◌-◌, Bool, true, false, not, ◌&&◌, ◌||◌, none, some, List, [], ◌∷◌, ◌++◌, ltb,
  if◌then◌else◌, any, Text, codes, text_eq, is_empty, itoa,
}
use deploy_witness_cli.Model.Outcome.{problem, unknown, manual_check, blocker, warning, info}
use deploy_witness_cli.Model.Finding.{Finding, conflict, medium, high}
use deploy_witness_cli.Model.Plan.{PortMapping, ManifestService, ports_from}
use deploy_witness_cli.Model.Host.{Container}
use deploy_witness_cli.Net.Ip.{is_unspecified}
use deploy_witness_cli.Witness.Input.{Input, manifest_evidence}
use deploy_witness_cli.Witness.PortMatch.{PortClaim, stack_of, base_protocol, observable_protocol}
use deploy_witness_cli.Witness.Ownership.{OwnerKind, own_service, owner_of}
use deploy_witness_cli.Witness.PortHolders.{PortHolder, socket_holders}
use deploy_witness_cli.Witness.HolderText.{holder_evidence}

-- The local struct `declared`.
pub record Declared : Type 0 where
  pub port : ℕ
  pub protocol : Text

declare : Text → List ℕ → List Declared
declare protocol [] = []
declare protocol (p ∷ ps) = record { port = p; protocol = protocol } ∷ declare protocol ps

-- The loop over `ports:`.
mapped_ports : List PortMapping → List Declared
unfolding declare
mapped_ports [] = []
mapped_ports (m ∷ ms) =
    let last =
      if ltb m.container_port_end m.container_port
      then m.container_port
      else m.container_port_end in
    declare (base_protocol m.protocol) (ports_from m.container_port (last - m.container_port + 1))
    ++ mapped_ports ms

-- Both loops that collect the declared ports.
unfoldable pub declared_ports : ManifestService → List Declared
unfolding mapped_ports declare
declared_ports svc = mapped_ports svc.ports ++ declare (codes "tcp") svc.expose

is_own_service : OwnerKind → Bool
is_own_service own_service = true
is_own_service _ = false

-- The loop of `runningOwnContainer`.
running_container : Input → Text → List Container → Text
unfolding is_own_service
running_container i service [] = []
running_container i service (c ∷ cs) =
    let owner = owner_of i c in
    if (text_eq c.service service && text_eq c.state (codes "running"))
      && (is_own_service owner.kind && owner.released)
    then c.name
    else running_container i service cs

-- `runningOwnContainer`.
unfoldable pub running_own_container : Input → Text → Text
unfolding running_container
running_own_container i service = running_container i service i.caps.containers

-- The claim of a declared port: it names no address.
abbrev pub declared_claim : Declared → PortClaim
declared_claim d = record {
  protocol = d.protocol;
  port = d.port;
  address = [];
  ip = none;
  any_addr = false;
  readable = true;
  v6only = [];
}

-- Whether a holder is bound to every address.
pub holds_all : PortHolder → Bool
holds_all h = h.claim.any_addr || elim h.claim.ip [ none ↦ false | some ip ↦ is_unspecified ip ]

-- The finding about a declared port that something holds.
unfoldable pub host_port_finding : Input → ManifestService → Declared → List PortHolder → Finding
host_port_finding i svc d hs =
    let sure = any holds_all hs && is_empty (running_own_container i svc.name) in
    record {
      code = codes "witness.port_conflict";
      collector = [];
      category = conflict;
      severity = if sure then blocker else warning;
      subject = itoa d.port ++ b'/' ∷ (d.protocol ++ codes " (host network)");
      confidence = if sure then high else medium;
      sort_order = d.port;
      evidence =
          manifest_evidence i svc.name (codes "network_mode: host")
          ∷ manifest_evidence i svc.name
              (codes "declares port " ++ (itoa d.port ++ b'/' ∷ d.protocol))
          ∷ holder_evidence i hs;
      outcome = if sure then problem else unknown;
    }

-- One round of the loop over the declared ports.
unfoldable pub declared_findings : Input → ManifestService → Declared → List Finding
declared_findings i svc d =
    let holders = socket_holders (stack_of i) (declared_claim d) i.caps.ports in
    if not (observable_protocol d.protocol) || is_empty holders
    then []
    else host_port_finding i svc d holders ∷ []

-- That loop.
unfoldable pub all_declared_findings : Input → ManifestService → List Declared → List Finding
unfolding declared_findings
all_declared_findings i svc [] = []
all_declared_findings i svc (d ∷ ds) = declared_findings i svc d ++ all_declared_findings i svc ds

-- The finding about a service that declares no port.
unfoldable pub undeclared_finding : Input → ManifestService → Finding
undeclared_finding i svc = record {
  code = codes "witness.port_conflict";
  collector = [];
  category = conflict;
  severity = info;
  subject = svc.name;
  confidence = high;
  sort_order = 0;
  evidence = manifest_evidence i svc.name (codes "network_mode: host") ∷ [];
  outcome = manual_check;
}

-- `hostNetworkPorts`.
unfoldable pub host_network_ports : Input → ManifestService → List Finding
unfolding undeclared_finding
host_network_ports i svc =
    let ports = declared_ports svc in
    if is_empty ports then undeclared_finding i svc ∷ [] else all_declared_findings i svc ports
