-- ===== src/Samples/PortConflict.antt =====
-- Tests of the rule about ports, and its theorems at concrete inputs.
use deploy_witness_cli.Prelude.{
  ◌≡◌, refl, ◌≢◌, ◌↔◌, inl, inr, true, false, none, some, [], ◌∷◌, map, if◌then◌else◌, All, codes,
  text_eq, trim_space, trim_brackets, to_lower, trim_suffix_byte, Exists,
}
use deploy_witness_cli.Net.Ip.{parse_ip}
use deploy_witness_cli.Model.Outcome.{blocker}
use deploy_witness_cli.Model.Finding.{Finding}
use deploy_witness_cli.Model.Plan.{PortMapping, ManifestService, host_ports, dynamic}
use deploy_witness_cli.Model.Host.{Socket}
use deploy_witness_cli.Witness.Input.{Input, engine_list}
use deploy_witness_cli.Witness.PortMatch.{
  PortClaim, stack_of, nowhere, certain, collides, claim_from_mapping, claim_from_socket, coverage,
  family_overlap, coverage_overlap, observable_protocol, base_protocol,
}
use deploy_witness_cli.Witness.PortHolders.{
  by_socket, port_holders, blocked, certain_holders, container_holders, socket_holders, is_certain,
  own_holder, is_own, foreign_container, is_foreign, ownership_known,
}
use deploy_witness_cli.Witness.HolderText.{protocol_of}
use deploy_witness_cli.Witness.PortConflict.{port_conflict_finding}
use deploy_witness_cli.Witness.PortConflict.Blocked.{IsTaken, blocker_iff}
use deploy_witness_cli.Witness.PortConflict.Real.{IsReal, blocker-IsReal}
use deploy_witness_cli.Witness.Outcomes.{Rule}
use deploy_witness_cli.Witness.Evaluate.{Tally, named, publish_all}
use deploy_witness_cli.Witness.PortRule.Published.{port_conflicts_published}
use deploy_witness_cli.Witness.PortState.{port_state, port_free, port_unchecked}
use deploy_witness_cli.Witness.PortState.Agreement.{availability, port_state_agrees}
use deploy_witness_cli.Witness.DynamicRange.{dynamic_range}
use deploy_witness_cli.Witness.DynamicRange.Settled.{IsFree, IsHeld, dynamic_range_settles}
use deploy_witness_cli.Witness.PortRule.{port_conflicts}
use deploy_witness_cli.Witness.PortRule.Stated.{IsAbout, port_conflicts_stated}
use deploy_witness_cli.Samples.Inputs.{input, manifest, caps}

-- A web server of the host on port 80, and a service that publishes that port.
abbrev nginx : Socket
nginx = record {
  protocol = codes "tcp";
  address = codes "0.0.0.0";
  port = 80;
  state = codes "LISTEN";
  pid = 7;
  process = codes "nginx";
  v6only = [];
}

abbrev published : PortMapping
published = record {
  host_ip = [];
  host_port = 80;
  host_port_end = 80;
  container_port = 8080;
  container_port_end = 0;
  protocol = codes "tcp";
}

abbrev web : ManifestService
web = record {
  name = codes "web";
  container_name = [];
  image = [];
  build = [];
  user = [];
  network_mode = [];
  ports = published ∷ [];
  expose = [];
  volumes = [];
}

abbrev busy : Input
busy = record input {
  manifest = record manifest { services = web ∷ [] };
  caps = record caps { ports = nginx ∷ [] };
}

abbrev want : PortClaim
want = claim_from_mapping published 80

overlap_certain : (collides (stack_of busy) want (claim_from_socket nginx)).0 ≡ certain
unfolding collides stack_of claim_from_mapping claim_from_socket parse_ip trim_space trim_brackets
    to_lower trim_suffix_byte text_eq coverage family_overlap coverage_overlap
overlap_certain = refl

not_apart : (collides (stack_of busy) want (claim_from_socket nginx)).0 ≢ nowhere
not_apart e = cc (e, overlap_certain)

tcp : observable_protocol want.protocol ≡ true
unfolding observable_protocol claim_from_mapping trim_space to_lower trim_suffix_byte text_eq
tcp = refl

is_blocker :
    (port_conflict_finding busy web published want (port_holders busy want)).severity ≡ blocker
unfolding collides stack_of claim_from_mapping claim_from_socket parse_ip trim_space trim_brackets
    to_lower trim_suffix_byte text_eq coverage family_overlap coverage_overlap port_conflict_finding
    port_holders blocked certain_holders is_certain own_holder is_own foreign_container is_foreign
    ownership_known engine_list container_holders socket_holders
is_blocker = refl

blocker-IsReal_example : Exists (IsReal busy want) (port_holders busy want)
blocker-IsReal_example = blocker-IsReal busy want web published is_blocker

blocker_iff_example :
    ((port_conflict_finding busy web published want (port_holders busy want)).severity ≡ blocker)
    ↔ IsTaken busy (port_holders busy want)
blocker_iff_example = blocker_iff busy web published want (port_holders busy want)

port_state_agrees_example :
    (port_holders busy want ≢ []
      → (port_state busy published 80).0
        ≡ availability
            (port_conflict_finding busy web published want (port_holders busy want)).outcome)
    × (port_holders busy want ≡ []
        → (port_state busy published 80).0
          ≡ (if busy.ports_unchecked then port_unchecked else port_free))
port_state_agrees_example = port_state_agrees busy web published 80 tcp

-- A range of three host ports for one container port.
abbrev range : PortMapping
range = record published { host_port_end = 82 }

range_tcp : observable_protocol (base_protocol (protocol_of range)) ≡ true
unfolding observable_protocol base_protocol protocol_of trim_space to_lower trim_suffix_byte text_eq
range_tcp = refl

dynamic_range_settles_example :
    ((dynamic_range busy web range ≡ none) ↔ Exists (IsFree busy range) (host_ports range))
    × ((f : Finding)
        → dynamic_range busy web range ≡ some f
        → (f.severity ≡ blocker) ↔ All (IsHeld busy range) (host_ports range))
dynamic_range_settles_example = dynamic_range_settles busy range web range_tcp

one_port : host_ports published ≡ 80 ∷ []
unfolding host_ports
one_port = refl

bridged : text_eq web.network_mode (codes "host") ≡ false
unfolding text_eq
bridged = refl

static : dynamic published ≡ false
unfolding dynamic
static = refl

port_conflicts_stated_example : Exists (IsAbout want) (port_conflicts busy)
port_conflicts_stated_example =
    port_conflicts_stated busy published 80 web (inl refl) (inl refl) (rw one_port (inl refl))
      bridged static (inr (by_socket nginx, claim_from_socket nginx, (inl refl, refl), not_apart))

-- The rule as `Evaluate` has it, and the state of the inner loop before its first finding.
abbrev port_conflict_rule : Rule
port_conflict_rule = record {
  name = codes "port_conflict";
  code = codes "witness.port_conflict";
  title = codes "Port conflicts";
  requires = codes "the published ports";
  eval = port_conflicts;
  assess = none;
}

abbrev fresh : Tally
fresh = record { published = []; dropped = 0; corrected = 0 }

port_conflicts_published_example :
    publish_all port_conflict_rule fresh (port_conflicts busy)
    ≡ record fresh { published = map (named port_conflict_rule) (port_conflicts busy) }
port_conflicts_published_example = port_conflicts_published port_conflict_rule fresh busy refl
