-- ===== src/Samples/Inputs.antt =====
-- A host, a plan and two rules that the tests share.
use deploy_witness_cli.Prelude.{false, none, some, List, [], ◌∷◌, codes}
use deploy_witness_cli.Model.Outcome.{Outcome, problem, unknown, blocker, Severity}
use deploy_witness_cli.Model.Finding.{Finding, Evidence, host, conflict, high}
use deploy_witness_cli.Model.Plan.{Manifest}
use deploy_witness_cli.Model.Host.{Capabilities}
use deploy_witness_cli.Witness.Input.{Input, Run}
use deploy_witness_cli.Witness.Outcomes.{Rule}

abbrev pub manifest : Manifest
manifest = record { path = codes "compose.yml"; services = []; networks = []; volumes = [] }

abbrev pub caps : Capabilities
caps = record {
  ports = [];
  runtime = none;
  containers = [];
  container_networks = [];
  container_volumes = [];
  images = [];
  bind_sources = [];
  filesystems = [];
  backup_locations = [];
  proxy = none;
  ipv6 = codes "enabled";
  bind_v6_only = [];
  observations = [];
}

abbrev pub run : Run
run = record {
  now = some (codes "2026-07-01T00:00:00Z");
  project = codes "shop";
  egress_checked = false;
  ports_unchecked = false;
  plan_resolved_at = none;
  launch_plan = none;
}

abbrev pub input : Input
input = record { manifest = manifest; caps = caps; run = run }

abbrev pub proof : Evidence
proof = record {
  command = codes "uname -m";
  output = codes "x86_64";
  truncated = false;
  captured_at = codes "2026-07-01T00:00:00Z";
  origin = host;
  source = codes "arch";
}

-- A finding of the port rule.
abbrev pub finding : Severity → Outcome → Finding
finding s o = record {
  code = codes "witness.port_conflict";
  collector = codes "port-conflict";
  category = conflict;
  severity = s;
  subject = codes "80/tcp";
  confidence = high;
  sort_order = 80;
  evidence = proof ∷ [];
  outcome = o;
}

abbrev pub taken : Finding
taken = finding blocker problem

-- A finding that nothing supports.
abbrev pub bare : Finding
bare = record taken { evidence = [] }

-- A rule that states a conflict, and one finding that nothing supports.
abbrev pub port_rule : Rule
port_rule = record {
  name = codes "port-conflict";
  code = codes "witness.port_conflict";
  title = codes "Port conflicts";
  requires = codes "the published ports";
  eval = λ i. taken ∷ bare ∷ [];
  assess = none;
}

-- A rule whose data was not there.
abbrev pub disk_rule : Rule
disk_rule = record {
  name = codes "disk";
  code = codes "witness.insufficient_disk";
  title = codes "Disk space";
  requires = codes "the filesystem";
  eval = λ i. [];
  assess =
      some
        (λ i. record { outcome = unknown; reason = codes "no capacity"; evidence = []; todo = [] });
}

abbrev pub rules : List Rule
rules = port_rule ∷ disk_rule ∷ []
