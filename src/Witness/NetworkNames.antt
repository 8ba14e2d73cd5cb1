-- ===== src/Witness/NetworkNames.antt =====
-- app/witness/conflicts.rules.go: `networkNameConflicts`, the rule about networks; and
-- `assessExternalNetworks` of app/witness/outcomes.go. The titles and descriptions are left out.
pub mod Joined
use deploy_witness_cli.Prelude.{
  ℕ, ◌+◌, ◌-◌, Bool, true, false, not, ◌&&◌, Option, none, some, List, [], ◌∷◌, ◌++◌, if◌then◌else◌,
  length, Text, codes, text_eq, is_empty, join, itoa, em_dash, quoted,
}
use deploy_witness_cli.Model.Outcome.{
  Outcome, problem, unknown, manual_check, Severity, blocker, warning, info,
}
use deploy_witness_cli.Model.Finding.{Finding, Evidence, conflict, high}
use deploy_witness_cli.Model.Plan.{ManifestNetwork}
use deploy_witness_cli.Model.Host.{ContainerNetwork}
use deploy_witness_cli.Witness.Input.{
  Input, evidence, manifest_evidence, engine_list, engine_command, source_networks,
}
use deploy_witness_cli.Witness.Outcomes.{Verdict, checked, not_applicable_verdict, undecided, Rule}
use deploy_witness_cli.Witness.Ownership.{same_project}
use deploy_witness_cli.Witness.DynamicRange.{or_unknown}
use deploy_witness_cli.Witness.ContainerNames.{engine_todo}
use deploy_witness_cli.Witness.VolumeNames.{engine_name_of, on_engine}

-- The map `existing`, asked for a name: the last network of that name.
unfoldable pub existing_network : Text → List ContainerNetwork → Option ContainerNetwork
existing_network name [] = none
existing_network name (n ∷ ns) = elim (existing_network name ns) [
  | some found ↦ some found
  | none ↦ if text_eq n.name name then some n else none
]

unfoldable pub network_name : ManifestNetwork → Text
network_name n = engine_name_of n.engine_name n.name

unfoldable pub network_declaration : ManifestNetwork → Text → Text
network_declaration n name =
    if n.external
    then codes "networks: "
      ++ n.name
      ++ codes " declared external (engine name "
      ++ name
      ++ codes ")"
    else codes "networks: " ++ n.name ++ codes ", created by Compose as " ++ name

-- The local `listing`.
unfoldable pub listing : Input → Text → Evidence
listing i text =
    evidence i (engine_command i (codes "network ls --format {{json .}}")) (on_engine i text)

-- `networkEvidence`.
unfoldable pub network_evidence : Input → ContainerNetwork → Evidence
network_evidence i found = listing i (
    codes "network "
    ++ found.name
    ++ codes " driver="
    ++ found.driver
    ++ codes " scope="
    ++ or_unknown found.scope
    ++ codes " attachable="
    ++ or_unknown found.attachable
    ++ codes " subnets="
    ++ join found.subnets (codes ", ")
    ++ codes " project="
    ++ quoted found.project)

-- A finding on a network of the plan.
unfoldable pub network_finding :
    Input → ManifestNetwork → Outcome → Severity → ℕ → Evidence → Finding
network_finding i n o s sort_order e = record {
  code = codes "witness.network_name_conflict";
  collector = [];
  category = conflict;
  severity = s;
  subject = network_name n;
  confidence = high;
  sort_order = sort_order;
  evidence = manifest_evidence i [] (network_declaration n (network_name n)) ∷ e ∷ [];
  outcome = o;
}

unfoldable pub is_swarm : ContainerNetwork → Bool
is_swarm found = text_eq found.scope (codes "swarm")

-- The switch of the rule, for a network that does not exist, and for one that does.
unfoldable pub network_case : Input → ManifestNetwork → Option ContainerNetwork → List Finding
network_case i n none =
    let list = engine_list i source_networks in
    if n.external && not list.0
    then network_finding i n unknown warning 0 (listing i list.1) ∷ []
    else if n.external
    then network_finding i n problem blocker 0 (
        listing i (
          codes "no network named "
          ++ network_name n
          ++ codes " among the "
          ++ itoa (length i.caps.container_networks)
          ++ codes " networks"))
      ∷ []
    else []
network_case i n (some found) =
    if is_swarm found && text_eq found.attachable (codes "no")
    then network_finding i n problem blocker 0 (network_evidence i found) ∷ []
    else if is_swarm found && is_empty found.attachable
    then network_finding i n unknown warning 0 (network_evidence i found) ∷ []
    else if same_project i found.project
    then []
    else if n.external && is_empty found.project
    then []
    else if n.external
    then network_finding i n manual_check info 0 (network_evidence i found) ∷ []
    else network_finding i n problem warning 1 (network_evidence i found) ∷ []

unfoldable pub network_conflicts : Input → List ManifestNetwork → List Finding
network_conflicts i [] = []
network_conflicts i (n ∷ ns) =
    network_case i n (existing_network (network_name n) i.caps.container_networks)
    ++ network_conflicts i ns

-- `networkNameConflicts`.
unfoldable pub network_name_conflicts : Input → List Finding
network_name_conflicts i = network_conflicts i i.manifest.networks

-- The loop of `assessExternalNetworks`: the names of the networks that are external, or not.
unfoldable pub network_names : Bool → List ManifestNetwork → List Text
network_names external [] = []
network_names external (n ∷ ns) =
    if if external then n.external else not n.external
    then network_name n ∷ network_names external ns
    else network_names external ns

-- The reason of a verdict that the check was made.
unfoldable pub networks_reason : List Text → List Text → Text
networks_reason external created =
    let exists =
      codes "every external network ("
      ++ join external (codes ", ")
      ++ codes ") exists and can be joined" in
    if is_empty created
    then exists
    else join created (codes ", ")
      ++ codes " are created by Compose or already this project's"
      ++ (if is_empty external then [] else codes "; " ++ exists)

-- `assessExternalNetworks`.
unfoldable pub assess_external_networks : Input → Verdict
assess_external_networks i =
    let external = network_names true i.manifest.networks in
    let created = network_names false i.manifest.networks in
    let list = engine_list i source_networks in
    if is_empty external && is_empty created
    then not_applicable_verdict (codes "the plan declares no network")
    else if is_empty external && not list.0
    then undecided i
        (codes "the engine's networks could not be listed ("
          ++ list.1
          ++ codes "), so whether "
          ++ join created (codes ", ")
          ++ codes " already exist "
          ++ em_dash
          ++ codes " created by someone else "
          ++ em_dash
          ++ codes " is unknown")
        (engine_command i (codes "network ls --format {{json .}}")) list.1 engine_todo
    else checked (networks_reason external created)

-- The row of the rule in `rules`.
abbrev pub network_name_rule : Rule
network_name_rule = record {
  name = codes "network-name-conflict";
  code = codes "witness.network_name_conflict";
  title = codes "Networks";
  requires =
      codes
        "the plan's networks, by their engine names; the engine's network list, read in full, with scope and attachability";
  eval = network_name_conflicts;
  assess = some assess_external_networks;
}
