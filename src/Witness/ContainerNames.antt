-- ===== src/Witness/ContainerNames.antt =====
-- app/witness/conflicts.rules.go: `containerNameConflicts`, the rule about fixed container names; and
-- `assessContainerNames` of app/witness/outcomes.go. The titles and descriptions are left out.
pub mod Clear
use deploy_witness_cli.Prelude.{
  ◌+◌, ◌-◌, Bool, true, false, not, ◌&&◌, ◌||◌, Option, none, some, List, [], ◌∷◌, ◌++◌,
  if◌then◌else◌, Text, codes, text_eq, is_empty, join, quoted,
}
use deploy_witness_cli.Model.Outcome.{
  Outcome, problem, no_problem, unknown, Severity, blocker, warning, info,
}
use deploy_witness_cli.Model.Finding.{Finding, conflict, high}
use deploy_witness_cli.Model.Plan.{ManifestService}
use deploy_witness_cli.Model.Host.{Container}
use deploy_witness_cli.Witness.Input.{
  Input, evidence, manifest_evidence, engine_list, engine_command, source_containers,
}
use deploy_witness_cli.Witness.Outcomes.{Verdict, checked, not_applicable_verdict, undecided, Rule}
use deploy_witness_cli.Witness.Ownership.{OwnerKind, own_service, unlabelled, owner_of}

-- The map `existing`, asked for a name: the last container of that name.
unfoldable pub existing_container : Text → List Container → Option Container
existing_container name [] = none
existing_container name (c ∷ cs) = elim (existing_container name cs) [
  | some found ↦ some found
  | none ↦ if text_eq c.name name then some c else none
]

abbrev pub is_own_kind : OwnerKind → Bool
is_own_kind own_service = true
is_own_kind _ = false

abbrev pub is_unlabelled_kind : OwnerKind → Bool
is_unlabelled_kind unlabelled = true
is_unlabelled_kind _ = false

-- The container is this deployment's, and of this service as far as it says.
unfoldable pub belongs : Input → ManifestService → Container → Bool
belongs i svc found =
    is_own_kind (owner_of i found).kind
    && (is_empty found.service || text_eq found.service svc.name)

-- The outcome and the severity of a name that a container has.
unfoldable pub name_verdict : Input → ManifestService → Container → Outcome × Severity
name_verdict i svc found =
    if belongs i svc found
    then (no_problem, info)
    else if is_unlabelled_kind (owner_of i found).kind
    then (unknown, warning)
    else (problem, blocker)

-- The finding on a name that a container has.
unfoldable pub name_finding : Input → ManifestService → Container → Finding
name_finding i svc found = record {
  code = codes "witness.container_name_conflict";
  collector = [];
  category = conflict;
  severity = (name_verdict i svc found).1;
  subject = svc.container_name;
  confidence = high;
  sort_order = 0;
  evidence =
      manifest_evidence i svc.name (codes "container_name: " ++ svc.container_name)
      ∷ evidence i (codes "docker ps -a --format {{json .}}") (
          codes "container "
          ++ found.name
          ++ codes " exists: image "
          ++ found.image
          ++ codes ", state "
          ++ found.state
          ++ codes ", project "
          ++ quoted found.project)
      ∷ [];
  outcome = (name_verdict i svc found).0;
}

-- A round of the loop over the services.
unfoldable pub name_conflict : Input → ManifestService → List Finding
name_conflict i svc =
    if is_empty svc.container_name
    then []
    else elim (existing_container svc.container_name i.caps.containers) [
      | none ↦ []
      | some found ↦ name_finding i svc found ∷ []
    ]

unfoldable pub name_conflicts : Input → List ManifestService → List Finding
name_conflicts i [] = []
name_conflicts i (svc ∷ services) = name_conflict i svc ++ name_conflicts i services

-- `containerNameConflicts`.
unfoldable pub container_name_conflicts : Input → List Finding
container_name_conflicts i = name_conflicts i i.manifest.services

-- The loop of `assessContainerNames`.
unfoldable pub fixed_names : List ManifestService → List Text
fixed_names [] = []
fixed_names (svc ∷ services) =
    if is_empty svc.container_name
    then fixed_names services
    else svc.container_name ∷ fixed_names services

-- `engineTodo`.
abbrev pub engine_todo : Text
engine_todo =
    codes
      "Re-run the audit as a user who can reach the container engine (root, or a member of the docker group), or check by hand before deploying."

-- `assessContainerNames`.
unfoldable pub assess_container_names : Input → Verdict
assess_container_names i =
    let fixed = fixed_names i.manifest.services in
    let list = engine_list i source_containers in
    if is_empty fixed
    then not_applicable_verdict
        (codes "no service sets container_name; Compose names the containers after the project")
    else if not list.0
    then undecided i
        (codes "the existing containers could not be listed ("
          ++ list.1
          ++ codes "), so whether "
          ++ join fixed (codes ", ")
          ++ codes " is taken is unknown")
        (engine_command i (codes "ps -a --format {{json .}}")) list.1 engine_todo
    else checked (codes "no existing container is named " ++ join fixed (codes ", "))

-- The row of the rule in `rules`.
abbrev pub container_name_rule : Rule
container_name_rule = record {
  name = codes "container-name-conflict";
  code = codes "witness.container_name_conflict";
  title = codes "Fixed container names";
  requires = codes "container_name of each service; the engine's container list";
  eval = container_name_conflicts;
  assess = some assess_container_names;
}
