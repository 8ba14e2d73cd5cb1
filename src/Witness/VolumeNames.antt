-- ===== src/Witness/VolumeNames.antt =====
-- app/witness/conflicts.rules.go: `volumeNameConflicts`, the rule about named volumes; and
-- `assessExternalVolumes` of app/witness/outcomes.go. The titles and descriptions are left out.
pub mod Reached
use deploy_witness_cli.Prelude.{
  ℕ, ◌+◌, ◌-◌, Bool, true, false, not, ◌&&◌, Option, none, some, List, [], ◌∷◌, ◌++◌, if◌then◌else◌,
  length, any, Text, codes, text_eq, is_empty, join, itoa, em_dash, quoted,
}
use deploy_witness_cli.Model.Outcome.{Outcome, problem, unknown, Severity, blocker, warning}
use deploy_witness_cli.Model.Finding.{Finding, Evidence, conflict, high}
use deploy_witness_cli.Model.Plan.{VolumeMount, mount_volume, ManifestService, ManifestVolume}
use deploy_witness_cli.Model.Host.{ContainerVolume}
use deploy_witness_cli.Witness.Input.{
  Input, evidence, manifest_evidence, engine_list, engine_command, source_volumes,
}
use deploy_witness_cli.Witness.Outcomes.{Verdict, checked, not_applicable_verdict, undecided, Rule}
use deploy_witness_cli.Witness.Ownership.{same_project}
use deploy_witness_cli.Witness.DynamicRange.{or_unknown}
use deploy_witness_cli.Witness.ContainerNames.{engine_todo}

-- The map `existing`, asked for a name: the last volume of that name.
unfoldable pub existing_volume : Text → List ContainerVolume → Option ContainerVolume
existing_volume name [] = none
existing_volume name (v ∷ vs) = elim (existing_volume name vs) [
  | some found ↦ some found
  | none ↦ if text_eq v.name name then some v else none
]

-- `mountedVolumes`, asked for a volume.
unfoldable pub is_mount_of : Text → VolumeMount → Bool
is_mount_of name m =
    text_eq m.kind mount_volume && (not (is_empty m.source) && text_eq m.source name)

unfoldable pub is_mounted : Input → Text → Bool
is_mounted i name = any (λ svc. any (is_mount_of name) svc.volumes) i.manifest.services

-- `engineNameOf`.
unfoldable pub engine_name_of : Text → Text → Text
engine_name_of engine_name key = if is_empty engine_name then key else engine_name

unfoldable pub volume_name : ManifestVolume → Text
volume_name vol = engine_name_of vol.engine_name vol.name

-- `volumeDeclaration`.
unfoldable pub volume_declaration : ManifestVolume → Text → Text
volume_declaration vol name =
    if vol.external
    then codes "volumes: "
      ++ vol.name
      ++ codes " declared external (engine name "
      ++ name
      ++ codes ")"
    else codes "volumes: " ++ vol.name ++ codes ", created by Compose as " ++ name

-- `onEngine`.
unfoldable pub on_engine : Input → Text → Text
on_engine i observation = elim i.caps.runtime [
  | none ↦ observation
  | some r ↦
      if is_empty r.engine_id
      then observation
      else observation
        ++ codes " (engine "
        ++ r.engine_id
        ++ codes ", "
        ++ or_unknown r.engine_name
        ++ codes ")"
]

-- `volumeEvidence`.
unfoldable pub volume_evidence : Input → ContainerVolume → Evidence
volume_evidence i found = evidence i (engine_command i (codes "volume ls --format {{json .}}")) (
    on_engine i (
      codes "volume "
      ++ found.name
      ++ codes " driver="
      ++ found.driver
      ++ codes " mountpoint="
      ++ found.mountpoint
      ++ codes " project="
      ++ quoted found.project))

-- A finding on a volume of the plan.
unfoldable pub volume_finding : Input → ManifestVolume → Outcome → Severity → ℕ → Evidence → Finding
volume_finding i vol o s sort_order e = record {
  code = codes "witness.volume_name_conflict";
  collector = [];
  category = conflict;
  severity = s;
  subject = volume_name vol;
  confidence = high;
  sort_order = sort_order;
  evidence = manifest_evidence i [] (volume_declaration vol (volume_name vol)) ∷ e ∷ [];
  outcome = o;
}

-- The switch of the rule, for a volume that does not exist, and for one that does.
unfoldable pub volume_case : Input → ManifestVolume → Option ContainerVolume → List Finding
volume_case i vol none =
    let list = engine_list i source_volumes in
    let command = engine_command i (codes "volume ls --format {{json .}}") in
    if vol.external && not list.0
    then volume_finding i vol unknown warning 0 (evidence i command (on_engine i list.1)) ∷ []
    else if vol.external
    then volume_finding i vol problem blocker 0 (
        evidence i command (
          on_engine i (
            codes "no volume named "
            ++ volume_name vol
            ++ codes " among the "
            ++ itoa (length i.caps.container_volumes)
            ++ codes " volumes")))
      ∷ []
    else []
volume_case i vol (some found) =
    if same_project i found.project
    then []
    else if vol.external && is_empty found.project
    then []
    else if vol.external
    then volume_finding i vol problem warning 0 (volume_evidence i found) ∷ []
    else volume_finding i vol problem warning 1 (volume_evidence i found) ∷ []

-- A round of the loop.
unfoldable pub volume_conflict : Input → ManifestVolume → List Finding
volume_conflict i vol =
    if not (is_mounted i vol.name)
    then []
    else volume_case i vol (existing_volume (volume_name vol) i.caps.container_volumes)

unfoldable pub volume_conflicts : Input → List ManifestVolume → List Finding
volume_conflicts i [] = []
volume_conflicts i (vol ∷ vols) = volume_conflict i vol ++ volume_conflicts i vols

-- `volumeNameConflicts`.
unfoldable pub volume_name_conflicts : Input → List Finding
volume_name_conflicts i = volume_conflicts i i.manifest.volumes

-- The loop of `assessExternalVolumes`: the names of the mounted volumes that are external, or not.
unfoldable pub mounted_names : Input → Bool → List ManifestVolume → List Text
mounted_names i external [] = []
mounted_names i external (vol ∷ vols) =
    if is_mounted i vol.name && (if external then vol.external else not vol.external)
    then volume_name vol ∷ mounted_names i external vols
    else mounted_names i external vols

-- The reason of a verdict that the check was made.
unfoldable pub volumes_reason : List Text → List Text → Text
volumes_reason external created =
    let exists =
      codes "every external volume (" ++ join external (codes ", ") ++ codes ") exists" in
    if is_empty created
    then exists
    else join created (codes ", ")
      ++ codes " are created by Compose or already this project's"
      ++ (if is_empty external then [] else codes "; " ++ exists)

-- `assessExternalVolumes`.
unfoldable pub assess_external_volumes : Input → Verdict
assess_external_volumes i =
    let external = mounted_names i true i.manifest.volumes in
    let created = mounted_names i false i.manifest.volumes in
    let list = engine_list i source_volumes in
    if is_empty external && is_empty created
    then not_applicable_verdict (codes "the plan mounts no named volume")
    else if is_empty external && not list.0
    then undecided i
        (codes "the engine's volumes could not be listed ("
          ++ list.1
          ++ codes "), so whether "
          ++ join created (codes ", ")
          ++ codes " already exist "
          ++ em_dash
          ++ codes " created by someone else "
          ++ em_dash
          ++ codes " is unknown")
        (engine_command i (codes "volume ls --format {{json .}}")) list.1 engine_todo
    else checked (volumes_reason external created)

-- The row of the rule in `rules`.
abbrev pub volume_name_rule : Rule
volume_name_rule = record {
  name = codes "volume-name-conflict";
  code = codes "witness.volume_name_conflict";
  title = codes "Named volumes";
  requires =
      codes
        "the named volumes the plan mounts, by their engine names; the engine's volume list, read in full";
  eval = volume_name_conflicts;
  assess = some assess_external_volumes;
}
