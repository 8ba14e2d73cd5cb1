-- ===== src/Samples/Binds.antt =====
-- Tests and witnesses for the bind mounts of a plan.
use deploy_witness_cli.Prelude.{
  String, ◌≡◌, refl, Bool, true, false, some, List, [], ◌∷◌, if◌then◌else◌, All, Text, codes,
  text_eq, has_prefix, text_compare, split_on, cut_first, atoi, strip_suffix,
}
use deploy_witness_cli.Prelude.Int.{pos}
use deploy_witness_cli.FilePath.{clean}
use deploy_witness_cli.Model.Outcome.{Outcome, no_problem, unknown, outcome_rank}
use deploy_witness_cli.Model.Plan.{ManifestService, VolumeMount, mount_bind}
use deploy_witness_cli.Model.Host.{complete, observed, find_observation}
use deploy_witness_cli.Witness.Input.{Input}
use deploy_witness_cli.Witness.Outcomes.{
  lowest, lower_of, conclude, verdict_of, checked, not_applicable_verdict, undecided,
}
use deploy_witness_cli.Witness.Binds.{
  find_source, bind_source, container_user, numeric_user, parse_mode, class_unit, denied_by_mode,
  has_extension, access_findings, missing_findings, existing_findings, source_findings,
  bind_source_findings, bind_finding,
}
use deploy_witness_cli.Witness.BindPaths.{
  ends_with, sensitive_host_path, mount_findings, mounts_findings, services_findings,
  bind_path_conflicts, count_mounts, count_binds, assess_bind_paths, bind_path_rule,
}
use deploy_witness_cli.Witness.BindPaths.Safe.{IsSafe, bind_paths-IsSafe}
use deploy_witness_cli.Collect.Binds.{
  FileInfo, Looked, not_there, there, Files, blank, described, follow_link, stat_path, under_mount,
  best_filesystem, filesystem_for, next_sources, mount_sources, service_sources, insert_text,
  sort_texts, examine, collected_sources,
}
use deploy_witness_cli.Samples.Inputs.{input, manifest, caps}

-- A directory of the user 1000 under /srv/data, and nothing else.
abbrev data_directory : FileInfo
data_directory = record {
  symlink = false;
  type = codes "directory";
  mode = codes "0750";
  uid = pos 1000;
  gid = pos 1000;
}

look : Text → Looked
unfolding text_eq
look p = if text_eq p (codes "/srv/data") then there data_directory else not_there

abbrev some_files : Files
some_files = record { lstat = look; stat = look; readlink = λ p. [] }

abbrev pub bind_mount : String → Bool → VolumeMount
bind_mount source ro = record {
  kind = mount_bind;
  source = codes source;
  declared = [];
  target = codes "/data";
  read_only = ro;
  create_host_path = some true;
}

abbrev pub service_as : String → List VolumeMount → ManifestService
service_as user mounts = record {
  name = codes "db";
  container_name = [];
  image = [];
  build = [];
  user = codes user;
  network_mode = [];
  ports = [];
  expose = [];
  volumes = mounts;
}

-- The host after the collector has looked at the plan's sources.
abbrev bound : ManifestService → Input
bound svc = record input {
  manifest = record manifest { services = svc ∷ [] };
  caps = record caps {
    bind_sources = collected_sources some_files [] (svc ∷ []);
    observations =
        record { source = codes "bind-sources"; state = complete; note = []; observed_at = [] }
        ∷ [];
  };
}

abbrev owned : ManifestService
owned = service_as "1000:1000" (bind_mount "/srv/data" false ∷ bind_mount "/srv/new" false ∷ [])

abbrev foreign : ManifestService
foreign = service_as "1001" (bind_mount "/srv/data" true ∷ [])

-- The outcome of the rule.
bind_outcome : ManifestService → Outcome
unfolding lowest lower_of conclude verdict_of checked not_applicable_verdict undecided
    bind_path_conflicts services_findings mounts_findings mount_findings bind_source_findings
    source_findings missing_findings existing_findings access_findings bind_finding bind_source
    find_source container_user numeric_user parse_mode class_unit denied_by_mode has_extension
    ends_with sensitive_host_path count_binds count_mounts assess_bind_paths observed
    find_observation collected_sources examine stat_path blank described follow_link filesystem_for
    best_filesystem under_mount next_sources mount_sources service_sources insert_text sort_texts
    look text_eq clean has_prefix strip_suffix split_on cut_first atoi text_compare outcome_rank
bind_outcome svc = (conclude (bound svc) bind_path_rule (bind_path_conflicts (bound svc))).0.outcome

owned_passes :
    (conclude (bound owned) bind_path_rule (bind_path_conflicts (bound owned))).0.outcome
    ≡ no_problem
unfolding bind_outcome
owned_passes = refl

foreign_unknown : bind_outcome foreign ≡ unknown
unfolding bind_outcome
foreign_unknown = refl

bind_paths-IsSafe_example :
    All (λ svc. All (IsSafe (bound owned) svc some_files) svc.volumes) (owned ∷ [])
bind_paths-IsSafe_example = bind_paths-IsSafe (bound owned) some_files refl owned_passes
