-- ===== src/Witness/BindPaths.antt =====
-- app/witness/conflicts.rules.go: `bindPathConflicts`, the rule on bind mounts; and `assessBindPaths` of
-- app/witness/outcomes.go. The titles and descriptions are left out.
pub mod Safe
use deploy_witness_cli.Prelude.{
  ℕ, zero, suc, ◌+◌, ◌-◌, ◌*◌, ◌/◌, ◌%◌, ◌^◌, ◌≤◌, ◌<◌, String, ◌≡◌, refl, sym, ap, ◌∙◌, ◌≢◌, ◌↔◌,
  ◌⊎◌, inl, inr, Bool, true, false, not, ◌&&◌, ◌||◌, Option, none, some, List, [], ◌∷◌, ◌++◌, map,
  arith, ltb, leb, ◌==◌, if◌then◌else◌, ==_iff, Bool-cases, Option-cases, length, length-append,
  length-map, All, All-append, any, Text, codes, text_eq, text_eq_iff, text_eq_refl, text_eq_sound,
  is_empty, has_prefix, contains_text, join, trim_left_where, trim_where, trim_space, trim_brackets,
  to_lower, lower, upper, trim_suffix_byte, text_compare, itoa, is_space, em_dash, quoted, split_on,
  All-map, Exists, Exists-append_left, Exists-append_right, Exists-map, All-Exists, Exists-All,
  Exists-with, cut_first, cut_last, atoi, all, strip_suffix, lookup_text, all-Exists, all-All,
  All-all, all-with, lookup_text-All, take, strip_prefix, strip_prefix-length, is_empty_sound, span,
  span-length, ellipsis,
}
use deploy_witness_cli.FilePath.{clean}
use deploy_witness_cli.Model.Outcome.{problem, warning}
use deploy_witness_cli.Model.Finding.{Finding, conflict, high}
use deploy_witness_cli.Model.Plan.{ManifestService, VolumeMount, mount_bind}
use deploy_witness_cli.Model.Host.{ObservationState, failed, not_collected, observed}
use deploy_witness_cli.Witness.Input.{Input, manifest_evidence}
use deploy_witness_cli.Witness.Outcomes.{Verdict, checked, not_applicable_verdict, undecided, Rule}
use deploy_witness_cli.Witness.DynamicRange.{or_unknown}
use deploy_witness_cli.Witness.Binds.{read_only_suffix, bind_source_findings}

abbrev pub is_bind : VolumeMount → Bool
is_bind m = text_eq m.kind mount_bind

abbrev is_one_of : Text → List Text → Bool
is_one_of path paths = any (λ p. text_eq path p) paths

unfoldable pub ends_with : Text → Text → Bool
ends_with suffix s = elim (strip_suffix suffix s) [ none ↦ false | some r ↦ true ]

-- `sensitiveHostPath`.
unfoldable pub sensitive_host_path : Text → Text
sensitive_host_path path =
    let p = clean path in
    if text_eq p (codes "/")
    then codes "That is the whole root filesystem."
    else if text_eq p (codes "/etc") || has_prefix p (codes "/etc/")
    then codes "That is host configuration."
    else if is_one_of p (codes "/var/run" ∷ codes "/run" ∷ [])
        || (ends_with (codes "docker.sock") p || ends_with (codes "podman.sock") p)
    then codes
        "That is the container runtime's own socket, which is equivalent to root on the host."
    else if is_one_of p (codes "/home" ∷ codes "/root" ∷ [])
    then codes "That is somebody's home directory."
    else if text_eq p (codes "/var/lib/docker") || has_prefix p (codes "/var/lib/docker/")
    then codes
        "That is the engine's own storage; writing into it corrupts the engine's view of its images and layers."
    else if (text_eq p (codes "/sys") || has_prefix p (codes "/sys/"))
        || (text_eq p (codes "/proc") || has_prefix p (codes "/proc/"))
    then codes "That is a kernel interface."
    else []

-- The finding on a sensitive source.
unfoldable pub sensitive_finding : Input → ManifestService → VolumeMount → Finding
sensitive_finding i svc m = record {
  code = codes "witness.bind_path_conflict";
  collector = [];
  category = conflict;
  severity = warning;
  subject = m.source;
  confidence = high;
  sort_order = 1;
  evidence =
      manifest_evidence i svc.name
        (codes "volumes: " ++ (m.source ++ b':' ∷ (m.target ++ read_only_suffix m)))
      ∷ [];
  outcome = problem;
}

-- A round of the inner loop.
unfoldable pub mount_findings : Input → ManifestService → VolumeMount → List Finding
mount_findings i svc m =
    if not (is_bind m)
    then []
    else if not (has_prefix m.source (codes "/"))
    then []
    else bind_source_findings i svc m
      ++ (if is_empty (sensitive_host_path m.source) then [] else sensitive_finding i svc m ∷ [])

unfoldable pub mounts_findings : Input → ManifestService → List VolumeMount → List Finding
mounts_findings i svc [] = []
mounts_findings i svc (m ∷ ms) = mount_findings i svc m ++ mounts_findings i svc ms

unfoldable pub services_findings : Input → List ManifestService → List Finding
services_findings i [] = []
services_findings i (svc ∷ services) =
    mounts_findings i svc svc.volumes ++ services_findings i services

-- `bindPathConflicts`.
unfoldable pub bind_path_conflicts : Input → List Finding
bind_path_conflicts i = services_findings i i.manifest.services

-- The loops of `assessBindPaths`.
unfoldable pub count_mounts : List VolumeMount → ℕ
count_mounts [] = 0
count_mounts (m ∷ ms) = (if is_bind m then 1 else 0) + count_mounts ms

unfoldable pub count_binds : List ManifestService → ℕ
count_binds [] = 0
count_binds (svc ∷ services) = count_mounts svc.volumes + count_binds services

abbrev pub source_bind_sources : Text
source_bind_sources = codes "bind-sources"

abbrev pub is_unexamined : ObservationState → Bool
is_unexamined not_collected = true
is_unexamined failed = true
is_unexamined _ = false

-- `assessBindPaths`.
unfoldable pub assess_bind_paths : Input → Verdict
assess_bind_paths i =
    let o = observed i.caps source_bind_sources in
    if count_binds i.manifest.services == 0
    then not_applicable_verdict (codes "the plan declares no bind mount")
    else if is_unexamined o.state
    then undecided i (codes "the bind mount sources were not examined on this host")
        (codes "stat <source>") (or_unknown o.note) (codes "Re-run the audit on the host itself.")
    else checked (
        itoa (count_binds i.manifest.services)
        ++ (codes
              " bind mount(s): no source is a sensitive host path, every source exists or is created by the engine, and none is denied to the container user by its mode bits "
            ++ (em_dash
                ++ codes
                    " access itself is not proven: ACLs, user namespaces and SELinux are not read")))

-- The row of the rule in `rules`.
abbrev pub bind_path_rule : Rule
bind_path_rule = record {
  name = codes "bind-path-conflict";
  code = codes "witness.bind_path_conflict";
  title = codes "Bind mount sources";
  requires = codes "the bind mounts of the plan";
  eval = bind_path_conflicts;
  assess = some assess_bind_paths;
}
