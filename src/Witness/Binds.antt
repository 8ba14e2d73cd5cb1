-- ===== src/Witness/Binds.antt =====
-- app/witness/binds.go: what is known of the source of a bind mount, and who the container runs as.
-- The prose of a finding is left out.
use deploy_witness_cli.Prelude.{
  ℕ, suc, ◌+◌, ◌-◌, ◌*◌, ◌/◌, ◌%◌, ◌^◌, Bool, true, false, not, ◌&&◌, Option, none, some, List, [],
  ◌∷◌, ◌++◌, ltb, leb, ◌==◌, if◌then◌else◌, any, Text, codes, text_eq, is_empty, itoa, split_on,
  cut_first, atoi,
}
use deploy_witness_cli.Prelude.Int.{ℤ, pos, negsuc, neg, int_eq}
use deploy_witness_cli.Model.Outcome.{Outcome, problem, unknown, Severity, blocker, warning}
use deploy_witness_cli.Model.Finding.{Finding, missing, high}
use deploy_witness_cli.Model.Plan.{ManifestService, VolumeMount}
use deploy_witness_cli.Model.Host.{PathInfo, ContainerImage}
use deploy_witness_cli.Witness.DynamicRange.{or_unknown}
use deploy_witness_cli.Witness.Input.{Input, evidence, manifest_evidence}

unfoldable pub find_source : List PathInfo → Text → Option PathInfo
find_source [] path = none
find_source (p ∷ ps) path = if text_eq p.path path then some p else find_source ps path

-- `bindSource`.
unfoldable pub bind_source : Input → Text → Option PathInfo
bind_source i path = find_source i.caps.bind_sources path

-- `strconv.Itoa` of any integer.
unfoldable pub itoa_int : ℤ → Text
itoa_int (pos n) = itoa n
itoa_int (negsuc n) = b'-' ∷ itoa (suc n)

-- `readOnlySuffix`, `createSuffix`.
unfoldable pub read_only_suffix : VolumeMount → Text
read_only_suffix m = if m.read_only then codes ":ro" else []

-- The engine is told not to create a missing source.
unfoldable pub never_created : VolumeMount → Bool
never_created m = elim m.create_host_path [ none ↦ false | some b ↦ not b ]

unfoldable pub create_suffix : VolumeMount → Text
create_suffix m = if never_created m then codes " (create_host_path: false)" else []

-- `describePath`.
unfoldable pub describe_path : PathInfo → Text
describe_path info =
    if text_eq info.state (codes "missing")
    then codes "no such file or directory"
    else if text_eq info.state (codes "unknown")
    then codes "could not be examined: " ++ info.error
    else info.type
      ++ (codes ", mode "
          ++ (or_unknown info.mode
              ++ (codes ", owner " ++ (itoa_int info.uid ++ b':' ∷ itoa_int info.gid))))
      ++ (if is_empty info.symlink_target then [] else codes ", symlink to " ++ info.symlink_target)
      ++ (if info.dangling then codes " (dangling)" else [])
      ++ (if info.read_only_fs then codes ", on a read-only filesystem" else [])

-- The loop of `containerUser`.
unfoldable pub image_user : List ContainerImage → Text → Text
image_user [] image = []
image_user (c ∷ cs) image =
    if text_eq c.reference image && not (is_empty image)
    then (if is_empty c.user then codes "0" else c.user)
    else image_user cs image

-- `containerUser`, less the words on where the answer comes from.
unfoldable pub container_user : Input → ManifestService → Text
container_user i svc = if is_empty svc.user then image_user i.caps.images svc.image else svc.user

abbrev pub signed : Bool × ℕ → ℤ
signed n = if n.0 then neg (pos n.1) else pos n.1

-- `numericUser`.
unfoldable pub numeric_user : Text → Option (ℤ × ℤ)
numeric_user user =
    let name : Text = elim (cut_first b':' user) [ none ↦ user | some (a, b) ↦ a ] in
    let gid : ℤ = elim (cut_first b':' user) [
      | none ↦ negsuc 0
      | some (a, b) ↦ elim (atoi b) [ none ↦ negsuc 0 | some n ↦ signed n ]
    ] in
    if is_empty user then none else elim (atoi name) [ none ↦ none | some n ↦ some (signed n, gid) ]

octal_value : ℕ → Text → Option ℕ
octal_value n [] = some n
octal_value n (c ∷ s) =
    let rest = octal_value (n * 8 + (c - b'0')) s in if leb b'0' c && leb c b'7' then rest else none

-- `strconv.ParseUint(s, 8, 32)`.
unfoldable pub parse_mode : Text → Option ℕ
unfolding octal_value
parse_mode s = if is_empty s then none else elim (octal_value 0 s) [
  | none ↦ none
  | some n ↦ if ltb (2 ^ 32 - 1) n then none else some n
]

abbrev pub below_zero : ℤ → Bool
below_zero (pos n) = false
below_zero (negsuc n) = true

-- The place of the bits of the class that the user is in: owner, group, others.
unfoldable pub class_unit : PathInfo → ℤ → ℤ → ℕ
class_unit info uid gid =
    if int_eq uid info.uid then 64 else if not (below_zero gid) && int_eq gid info.gid then 8 else 1

-- `deniedByMode`.
unfoldable pub denied_by_mode : PathInfo → ℤ → ℤ → Bool → Text
denied_by_mode info uid gid write = if int_eq uid (pos 0) then [] else elim (parse_mode info.mode) [
  | none ↦ []
  | some mode ↦
      let bits = (mode / class_unit info uid gid) % 8 in
      if bits / 4 % 2 == 0
      then codes "read"
      else if write && bits / 2 % 2 == 0
      then codes "write"
      else if text_eq info.type (codes "directory") && bits % 2 == 0
      then codes "enter"
      else []
]

-- `filepath.Ext(path) != ""`: whether the last element of the path has a dot.
unfoldable pub has_extension : List Text → Bool
has_extension [] = false
has_extension (p ∷ []) = any (λ c. c == b'.') p
has_extension (p ∷ q ∷ ps) = has_extension (q ∷ ps)

-- The `finding` of `bindSourceFindings`.
unfoldable pub bind_finding :
    Input → ManifestService → VolumeMount → PathInfo → Outcome → Severity → Finding
bind_finding i svc m info outcome severity =
    let declared =
      if is_empty m.declared then m.source else m.declared ++ codes " (" ++ m.source ++ codes ")" in
    record {
      code = codes "witness.bind_path_conflict";
      collector = [];
      category = missing;
      severity = severity;
      subject = m.source;
      confidence = high;
      sort_order = 2;
      evidence =
          manifest_evidence i svc.name (
            codes "volumes: "
            ++ (declared ++ b':' ∷ (m.target ++ (read_only_suffix m ++ create_suffix m))))
          ∷ evidence i (codes "stat " ++ m.source) (describe_path info)
          ∷ [];
      outcome = outcome;
    }

-- The access of the container's user, as far as the mode bits tell.
unfoldable pub access_findings : Input → ManifestService → VolumeMount → PathInfo → List Finding
access_findings i svc m info = elim (numeric_user (container_user i svc)) [
  | none ↦ []
  | some (uid, gid) ↦
      if not (below_zero info.uid) && not (is_empty (denied_by_mode info uid gid (not m.read_only)))
      then bind_finding i svc m info unknown warning ∷ []
      else []
]

-- On a source that is missing: by `create_host_path`, and by whether the name looks like a file.
unfoldable pub missing_findings :
    Input → ManifestService → VolumeMount → PathInfo → Option Bool → Bool → List Finding
missing_findings i svc m info none file = bind_finding i svc m info unknown warning ∷ []
missing_findings i svc m info (some false) file = bind_finding i svc m info problem blocker ∷ []
missing_findings i svc m info (some true) true = bind_finding i svc m info unknown warning ∷ []
missing_findings i svc m info (some true) false = []

-- On a source that exists: a dangling link, or written to on a read-only file system.
unfoldable pub existing_findings :
    Input → ManifestService → VolumeMount → PathInfo → Bool → Bool → List Finding
existing_findings i svc m info true unwritable = bind_finding i svc m info unknown warning ∷ []
existing_findings i svc m info false true = bind_finding i svc m info problem warning ∷ []
existing_findings i svc m info false false = access_findings i svc m info

-- `bindSourceFindings` on a source that was examined.
unfoldable pub source_findings : Input → ManifestService → VolumeMount → PathInfo → List Finding
source_findings i svc m info =
    if text_eq info.state (codes "unknown")
    then bind_finding i svc m info unknown warning ∷ []
    else if text_eq info.state (codes "missing")
    then missing_findings i svc m info m.create_host_path (has_extension (split_on b'/' m.source))
    else existing_findings i svc m info info.dangling (info.read_only_fs && not m.read_only)

-- `bindSourceFindings`.
unfoldable pub bind_source_findings : Input → ManifestService → VolumeMount → List Finding
bind_source_findings i svc m = elim (bind_source i m.source) [
  | none ↦ []
  | some info ↦ source_findings i svc m info
]
