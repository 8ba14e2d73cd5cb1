-- ===== src/Collect/Binds.antt =====
-- app/collect/host/binds.go and app/collect/host/host.go: what the collector sees of the sources of the
-- bind mounts. os.Lstat, os.Stat and os.Readlink are a parameter.
pub mod Found
use deploy_witness_cli.Prelude.{
  ℕ, zero, suc, ◌+◌, ◌-◌, ◌*◌, ◌/◌, ◌%◌, ◌^◌, ◌≤◌, ◌<◌, String, ◌≡◌, refl, sym, ap, ◌∙◌, ◌≢◌, ◌↔◌,
  ◌⊎◌, inl, inr, Bool, true, false, not, ◌&&◌, ◌||◌, Option, none, some, List, [], ◌∷◌, ◌++◌, map,
  arith, ltb, leb, ◌==◌, if◌then◌else◌, ==_iff, Bool-cases, Option-cases, length, length-append,
  length-map, All, All-append, any, Text, codes, text_eq, text_eq_iff, text_eq_refl, text_eq_sound,
  is_empty, has_prefix, contains_text, join, trim_left_where, trim_where, trim_space, trim_brackets,
  to_lower, lower, upper, trim_suffix_byte, text_compare, itoa, is_space, em_dash, quoted, split_on,
  All-map, Exists, Exists-append_left, Exists-append_right, Exists-map, All-Exists, Exists-All,
  Exists-with, cut_first, cut_last, atoi, all, strip_suffix, lookup_text, all-Exists, all-All,
  All-all, all-with, lookup_text-All, take, strip_prefix, strip_prefix-length, is_empty_sound, span,
  span-length, ellipsis,
}
use mathlib.Core.List.{reverse}
use Prim.Native.Nat.{Ordering}
use deploy_witness_cli.Prelude.Int.{ℤ, negsuc}
use deploy_witness_cli.FilePath.{clean}
use deploy_witness_cli.Model.Plan.{ManifestService, VolumeMount, mount_bind}
use deploy_witness_cli.Model.Host.{PathInfo, Filesystem}

-- What a stat answers: the type and the mode as they are printed, and the owner.
pub record FileInfo : Type 0 where
  pub symlink : Bool
  pub type : Text
  pub mode : Text
  pub uid : ℤ
  pub gid : ℤ

pub data Looked : Type 0 where
  not_there : Looked
  denied : Text → Looked
  there : FileInfo → Looked

pub record Files : Type 0 where
  pub lstat : Text → Looked
  pub stat : Text → Looked
  pub readlink : Text → Text

-- The `PathInfo` with nothing known.
unfoldable pub blank : Text → PathInfo
blank path = record {
  path = path;
  state = [];
  type = [];
  symlink_target = [];
  dangling = false;
  mode = [];
  uid = negsuc 0;
  gid = negsuc 0;
  read_only_fs = false;
  error = [];
}

unfoldable pub described : PathInfo → FileInfo → PathInfo
described info f = record info {
  state = codes "exists";
  type = f.type;
  mode = f.mode;
  uid = f.uid;
  gid = f.gid;
}

-- What following a symlink shows.
unfoldable pub follow_link : PathInfo → Looked → PathInfo
follow_link info not_there = record info {
  state = codes "exists";
  type = codes "symlink";
  dangling = true;
}
follow_link info (denied e) = record info { state = codes "unknown"; error = e }
follow_link info (there f) = described info f

-- `StatPath`.
unfoldable pub stat_path : Files → Text → PathInfo
stat_path files path = elim (files.lstat path) [
  | not_there ↦ record (blank path) { state = codes "missing" }
  | denied e ↦ record (blank path) { state = codes "unknown"; error = e }
  | there f ↦
      if f.symlink
      then follow_link (record (blank path) { symlink_target = files.readlink path })
          (files.stat path)
      else described (blank path) f
]

-- `underMount`.
unfoldable pub under_mount : Text → Text → Bool
under_mount path mount =
    let p = clean path in
    let m = clean mount in
    if text_eq m (codes "/")
    then has_prefix p (codes "/")
    else text_eq p m || has_prefix p (m ++ codes "/")

-- `FilesystemFor`, with the best one so far.
unfoldable pub best_filesystem : Text → Option Filesystem → List Filesystem → Option Filesystem
best_filesystem path best [] = best
best_filesystem path best (fs ∷ filesystems) =
    let better : Bool = elim best [
      | none ↦ true
      | some b ↦ ltb (length b.mount) (length fs.mount)
    ] in
    best_filesystem path (if under_mount path fs.mount && better then some fs else best) filesystems

unfoldable pub filesystem_for : Text → List Filesystem → Option Filesystem
filesystem_for path filesystems = best_filesystem path none filesystems

abbrev pub has_text : List Text → Text → Bool
has_text paths path = any (λ p. text_eq p path) paths

-- A round of the loop over the mounts: the sources to be examined, each once.
unfoldable pub next_sources : VolumeMount → List Text → List Text
next_sources m paths =
    if text_eq m.kind mount_bind
      && (has_prefix m.source (codes "/") && not (has_text paths m.source))
    then m.source ∷ paths
    else paths

unfoldable pub mount_sources : List VolumeMount → List Text → List Text
mount_sources [] paths = paths
mount_sources (m ∷ ms) paths = mount_sources ms (next_sources m paths)

unfoldable pub service_sources : List ManifestService → List Text → List Text
service_sources [] paths = paths
service_sources (svc ∷ services) paths = service_sources services (mount_sources svc.volumes paths)

-- `sort.Strings`.
unfoldable pub insert_text : Text → List Text → List Text
insert_text x [] = x ∷ []
insert_text x (y ∷ ys) =
    let rest = insert_text x ys in
    elim (text_compare y x) [ Ordering.lt ↦ y ∷ rest | _ ↦ x ∷ y ∷ ys ]

unfoldable pub sort_texts : List Text → List Text
sort_texts [] = []
sort_texts (x ∷ xs) = insert_text x (sort_texts xs)

-- A round of the second loop.
unfoldable pub examine : Files → List Filesystem → Text → PathInfo
examine files filesystems path =
    let info = stat_path files path in
    elim (filesystem_for path filesystems) [
      | none ↦ info
      | some fs ↦ record info { read_only_fs = fs.read_only }
    ]

-- The sources that `BindSources` adds to the capabilities.
unfoldable pub collected_sources : Files → List Filesystem → List ManifestService → List PathInfo
collected_sources files filesystems services =
    map (examine files filesystems) (sort_texts (service_sources services []))
