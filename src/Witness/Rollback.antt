-- ===== src/Witness/Rollback.antt =====
-- `Rollback` of app/witness/changes.go, on a plan; `persistentData` of app/witness/hygiene.rules.go. A
-- detail is a constructor with what its text prints.
pub mod Backed
use deploy_witness_cli.Prelude.{
  ℕ, zero, suc, ◌+◌, ◌-◌, ◌*◌, ◌/◌, ◌%◌, ◌^◌, ◌≤◌, ◌<◌, String, ◌≡◌, refl, sym, ap, ◌∙◌, ◌≢◌, ◌↔◌,
  ◌⊎◌, inl, inr, Bool, true, false, not, ◌&&◌, ◌||◌, Option, none, some, List, [], ◌∷◌, ◌++◌, map,
  arith, ltb, leb, ◌==◌, if◌then◌else◌, ==_iff, Bool-cases, Option-cases, length, length-append,
  length-map, All, All-append, any, Text, codes, text_eq, text_eq_iff, text_eq_refl, text_eq_sound,
  is_empty, has_prefix, contains_text, join, trim_left_where, trim_where, trim_space, trim_brackets,
  to_lower, lower, upper, trim_suffix_byte, text_compare, itoa, is_space, em_dash, quoted, split_on,
  All-map, Exists, Exists-append_left, Exists-append_right, Exists-map, All-Exists, Exists-All,
  Exists-with, cut_first, cut_last, atoi, all, strip_suffix, lookup_text, all-Exists, all-All,
  All-all, all-with, lookup_text-All, take, strip_prefix, strip_prefix-length, is_empty_sound, span,
  span-length, ellipsis,
}
use deploy_witness_cli.Prelude.Int.{ℤ, pos, negsuc}
use deploy_witness_cli.Model.Plan.{ManifestService, VolumeMount, mount_volume, mount_bind}
use deploy_witness_cli.Model.Host.{Container, ContainerImage, BackupLocation, Proxy}
use deploy_witness_cli.Witness.Input.{Input}
use deploy_witness_cli.Witness.Ownership.{owner_of}
use deploy_witness_cli.Witness.ContainerNames.{is_own_kind}

-- `RollbackState`.
pub data RollbackState : Type 0 where
  available unavailable unverified : RollbackState

pub data Detail : Type 0 where
  not_running : Text → Detail
  returns_to : Text → Text → Text → Detail
  no_digest : Text → Text → Detail
  nothing_kept : Detail
  no_backup : List Text → Detail
  recent_backup : Text → Text → Detail
  stale_backups : Detail
  proxy_copy : Text → Text → Detail
  host_snapshot : Detail

pub record RollbackItem : Type 0 where
  pub kind : Text
  pub available : Bool
  pub state : RollbackState
  pub detail : Detail

abbrev pub is_available : RollbackState → Bool
is_available available = true
is_available _ = false

-- `NewRollbackItem`.
unfoldable pub new_rollback_item : Text → RollbackState → Detail → RollbackItem
new_rollback_item kind state detail = record {
  kind = kind;
  available = is_available state;
  state = state;
  detail = detail;
}

-- The map `running`, asked for a service: the last container of this deployment that has it.
unfoldable pub running : Input → Text → List Container → Option Container
running i service [] = none
running i service (c ∷ cs) = elim (running i service cs) [
  | some found ↦ some found
  | none ↦ if is_own_kind (owner_of i c).kind && text_eq c.service service then some c else none
]

-- The map `digests`, asked for an image: the last digest that is not empty, or nothing.
unfoldable pub digest_of : Text → List ContainerImage → Text
digest_of image [] = []
digest_of image (c ∷ cs) =
    let rest = digest_of image cs in
    if not (is_empty rest) then rest else if text_eq c.reference image then c.digest else []

-- The item on the image of a service that runs.
unfoldable pub running_item : Input → ManifestService → Container → RollbackItem
running_item i svc current =
    let digest = digest_of current.image i.caps.images in
    if is_empty digest
    then new_rollback_item (codes "image-tag") unavailable (no_digest svc.name current.image)
    else new_rollback_item (codes "image-tag") available (returns_to svc.name current.image digest)

-- The item on the image of a service.
unfoldable pub image_item : Input → ManifestService → RollbackItem
image_item i svc = elim (running i svc.name i.caps.containers) [
  | none ↦ new_rollback_item (codes "image-tag") available (not_running svc.name)
  | some current ↦ running_item i svc current
]

unfoldable pub image_items : Input → List ManifestService → List RollbackItem
image_items i [] = []
image_items i (svc ∷ services) = image_item i svc ∷ image_items i services

-- `persistentData`.
unfoldable pub mount_data : Text → List VolumeMount → List Text
mount_data service [] = []
mount_data service (m ∷ ms) =
    let rest = mount_data service ms in
    if text_eq m.kind mount_volume
    then (codes "volume " ++ m.source ++ codes " (" ++ service ++ codes ")") ∷ rest
    else if text_eq m.kind mount_bind && not m.read_only
    then (codes "bind " ++ m.source ++ codes " (" ++ service ++ codes ")") ∷ rest
    else rest

unfoldable pub persistent_data : List ManifestService → List Text
persistent_data [] = []
persistent_data (svc ∷ services) = mount_data svc.name svc.volumes ++ persistent_data services

-- `backupStaleDays`.
abbrev pub backup_stale_days : ℕ
backup_stale_days = 30

abbrev pub at_most : ℤ → ℕ → Bool
at_most (pos n) k = leb n k
at_most (negsuc n) k = true

-- A location with a file that is not stale.
abbrev pub is_fresh : BackupLocation → Bool
is_fresh l = not (is_empty l.newest_file_at) && at_most l.age_days backup_stale_days

-- The loop over the locations, up to the first that is fresh.
unfoldable pub fresh_item : List BackupLocation → RollbackItem
fresh_item [] = new_rollback_item (codes "volume-backup") unavailable stale_backups
fresh_item (l ∷ ls) =
    if is_fresh l
    then new_rollback_item (codes "volume-backup") available (recent_backup l.path l.newest_file_at)
    else fresh_item ls

-- The item on the data.
unfoldable pub data_item : List Text → List BackupLocation → RollbackItem
data_item [] locations = new_rollback_item (codes "volume-backup") available nothing_kept
data_item (d ∷ ds) [] = new_rollback_item (codes "volume-backup") unavailable (no_backup (d ∷ ds))
data_item (d ∷ ds) (l ∷ ls) = fresh_item (l ∷ ls)

unfoldable pub proxy_items : Option Proxy → List RollbackItem
proxy_items none = []
proxy_items (some p) =
    new_rollback_item (codes "proxy-config") unverified (proxy_copy p.kind p.config_root) ∷ []

-- `Rollback`.
unfoldable pub rollback : Input → List RollbackItem
rollback i =
    image_items i i.manifest.services
    ++ (data_item (persistent_data i.manifest.services) i.caps.backup_locations
        ∷ (proxy_items i.caps.proxy
            ++ new_rollback_item (codes "snapshot") unverified host_snapshot ∷ []))
