-- ===== src/Witness/Ownership.antt =====
-- app/witness/ownership.go: whose an existing container is, and what `docker compose up` does to it; with
-- `sameProject` and `normaliseProject` of app/witness/preflight.go. A project name is ASCII.
pub mod Released
use deploy_witness_cli.Prelude.{
  ℕ, zero, suc, ◌+◌, ◌-◌, Bool, true, false, not, ◌&&◌, ◌||◌, Option, none, some, List, [], ◌∷◌,
  ◌++◌, ltb, leb, ◌==◌, if◌then◌else◌, length, Text, codes, text_eq, is_empty, to_lower, em_dash,
  quoted,
}
use deploy_witness_cli.FilePath.{clean}
use deploy_witness_cli.Model.Plan.{ManifestService, LaunchPlan}
use deploy_witness_cli.Model.Host.{Container}
use deploy_witness_cli.Witness.Input.{Input}

pub data OwnerKind : Type 0 where
  own_service own_orphan own_one_off other_checkout renamed_project foreign_project unmanaged
        unlabelled :
      OwnerKind

-- The strings of the constants.
abbrev owner_text : OwnerKind → Text
owner_text own_service = codes "this deployment"
owner_text own_orphan = codes "an orphan of this project"
owner_text own_one_off = codes "a one-off run of this project"
owner_text other_checkout = codes "another checkout using the same project name"
owner_text renamed_project = codes "this directory under another project name"
owner_text foreign_project = codes "another Compose project"
owner_text unmanaged = codes "no Compose project"
owner_text unlabelled = codes "unknown (the engine reported no labels)"

pub record Ownership : Type 0 where
  pub kind : OwnerKind
  pub released : Bool
  pub action : Text

-- The bytes that `normaliseProject` keeps.
project_byte : ℕ → Bool
project_byte c =
    (leb b'a' c && leb c b'z') || ((leb b'0' c && leb c b'9') || (c == b'_' || c == b'-'))

keep_where : (ℕ → Bool) → Text → Text
keep_where test [] = []
keep_where test (c ∷ s) = if test c then c ∷ keep_where test s else keep_where test s

-- `normaliseProject`.
unfoldable pub normalise_project : Text → Text
unfolding keep_where project_byte
normalise_project name = keep_where project_byte (to_lower name)

-- `sameProject`: the comparison ignores case, which the normalised names no longer have.
unfoldable pub same_project : Input → Text → Bool
same_project i project =
    if is_empty i.project || is_empty project
    then false
    else text_eq (to_lower (normalise_project i.project)) (to_lower (normalise_project project))

-- The loop of `plannedService`.
names_service : Text → List ManifestService → Bool
names_service s [] = false
names_service s (m ∷ ms) = if text_eq m.name s then true else names_service s ms

-- `plannedService`.
unfoldable pub planned_service : Input → Text → Bool
unfolding names_service
planned_service i s = if is_empty s then true else names_service s i.manifest.services

-- `planDirectory`.
unfoldable pub plan_directory : Input → Text
plan_directory i = elim i.launch_plan [ none ↦ [] | some p ↦ p.project_directory ]

-- `sameDirectory`.
unfoldable pub same_directory : Input → Text → Bool
same_directory i dir =
    not (is_empty (plan_directory i))
    && (not (is_empty dir) && text_eq (clean (plan_directory i)) (clean dir))

-- `differentDirectory`.
unfoldable pub different_directory : Input → Text → Bool
different_directory i dir =
    not (is_empty (plan_directory i))
    && (not (is_empty dir) && not (text_eq (clean (plan_directory i)) (clean dir)))

-- `startedSuffix`.
started_suffix : Container → Text
started_suffix c =
    if not (is_empty c.state) && not (text_eq c.state (codes "running"))
    then codes ", and started"
    else []

-- `h[:12]` of a text that is longer.
take_bytes : ℕ → Text → Text
take_bytes zero s = []
take_bytes (suc n) [] = []
take_bytes (suc n) (c ∷ s) = c ∷ take_bytes n s

-- `shortHash`.
short_hash : Text → Text
unfolding take_bytes
short_hash h = if ltb 12 (length h) then take_bytes 12 h else h

-- `in.Plan.ConfigHashes[service]`.
lookup_hash : Text → List (Text × Text) → Option Text
lookup_hash s [] = none
lookup_hash s ((k, v) ∷ m) = if text_eq k s then some v else lookup_hash s m

-- The bytes of the arrow U+2192, with a space on each side.
abbrev pub arrow : Text
arrow = 0xe2 ∷ 0x86 ∷ 0x92 ∷ []

-- What `composeAction` says when the plan leaves it to the configuration hashes.
hash_action : Option Text → Container → Text
unfolding started_suffix short_hash
hash_action known c =
    let incomparable =
      codes "recreated if its configuration changed, kept otherwise "
      ++ (em_dash ++ codes " the configuration hashes could not be compared") in
    elim known [
      | none ↦ incomparable
      | some want ↦
          if is_empty c.config_hash
          then incomparable
          else if text_eq want c.config_hash
          then codes "kept: its configuration is unchanged" ++ started_suffix c
          else codes "recreated: its configuration changed (config hash "
            ++ (short_hash c.config_hash
                ++ (b' '
                    ∷ (arrow
                        ++ b' '
                          ∷ (short_hash want
                              ++ codes "), so it is stopped and removed, then created again"))))
    ]

-- `composeAction`.
unfoldable pub compose_action : Input → Container → Text
unfolding hash_action lookup_hash
compose_action i c = elim i.launch_plan [
  | none ↦ codes "replaced by the new version"
  | some p ↦
      if p.force_recreate
      then codes "recreated (--force-recreate): stopped and removed, then created again"
      else if p.no_recreate
      then codes "kept as it is (--no-recreate)" ++ started_suffix c
      else hash_action (lookup_hash c.service p.config_hashes) c
]

-- `in.Plan != nil && in.Plan.RemoveOrphans`.
unfoldable pub removes_orphans : Input → Bool
removes_orphans i = elim i.launch_plan [ none ↦ false | some p ↦ p.remove_orphans ]

ownership : OwnerKind → Bool → Text → Ownership
ownership kind released action = record { kind = kind; released = released; action = action }

-- `ownerOf`.
unfoldable pub owner_of : Input → Container → Ownership
unfolding ownership
owner_of i c =
    let same = same_project i c.project in
    if not c.labelled && (is_empty c.project && is_empty c.service)
    then ownership unlabelled false
        (codes "left as it is " ++ (em_dash ++ codes " whose it is could not be read"))
    else if is_empty c.project
    then ownership unmanaged false (codes "left as it is")
    else if same && c.one_off
    then ownership own_one_off false (codes "left as it is: `up` never replaces a one-off run")
    else if same && different_directory i c.working_dir
    then ownership other_checkout true
        (codes "taken over: it carries this project's name but was deployed from " ++ c.working_dir)
    else if same && not (planned_service i c.service)
    then (if removes_orphans i
        then ownership own_orphan true (codes "removed (--remove-orphans)")
        else ownership own_orphan false (
            codes
              "left running: its service is not in the plan, and without --remove-orphans `up` does not remove it"))
    else if same
    then ownership own_service true (compose_action i c)
    else if same_directory i c.working_dir
    then ownership renamed_project false
        (codes "left as it is: `up` does not touch another project")
    else ownership foreign_project false (codes "left as it is")

-- The project of a container, as `describeOwner` names it.
project_words : Container → Text
project_words c = codes "Compose project " ++ quoted c.project

-- `describeOwner`.
unfoldable pub describe_owner : Input → Container → Text
unfolding project_words
describe_owner i c = elim (owner_of i c).kind [
  | own_service ↦ project_words c ++ codes " (this deployment)"
  | own_orphan ↦
      project_words c
      ++ (codes ", service "
          ++ (quoted c.service ++ codes ", which the plan does not start (an orphan)"))
  | own_one_off ↦ project_words c ++ codes ", a one-off `docker compose run`"
  | other_checkout ↦
      project_words c
      ++ (codes ", deployed from another directory (" ++ (c.working_dir ++ codes ")"))
  | renamed_project ↦
      project_words c ++ codes ", deployed from this plan's directory under another project name"
  | foreign_project ↦ project_words c
  | unmanaged ↦ owner_text unmanaged
  | unlabelled ↦ owner_text unlabelled
]
