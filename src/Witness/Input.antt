-- ===== src/Witness/Input.antt =====
-- app/witness/preflight.go: `Input`, and the evidence that a rule attaches to a finding; with
-- app/witness/outcomes.go: `engineList` and `engineCommand`. A time is its RFC 3339 text, and the zero
-- time is `none`.
use deploy_witness_cli.Prelude.{
  ℕ, zero, suc, Bool, true, false, ◌||◌, Option, none, some, [], ◌∷◌, ◌++◌, if◌then◌else◌, Text,
  codes, is_empty, has_prefix, contains_text,
}
use deploy_witness_cli.Model.Finding.{Evidence, host, plan, rule}
use deploy_witness_cli.Model.Plan.{Manifest, LaunchPlan}
use deploy_witness_cli.Model.Host.{Capabilities, complete, observed}

-- What `Input` holds beside the manifest and the capabilities.
pub record Run : Type 0 where
  pub now : Option Text
  pub project : Text
  pub egress_checked : Bool
  pub ports_unchecked : Bool
  pub plan_resolved_at : Option Text
  pub launch_plan : Option LaunchPlan

pub record Input : Type 0 where
  pub manifest : Manifest
  pub caps : Capabilities
  pub run : Run
  pub open run use *

-- The text of the zero time.
abbrev zero_time : Text
zero_time = codes "0001-01-01T00:00:00Z"

abbrev time_text : Option Text → Text
time_text none = zero_time
time_text (some t) = t

abbrev pub source_containers : Text
source_containers = codes "containers"

abbrev pub source_networks : Text
source_networks = codes "networks"

abbrev pub source_network_subnets : Text
source_network_subnets = codes "network-subnets"

abbrev pub source_volumes : Text
source_volumes = codes "volumes"

abbrev pub source_images : Text
source_images = codes "images"

abbrev pub source_sockets : Text
source_sockets = codes "sockets"

abbrev source_memory : Text
source_memory = codes "memory"

abbrev source_filesystems : Text
source_filesystems = codes "filesystems"

abbrev source_arch : Text
source_arch = codes "arch"

abbrev pub source_proxy : Text
source_proxy = codes "proxy"

-- `sourceOf`: the observation that a command's output belongs to.
unfoldable pub source_of : Text → Text
source_of command =
    let c = b' ' ∷ (command ++ b' ' ∷ []) in
    if contains_text c (codes " ps -a ") || contains_text c (codes " info ")
    then source_containers
    else if contains_text c (codes " volume ")
    then source_volumes
    else if contains_text c (codes " network inspect ")
    then source_network_subnets
    else if contains_text c (codes " network ")
    then source_networks
    else if contains_text c (codes " image ")
    then source_images
    else if has_prefix command (codes "ss ") || contains_text c (codes "/proc/net")
    then source_sockets
    else if contains_text c (codes "/proc/meminfo")
    then source_memory
    else if contains_text c (codes "/proc/mounts")
    then source_filesystems
    else if has_prefix command (codes "uname")
    then source_arch
    else if has_prefix command (codes "nginx")
        || (has_prefix command (codes "apache") || has_prefix command (codes "httpd"))
    then source_proxy
    else []

abbrev pub max_evidence_output : ℕ
max_evidence_output = 1500

-- `output[:n]`, and whether that cut anything off.
pub cut : ℕ → Text → Text × Bool
cut n [] = ([], false)
cut zero (c ∷ s) = ([], true)
cut (suc n) (c ∷ s) = let (kept, truncated) = cut n s in (c ∷ kept, truncated)

-- The time of the observation, if its source has one.
captured_at : Input → Text → Text
captured_at i source =
    let at = (observed i.caps source).observed_at in
    if is_empty source || is_empty at then time_text i.now else at

-- `evidence`.
unfoldable pub evidence : Input → Text → Text → Evidence
unfolding captured_at
evidence i command output =
    let (kept, cut_off) = cut max_evidence_output output in
    let source = source_of command in
    record {
      command = command;
      output = kept;
      truncated = cut_off;
      captured_at = captured_at i source;
      origin =
          if has_prefix command (codes "deploy-witness rule ")
            || has_prefix command (codes "the rollback section")
          then rule
          else host;
      source = source;
    }

-- `manifestEvidence`.
unfoldable pub manifest_evidence : Input → Text → Text → Evidence
manifest_evidence i service detail =
    let path = if is_empty i.manifest.path then codes "docker-compose.yml" else i.manifest.path in
    let command =
      if is_empty service then path else path ++ codes " (service " ++ service ++ codes ")" in
    let e = evidence i command detail in
    record e {
      captured_at = elim i.plan_resolved_at [ none ↦ e.captured_at | some t ↦ t ];
      origin = plan;
      source = [];
    }

-- `engineList`: whether a list of the engine can prove that something is absent, and why.
unfoldable pub engine_list : Input → Text → Bool × Text
engine_list i source = elim i.caps.runtime [
  | none ↦ (true, codes "no container engine is installed")
  | some r ↦
      let o = observed i.caps source in
      elim o.state [
        | complete ↦ (true, o.note)
        | _ ↦ (
          false,
          if is_empty o.note
              then codes "the engine's " ++ source ++ codes " were not listed"
              else o.note,
        )
      ]
]

-- `engineCommand`.
unfoldable pub engine_command : Input → Text → Text
engine_command i args =
    let kind : Text = elim i.caps.runtime [
      | none ↦ codes "docker"
      | some r ↦ if is_empty r.kind then codes "docker" else r.kind
    ] in
    kind ++ b' ' ∷ args
