-- ===== src/Model/Host.antt =====
-- app/model/preflight.go and app/model/model.go: what was observed on the host (`Port`, `Container`,
-- `ContainerRuntime`, `Observation`, `Capabilities`), with `ObserveAt`, `Observed` and `Complete`.
use deploy_witness_cli.Prelude.{
  ℕ, Bool, true, false, Option, List, [], ◌∷◌, if◌then◌else◌, Text, text_eq,
}
use deploy_witness_cli.Prelude.Int.{ℤ}
use deploy_witness_cli.Model.Plan.{PortMapping}

-- A listening socket.
pub record Socket : Type 0 where
  pub protocol : Text
  pub address : Text
  pub port : ℕ
  pub state : Text
  pub pid : ℕ
  pub process : Text
  pub v6only : Text

pub record Container : Type 0 where
  pub name : Text
  pub image : Text
  pub state : Text
  pub ports : List PortMapping
  pub project : Text
  pub service : Text
  pub working_dir : Text
  pub config_hash : Text
  pub one_off : Bool
  pub labelled : Bool

pub record ContainerRuntime : Type 0 where
  pub kind : Text
  pub engine_id : Text
  pub engine_name : Text

-- A network of the engine.
pub record ContainerNetwork : Type 0 where
  pub name : Text
  pub driver : Text
  pub subnets : List Text
  pub project : Text
  pub scope : Text
  pub attachable : Text

-- A volume of the engine.
pub record ContainerVolume : Type 0 where
  pub name : Text
  pub driver : Text
  pub mountpoint : Text
  pub project : Text

-- What the host shows of the source of a bind mount.
pub record PathInfo : Type 0 where
  pub path : Text
  pub state : Text
  pub type : Text
  pub symlink_target : Text
  pub dangling : Bool
  pub mode : Text
  pub uid : ℤ
  pub gid : ℤ
  pub read_only_fs : Bool
  pub error : Text

pub record Filesystem : Type 0 where
  pub mount : Text
  pub read_only : Bool

-- An image of the engine.
pub record ContainerImage : Type 0 where
  pub reference : Text
  pub digest : Text
  pub user : Text

-- A backup directory, with the time of its newest file.
pub record BackupLocation : Type 0 where
  pub path : Text
  pub newest_file_at : Text
  pub age_days : ℤ

-- The web front end of the host.
pub record Proxy : Type 0 where
  pub kind : Text
  pub config_root : Text

pub data ObservationState : Type 0 where
  complete partly failed not_collected : ObservationState

pub record Observation : Type 0 where
  pub source : Text
  pub state : ObservationState
  pub note : Text
  pub observed_at : Text

pub record Capabilities : Type 0 where
  pub ports : List Socket
  pub runtime : Option ContainerRuntime
  pub containers : List Container
  pub container_networks : List ContainerNetwork
  pub container_volumes : List ContainerVolume
  pub images : List ContainerImage
  pub bind_sources : List PathInfo
  pub filesystems : List Filesystem
  pub backup_locations : List BackupLocation
  pub proxy : Option Proxy
  pub ipv6 : Text
  pub bind_v6_only : Text
  pub observations : List Observation

-- The loop of `ObserveAt`: the first record of the source is replaced, or one is appended.
pub record_observation : Observation → List Observation → List Observation
record_observation o [] = o ∷ []
record_observation o (p ∷ ps) =
    if text_eq p.source o.source then o ∷ ps else p ∷ record_observation o ps

-- `Capabilities.ObserveAt`, the time already formatted.
unfoldable pub observe_at : Capabilities → Text → ObservationState → Text → Text → Capabilities
observe_at c source state note at = record c {
  observations =
      record_observation (record { source = source; state = state; note = note; observed_at = at })
        c.observations;
}

-- The loop of `Observed`.
unfoldable pub find_observation : Text → List Observation → Observation
find_observation source [] = record {
  source = source;
  state = not_collected;
  note = [];
  observed_at = [];
}
find_observation source (o ∷ os) = if text_eq o.source source then o else find_observation source os

-- `Capabilities.Observed`.
unfoldable pub observed : Capabilities → Text → Observation
observed c source = find_observation source c.observations

abbrev is_complete : ObservationState → Bool
is_complete complete = true
is_complete _ = false

-- `Capabilities.Complete`.
unfoldable pub complete_source : Capabilities → Text → Bool
complete_source c source = is_complete (observed c source).state
