-- ===== src/Model/Plan.antt =====
-- app/model/preflight.go: the plan to be deployed (`PortMapping`, `ManifestService`, `Manifest`,
-- `LaunchPlan`), with the methods of `PortMapping`.
use deploy_witness_cli.Prelude.{
  ℕ, zero, suc, ◌+◌, ◌-◌, Bool, ◌&&◌, ◌||◌, List, Option, [], ◌∷◌, ltb, ◌==◌, if◌then◌else◌, Text,
  codes,
}

pub record PortMapping : Type 0 where
  pub host_ip : Text
  pub host_port : ℕ
  pub host_port_end : ℕ
  pub container_port : ℕ
  pub container_port_end : ℕ
  pub protocol : Text

-- `PortMapping.Dynamic`.
unfoldable pub dynamic : PortMapping → Bool
dynamic p =
    ltb p.host_port p.host_port_end
    && (p.container_port_end == 0 || p.container_port_end == p.container_port)

-- `PortMapping.Ephemeral`.
unfoldable pub ephemeral : PortMapping → Bool
ephemeral p = p.host_port == 0 && ltb 0 p.container_port

-- The ports from `start` on, `n` of them.
pub ports_from : ℕ → ℕ → List ℕ
ports_from start zero = []
ports_from start (suc n) = start ∷ ports_from (start + 1) n

-- `PortMapping.HostPorts`.
unfoldable pub host_ports : PortMapping → List ℕ
unfolding ports_from
host_ports p =
    if p.host_port == 0
    then []
    else let last = if ltb p.host_port_end p.host_port then p.host_port else p.host_port_end in
      ports_from p.host_port (last - p.host_port + 1)

pub record VolumeMount : Type 0 where
  pub kind : Text
  pub source : Text
  pub declared : Text
  pub target : Text
  pub read_only : Bool
  pub create_host_path : Option Bool

-- `MountVolume`.
abbrev pub mount_volume : Text
mount_volume = codes "volume"

-- `MountBind`.
abbrev pub mount_bind : Text
mount_bind = codes "bind"

-- The image is `Image.Raw`.
pub record ManifestService : Type 0 where
  pub name : Text
  pub image : Text
  pub build : Text
  pub user : Text
  pub container_name : Text
  pub network_mode : Text
  pub ports : List PortMapping
  pub expose : List ℕ
  pub volumes : List VolumeMount

pub record ManifestNetwork : Type 0 where
  pub name : Text
  pub engine_name : Text
  pub external : Bool
  pub subnets : List Text

pub record ManifestVolume : Type 0 where
  pub name : Text
  pub engine_name : Text
  pub external : Bool

pub record Manifest : Type 0 where
  pub path : Text
  pub services : List ManifestService
  pub networks : List ManifestNetwork
  pub volumes : List ManifestVolume

-- The configuration hashes are an association from service names.
pub record LaunchPlan : Type 0 where
  pub project_directory : Text
  pub config_hashes : List (Text × Text)
  pub remove_orphans : Bool
  pub force_recreate : Bool
  pub no_recreate : Bool
