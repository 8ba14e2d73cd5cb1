-- ===== src/Samples/Names.antt =====
-- Names that the plan and the engine share, and what a passed check of them means.
use deploy_witness_cli.Prelude.{
  String, ◌≡◌, refl, Bool, true, false, none, some, [], ◌∷◌, All, Text, codes, text_eq,
}
use deploy_witness_cli.Model.Outcome.{no_problem}
use deploy_witness_cli.Model.Plan.{
  ManifestService, ManifestVolume, ManifestNetwork, VolumeMount, mount_volume,
}
use deploy_witness_cli.Model.Host.{
  Observation, ObservationState, complete, partly, observed, find_observation,
}
use deploy_witness_cli.Witness.Input.{
  Input, engine_list, source_containers, source_volumes, source_networks,
}
use deploy_witness_cli.Witness.Outcomes.{
  lowest, conclude, verdict_of, checked, not_applicable_verdict, undecided,
}
use deploy_witness_cli.Witness.Ownership.{same_project}
use deploy_witness_cli.Witness.ContainerNames.{
  existing_container, name_conflict, name_conflicts, container_name_conflicts, fixed_names,
  assess_container_names, container_name_rule,
}
use deploy_witness_cli.Witness.ContainerNames.Clear.{IsNameFree, container_names_free}
use deploy_witness_cli.Witness.VolumeNames.{
  existing_volume, is_mount_of, is_mounted, engine_name_of, volume_name, volume_case,
  volume_conflict, volume_conflicts, volume_name_conflicts, mounted_names, assess_external_volumes,
  volume_name_rule,
}
use deploy_witness_cli.Witness.VolumeNames.Reached.{IsVolumeFree, volume_names_free}
use deploy_witness_cli.Witness.NetworkNames.{
  existing_network, network_name, is_swarm, network_case, network_conflicts, network_name_conflicts,
  network_names, assess_external_networks, network_name_rule,
}
use deploy_witness_cli.Witness.NetworkNames.Joined.{IsNetworkFree, network_names_free}
use deploy_witness_cli.Samples.Inputs.{input, manifest, caps}

abbrev mount : String → VolumeMount
mount name = record {
  kind = mount_volume;
  source = codes name;
  declared = [];
  target = [];
  read_only = false;
  create_host_path = none;
}

abbrev database : ManifestService
database = record {
  name = codes "db";
  container_name = codes "shop-db";
  image = [];
  build = [];
  user = [];
  network_mode = [];
  ports = [];
  expose = [];
  volumes = mount "data" ∷ mount "cache" ∷ [];
}

abbrev volume : String → Bool → ManifestVolume
volume name external = record { name = codes name; engine_name = []; external = external }

abbrev network : String → Bool → ManifestNetwork
network name external = record {
  name = codes name;
  engine_name = [];
  external = external;
  subnets = [];
}

abbrev seen : Text → ObservationState → Observation
seen source state = record {
  source = source;
  state = state;
  note = codes "2 of 3 lines";
  observed_at = [];
}

-- An engine whose volumes were read in part: of the plan's two volumes the external one was seen.
abbrev in_part : Input
in_part = record input {
  manifest = record manifest {
    services = database ∷ [];
    volumes = volume "data" true ∷ volume "cache" false ∷ [];
    networks = network "proxy" true ∷ network "shop_default" false ∷ [];
  };
  caps = record caps {
    runtime = some (record { kind = codes "docker"; engine_id = []; engine_name = [] });
    container_volumes =
        record { name = codes "data"; driver = codes "local"; mountpoint = []; project = [] } ∷ [];
    container_networks =
        record {
          name = codes "proxy";
          driver = codes "overlay";
          subnets = [];
          project = [];
          scope = codes "swarm";
          attachable = codes "yes";
        }
        ∷ [];
    observations =
        seen source_containers complete
        ∷ seen source_volumes partly
        ∷ seen source_networks complete
        ∷ [];
  };
}

containers_clear :
    (conclude in_part container_name_rule (container_name_conflicts in_part)).0.outcome ≡ no_problem
unfolding lowest conclude verdict_of checked not_applicable_verdict undecided
    container_name_conflicts name_conflicts name_conflict existing_container fixed_names
    assess_container_names engine_list observed find_observation text_eq
containers_clear = refl

container_names_free_example : All (IsNameFree in_part) in_part.manifest.services
container_names_free_example = container_names_free in_part containers_clear

-- The volume `cache` may belong to somebody else: the list was read in part, and yet the check passes.
volumes_clear :
    (conclude in_part volume_name_rule (volume_name_conflicts in_part)).0.outcome ≡ no_problem
unfolding lowest conclude verdict_of checked not_applicable_verdict undecided volume_name_conflicts
    volume_conflicts volume_conflict volume_case existing_volume is_mounted is_mount_of
    engine_name_of volume_name mounted_names assess_external_volumes same_project engine_list
    observed find_observation text_eq
volumes_clear = refl

volumes_in_part : (engine_list in_part source_volumes).0 ≡ false
unfolding engine_list observed find_observation text_eq
volumes_in_part = refl

volume_names_free_example : All (IsVolumeFree in_part) in_part.manifest.volumes
volume_names_free_example = volume_names_free in_part volumes_clear

networks_clear :
    (conclude in_part network_name_rule (network_name_conflicts in_part)).0.outcome ≡ no_problem
unfolding lowest conclude verdict_of checked not_applicable_verdict undecided network_name_conflicts
    network_conflicts network_case existing_network is_swarm engine_name_of network_name
    network_names assess_external_networks same_project engine_list observed find_observation
    text_eq
networks_clear = refl

network_names_free_example : All (IsNetworkFree in_part) in_part.manifest.networks
network_names_free_example = network_names_free in_part networks_clear
