-- ===== src/Samples/Ownership.antt =====
-- Tests of whose a container is, and the theorems at concrete inputs.
use deploy_witness_cli.Prelude.{
  ◌≡◌, refl, ◌↔◌, true, false, not, ◌&&◌, ◌||◌, some, [], codes, text_eq, to_lower,
}
use deploy_witness_cli.FilePath.{clean}
use deploy_witness_cli.Model.Host.{Container}
use deploy_witness_cli.Witness.Input.{Input}
use deploy_witness_cli.Witness.Ownership.{
  OwnerKind, owner_of, same_project, normalise_project, different_directory, plan_directory,
  planned_service, removes_orphans, other_checkout,
}
use deploy_witness_cli.Witness.Ownership.Released.{owner_of_released_iff}
use deploy_witness_cli.Samples.Inputs.{input, run}

-- A container of another checkout, of a service that the plan does not have.
abbrev stray : Container
stray = record {
  name = codes "shop-old-1";
  image = codes "old";
  state = codes "running";
  ports = [];
  project = codes "shop";
  service = codes "old";
  working_dir = codes "/srv/old";
  config_hash = [];
  one_off = false;
  labelled = true;
}

-- The plan of the directory /srv/shop, without --remove-orphans.
abbrev planned : Input
planned = record input {
  run = record run {
    launch_plan = some (record {
      project_directory = codes "/srv/shop";
      config_hashes = [];
      remove_orphans = false;
      force_recreate = false;
      no_recreate = false;
    });
  };
}

abbrev kind_of : Input → Container → OwnerKind
kind_of i c = (owner_of i c).kind

-- Its service is not in the plan and orphans stay, and yet it is said to be released.
stray_released : (owner_of planned stray).released ≡ true
unfolding owner_of same_project normalise_project to_lower text_eq different_directory
    plan_directory clean
stray_released = refl

stray_other : kind_of planned stray ≡ other_checkout
unfolding owner_of same_project normalise_project to_lower text_eq different_directory
    plan_directory clean
stray_other = refl

owner_of_released_iff_example : ((owner_of planned stray).released ≡ true) ↔ (
    (same_project planned stray.project
      && (not stray.one_off
          && (different_directory planned stray.working_dir
              || (planned_service planned stray.service || removes_orphans planned))))
    ≡ true)
owner_of_released_iff_example = owner_of_released_iff planned stray

-- A one-off run of the same project.
abbrev one_off_run : Container
one_off_run = record stray { one_off = true }
