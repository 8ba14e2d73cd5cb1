-- ===== src/Witness/Ownership/Released.antt =====
-- `ownerOf` of app/witness/ownership.go: which containers the planned run stops before it binds.
use deploy_witness_cli.Prelude.{◌≡◌, ◌↔◌, ◌⊎◌, true, false, not, ◌&&◌, ◌||◌, arith, Text, is_empty}
use deploy_witness_cli.Model.Host.{Container}
use deploy_witness_cli.Witness.Input.{Input}
use deploy_witness_cli.Witness.Ownership.{
  own_service, owner_of, same_project, different_directory, planned_service, removes_orphans,
}

-- A container that carries no project is not of the plan's project.
same_project_named : (i : Input) (p : Text) → same_project i p ≡ true → is_empty p ≡ false
unfolding same_project
same_project_named i p h = ground arith

module _ (i : Input) (c : Container) where
  -- A container is released exactly if it carries the plan's project, is no one-off run, and was deployed
  -- from another directory, or is of a planned service, or is removed as an orphan.
  pub owner_of_released_iff : ((owner_of i c).released ≡ true) ↔ (
      (same_project i c.project
        && (not c.one_off
            && (different_directory i c.working_dir
                || (planned_service i c.service || removes_orphans i))))
      ≡ true)
  unfolding owner_of
  owner_of_released_iff = (
    λ h. ground (arith, same_project_named i c.project),
    λ h. ground (arith, same_project_named i c.project),
  )

  -- A container without a project, of another project, or of a one-off run is left alone.
  pub owner_of_left :
      (same_project i c.project ≡ false) ⊎ (c.one_off ≡ true) → (owner_of i c).released ≡ false
  unfolding owner_of
  owner_of_left h = ground arith

  -- A container is this deployment's previous version exactly if it carries the plan's project, is no
  -- one-off run, was not deployed from another directory, and is of a planned service.
  pub owner_of_service_iff : ((owner_of i c).kind ≡ own_service) ↔ (
      (same_project i c.project
        && (not c.one_off
            && (not (different_directory i c.working_dir) && planned_service i c.service)))
      ≡ true)
  unfolding owner_of
  owner_of_service_iff = (
    λ h. ground (arith, same_project_named i c.project),
    λ h. ground (arith, same_project_named i c.project),
  )
