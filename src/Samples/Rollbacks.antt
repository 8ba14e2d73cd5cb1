-- ===== src/Samples/Rollbacks.antt =====
-- Tests and witnesses for the rollback plan.
use deploy_witness_cli.Prelude.{ℕ, ◌≡◌, refl, false, some, List, [], ◌∷◌, map, All, codes, text_eq}
use deploy_witness_cli.Prelude.Int.{pos}
use deploy_witness_cli.Model.Host.{BackupLocation}
use deploy_witness_cli.Witness.Input.{Input}
use deploy_witness_cli.Witness.Rollback.{
  RollbackState, available, unavailable, unverified, new_rollback_item, running, image_item,
  image_items, mount_data, persistent_data, fresh_item, data_item, proxy_items, rollback,
}
use deploy_witness_cli.Witness.Rollback.Backed.{IsBacked, rollback-IsBacked}
use deploy_witness_cli.Samples.Inputs.{input, manifest, caps}
use deploy_witness_cli.Samples.Binds.{bind_mount, service_as}

abbrev backup : ℕ → BackupLocation
backup days = record {
  path = codes "/backup";
  newest_file_at = codes "2026-06-01T00:00:00Z";
  age_days = pos days;
}

-- A service that writes to its data, a front end, and one backup directory.
abbrev backed_up : ℕ → Input
backed_up days = record input {
  manifest = record manifest { services = service_as "" (bind_mount "/srv/data" false ∷ []) ∷ [] };
  caps = record caps {
    backup_locations = backup days ∷ [];
    proxy = some (record { kind = codes "nginx"; config_root = codes "/etc/nginx" });
  };
}

-- The states of the plan's lines.
plan_states : ℕ → List RollbackState
unfolding rollback image_items image_item running persistent_data mount_data data_item fresh_item
    proxy_items new_rollback_item text_eq
plan_states days = map (λ item. item.state) (rollback (backed_up days))

backup_recent : plan_states 30 ≡ available ∷ available ∷ unverified ∷ unverified ∷ []
unfolding plan_states
backup_recent = refl

backup_old : plan_states 31 ≡ available ∷ unavailable ∷ unverified ∷ unverified ∷ []
unfolding plan_states
backup_old = refl

rollback-IsBacked_example : All (IsBacked (backed_up 30)) (rollback (backed_up 30))
rollback-IsBacked_example = rollback-IsBacked (backed_up 30)
