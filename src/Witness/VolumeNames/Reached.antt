-- ===== src/Witness/VolumeNames/Reached.antt =====
-- `volumeNameConflicts` of app/witness/conflicts.rules.go: what a passed check of the volumes means.
use deploy_witness_cli.Prelude.{
  ◌≡◌, refl, ◌⊎◌, inl, inr, Bool, true, false, not, ◌&&◌, ◌||◌, none, some, List, [], ◌∷◌, arith,
  Bool-cases, Option-cases, All, is_empty,
}
use deploy_witness_cli.Model.Outcome.{no_problem, problem, unknown}
use deploy_witness_cli.Model.Plan.{ManifestVolume}
use deploy_witness_cli.Model.Host.{ContainerVolume}
use deploy_witness_cli.Witness.Input.{Input, engine_list, source_volumes}
use deploy_witness_cli.Witness.Ownership.{same_project}
use deploy_witness_cli.Witness.Outcomes.{undecided, verdict_of, conclude}
use deploy_witness_cli.Witness.Outcomes.Low.{
  IsLow, no_problem-IsLow, problem_high, unknown_high, All-left,
}
use deploy_witness_cli.Witness.VolumeNames.{
  existing_volume, is_mounted, volume_name, volume_finding, volume_case, volume_conflict,
  volume_conflicts, volume_name_conflicts, mounted_names, assess_external_volumes, volume_name_rule,
}

-- The list of volumes was read in full, or there is no engine; or the plan mounts an external volume.
abbrev pub volumes_known : Input → Bool
volumes_known i =
    (engine_list i source_volumes).0 || not (is_empty (mounted_names i true i.manifest.volumes))

-- A volume of the plan may be used: it is not mounted; or it is created by the run, and no volume of
-- its name is known; or a volume has its name that is this project's, or is external and nobody's.
abbrev pub IsVolumeFree : Input → ManifestVolume → Type 0
IsVolumeFree i vol =
    (is_mounted i vol.name ≡ false)
    ⊎ (((existing_volume (volume_name vol) i.caps.container_volumes ≡ none)
          × ((vol.external ≡ false) × (volumes_known i ≡ true)))
        ⊎ ((found : ContainerVolume) × ((existing_volume (volume_name vol) i.caps.container_volumes
                ≡ some found)
              × ((same_project i found.project || (vol.external && is_empty found.project))
                  ≡ true))))

-- The outcome of a volume that does not exist, for one that is external.
absent-external :
    (i : Input) (vol : ManifestVolume)
    → All (λ f. IsLow f.outcome) (volume_case i vol none)
    → vol.external ≡ false
unfolding volume_case volume_finding
absent-external i vol h = elim (Bool-cases vol.external) [
  | inr e ↦ e
  | inl e ↦ elim (Bool-cases (engine_list i source_volumes).0) [
    | inl l ↦
        let k : IsLow problem × Unit = rw (e, l, volume_case) at h in elim (problem_high k.0) [ ]
    | inr l ↦
        let k : IsLow unknown × Unit = rw (e, l, volume_case) at h in elim (unknown_high k.0) [ ]
  ]
]

present-free :
    (i : Input) (vol : ManifestVolume) (found : ContainerVolume)
    → All (λ f. IsLow f.outcome) (volume_case i vol (some found))
    → (same_project i found.project || (vol.external && is_empty found.project)) ≡ true
unfolding volume_case volume_finding
present-free i vol found h = elim (Bool-cases (same_project i found.project)) [
  | inl s ↦ ground (arith, s)
  | inr s ↦ elim (Bool-cases (vol.external && is_empty found.project)) [
    | inl e ↦ ground (arith, e)
    | inr e ↦ elim (Bool-cases vol.external) [
      | inl x ↦
          let k : IsLow problem × Unit = rw (s, e, x, volume_case) at h in
          elim (problem_high k.0) [ ]
      | inr x ↦
          let k : IsLow problem × Unit = rw (s, e, x, volume_case) at h in
          elim (problem_high k.0) [ ]
    ]
  ]
]

volume_conflict-IsVolumeFree :
    (i : Input) (vol : ManifestVolume)
    → (is_mounted i vol.name ≡ true → vol.external ≡ false → volumes_known i ≡ true)
    → All (λ f. IsLow f.outcome) (volume_conflict i vol)
    → IsVolumeFree i vol
unfolding volume_conflict
volume_conflict-IsVolumeFree i vol l h = elim (Bool-cases (is_mounted i vol.name)) [
  | inr m ↦ inl m
  | inl m ↦ elim (Option-cases (existing_volume (volume_name vol) i.caps.container_volumes)) [
    | inl q ↦
        let k : All (λ f. IsLow f.outcome) (volume_case i vol none) =
          rw (m, q, volume_conflict) at h in
        let e = absent-external i vol k in inr (inl (q, (e, l m e)))
    | inr (found, q) ↦
        let k : All (λ f. IsLow f.outcome) (volume_case i vol (some found)) =
          rw (m, q, volume_conflict) at h in
        inr (inr (found, (q, present-free i vol found k)))
  ]
]

volume_conflicts-IsVolumeFree :
    (i : Input) (vols : List ManifestVolume)
    → (is_empty (mounted_names i false vols) ≡ false → volumes_known i ≡ true)
    → All (λ f. IsLow f.outcome) (volume_conflicts i vols)
    → All (IsVolumeFree i) vols
unfolding volume_conflicts mounted_names
volume_conflicts-IsVolumeFree i [] l h = tt
volume_conflicts-IsVolumeFree i (vol ∷ vols) l h =
    let k = All-left (λ f. IsLow f.outcome) (volume_conflict i vol) (volume_conflicts i vols) h in
    (
      volume_conflict-IsVolumeFree i vol (λ m e. l (rw (m, e) refl)) k.0,
      volume_conflicts-IsVolumeFree i vols
          (λ e. elim (Bool-cases (is_mounted i vol.name && not vol.external)) [
            | inl n ↦ l (rw n refl)
            | inr n ↦ l (rw n e)
          ])
          k.1,
    )

assess-known :
    (i : Input)
    → IsLow (assess_external_volumes i).outcome
    → is_empty (mounted_names i false i.manifest.volumes) ≡ false
    → volumes_known i ≡ true
unfolding assess_external_volumes undecided
assess-known i h e = elim (Bool-cases (engine_list i source_volumes).0) [
  | inl l ↦ ground (arith, l)
  | inr l ↦ elim (Bool-cases (is_empty (mounted_names i true i.manifest.volumes))) [
    | inl x ↦ elim (unknown_high (rw (e, l, x, assess_external_volumes) at h)) [ ]
    | inr x ↦ ground (arith, x)
  ]
]

-- If the rule on volumes ends in no problem, every volume of the plan may be used: what it mounts is
-- known to be this project's or nobody's, or is known not to exist, or is not in a list that was read
-- in part, which happens only for a plan that mounts an external volume as well.
pub volume_names_free :
    (i : Input)
    → (conclude i volume_name_rule (volume_name_conflicts i)).0.outcome ≡ no_problem
    → All (IsVolumeFree i) i.manifest.volumes
unfolding volume_name_conflicts verdict_of
volume_names_free i h =
    let low = no_problem-IsLow i volume_name_rule (volume_name_conflicts i) h in
    volume_conflicts-IsVolumeFree i i.manifest.volumes (assess-known i low.0) low.1
