-- ===== src/Witness/ContainerNames/Clear.antt =====
-- `containerNameConflicts` of app/witness/conflicts.rules.go: what a passed check of the container names
-- means.
use deploy_witness_cli.Prelude.{
  ◌≡◌, refl, ◌⊎◌, inl, inr, true, false, none, some, List, [], ◌∷◌, Bool-cases, Option-cases, All,
  is_empty,
}
use deploy_witness_cli.Model.Outcome.{no_problem}
use deploy_witness_cli.Model.Plan.{ManifestService}
use deploy_witness_cli.Model.Host.{Container}
use deploy_witness_cli.Witness.Input.{Input, engine_list, source_containers}
use deploy_witness_cli.Witness.Outcomes.{undecided, verdict_of, conclude}
use deploy_witness_cli.Witness.Outcomes.Low.{
  IsLow, no_problem-IsLow, problem_high, unknown_high, All-left,
}
use deploy_witness_cli.Witness.ContainerNames.{
  owner_of, existing_container, belongs, is_unlabelled_kind, name_verdict, name_finding,
  name_conflict, name_conflicts, container_name_conflicts, fixed_names, assess_container_names,
  container_name_rule,
}

-- Nothing stands in the way of a service's container: it has no fixed name; or the containers were
-- listed, and none has the name; or one has it that is this deployment's own of that service.
abbrev pub IsNameFree : Input → ManifestService → Type 0
IsNameFree i svc =
    (is_empty svc.container_name ≡ true)
    ⊎ ((((engine_list i source_containers).0 ≡ true)
          × (existing_container svc.container_name i.caps.containers ≡ none))
        ⊎ ((c : Container) × ((existing_container svc.container_name i.caps.containers ≡ some c)
              × (belongs i svc c ≡ true))))

name_verdict-belongs :
    (i : Input) (svc : ManifestService) (c : Container)
    → IsLow (name_verdict i svc c).0
    → belongs i svc c ≡ true
unfolding name_verdict
name_verdict-belongs i svc c h = elim (Bool-cases (belongs i svc c)) [
  | inl b ↦ b
  | inr b ↦ elim (Bool-cases (is_unlabelled_kind (owner_of i c).kind)) [
    | inl u ↦ elim (unknown_high (rw (b, u, name_verdict) at h)) [ ]
    | inr u ↦ elim (problem_high (rw (b, u, name_verdict) at h)) [ ]
  ]
]

name_conflict-IsNameFree :
    (i : Input) (svc : ManifestService)
    → (is_empty svc.container_name ≡ false → (engine_list i source_containers).0 ≡ true)
    → All (λ f. IsLow f.outcome) (name_conflict i svc)
    → IsNameFree i svc
unfolding name_conflict name_finding
name_conflict-IsNameFree i svc l h = elim (Bool-cases (is_empty svc.container_name)) [
  | inl e ↦ inl e
  | inr e ↦ elim (Option-cases (existing_container svc.container_name i.caps.containers)) [
    | inl q ↦ inr (inl (l e, q))
    | inr (c, q) ↦
        let k : All (λ f. IsLow f.outcome) (name_finding i svc c ∷ []) =
          rw (e, q, name_conflict) at h in
        inr (inr (c, (q, name_verdict-belongs i svc c k.0)))
  ]
]

name_conflicts-IsNameFree :
    (i : Input) (services : List ManifestService)
    → (is_empty (fixed_names services) ≡ false → (engine_list i source_containers).0 ≡ true)
    → All (λ f. IsLow f.outcome) (name_conflicts i services)
    → All (IsNameFree i) services
unfolding name_conflicts fixed_names
name_conflicts-IsNameFree i [] l h = tt
name_conflicts-IsNameFree i (svc ∷ services) l h =
    let k = All-left (λ f. IsLow f.outcome) (name_conflict i svc) (name_conflicts i services) h in
    (
      name_conflict-IsNameFree i svc (λ e. l (rw e refl)) k.0,
      name_conflicts-IsNameFree i services
          (λ e. elim (Bool-cases (is_empty svc.container_name)) [
            | inl n ↦ l (rw n e)
            | inr n ↦ l (rw n refl)
          ])
          k.1,
    )

assess-listed :
    (i : Input)
    → IsLow (assess_container_names i).outcome
    → is_empty (fixed_names i.manifest.services) ≡ false
    → (engine_list i source_containers).0 ≡ true
unfolding assess_container_names undecided
assess-listed i h e = elim (Bool-cases (engine_list i source_containers).0) [
  | inl l ↦ l
  | inr l ↦ elim (unknown_high (rw (e, l, assess_container_names) at h)) [ ]
]

-- If the rule on container names ends in no problem, nothing stands in the way of any service of the
-- plan. In particular the containers were listed in full, or there is no engine, wherever a fixed name
-- was found free: a list that was not read never passes for a check.
pub container_names_free :
    (i : Input)
    → (conclude i container_name_rule (container_name_conflicts i)).0.outcome ≡ no_problem
    → All (IsNameFree i) i.manifest.services
unfolding container_name_conflicts verdict_of
container_names_free i h =
    let low = no_problem-IsLow i container_name_rule (container_name_conflicts i) h in
    name_conflicts-IsNameFree i i.manifest.services (assess-listed i low.0) low.1
