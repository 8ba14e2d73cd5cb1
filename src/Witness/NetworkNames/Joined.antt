-- ===== src/Witness/NetworkNames/Joined.antt =====
-- `networkNameConflicts` of app/witness/conflicts.rules.go: what a passed check of the networks means.
use deploy_witness_cli.Prelude.{
  ◌≡◌, refl, ◌⊎◌, inl, inr, Bool, true, false, not, ◌&&◌, ◌||◌, Option, none, some, List, [], ◌∷◌,
  arith, Bool-cases, All, codes, text_eq, is_empty,
}
use deploy_witness_cli.Model.Outcome.{no_problem, problem, unknown, manual_check}
use deploy_witness_cli.Model.Plan.{ManifestNetwork}
use deploy_witness_cli.Model.Host.{ContainerNetwork}
use deploy_witness_cli.Witness.Input.{Input, engine_list, source_networks}
use deploy_witness_cli.Witness.Ownership.{same_project}
use deploy_witness_cli.Witness.Outcomes.{undecided, verdict_of, conclude}
use deploy_witness_cli.Witness.Outcomes.Low.{
  IsLow, no_problem-IsLow, problem_high, unknown_high, manual_check_high, All-left,
}
use deploy_witness_cli.Witness.NetworkNames.{
  existing_network, network_name, network_finding, is_swarm, network_case, network_conflicts,
  network_name_conflicts, network_names, assess_external_networks, network_name_rule,
}

-- The list of networks was read in full, or there is no engine; or the plan has an external network.
abbrev pub networks_known : Input → Bool
networks_known i =
    (engine_list i source_networks).0 || not (is_empty (network_names true i.manifest.networks))

-- A network of the engine that the plan's containers can join.
abbrev pub can_join : ContainerNetwork → Bool
can_join found =
    not (is_swarm found && (text_eq found.attachable (codes "no") || is_empty found.attachable))

-- A network of the plan may be used: it is created by the run, and no network of its name is known; or
-- one has its name that can be joined and is this project's, or is external and nobody's.
abbrev pub IsNetworkFree : Input → ManifestNetwork → Type 0
IsNetworkFree i n =
    ((existing_network (network_name n) i.caps.container_networks ≡ none)
      × ((n.external ≡ false) × (networks_known i ≡ true)))
    ⊎ ((found : ContainerNetwork) × ((existing_network (network_name n) i.caps.container_networks
            ≡ some found)
          × ((can_join found
                && (same_project i found.project || (n.external && is_empty found.project)))
              ≡ true)))

absent-external :
    (i : Input) (n : ManifestNetwork)
    → All (λ f. IsLow f.outcome) (network_case i n none)
    → n.external ≡ false
unfolding network_case network_finding
absent-external i n h = elim (Bool-cases n.external) [
  | inr e ↦ e
  | inl e ↦ elim (Bool-cases (engine_list i source_networks).0) [
    | inl l ↦
        let k : IsLow problem × Unit = rw (e, l, network_case) at h in elim (problem_high k.0) [ ]
    | inr l ↦
        let k : IsLow unknown × Unit = rw (e, l, network_case) at h in elim (unknown_high k.0) [ ]
  ]
]

-- A network that exists and can be joined.
owned-free :
    (i : Input) (n : ManifestNetwork) (found : ContainerNetwork)
    → (is_swarm found && text_eq found.attachable (codes "no")) ≡ false
    → (is_swarm found && is_empty found.attachable) ≡ false
    → All (λ f. IsLow f.outcome) (network_case i n (some found))
    → (same_project i found.project || (n.external && is_empty found.project)) ≡ true
unfolding network_case network_finding
owned-free i n found a b h = elim (Bool-cases (same_project i found.project)) [
  | inl s ↦ ground (arith, s)
  | inr s ↦ elim (Bool-cases (n.external && is_empty found.project)) [
    | inl e ↦ ground (arith, e)
    | inr e ↦ elim (Bool-cases n.external) [
      | inl x ↦
          let k : IsLow manual_check × Unit = rw (a, b, s, e, x, network_case) at h in
          elim (manual_check_high k.0) [ ]
      | inr x ↦
          let k : IsLow problem × Unit = rw (a, b, s, e, x, network_case) at h in
          elim (problem_high k.0) [ ]
    ]
  ]
]

present-free :
    (i : Input) (n : ManifestNetwork) (found : ContainerNetwork)
    → All (λ f. IsLow f.outcome) (network_case i n (some found))
    → (can_join found && (same_project i found.project || (n.external && is_empty found.project)))
      ≡ true
unfolding network_case network_finding
present-free i n found h =
    elim (Bool-cases (is_swarm found && text_eq found.attachable (codes "no"))) [
      | inl a ↦
          let k : IsLow problem × Unit = rw (a, network_case) at h in elim (problem_high k.0) [ ]
      | inr a ↦ elim (Bool-cases (is_swarm found && is_empty found.attachable)) [
        | inl b ↦
            let k : IsLow unknown × Unit = rw (a, b, network_case) at h in
            elim (unknown_high k.0) [ ]
        | inr b ↦ let o = owned-free i n found a b h in ground (arith, a, b, o)
      ]
    ]

network_case-IsNetworkFree :
    (i : Input) (n : ManifestNetwork) (found : Option ContainerNetwork)
    → existing_network (network_name n) i.caps.container_networks ≡ found
    → (n.external ≡ false → networks_known i ≡ true)
    → All (λ f. IsLow f.outcome) (network_case i n found)
    → IsNetworkFree i n
network_case-IsNetworkFree i n none q l h = let e = absent-external i n h in inl (q, (e, l e))
network_case-IsNetworkFree i n (some found) q l h = inr (found, (q, present-free i n found h))

network_conflicts-IsNetworkFree :
    (i : Input) (ns : List ManifestNetwork)
    → (is_empty (network_names false ns) ≡ false → networks_known i ≡ true)
    → All (λ f. IsLow f.outcome) (network_conflicts i ns)
    → All (IsNetworkFree i) ns
unfolding network_conflicts network_names
network_conflicts-IsNetworkFree i [] l h = tt
network_conflicts-IsNetworkFree i (n ∷ ns) l h =
    let found = existing_network (network_name n) i.caps.container_networks in
    let k = All-left (λ f. IsLow f.outcome) (network_case i n found) (network_conflicts i ns) h in
    (
      network_case-IsNetworkFree i n found refl (λ e. l (rw e refl)) k.0,
      network_conflicts-IsNetworkFree i ns
          (λ e. elim (Bool-cases n.external) [ inl x ↦ l (rw x e) | inr x ↦ l (rw x refl) ]) k.1,
    )

assess-known :
    (i : Input)
    → IsLow (assess_external_networks i).outcome
    → is_empty (network_names false i.manifest.networks) ≡ false
    → networks_known i ≡ true
unfolding assess_external_networks undecided
assess-known i h e = elim (Bool-cases (engine_list i source_networks).0) [
  | inl l ↦ ground (arith, l)
  | inr l ↦ elim (Bool-cases (is_empty (network_names true i.manifest.networks))) [
    | inl x ↦ elim (unknown_high (rw (e, l, x, assess_external_networks) at h)) [ ]
    | inr x ↦ ground (arith, x)
  ]
]

-- If the rule on networks ends in no problem, every network of the plan may be used: one that exists
-- can be joined by the containers and is this project's, or is external and nobody's; one that does not
-- exist is not external, and is known not to exist, unless the list was read in part and the plan has
-- an external network as well.
pub network_names_free :
    (i : Input)
    → (conclude i network_name_rule (network_name_conflicts i)).0.outcome ≡ no_problem
    → All (IsNetworkFree i) i.manifest.networks
unfolding network_name_conflicts verdict_of
network_names_free i h =
    let low = no_problem-IsLow i network_name_rule (network_name_conflicts i) h in
    network_conflicts-IsNetworkFree i i.manifest.networks (assess-known i low.0) low.1
