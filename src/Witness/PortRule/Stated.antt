-- ===== src/Witness/PortRule/Stated.antt =====
-- `portConflicts` of app/witness/conflicts.rules.go: where it is silent, and where it is not.
use deploy_witness_cli.Prelude.{
  ℕ, ◌≡◌, refl, sym, ◌∙◌, ◌≢◌, ◌↔◌, ◌⊎◌, inl, inr, true, false, List, [], ◌∷◌, arith, Bool-cases,
  All, codes, text_eq, is_empty, Exists, Exists-append_left, Exists-append_right,
}
use deploy_witness_cli.Model.Finding.{Finding}
use deploy_witness_cli.Model.Plan.{PortMapping, ManifestService, host_ports, dynamic}
use deploy_witness_cli.Witness.Input.{Input}
use deploy_witness_cli.Witness.PortMatch.{
  Overlap, PortClaim, claim_from_mapping, observable_protocol, stack_of, Overlap, nowhere,
  undecidable, certain, collides, subject,
}
use deploy_witness_cli.Witness.PortHolders.{PortHolder, HolderSource, port_holders}
use deploy_witness_cli.Witness.PortHolders.Collected.{
  Claims, IsHolder, port_holders-IsHolder, port_holders_complete,
}
use deploy_witness_cli.Witness.PortConflict.{port_conflict_finding}
use deploy_witness_cli.Witness.DynamicRange.{unobservable_protocol}
use deploy_witness_cli.Witness.PortRule.{
  port_findings, all_port_findings, mapping_findings, all_mapping_findings, service_findings,
  all_service_findings, port_conflicts,
}

-- Nothing on the host overlaps a wanted binding.
abbrev pub IsUnheld : Input → PortClaim → Type 0
IsUnheld i want =
    (src : HolderSource) (c : PortClaim)
    → Claims i src c
    → (collides (stack_of i) want c).0 ≡ nowhere

is_nowhere_cases : (o : Overlap) → (o ≡ nowhere) ⊎ (o ≢ nowhere)
is_nowhere_cases nowhere = inl refl
is_nowhere_cases undecidable = inr (λ e. cc e)
is_nowhere_cases certain = inr (λ e. cc e)

IsUnheld-empty :
    (i : Input) (want : PortClaim) (hs : List PortHolder)
    → IsUnheld i want
    → All (IsHolder i want) hs
    → hs ≡ []
IsUnheld-empty i want [] u a = refl
IsUnheld-empty i want (h ∷ hs) u a =
    let k = a.0 in elim (k.overlaps (sym k.overlap ∙ u h.source h.claim k.claims)) [ ]

empty-IsUnheld : (i : Input) (want : PortClaim) → port_holders i want ≡ [] → IsUnheld i want
empty-IsUnheld i want e src c h = elim (is_nowhere_cases (collides (stack_of i) want c).0) [
  | inl n ↦ n
  | inr n ↦ elim (rw e at (port_holders_complete i want src c h n)) [ ]
]

-- A published port has no finding exactly if its protocol is checked and nothing on the host, no claim
-- of a container and no socket, overlaps its binding.
pub port_findings_silent_iff :
    (i : Input) (svc : ManifestService) (m : PortMapping) (port : ℕ)
    → (port_findings i svc m port ≡ []) ↔ (
        (observable_protocol (claim_from_mapping m port).protocol ≡ true)
        × IsUnheld i (claim_from_mapping m port))
unfolding port_findings
port_findings_silent_iff i svc m port =
    let want = claim_from_mapping m port in
    (
      λ h. (ground (arith, h), empty-IsUnheld i want (ground (arith, h))),
      λ p.
          rw (p.0, IsUnheld-empty i want (port_holders i want) p.1 (port_holders-IsHolder i want))
            refl,
    )

conflict_subject :
    (i : Input) (svc : ManifestService) (m : PortMapping) (want : PortClaim) (hs : List PortHolder)
    → (port_conflict_finding i svc m want hs).subject ≡ subject want
unfolding port_conflict_finding
conflict_subject i svc m want hs = ground arith

-- A finding is about a wanted binding.
abbrev pub IsAbout : PortClaim → Finding → Type 0
IsAbout want f = f.subject ≡ subject want

port_stated :
    (i : Input) (svc : ManifestService) (m : PortMapping) (port : ℕ)
    → port_findings i svc m port ≢ []
    → Exists (IsAbout (claim_from_mapping m port)) (port_findings i svc m port)
unfolding port_findings unobservable_protocol
port_stated i svc m port n =
    let want = claim_from_mapping m port in
    elim (Bool-cases (observable_protocol want.protocol)) [
      | inr o ↦ rw o (inl refl)
      | inl o ↦ elim (Bool-cases (is_empty (port_holders i want))) [
        | inl e ↦ elim (n (rw (o, e) refl)) [ ]
        | inr e ↦ rw (o, e) (inl (conflict_subject i svc m want (port_holders i want)))
      ]
    ]

module _ (i : Input) (m : PortMapping) (port : ℕ) where
  abbrev want : PortClaim
  want = claim_from_mapping m port

  not_silent :
      (svc : ManifestService)
      → (observable_protocol want.protocol ≡ false)
        ⊎ ((src : HolderSource) × (c : PortClaim) × Claims i src c
            × ((collides (stack_of i) want c).0 ≢ nowhere))
      → port_findings i svc m port ≢ []
  not_silent svc (inl o) e = cc (o, ((port_findings_silent_iff i svc m port).0 e).0)
  not_silent svc (inr (src, c, h, n)) e =
      n (((port_findings_silent_iff i svc m port).0 e).1 src c h)

  ports_stated :
      (svc : ManifestService) (ps : List ℕ)
      → port_findings i svc m port ≢ []
      → Exists (λ p. p ≡ port) ps
      → Exists (IsAbout want) (all_port_findings i svc m ps)
  unfolding all_port_findings
  ports_stated svc [] n h = elim h [ ]
  ports_stated svc (p ∷ ps) n (inl e) =
      Exists-append_left (IsAbout want) (port_findings i svc m p) (all_port_findings i svc m ps)
        (rw e (port_stated i svc m port n))
  ports_stated svc (p ∷ ps) n (inr h) =
      Exists-append_right (IsAbout want) (port_findings i svc m p) (all_port_findings i svc m ps)
        (ports_stated svc ps n h)

  mapping_stated :
      (svc : ManifestService)
      → dynamic m ≡ false
      → port_findings i svc m port ≢ []
      → Exists (λ p. p ≡ port) (host_ports m)
      → Exists (IsAbout want) (mapping_findings i svc m)
  unfolding mapping_findings
  mapping_stated svc d n h = rw d (ports_stated svc (host_ports m) n h)

  mappings_stated :
      (svc : ManifestService) (ms : List PortMapping)
      → Exists (IsAbout want) (mapping_findings i svc m)
      → Exists (λ x. x ≡ m) ms
      → Exists (IsAbout want) (all_mapping_findings i svc ms)
  unfolding all_mapping_findings
  mappings_stated svc [] n h = elim h [ ]
  mappings_stated svc (x ∷ ms) n (inl e) =
      Exists-append_left (IsAbout want) (mapping_findings i svc x) (all_mapping_findings i svc ms)
        (rw e n)
  mappings_stated svc (x ∷ ms) n (inr h) =
      Exists-append_right (IsAbout want) (mapping_findings i svc x) (all_mapping_findings i svc ms)
        (mappings_stated svc ms n h)

  services_stated :
      (svc : ManifestService) (ss : List ManifestService)
      → Exists (IsAbout want) (service_findings i svc)
      → Exists (λ x. x ≡ svc) ss
      → Exists (IsAbout want) (all_service_findings i ss)
  unfolding all_service_findings
  services_stated svc [] n h = elim h [ ]
  services_stated svc (x ∷ ss) n (inl e) =
      Exists-append_left (IsAbout want) (service_findings i x) (all_service_findings i ss) (rw e n)
  services_stated svc (x ∷ ss) n (inr h) =
      Exists-append_right (IsAbout want) (service_findings i x) (all_service_findings i ss)
        (services_stated svc ss n h)

  service_stated :
      (svc : ManifestService)
      → text_eq svc.network_mode (codes "host") ≡ false
      → Exists (IsAbout want) (all_mapping_findings i svc svc.ports)
      → Exists (IsAbout want) (service_findings i svc)
  unfolding service_findings
  service_stated svc e h = rw e h

  -- For every port of every mapping of every service of the plan, if the service is not on the network of
  -- the host and the mapping is not a range for one container port, and a claim of a container or a
  -- socket of the host overlaps the binding, for certain or possibly, or the protocol is not checked,
  -- then the rule has a finding about that binding.
  pub port_conflicts_stated :
      (svc : ManifestService)
      → Exists (λ x. x ≡ svc) i.manifest.services
      → Exists (λ x. x ≡ m) svc.ports
      → Exists (λ p. p ≡ port) (host_ports m)
      → text_eq svc.network_mode (codes "host") ≡ false
      → dynamic m ≡ false
      → (observable_protocol want.protocol ≡ false)
        ⊎ ((src : HolderSource) × (c : PortClaim) × Claims i src c
            × ((collides (stack_of i) want c).0 ≢ nowhere))
      → Exists (IsAbout want) (port_conflicts i)
  unfolding port_conflicts
  port_conflicts_stated svc hs hm hp net dyn why =
      services_stated svc i.manifest.services
        (service_stated svc net
          (mappings_stated svc svc.ports (mapping_stated svc dyn (not_silent svc why) hp) hm))
        hs
