-- ===== src/Witness/PortConflict/Real.antt =====
-- `portConflictFinding` of app/witness/conflicts.rules.go: a blocker is a conflict that will happen.
use deploy_witness_cli.Prelude.{
  ◌≡◌, sym, ◌∙◌, inl, inr, Bool, false, arith, Exists, Exists-map, Exists-with,
}
use deploy_witness_cli.Model.Outcome.{blocker}
use deploy_witness_cli.Model.Plan.{PortMapping, ManifestService}
use deploy_witness_cli.Witness.Input.{Input}
use deploy_witness_cli.Witness.PortMatch.{PortClaim, stack_of, certain}
use deploy_witness_cli.Witness.PortMatch.Meaning.{Settles, Agrees}
use deploy_witness_cli.Witness.PortMatch.Exact.{SamePort, Meet, certain_meets, certain-SamePort}
use deploy_witness_cli.Witness.PortHolders.{PortHolder, is_own, port_holders}
use deploy_witness_cli.Witness.PortHolders.Collected.{IsHolder, Claims, port_holders-IsHolder}
use deploy_witness_cli.Witness.PortConflict.{port_conflict_finding}
use deploy_witness_cli.Witness.PortConflict.Blocked.{blocker_iff, IsForeign, own_or_foreign}

module _ (i : Input) (want : PortClaim) where
  -- A holder is real: it is observed, the run does not release it, it is on the port and the protocol
  -- of the wanted binding, and on every host that the observation allows the two share an address.
  pub record IsReal (h : PortHolder) : Type 0 where
    pub claims : Claims i h.source h.claim
    pub stays : is_own i h ≡ false
    pub port : SamePort want h.claim
    pub meets :
        (has_ipv6 only only' : Bool)
        → Settles (stack_of i) has_ipv6
        → Agrees want only
        → Agrees h.claim only'
        → Meet has_ipv6 only only' want h.claim

  certain-IsReal :
      (h : PortHolder) → IsHolder i want h → h.overlap ≡ certain → is_own i h ≡ false → IsReal h
  certain-IsReal h k c o =
      let e = k.overlap ∙ c in
      record {
        claims = k.claims;
        stays = o;
        port = certain-SamePort (stack_of i) want h.claim (λ n. k.overlaps (sym k.overlap ∙ n));
        meets = λ v a b s g g'. (certain_meets (stack_of i) want h.claim v a b s g g' e).1;
      }

  -- A port is called a blocker only if something that the run leaves in place holds it: a container or a
  -- socket of the host, not released by the run, on the same port and protocol, that shares an address
  -- with the wanted binding on every host that the observation allows.
  pub blocker-IsReal :
      (svc : ManifestService) (m : PortMapping)
      → (port_conflict_finding i svc m want (port_holders i want)).severity ≡ blocker
      → Exists IsReal (port_holders i want)
  blocker-IsReal svc m h = elim ((blocker_iff i svc m want (port_holders i want)).0 h) [
    | inl f ↦
        Exists-map _ IsReal _
          (λ k p. certain-IsReal k p.0 p.1.0 (ground (arith, p.1.1, own_or_foreign i k)))
          (Exists-with (IsHolder i want) (IsForeign i) (port_holders i want)
            (port_holders-IsHolder i want) f)
    | inr t ↦
        Exists-map _ IsReal _ (λ k p. certain-IsReal k p.0 p.1.1 p.1.0)
          (Exists-with (IsHolder i want) (λ k. (is_own i k ≡ false) × (k.overlap ≡ certain))
            (port_holders i want) (port_holders-IsHolder i want)
            (Exists-with (λ k. is_own i k ≡ false) (λ k. k.overlap ≡ certain) (port_holders i want)
              t.1 t.0))
  ]
