-- ===== src/Witness/PortState/Agreement.antt =====
-- `portState` of app/witness/changes.go agrees with `portConflictFinding` of app/witness/conflicts.rules.go.
use deploy_witness_cli.Prelude.{ℕ, ◌≡◌, refl, ◌≢◌, true, List, [], ◌∷◌, arith, if◌then◌else◌}
use deploy_witness_cli.Model.Outcome.{Outcome, problem, no_problem}
use deploy_witness_cli.Model.Plan.{PortMapping, ManifestService}
use deploy_witness_cli.Witness.Input.{Input}
use deploy_witness_cli.Witness.PortMatch.{PortClaim, claim_from_mapping, observable_protocol}
use deploy_witness_cli.Witness.PortHolders.{PortHolder, port_holders}
use deploy_witness_cli.Witness.PortConflict.{port_conflict_finding}
use deploy_witness_cli.Witness.PortState.{
  PortAvailability, port_free, port_maybe_taken, port_taken, port_unchecked, state_of_holders,
  port_state,
}

-- The availability that a finding's outcome amounts to.
abbrev pub availability : Outcome → PortAvailability
availability problem = port_taken
availability no_problem = port_free
availability _ = port_maybe_taken

held_state :
    (i : Input) (svc : ManifestService) (m : PortMapping) (want : PortClaim) (hs : List PortHolder)
    → hs ≢ []
    → (state_of_holders i hs).0 ≡ availability (port_conflict_finding i svc m want hs).outcome
unfolding state_of_holders port_conflict_finding
held_state i svc m want [] n = elim (n refl) [ ]
held_state i svc m want (h ∷ hs) n = ground arith

-- The change list and the findings never disagree about a port of a checked protocol: the state of a port
-- that something overlaps is the one that the outcome of its finding amounts to, and a port that nothing
-- overlaps is free, or unchecked where the sockets were not read.
pub port_state_agrees :
    (i : Input) (svc : ManifestService) (m : PortMapping) (port : ℕ)
    → observable_protocol (claim_from_mapping m port).protocol ≡ true
    → (port_holders i (claim_from_mapping m port) ≢ []
        → (port_state i m port).0
          ≡ availability
              (port_conflict_finding i svc m
                (claim_from_mapping m port)
                (port_holders i (claim_from_mapping m port))).outcome)
      × (port_holders i (claim_from_mapping m port) ≡ []
          → (port_state i m port).0 ≡ (if i.ports_unchecked then port_unchecked else port_free))
unfolding port_state state_of_holders
port_state_agrees i svc m port h = (
  λ n. rw h (
      held_state i svc m (claim_from_mapping m port) (port_holders i (claim_from_mapping m port))
        n),
  λ e. rw (h, e) refl,
)
