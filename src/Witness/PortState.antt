-- ===== src/Witness/PortState.antt =====
-- app/witness/changes.go: `portState`, the availability of a published port for the change list.
pub mod Agreement
use deploy_witness_cli.Prelude.{
  ℕ, ◌+◌, not, ◌&&◌, List, [], ◌∷◌, ◌++◌, if◌then◌else◌, Text, codes, em_dash,
}
use deploy_witness_cli.Model.Plan.{PortMapping}
use deploy_witness_cli.Witness.Input.{Input}
use deploy_witness_cli.Witness.PortMatch.{PortClaim, claim_from_mapping, observable_protocol}
use deploy_witness_cli.Witness.PortHolders.{
  PortHolder, port_holders, certain_holders, blocked, ownership_known, own_holder, is_there,
}
use deploy_witness_cli.Witness.HolderText.{describe_holders}

pub data PortAvailability : Type 0 where
  port_free port_maybe_taken port_taken port_unchecked : PortAvailability

-- The part of `portState` for the holders of a binding.
unfoldable pub state_of_holders : Input → List PortHolder → PortAvailability × Text
state_of_holders i [] = (if i.ports_unchecked then port_unchecked else port_free, [])
state_of_holders i (h ∷ hs) =
    let holders = h ∷ hs in
    let sure = certain_holders holders in
    if blocked i holders && not (ownership_known i sure)
    then (
      port_maybe_taken,
      describe_holders i sure
          ++ (b' '
              ∷ (em_dash
                  ++ codes
                      " which may be this deployment's own container: the engine's containers were not listed")),
    )
    else if blocked i holders
    then (port_taken, describe_holders i sure)
    else if is_there (own_holder i holders)
    then (port_free, [])
    else (port_maybe_taken, describe_holders i holders)

-- `portState`.
unfoldable pub port_state : Input → PortMapping → ℕ → PortAvailability × Text
port_state i m port =
    let want = claim_from_mapping m port in
    if observable_protocol want.protocol
    then state_of_holders i (port_holders i want)
    else (port_free, [])
