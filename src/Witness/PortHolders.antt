-- ===== src/Witness/PortHolders.antt =====
-- app/witness/conflicts.rules.go: `portHolders`, what overlaps a wanted binding, and the functions that
-- sort the holders by owner and by certainty.
pub mod Improved
pub mod Collected
use deploy_witness_cli.Prelude.{
  ℕ, ◌+◌, Bool, true, false, not, ◌&&◌, ◌||◌, Option, none, some, List, [], ◌∷◌, ◌++◌, ltb,
  if◌then◌else◌, length, Text,
}
use deploy_witness_cli.Model.Outcome.{
  Outcome, problem, no_problem, unknown, Severity, blocker, warning, info,
}
use deploy_witness_cli.Model.Finding.{Finding, Evidence, Confidence, conflict, medium, high}
use deploy_witness_cli.Model.Plan.{PortMapping, ManifestService, host_ports}
use deploy_witness_cli.Model.Host.{Container, Socket}
use deploy_witness_cli.Witness.Input.{
  Input, evidence, manifest_evidence, engine_list, source_containers,
}
use deploy_witness_cli.Witness.PortMatch.{
  PortClaim, IpStack, stack_of, Overlap, nowhere, undecidable, certain, overlap_rank, collides,
  claim_from_mapping, claim_from_socket, observable_protocol, subject, describe,
}
use deploy_witness_cli.Witness.Ownership.{owner_of, describe_owner, arrow}

-- What holds a binding: the struct `portHolder` has `container` or `socket`, and `isSocket` says which.
pub data HolderSource : Type 0 where
  by_container : Container → HolderSource
  by_socket : Socket → HolderSource

pub record PortHolder : Type 0 where
  pub overlap : Overlap
  pub why : Text
  pub claim : PortClaim
  pub source : HolderSource

-- The best overlap of a container so far, and the claim that it came from.
pub record Best : Type 0 where
  pub overlap : Overlap
  pub why : Text
  pub claim : Option PortClaim

-- One round of the innermost loop of `portHolders`.
unfoldable pub improve : IpStack → PortClaim → Best → PortClaim → Best
improve st want best held =
    let (result, why) = collides st want held in
    if ltb (overlap_rank best.overlap) (overlap_rank result)
    then record { overlap = result; why = why; claim = some held }
    else best

pub improve_ports : IpStack → PortClaim → PortMapping → Best → List ℕ → Best
improve_ports st want m best [] = best
improve_ports st want m best (p ∷ ps) =
    improve_ports st want m (improve st want best (claim_from_mapping m p)) ps

pub improve_mappings : IpStack → PortClaim → Best → List PortMapping → Best
improve_mappings st want best [] = best
improve_mappings st want best (m ∷ ms) =
    improve_mappings st want (improve_ports st want m best (host_ports m)) ms

abbrev pub no_best : Best
no_best = record { overlap = nowhere; why = []; claim = none }

-- A container is a holder if some claim of it was better than nothing.
container_holder : Container → Best → List PortHolder
container_holder c b = elim b.claim [
  | none ↦ []
  | some held ↦
      record { overlap = b.overlap; why = b.why; claim = held; source = by_container c } ∷ []
]

unfoldable pub container_holders : IpStack → PortClaim → List Container → List PortHolder
unfolding container_holder improve improve_ports improve_mappings
container_holders st want [] = []
container_holders st want (c ∷ cs) =
    container_holder c (improve_mappings st want no_best c.ports) ++ container_holders st want cs

is_nowhere : Overlap → Bool
is_nowhere nowhere = true
is_nowhere _ = false

socket_holder : IpStack → PortClaim → Socket → List PortHolder
unfolding is_nowhere
socket_holder st want s =
    let held = claim_from_socket s in
    let (result, why) = collides st want held in
    if is_nowhere result
    then []
    else record { overlap = result; why = why; claim = held; source = by_socket s } ∷ []

unfoldable pub socket_holders : IpStack → PortClaim → List Socket → List PortHolder
unfolding socket_holder
socket_holders st want [] = []
socket_holders st want (s ∷ ss) = socket_holder st want s ++ socket_holders st want ss

-- `portHolders`.
unfoldable pub port_holders : Input → PortClaim → List PortHolder
port_holders i want =
    container_holders (stack_of i) want i.caps.containers
    ++ socket_holders (stack_of i) want i.caps.ports

-- A container that the planned run releases, or one that it does not.
unfoldable pub is_own : Input → PortHolder → Bool
is_own i h = elim h.source [ by_container c ↦ (owner_of i c).released | by_socket s ↦ false ]

unfoldable pub is_foreign : Input → PortHolder → Bool
is_foreign i h = elim h.source [
  | by_container c ↦ not (owner_of i c).released
  | by_socket s ↦ false
]

unfoldable pub is_container : PortHolder → Bool
is_container h = elim h.source [ by_container c ↦ true | by_socket s ↦ false ]

-- `ownHolder`.
unfoldable pub own_holder : Input → List PortHolder → Option PortHolder
own_holder i [] = none
own_holder i (h ∷ hs) = if is_own i h then some h else own_holder i hs

-- `foreignContainer`.
unfoldable pub foreign_container : Input → List PortHolder → Bool
foreign_container i [] = false
foreign_container i (h ∷ hs) = if is_foreign i h then true else foreign_container i hs

unfoldable pub has_container : List PortHolder → Bool
has_container [] = false
has_container (h ∷ hs) = if is_container h then true else has_container hs

-- `ownershipKnown`.
unfoldable pub ownership_known : Input → List PortHolder → Bool
unfolding has_container is_container
ownership_known i hs = if has_container hs then true else (engine_list i source_containers).0

unfoldable pub is_certain : PortHolder → Bool
is_certain h = elim h.overlap [ certain ↦ true | _ ↦ false ]

-- `certainHolders`.
unfoldable pub certain_holders : List PortHolder → List PortHolder
certain_holders [] = []
certain_holders (h ∷ hs) = if is_certain h then h ∷ certain_holders hs else certain_holders hs

abbrev pub is_there {ℓ} : {A : Type ℓ} → Option A → Bool
is_there none = false
is_there (some a) = true

-- The local `blocked` of `portConflictFinding`.
unfoldable pub blocked : Input → List PortHolder → Bool
blocked i hs =
    ltb 0 (length (certain_holders hs))
    && (not (is_there (own_holder i hs)) || foreign_container i (certain_holders hs))
