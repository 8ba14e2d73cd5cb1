-- ===== src/Witness/HolderText.antt =====
-- app/witness/conflicts.rules.go: what is said of the holders of a port, as prose (`describeHolders`) and
-- as evidence (`holderEvidence`).
use deploy_witness_cli.Prelude.{
  not, ◌&&◌, List, [], ◌∷◌, ◌++◌, map, ltb, if◌then◌else◌, Text, codes, is_empty, join, itoa,
  quoted,
}
use deploy_witness_cli.Model.Finding.{Evidence}
use deploy_witness_cli.Model.Plan.{PortMapping}
use deploy_witness_cli.Model.Host.{Socket}
use deploy_witness_cli.Witness.Input.{Input, evidence}
use deploy_witness_cli.Witness.PortMatch.{PortClaim, describe}
use deploy_witness_cli.Witness.Ownership.{describe_owner, arrow}
use deploy_witness_cli.Witness.PortHolders.{PortHolder, by_container, by_socket}

-- `protocolOf`.
unfoldable pub protocol_of : PortMapping → Text
protocol_of m = if is_empty m.protocol then codes "tcp" else m.protocol

-- `renderPorts`.
port_parts : List PortMapping → List Text
unfolding protocol_of
port_parts [] = []
port_parts (m ∷ ms) =
    let host =
      if is_empty m.host_ip then itoa m.host_port else m.host_ip ++ b':' ∷ itoa m.host_port in
    (host ++ (arrow ++ (itoa m.container_port ++ b'/' ∷ protocol_of m))) ∷ port_parts ms

-- The lines of `holderEvidence`.
container_line : PortHolder → List Text
unfolding port_parts
container_line h = elim h.source [
  | by_container c ↦
      (codes "container "
        ++ (c.name
            ++ (codes " (project "
                ++ (c.project
                    ++ (codes ", service "
                        ++ (c.service
                            ++ (codes ") state "
                                ++ (c.state
                                    ++ (codes ", publishing "
                                        ++ join (port_parts c.ports) (codes ", "))))))))))
      ∷ []
  | by_socket s ↦ []
]

socket_line : PortHolder → List Text
socket_line h = elim h.source [
  | by_container c ↦ []
  | by_socket s ↦
      (s.protocol
        ++ (b' '
            ∷ (s.address
                ++ (b':'
                    ∷ (itoa s.port
                        ++ (b' '
                            ∷ (s.state
                                ++ (codes " pid="
                                    ++ (itoa s.pid ++ (codes " process=" ++ s.process))))))))))
      ∷ []
]

lines_of : (PortHolder → List Text) → List PortHolder → List Text
lines_of line [] = []
lines_of line (h ∷ hs) = line h ++ lines_of line hs

abbrev pub newline : Text
newline = 10 ∷ []

evidence_of : Input → Text → List Text → List Evidence
evidence_of i command [] = []
evidence_of i command (l ∷ ls) = evidence i command (join (l ∷ ls) newline) ∷ []

-- `holderEvidence`.
unfoldable pub holder_evidence : Input → List PortHolder → List Evidence
unfolding lines_of container_line socket_line evidence_of
holder_evidence i hs =
    evidence_of i (codes "docker ps -a --format {{json .}}") (lines_of container_line hs)
    ++ evidence_of i (codes "ss -lntupH") (lines_of socket_line hs)

-- The cases of `describeHolder` on a socket.
describe_socket : Socket → PortClaim → Text
describe_socket s c =
    if not (is_empty s.process) && ltb 0 s.pid
    then s.process ++ (codes " (pid " ++ (itoa s.pid ++ (codes "), listening on " ++ describe c)))
    else if not (is_empty s.process)
    then s.process ++ (codes ", listening on " ++ describe c)
    else codes "an unidentified process listening on "
      ++ (describe c ++ codes " (the owner is only visible to root)")

-- `describeHolder`.
describe_holder : Input → PortHolder → Text
unfolding describe_socket
describe_holder i h = elim h.source [
  | by_container c ↦
      codes "container "
      ++ (quoted c.name
          ++ (codes " (" ++ (describe_owner i c ++ (codes "), publishing " ++ describe h.claim))))
  | by_socket s ↦ describe_socket s h.claim
]

-- `describeHolders`.
unfoldable pub describe_holders : Input → List PortHolder → Text
unfolding describe_holder
describe_holders i [] = codes "another process"
describe_holders i (h ∷ hs) = join (map (describe_holder i) (h ∷ hs)) (codes "; ")
