-- ===== src/Witness/DynamicRange.antt =====
-- app/witness/conflicts.rules.go: `dynamicRange`, a host range for one container port; with `orUnknown` of
-- app/witness/compatibility.rules.go and `unobservableProtocol`.
pub mod Settled
use deploy_witness_cli.Prelude.{
  ℕ, ◌+◌, ◌-◌, ◌/◌, not, Option, none, some, List, [], ◌∷◌, ◌++◌, if◌then◌else◌, length, Text,
  codes, is_empty, join, trim_space, itoa,
}
use deploy_witness_cli.Model.Outcome.{
  Outcome, problem, unknown, manual_check, Severity, blocker, warning,
}
use deploy_witness_cli.Model.Finding.{Finding, Confidence, conflict, low, medium, high}
use deploy_witness_cli.Model.Plan.{PortMapping, ManifestService, host_ports}
use deploy_witness_cli.Witness.Input.{Input, evidence, manifest_evidence}
use deploy_witness_cli.Witness.PortMatch.{
  PortClaim, claim_from_mapping, base_protocol, observable_protocol, subject, describe,
}
use deploy_witness_cli.Witness.Ownership.{arrow}
use deploy_witness_cli.Witness.HolderText.{protocol_of, newline}
use deploy_witness_cli.Witness.PortState.{
  PortAvailability, port_free, port_maybe_taken, port_taken, port_unchecked, port_state,
}

-- The command that `unobservableProtocol` names.
abbrev socket_tables : Text
socket_tables = codes "/proc/net/tcp, /proc/net/tcp6, /proc/net/udp, /proc/net/udp6"

-- `unobservableProtocol`.
unfoldable pub unobservable_protocol : Input → ManifestService → PortMapping → PortClaim → Finding
unobservable_protocol i svc m want = record {
  code = codes "witness.port_conflict";
  collector = [];
  category = conflict;
  severity = warning;
  subject = subject want;
  confidence = low;
  sort_order = want.port;
  evidence =
      manifest_evidence i svc.name (
        codes "ports: publishes host "
        ++ (describe want
            ++ (b' ' ∷ (arrow ++ (codes " container port " ++ itoa m.container_port)))))
      ∷ evidence i socket_tables (
          itoa (length i.caps.ports)
          ++ (codes " listening sockets read, none of them "
              ++ (want.protocol
                  ++ (codes ": the kernel has no "
                      ++ (want.protocol ++ codes " socket table here")))))
      ∷ [];
  outcome = manual_check;
}

-- `orUnknown`.
unfoldable pub or_unknown : Text → Text
or_unknown value = if is_empty (trim_space value) then codes "no detail was reported" else value

-- A line of the evidence.
range_line : ℕ → Text → Text
range_line port detail = itoa port ++ (codes " (" ++ (detail ++ codes ")"))

-- The ports of a range that are taken, and those that may be, as lines.
pub record RangeState : Type 0 where
  pub taken : List Text
  pub maybe : List Text

-- The loop of `dynamicRange`, which gives up at a free port.
pub range_state : Input → PortMapping → List ℕ → Option RangeState
unfolding or_unknown range_line
range_state i m [] = some (record { taken = []; maybe = [] })
range_state i m (p ∷ ps) =
    let rest = range_state i m ps in
    let (state, holders) = port_state i m p in
    elim state [
      | port_free ↦ none
      | port_taken ↦ elim rest [
        | none ↦ none
        | some r ↦ some (record r { taken = range_line p holders ∷ r.taken })
      ]
      | _ ↦ elim rest [
        | none ↦ none
        | some r ↦ some (record r { maybe = range_line p (or_unknown holders) ∷ r.maybe })
      ]
    ]

-- The subject of a range.
range_subject : PortMapping → Text
range_subject m =
    itoa m.host_port ++ b'-' ∷ (itoa m.host_port_end ++ b'/' ∷ base_protocol (protocol_of m))

-- The finding of `dynamicRange` on what its loop collected.
unfoldable pub range_finding : Input → ManifestService → PortMapping → RangeState → Finding
unfolding range_subject
range_finding i svc m r =
    let sure = is_empty r.maybe in
    record {
      code = codes "witness.port_conflict";
      collector = [];
      category = conflict;
      severity = if sure then blocker else warning;
      subject = range_subject m;
      confidence = if sure then high else medium;
      sort_order = m.host_port;
      evidence =
          manifest_evidence i svc.name (
            codes "ports: publishes one port of host range "
            ++ (range_subject m
                ++ (b' ' ∷ (arrow ++ (codes " container port " ++ itoa m.container_port)))))
          ∷ evidence i (codes "ss -lntupH") (join (r.taken ++ r.maybe) newline)
          ∷ [];
      outcome = if sure then problem else unknown;
    }

-- `dynamicRange`.
unfoldable pub dynamic_range : Input → ManifestService → PortMapping → Option Finding
dynamic_range i svc m =
    if not (observable_protocol (base_protocol (protocol_of m)))
    then some (unobservable_protocol i svc m (claim_from_mapping m m.host_port))
    else elim (range_state i m (host_ports m)) [
      | none ↦ none
      | some r ↦ some (range_finding i svc m r)
    ]
