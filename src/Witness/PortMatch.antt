-- ===== src/Witness/PortMatch.antt =====
-- app/witness/portmatch.go: when two bindings collide. A claim's `ip` is `none` where the Go pointer is
-- nil; the reasons are the texts that the code builds.
pub mod Meaning
pub mod Exact
pub mod Undecided
use deploy_witness_cli.Prelude.{
  ℕ, ◌+◌, ◌-◌, ◌*◌, ◌/◌, ◌%◌, Bool, true, false, not, ◌||◌, Option, none, some, [], ◌∷◌, ◌++◌, ltb,
  ◌==◌, if◌then◌else◌, any, Text, codes, text_eq, is_empty, join, trim_space, trim_brackets,
  to_lower, trim_suffix_byte, itoa, em_dash, quoted,
}
use deploy_witness_cli.Net.Ip.{Ip, is_ipv4, is_unspecified, parse_ip}
use deploy_witness_cli.Model.Plan.{PortMapping}
use deploy_witness_cli.Model.Host.{Socket}
use deploy_witness_cli.Witness.Input.{Input}

pub data Overlap : Type 0 where
  nowhere undecidable certain : Overlap

-- The order of the three constants.
abbrev pub overlap_rank : Overlap → ℕ
overlap_rank nowhere = 0
overlap_rank undecidable = 1
overlap_rank certain = 2

pub record PortClaim : Type 0 where
  pub protocol : Text
  pub port : ℕ
  pub address : Text
  pub ip : Option Ip
  pub any_addr : Bool
  pub readable : Bool
  pub v6only : Text

-- `ipStack`.
pub record IpStack : Type 0 where
  pub ipv6 : Text
  pub bind_v6_only : Text

-- `stackOf`; the capabilities are always there.
unfoldable pub stack_of : Input → IpStack
stack_of i = record { ipv6 = i.caps.ipv6; bind_v6_only = i.caps.bind_v6_only }

-- `baseProtocol`.
unfoldable pub base_protocol : Text → Text
base_protocol protocol =
    let p = to_lower (trim_space protocol) in
    if is_empty p then codes "tcp" else trim_suffix_byte b'6' p

abbrev is_some {ℓ} : {A : Type ℓ} → Option A → Bool
is_some none = false
is_some (some a) = true

-- `claimFromMapping`.
unfoldable pub claim_from_mapping : PortMapping → ℕ → PortClaim
unfolding base_protocol
claim_from_mapping m port =
    let address = trim_brackets (trim_space m.host_ip) in
    let ip : Option Ip = if is_empty address then none else parse_ip address in
    record {
      protocol = base_protocol m.protocol;
      port = port;
      address = address;
      ip = ip;
      any_addr = false;
      readable = is_empty address || is_some ip;
      v6only = [];
    }

-- `claimFromSocket`.
unfoldable pub claim_from_socket : Socket → PortClaim
unfolding base_protocol
claim_from_socket s =
    let address = trim_brackets (trim_space s.address) in
    let wildcard = is_empty address || text_eq address (codes "*") in
    let ip : Option Ip = if wildcard then none else parse_ip address in
    record {
      protocol = base_protocol s.protocol;
      port = s.port;
      address = if wildcard then codes "*" else address;
      ip = ip;
      any_addr = wildcard;
      readable = wildcard || is_some ip;
      v6only = s.v6only;
    }

-- `observableProtocol`.
unfoldable pub observable_protocol : Text → Bool
observable_protocol p = text_eq p (codes "tcp") || text_eq p (codes "udp")

-- `coverage`: what a claim holds inside one address family.
pub data Coverage : Type 0 where
  none_of_it maybe_all all_of_it : Coverage
  exactly : Ip → Coverage

-- The part of `coverage` for a claim that names no address.
unnamed_coverage : Bool → IpStack → Coverage
unnamed_coverage v4 st =
    if v4
    then all_of_it
    else if text_eq st.ipv6 (codes "disabled")
    then none_of_it
    else if text_eq st.ipv6 (codes "enabled")
    then all_of_it
    else maybe_all

-- The part for an IPv6 wildcard.
v6_wildcard_coverage : Bool → Text → Coverage
v6_wildcard_coverage v4 v6only =
    if v4
    then (if text_eq v6only (codes "no")
        then all_of_it
        else if text_eq v6only (codes "yes")
        then none_of_it
        else maybe_all)
    else all_of_it

bool_eq : Bool → Bool → Bool
bool_eq true b = b
bool_eq false b = not b

-- The part for a parsed address.
address_coverage : Bool → Text → Ip → Coverage
unfolding v6_wildcard_coverage bool_eq
address_coverage v4 v6only ip =
    if is_unspecified ip
    then (if is_ipv4 ip
        then (if v4 then all_of_it else none_of_it)
        else v6_wildcard_coverage v4 v6only)
    else if bool_eq (is_ipv4 ip) v4
    then exactly ip
    else none_of_it

-- `portClaim.coverage`.
unfoldable pub coverage : PortClaim → Bool → IpStack → Coverage
unfolding unnamed_coverage address_coverage
coverage c v4 st =
    if c.any_addr
    then all_of_it
    else if is_empty c.address
    then unnamed_coverage v4 st
    else elim c.ip [ none ↦ none_of_it | some ip ↦ address_coverage v4 c.v6only ip ]

-- `sideReason`.
side_reason : IpStack → Text → PortClaim → Text
side_reason st who c =
    if is_empty c.address
    then who
      ++ (codes
            " names no host address, so the engine binds every IPv4 address and, on a host with IPv6, "
          ++ (codes "the IPv6 wildcard too "
              ++ (em_dash ++ codes " and whether this host has IPv6 could not be read.")))
    else who
      ++ (codes
            " is the IPv6 wildcard [::], which also answers IPv4 unless the socket is IPv6-only "
          ++ (em_dash
              ++ (codes
                    " a per-socket option `ss` shows (`*:port` dual-stack, `[::]:port` IPv6-only) and could not be read here; the net.ipv6.bindv6only default is "
                  ++ ((if is_empty st.bind_v6_only then codes "unknown" else st.bind_v6_only)
                      ++ codes ", which a socket may override."))))

is_maybe : Coverage → Bool
is_maybe maybe_all = true
is_maybe _ = false

-- `maybeReason`.
maybe_reason : IpStack → PortClaim → PortClaim → Coverage → Coverage → Text
unfolding side_reason is_maybe
maybe_reason st want held want_cov held_cov =
    join
      ((if is_maybe want_cov then side_reason st (codes "The manifest") want ∷ [] else [])
        ++ (if is_maybe held_cov
            then side_reason st (codes "The binding already on that port") held ∷ []
            else []))
      (codes " ")

-- The cases of `familyOverlap` on the two coverages.
unfoldable pub coverage_overlap : Coverage → Coverage → Overlap
coverage_overlap none_of_it h = nowhere
coverage_overlap maybe_all none_of_it = nowhere
coverage_overlap maybe_all h = undecidable
coverage_overlap all_of_it none_of_it = nowhere
coverage_overlap all_of_it maybe_all = undecidable
coverage_overlap all_of_it h = certain
coverage_overlap (exactly a) none_of_it = nowhere
coverage_overlap (exactly a) maybe_all = undecidable
coverage_overlap (exactly a) all_of_it = certain
coverage_overlap (exactly a) (exactly b) = if a == b then certain else nowhere

is_undecidable : Overlap → Bool
is_undecidable undecidable = true
is_undecidable _ = false

-- `familyOverlap`.
unfoldable pub family_overlap : IpStack → PortClaim → PortClaim → Bool → Overlap × Text
unfolding maybe_reason is_undecidable
family_overlap st want held v4 =
    let want_cov = coverage want v4 st in
    let held_cov = coverage held v4 st in
    let o = coverage_overlap want_cov held_cov in
    (o, if is_undecidable o then maybe_reason st want held want_cov held_cov else [])

-- One round of the loop of `collides`.
better : Overlap × Text → Overlap × Text → Overlap × Text
better (o, why) (best, best_why) =
    if ltb (overlap_rank best) (overlap_rank o) then (o, why) else (best, best_why)

want_unreadable : PortClaim → Text
want_unreadable want =
    codes "the manifest binds host address "
    ++ (quoted want.address
        ++ (codes ", which is not an address "
            ++ (em_dash
                ++ (codes " an unresolved variable, most likely "
                    ++ (em_dash
                        ++ codes
                            " so which interface the publish lands on cannot be established from the compose file alone.")))))

held_unreadable : PortClaim → Text
held_unreadable held =
    codes "the address "
    ++ (quoted held.address
        ++ codes " of the socket already on that port could not be read as an IP address.")

-- `collides`.
unfoldable pub collides : IpStack → PortClaim → PortClaim → Overlap × Text
unfolding better want_unreadable held_unreadable
collides st want held =
    if not (want.port == held.port) || not (text_eq want.protocol held.protocol)
    then (nowhere, [])
    else if not want.readable
    then (undecidable, want_unreadable want)
    else if not held.readable
    then (undecidable, held_unreadable held)
    else better (family_overlap st want held false)
        (better (family_overlap st want held true) (nowhere, []))

-- `net.JoinHostPort`.
join_host_port : Text → ℕ → Text
join_host_port host port =
    if any (λ c. c == b':' || c == b'%') host
    then b'[' ∷ (host ++ (codes "]:" ++ itoa port))
    else host ++ b':' ∷ itoa port

-- `portClaim.subject`.
unfoldable pub subject : PortClaim → Text
unfolding join_host_port
subject c =
    if is_empty c.address
    then itoa c.port ++ b'/' ∷ c.protocol
    else join_host_port c.address c.port ++ b'/' ∷ c.protocol

-- `portClaim.describe`.
unfoldable pub describe : PortClaim → Text
describe c =
    let binding = codes "port " ++ (itoa c.port ++ b'/' ∷ c.protocol) in
    if is_empty c.address || c.any_addr
    then binding ++ codes " on every host address"
    else binding ++ (codes " on " ++ c.address)
