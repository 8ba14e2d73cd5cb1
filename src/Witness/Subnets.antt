-- ===== src/Witness/Subnets.antt =====
-- app/witness/conflicts.rules.go: `subnetOverlaps`, the rule about explicit subnets; and `assessSubnets`
-- of app/witness/outcomes.go. `net.ParseCIDR` is a parameter, and a network of package net is the bits
-- that its mask keeps, with the number of bits of its addresses. The titles and descriptions are left
-- out.
pub mod Common
use deploy_witness_cli.Prelude.{
  ℕ, zero, suc, ◌+◌, ◌-◌, ◌<◌, Bool, true, false, not, ◌&&◌, ◌||◌, Option, none, some, List, [],
  ◌∷◌, ◌++◌, ◌==◌, if◌then◌else◌, length, Text, codes, is_empty, join,
}
use deploy_witness_cli.Model.Outcome.{problem, blocker}
use deploy_witness_cli.Model.Finding.{Finding, conflict, high}
use deploy_witness_cli.Model.Plan.{ManifestNetwork}
use deploy_witness_cli.Model.Host.{ContainerNetwork, observed, complete_source}
use deploy_witness_cli.Witness.Input.{
  Input, evidence, manifest_evidence, engine_list, engine_command, source_networks,
  source_network_subnets,
}
use deploy_witness_cli.Witness.Outcomes.{Verdict, checked, not_applicable_verdict, undecided}
use deploy_witness_cli.Witness.Ownership.{same_project}
use deploy_witness_cli.Witness.ContainerNames.{engine_todo}

-- The bits of an address, the most significant first.
abbrev pub Address : Type 0
Address = List Bool

-- `net.IPNet`.
pub record IpNet : Type 0 where
  pub prefix : Address
  pub width : ℕ

unfoldable pub zeros : ℕ → Address
zeros zero = []
zeros (suc n) = false ∷ zeros n

abbrev pub same_bit : Bool → Bool → Bool
same_bit true b = b
same_bit false b = not b

unfoldable pub begins_with : Address → Address → Bool
begins_with [] a = true
begins_with (b ∷ p) [] = false
begins_with (b ∷ p) (c ∷ a) = same_bit b c && begins_with p a

-- The field `IP`: the first address of the network.
unfoldable pub base_of : IpNet → Address
base_of n = n.prefix ++ zeros (n.width - length n.prefix)

-- `IPNet.Contains`.
unfoldable pub contains : IpNet → Address → Bool
contains n a = length a == n.width && begins_with n.prefix a

-- `networksOverlap`.
unfoldable pub networks_overlap : IpNet → IpNet → Bool
networks_overlap a b = contains a (base_of b) || contains b (base_of a)

-- The finding on two subnets that overlap.
unfoldable pub subnet_finding : Input → ManifestNetwork → Text → ContainerNetwork → Text → Finding
subnet_finding i n cidr existing existing_cidr = record {
  code = codes "witness.subnet_overlap";
  collector = [];
  category = conflict;
  severity = blocker;
  subject = cidr;
  confidence = high;
  sort_order = 0;
  evidence =
      manifest_evidence i [] (codes "networks." ++ n.name ++ codes ".ipam: subnet " ++ cidr)
      ∷ evidence i
          (codes "docker network inspect " ++ existing.name ++ codes " --format {{json .}}")
          (codes "network " ++ existing.name ++ codes " uses " ++ existing_cidr)
      ∷ [];
  outcome = problem;
}

-- The four loops of the rule, from the innermost.
unfoldable pub against_subnets :
    (Text → Option IpNet)
    → Input
    → ManifestNetwork
    → Text
    → IpNet
    → ContainerNetwork
    → List Text
    → List Finding
against_subnets parse_cidr i n cidr want existing [] = []
against_subnets parse_cidr i n cidr want existing (s ∷ subnets) =
    elim (parse_cidr s) [
      | none ↦ []
      | some have ↦
          if networks_overlap want have then subnet_finding i n cidr existing s ∷ [] else []
    ]
    ++ against_subnets parse_cidr i n cidr want existing subnets

unfoldable pub against_networks :
    (Text → Option IpNet)
    → Input
    → ManifestNetwork
    → Text
    → IpNet
    → List ContainerNetwork
    → List Finding
against_networks parse_cidr i n cidr want [] = []
against_networks parse_cidr i n cidr want (e ∷ existing) =
    (if same_project i e.project then [] else against_subnets parse_cidr i n cidr want e e.subnets)
    ++ against_networks parse_cidr i n cidr want existing

unfoldable pub wanted_subnets :
    (Text → Option IpNet) → Input → ManifestNetwork → List Text → List Finding
wanted_subnets parse_cidr i n [] = []
wanted_subnets parse_cidr i n (cidr ∷ subnets) =
    elim (parse_cidr cidr) [
      | none ↦ []
      | some want ↦ against_networks parse_cidr i n cidr want i.caps.container_networks
    ]
    ++ wanted_subnets parse_cidr i n subnets

unfoldable pub subnets_of : (Text → Option IpNet) → Input → List ManifestNetwork → List Finding
subnets_of parse_cidr i [] = []
subnets_of parse_cidr i (n ∷ ns) =
    wanted_subnets parse_cidr i n n.subnets ++ subnets_of parse_cidr i ns

-- `subnetOverlaps`.
unfoldable pub subnet_overlaps : (Text → Option IpNet) → Input → List Finding
subnet_overlaps parse_cidr i = subnets_of parse_cidr i i.manifest.networks

-- The loop of `assessSubnets`.
unfoldable pub explicit_subnets : List ManifestNetwork → List Text
explicit_subnets [] = []
explicit_subnets (n ∷ ns) = n.subnets ++ explicit_subnets ns

-- An engine is installed whose networks were not all inspected.
unfoldable pub uninspected : Input → Bool
uninspected i = elim i.caps.runtime [
  | none ↦ false
  | some r ↦ not (complete_source i.caps source_network_subnets)
]

-- `assessSubnets`.
unfoldable pub assess_subnets : Input → Verdict
assess_subnets i =
    let subnets = explicit_subnets i.manifest.networks in
    let list = engine_list i source_networks in
    let note = (observed i.caps source_network_subnets).note in
    let named = join subnets (codes ", ") in
    if is_empty subnets
    then not_applicable_verdict
        (codes "the plan sets no explicit subnet; the engine allocates a free range itself")
    else if not list.0
    then undecided i
        (codes "the engine's networks could not be listed ("
          ++ list.1
          ++ codes "), so whether "
          ++ named
          ++ codes " overlaps one is unknown")
        (engine_command i (codes "network ls --format {{json .}}")) list.1 engine_todo
    else if uninspected i
    then undecided i
        (codes "the subnets of some engine networks are unknown ("
          ++ note
          ++ codes "), so an overlap with "
          ++ named
          ++ codes " cannot be ruled out")
        (engine_command i (codes "network inspect <network>")) note engine_todo
    else checked (named ++ codes " overlaps no subnet of an existing network")
