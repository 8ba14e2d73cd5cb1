-- ===== src/Samples/Networks.antt =====
-- Networks of addresses of four bits, and the theorem on their overlap at a concrete input.
use deploy_witness_cli.Prelude.{◌≡◌, refl, ◌↔◌, Bool, true, false, [], ◌∷◌, arith}
use deploy_witness_cli.Witness.Subnets.{
  IpNet, Address, zeros, begins_with, base_of, contains, networks_overlap,
}
use deploy_witness_cli.Witness.Subnets.Common.{IsNet, networks_overlap_iff}

abbrev half : IpNet
half = record { prefix = true ∷ []; width = 4 }

abbrev quarter : IpNet
quarter = record { prefix = true ∷ false ∷ []; width = 4 }

abbrev other_half : IpNet
other_half = record { prefix = false ∷ []; width = 4 }

overlap : IpNet → IpNet → Bool
unfolding networks_overlap contains base_of begins_with zeros
overlap a b = networks_overlap a b

inner_overlaps : overlap half quarter ≡ true
unfolding overlap
inner_overlaps = refl

halves_apart : overlap half other_half ≡ false
unfolding overlap
halves_apart = refl

half-IsNet : IsNet half
half-IsNet = omega arith

quarter-IsNet : IsNet quarter
quarter-IsNet = omega arith

networks_overlap_iff_example :
    (networks_overlap half quarter ≡ true)
    ↔ ((ip : Address) × ((contains half ip ≡ true) × (contains quarter ip ≡ true)))
networks_overlap_iff_example = networks_overlap_iff half quarter half-IsNet quarter-IsNet
