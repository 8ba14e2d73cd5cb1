-- ===== src/Witness/PortHolders/Improved.antt =====
-- The search of `portHolders` (app/witness/conflicts.rules.go) for the best overlap of one container.
use deploy_witness_cli.Prelude.{
  ℕ, ◌≤◌, ◌≡◌, refl, ap, ◌≢◌, inl, inr, true, Option, none, some, List, [], ◌∷◌, arith, ltb,
  Bool-cases, All, Exists,
}
use deploy_witness_cli.Model.Plan.{PortMapping, host_ports}
use deploy_witness_cli.Model.Host.{Container}
use deploy_witness_cli.Witness.PortMatch.{
  PortClaim, IpStack, Overlap, nowhere, overlap_rank, collides, claim_from_mapping,
}
use deploy_witness_cli.Witness.PortHolders.{Best, improve, improve_ports, improve_mappings}

-- A claim is one of the claims of a container.
abbrev pub IsPublished : PortClaim → Container → Type 0
IsPublished c k = Exists (λ m. Exists (λ p. claim_from_mapping m p ≡ c) (host_ports m)) k.ports

module _ (st : IpStack) (want : PortClaim) where
  -- A claim found so far satisfies `P` and has the overlap found so far.
  abbrev pub IsFound : (PortClaim → Type 0) → Overlap → Option PortClaim → Type 0
  IsFound P o none = o ≡ nowhere
  IsFound P o (some c) = P c × ((collides st want c).0 ≡ o) × (o ≢ nowhere)

  -- The best so far is one of the claims that satisfy `P`.
  abbrev pub IsFrom : (PortClaim → Type 0) → Best → Type 0
  IsFrom P b = IsFound P b.overlap b.claim

  -- A verdict that is better than another one is not the least.
  better-not_nowhere : (o p : Overlap) → ltb (overlap_rank o) (overlap_rank p) ≡ true → p ≢ nowhere
  better-not_nowhere o p h = ground arith

  improve-IsFrom :
      (P : PortClaim → Type 0) (b : Best) (c : PortClaim)
      → P c
      → IsFrom P b
      → IsFrom P (improve st want b c)
  unfolding improve
  improve-IsFrom P b c hc hb =
      elim (Bool-cases (ltb (overlap_rank b.overlap) (overlap_rank (collides st want c).0))) [
        | inl e ↦ rw e (hc, refl, better-not_nowhere b.overlap _ e)
        | inr e ↦ rw e hb
      ]

  improve_ports-IsFrom :
      (P : PortClaim → Type 0) (m : PortMapping) (b : Best) (ps : List ℕ)
      → All (λ p. P (claim_from_mapping m p)) ps
      → IsFrom P b
      → IsFrom P (improve_ports st want m b ps)
  unfolding improve_ports
  improve_ports-IsFrom P m b [] h hb = hb
  improve_ports-IsFrom P m b (p ∷ ps) h hb =
      improve_ports-IsFrom P m (improve st want b (claim_from_mapping m p)) ps h.1
        (improve-IsFrom P b (claim_from_mapping m p) h.0 hb)

  pub improve_mappings-IsFrom :
      (P : PortClaim → Type 0) (b : Best) (ms : List PortMapping)
      → All (λ m. All (λ p. P (claim_from_mapping m p)) (host_ports m)) ms
      → IsFrom P b
      → IsFrom P (improve_mappings st want b ms)
  unfolding improve_mappings
  improve_mappings-IsFrom P b [] h hb = hb
  improve_mappings-IsFrom P b (m ∷ ms) h hb =
      improve_mappings-IsFrom P (improve_ports st want m b (host_ports m)) ms h.1
        (improve_ports-IsFrom P m b (host_ports m) h.0 hb)

  -- How much a claim overlaps, as a number.
  abbrev pub weight : PortClaim → ℕ
  weight c = overlap_rank (collides st want c).0

  improve-weight :
      (b : Best) (c : PortClaim)
      → (overlap_rank b.overlap ≤ overlap_rank (improve st want b c).overlap)
        × (weight c ≤ overlap_rank (improve st want b c).overlap)
  unfolding improve
  improve-weight b c = (ground arith, ground arith)

  improve_ports_grows :
      (m : PortMapping) (b : Best) (ps : List ℕ)
      → overlap_rank b.overlap ≤ overlap_rank (improve_ports st want m b ps).overlap
  unfolding improve_ports
  improve_ports_grows m b [] = omega arith
  improve_ports_grows m b (p ∷ ps) = omega (
    arith,
    (improve-weight b (claim_from_mapping m p)).0,
    improve_ports_grows m (improve st want b (claim_from_mapping m p)) ps,
  )

  improve_mappings_grows :
      (b : Best) (ms : List PortMapping)
      → overlap_rank b.overlap ≤ overlap_rank (improve_mappings st want b ms).overlap
  unfolding improve_mappings
  improve_mappings_grows b [] = omega arith
  improve_mappings_grows b (m ∷ ms) = omega (
    arith,
    improve_ports_grows m b (host_ports m),
    improve_mappings_grows (improve_ports st want m b (host_ports m)) ms,
  )

  weight-improve_ports :
      (c : PortClaim) (m : PortMapping) (b : Best) (ps : List ℕ)
      → Exists (λ p. claim_from_mapping m p ≡ c) ps
      → weight c ≤ overlap_rank (improve_ports st want m b ps).overlap
  unfolding improve_ports
  weight-improve_ports c m b [] h = elim h [ ]
  weight-improve_ports c m b (p ∷ ps) (inl e) = omega (
    arith,
    ap weight e,
    (improve-weight b (claim_from_mapping m p)).1,
    improve_ports_grows m (improve st want b (claim_from_mapping m p)) ps,
  )
  weight-improve_ports c m b (p ∷ ps) (inr h) =
      weight-improve_ports c m (improve st want b (claim_from_mapping m p)) ps h

  pub weight-improve_mappings :
      (c : PortClaim) (b : Best) (ms : List PortMapping)
      → Exists (λ m. Exists (λ p. claim_from_mapping m p ≡ c) (host_ports m)) ms
      → weight c ≤ overlap_rank (improve_mappings st want b ms).overlap
  unfolding improve_mappings
  weight-improve_mappings c b [] h = elim h [ ]
  weight-improve_mappings c b (m ∷ ms) (inl e) = omega (
    arith,
    weight-improve_ports c m b (host_ports m) e,
    improve_mappings_grows (improve_ports st want m b (host_ports m)) ms,
  )
  weight-improve_mappings c b (m ∷ ms) (inr h) =
      weight-improve_mappings c (improve_ports st want m b (host_ports m)) ms h
