-- ===== src/Witness/PortMatch/Exact.antt =====
-- `collides` of app/witness/portmatch.go is exact: its three answers are right about the addresses that
-- the two bindings answer, on every host that the observation allows.
use deploy_witness_cli.Prelude.{
  ◌≡◌, sym, ap, ◌∙◌, ◌≢◌, ◌⊎◌, inl, inr, Bool, true, false, not, ◌&&◌, ◌||◌, arith, ltb, ◌==◌,
  if◌then◌else◌, Bool-cases, text_eq, text_eq_iff,
}
use deploy_witness_cli.Net.Ip.{Ip, is_ipv4}
use deploy_witness_cli.Witness.PortMatch.{
  PortClaim, IpStack, Overlap, nowhere, undecidable, certain, overlap_rank, coverage,
  coverage_overlap, family_overlap, collides,
}
use deploy_witness_cli.Witness.PortMatch.Meaning.{
  coverage_overlap_comm, nowhere_disjoint, answers, Settles, Agrees, settled, covers,
  answers-covers, sample, is_ipv4-sample, certain_shares,
}

-- Two bindings name one protocol and port.
pub record SamePort (want held : PortClaim) : Type 0 where
  pub port : want.port ≡ held.port
  pub protocol : want.protocol ≡ held.protocol

-- Both addresses could be read.
pub record Readable (want held : PortClaim) : Type 0 where
  pub wanted : want.readable ≡ true
  pub holds : held.readable ≡ true

-- Some address is answered by both.
abbrev pub Meet : Bool → Bool → Bool → PortClaim → PortClaim → Type 0
Meet has_ipv6 only only' want held =
    (a : Ip) × ((answers has_ipv6 only want a && answers has_ipv6 only' held a) ≡ true)

-- The verdict of a family.
abbrev pub in_family : IpStack → PortClaim → PortClaim → Bool → Overlap
in_family st want held v4 = coverage_overlap (coverage want v4 st) (coverage held v4 st)

pub worse : Overlap → Overlap → Overlap
worse o p = if ltb (overlap_rank o) (overlap_rank p) then p else o

pub collides_families :
    (st : IpStack) (want held : PortClaim)
    → SamePort want held
    → Readable want held
    → (collides st want held).0 ≡ worse (in_family st want held true) (in_family st want held false)
unfolding collides worse family_overlap
collides_families st want held p r =
    ground (arith, p.port, p.protocol, r.wanted, r.holds, text_eq_iff want.protocol held.protocol)

not-Readable_undecidable :
    (st : IpStack) (want held : PortClaim)
    → SamePort want held
    → (collides st want held).0 ≢ undecidable
    → Readable want held
unfolding collides
not-Readable_undecidable st want held p h = record {
  wanted = ground (arith, p.port, p.protocol, text_eq_iff want.protocol held.protocol);
  holds = ground (arith, p.port, p.protocol, text_eq_iff want.protocol held.protocol);
}

pub certain-SamePort :
    (st : IpStack) (want held : PortClaim)
    → (collides st want held).0 ≢ nowhere
    → SamePort want held
unfolding collides
certain-SamePort st want held h = record {
  port = ground arith;
  protocol = ground (arith, text_eq_iff want.protocol held.protocol);
}

worse_certain : (o p : Overlap) → worse o p ≡ certain → (o ≡ certain) ⊎ (p ≡ certain)
unfolding worse
worse_certain o p h = ground arith

worse_nowhere : (o p : Overlap) → worse o p ≡ nowhere → (o ≡ nowhere) × (p ≡ nowhere)
unfolding worse
worse_nowhere o p h = ground arith

pub worse_undecidable :
    (o p : Overlap)
    → worse o p ≡ undecidable
    → (o ≢ certain) × (p ≢ certain) × ((o ≡ undecidable) ⊎ (p ≡ undecidable))
unfolding worse
worse_undecidable o p h = (ground arith, ground arith, ground arith)

module _ (st : IpStack) (want held : PortClaim) where
  module _ (has_ipv6 only only' : Bool) (s : Settles st has_ipv6) (g : Agrees want only)
      (g' : Agrees held only') where
    -- The answers of the two sides, as the covers of their classes.
    pub both :
        (a : Ip)
        → (answers has_ipv6 only want a && answers has_ipv6 only' held a) ≡ (
            covers (coverage want (is_ipv4 a) st) (settled has_ipv6 only want) a
            && covers (coverage held (is_ipv4 a) st) (settled has_ipv6 only' held) a)
    both a =
        cc
          (answers-covers st has_ipv6 only want a s g, answers-covers st has_ipv6 only' held a s g')

    family_meets :
        (v4 : Bool) → in_family st want held v4 ≡ certain → Meet has_ipv6 only only' want held
    family_meets v4 h =
        let a = sample v4 (coverage want v4 st) (coverage held v4 st) in
        let e : is_ipv4 a ≡ v4 = is_ipv4-sample st want held v4 in
        (a, both a ∙ rw e (certain_shares (coverage want v4 st) (coverage held v4 st) _ _ v4 h))

    -- A collision that is called certain is one: on every host that the observation allows, some
    -- address is answered by both bindings, on one protocol and port.
    pub certain_meets :
        (collides st want held).0 ≡ certain
        → SamePort want held × Meet has_ipv6 only only' want held
    certain_meets h =
        let p = certain-SamePort st want held (λ e. cc (h, e)) in
        let r = not-Readable_undecidable st want held p (λ e. cc (h, e)) in
        (
          p,
          elim (worse_certain _ _ (sym (collides_families st want held p r) ∙ h)) [
            | inl e ↦ family_meets true e
            | inr e ↦ family_meets false e
          ],
        )

    nowhere_at :
        (a : Ip) (v4 : Bool)
        → is_ipv4 a ≡ v4
        → in_family st want held v4 ≡ nowhere
        → (answers has_ipv6 only want a && answers has_ipv6 only' held a) ≡ false
    nowhere_at a v4 e h =
        both a
        ∙ nowhere_disjoint (coverage want (is_ipv4 a) st) (coverage held (is_ipv4 a) st) _ _ a
            (ap (λ v. coverage_overlap (coverage want v st) (coverage held v st)) e ∙ h)

    -- A collision that is ruled out does not happen: on every host that the observation allows, no
    -- address is answered by both bindings, if they are on one protocol and port.
    pub nowhere_apart :
        (collides st want held).0 ≡ nowhere
        → SamePort want held
        → (a : Ip) → (answers has_ipv6 only want a && answers has_ipv6 only' held a) ≡ false
    nowhere_apart h p a =
        let r = not-Readable_undecidable st want held p (λ e. cc (h, e)) in
        let both_nowhere = worse_nowhere _ _ (sym (collides_families st want held p r) ∙ h) in
        elim (Bool-cases (is_ipv4 a)) [
          | inl e ↦ nowhere_at a true e both_nowhere.0
          | inr e ↦ nowhere_at a false e both_nowhere.1
        ]

better_of : Overlap → Overlap → Overlap
better_of o p = if ltb (overlap_rank p) (overlap_rank o) then o else p

collides_verdict :
    (st : IpStack) (want held : PortClaim)
    → (collides st want held).0 ≡ (
        if not (want.port == held.port) || not (text_eq want.protocol held.protocol)
        then nowhere
        else if not want.readable || not held.readable
        then undecidable
        else better_of
            (in_family st want held false)
            (better_of (in_family st want held true) nowhere))
unfolding collides family_overlap better_of
collides_verdict st want held = ground arith

-- The verdict does not depend on which of the two bindings is asked for and which is held.
pub collides_comm :
    (st : IpStack) (want held : PortClaim) → (collides st want held).0 ≡ (collides st held want).0
collides_comm st want held = ground (
  arith,
  collides_verdict st want held,
  collides_verdict st held want,
  text_eq_iff want.protocol held.protocol,
  text_eq_iff held.protocol want.protocol,
  coverage_overlap_comm (coverage want true st) (coverage held true st),
  coverage_overlap_comm (coverage want false st) (coverage held false st),
)
