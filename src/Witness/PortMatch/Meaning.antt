-- ===== src/Witness/PortMatch/Meaning.antt =====
-- What a binding of app/witness/portmatch.go holds on a host whose configuration is known: the set of
-- addresses it answers. It is stated from the sockets' rules, with no coverage classes and no unknowns.
use deploy_witness_cli.Prelude.{
  ◌≡◌, refl, ◌≢◌, inl, inr, Bool, true, false, not, ◌&&◌, ◌||◌, none, some, arith, ◌==◌,
  if◌then◌else◌, Bool-cases, Option-cases, codes, text_eq_iff, is_empty,
}
use deploy_witness_cli.Net.Ip.{Ip, is_ipv4, is_unspecified, of_ipv4}
use deploy_witness_cli.Witness.PortMatch.{
  PortClaim, IpStack, Coverage, none_of_it, maybe_all, all_of_it, exactly, coverage, nowhere,
  undecidable, certain, coverage_overlap, unnamed_coverage, address_coverage,
}

-- Whether the claim answers an address, on a host with or without IPv6, where `only` says whether the
-- claim's IPv6 wildcard is IPv6-only.
abbrev pub answers : Bool → Bool → PortClaim → Ip → Bool
answers has_ipv6 only c a =
    if c.any_addr then true else if is_empty c.address then is_ipv4 a || has_ipv6 else elim c.ip [
      | none ↦ false
      | some ip ↦
          if is_unspecified ip
          then (if is_ipv4 ip then is_ipv4 a else not (is_ipv4 a) || not only)
          else a == ip
    ]

-- The host is one that the observation describes.
pub record Settles (st : IpStack) (has_ipv6 : Bool) : Type 0 where
  pub on : st.ipv6 ≡ codes "enabled" → has_ipv6 ≡ true
  pub off : st.ipv6 ≡ codes "disabled" → has_ipv6 ≡ false

-- The socket is one that the claim describes.
pub record Agrees (c : PortClaim) (only : Bool) : Type 0 where
  pub alone : c.v6only ≡ codes "yes" → only ≡ true
  pub dual : c.v6only ≡ codes "no" → only ≡ false

-- What an undecided coverage comes to.
abbrev pub settled : Bool → Bool → PortClaim → Bool
settled has_ipv6 only c = if is_empty c.address then has_ipv6 else not only

-- The addresses of a coverage class, its undecided case settled.
abbrev pub covers : Coverage → Bool → Ip → Bool
covers none_of_it m a = false
covers maybe_all m a = m
covers all_of_it m a = true
covers (exactly ip) m a = a == ip

answers-covers_unnamed :
    (st : IpStack) (has_ipv6 : Bool) (a : Ip)
    → Settles st has_ipv6
    → (is_ipv4 a || has_ipv6) ≡ covers (unnamed_coverage (is_ipv4 a) st) has_ipv6 a
unfolding unnamed_coverage
answers-covers_unnamed st has_ipv6 a s = ground (
  arith,
  s.on,
  s.off,
  text_eq_iff st.ipv6 (codes "enabled"),
  text_eq_iff st.ipv6 (codes "disabled"),
)

answers-covers_address :
    (c : PortClaim) (only : Bool) (ip a : Ip)
    → Agrees c only
    → (if is_unspecified ip
        then (if is_ipv4 ip then is_ipv4 a else not (is_ipv4 a) || not only)
        else a == ip)
      ≡ covers (address_coverage (is_ipv4 a) c.v6only ip) (not only) a
unfolding address_coverage
answers-covers_address c only ip a g =
    ground (
      arith,
      g.alone,
      g.dual,
      text_eq_iff c.v6only (codes "yes"),
      text_eq_iff c.v6only (codes "no"),
    )

-- `coverage` computes, family by family, the set of addresses that the claim answers.
pub answers-covers :
    (st : IpStack) (has_ipv6 only : Bool) (c : PortClaim) (a : Ip)
    → Settles st has_ipv6
    → Agrees c only
    → answers has_ipv6 only c a ≡ covers (coverage c (is_ipv4 a) st) (settled has_ipv6 only c) a
unfolding coverage
answers-covers st has_ipv6 only c a s g = elim (Option-cases c.ip) [
  | inl e ↦ ground (arith, e, answers-covers_unnamed st has_ipv6 a s)
  | inr (ip, e) ↦
      ground
        (arith, e, answers-covers_unnamed st has_ipv6 a s, answers-covers_address c only ip a g)
]

-- A coverage of one address is of an address of its family.
coverage_exactly :
    (st : IpStack) (c : PortClaim) (v4 : Bool) (ip : Ip)
    → coverage c v4 st ≡ exactly ip
    → is_ipv4 ip ≡ v4
unfolding coverage
coverage_exactly st c v4 ip h = ground arith

-- A coverage is undecided only where the observation leaves it open.
pub coverage_maybe :
    (st : IpStack) (c : PortClaim) (v4 : Bool)
    → coverage c v4 st ≡ maybe_all
    → (is_empty c.address ≡ true → (st.ipv6 ≢ codes "enabled") × (st.ipv6 ≢ codes "disabled"))
      × (is_empty c.address ≡ false → (c.v6only ≢ codes "yes") × (c.v6only ≢ codes "no"))
unfolding coverage
coverage_maybe st c v4 h = (
  λ e. (
    ground (arith, text_eq_iff st.ipv6 (codes "enabled")),
    ground (arith, text_eq_iff st.ipv6 (codes "disabled")),
  ),
  λ e. (
    ground (arith, text_eq_iff c.v6only (codes "yes")),
    ground (arith, text_eq_iff c.v6only (codes "no")),
  ),
)

-- The verdict on two coverages does not depend on their order.
pub coverage_overlap_comm : (c d : Coverage) → coverage_overlap c d ≡ coverage_overlap d c
unfolding coverage_overlap
coverage_overlap_comm c d = ground arith

-- Disjoint classes share no address, however their undecided cases are settled.
pub nowhere_disjoint :
    (c d : Coverage) (m n : Bool) (a : Ip)
    → coverage_overlap c d ≡ nowhere
    → (covers c m a && covers d n a) ≡ false
unfolding coverage_overlap
nowhere_disjoint c d m n a h = ground arith

-- An address of the family that a class holds, if it holds one for certain.
pick : Bool → Coverage → Ip
pick v4 (exactly ip) = ip
pick v4 _ = if v4 then of_ipv4 1 else 1

is_exact : Coverage → Bool
is_exact (exactly ip) = true
is_exact _ = false

-- An address that two overlapping classes share.
pub sample : Bool → Coverage → Coverage → Ip
sample v4 c d = if is_exact c then pick v4 c else pick v4 d

is_ipv4-pick :
    (v4 : Bool) (c : Coverage)
    → ((ip : Ip) → c ≡ exactly ip → is_ipv4 ip ≡ v4)
    → is_ipv4 (pick v4 c) ≡ v4
unfolding pick
is_ipv4-pick v4 (exactly ip) h = h ip refl
is_ipv4-pick true _ h = refl
is_ipv4-pick false _ h = refl

pub is_ipv4-sample :
    (st : IpStack) (c d : PortClaim) (v4 : Bool)
    → is_ipv4 (sample v4 (coverage c v4 st) (coverage d v4 st)) ≡ v4
unfolding sample
is_ipv4-sample st c d v4 = elim (Bool-cases (is_exact (coverage c v4 st))) [
  | inl e ↦ rw e (is_ipv4-pick v4 (coverage c v4 st) (coverage_exactly st c v4))
  | inr e ↦ rw e (is_ipv4-pick v4 (coverage d v4 st) (coverage_exactly st d v4))
]

-- Classes that overlap for certain share that address, however their undecided cases are settled.
pub certain_shares :
    (c d : Coverage) (m n v4 : Bool)
    → coverage_overlap c d ≡ certain
    → (covers c m (sample v4 c d) && covers d n (sample v4 c d)) ≡ true
unfolding coverage_overlap sample is_exact pick
certain_shares c d m n v4 h = ground arith

-- Classes whose overlap is undecided share the address if the undecided cases hold.
pub undecidable_may_share :
    (c d : Coverage) (v4 : Bool)
    → coverage_overlap c d ≡ undecidable
    → (covers c true (sample v4 c d) && covers d true (sample v4 c d)) ≡ true
unfolding coverage_overlap sample is_exact pick
undecidable_may_share c d v4 h = ground arith

-- They share none if the undecided cases do not hold.
pub undecidable_may_miss :
    (c d : Coverage) (a : Ip)
    → coverage_overlap c d ≢ certain
    → (covers c false a && covers d false a) ≡ false
unfolding coverage_overlap
undecidable_may_miss c d a h = ground arith
