-- ===== src/Witness/PortMatch/Undecided.antt =====
-- `collides` of app/witness/portmatch.go: where it leaves the question open, it is open.
use deploy_witness_cli.Prelude.{
  ◌≡◌, refl, sym, ◌∙◌, ◌≢◌, inl, inr, Bool, true, false, not, ◌&&◌, arith, Bool-cases, codes,
  text_eq, text_eq_iff,
}
use deploy_witness_cli.Net.Ip.{Ip, is_ipv4}
use deploy_witness_cli.Witness.PortMatch.{
  maybe_all, Coverage, PortClaim, IpStack, undecidable, certain, coverage, collides,
}
use deploy_witness_cli.Witness.PortMatch.Meaning.{
  coverage_maybe, undecidable_may_share, undecidable_may_miss, answers, Settles, Agrees, settled,
  covers, sample, is_ipv4-sample,
}
use deploy_witness_cli.Witness.PortMatch.Exact.{
  in_family, collides_families, certain-SamePort, worse_undecidable, both, Meet, Readable,
}

-- The host on which every undecided coverage holds, and the socket.
abbrev pub most_ipv6 : IpStack → Bool
most_ipv6 st = not (text_eq st.ipv6 (codes "disabled"))

abbrev pub least_only : PortClaim → Bool
least_only c = text_eq c.v6only (codes "yes")

-- The host on which none does, and the socket.
abbrev pub least_ipv6 : IpStack → Bool
least_ipv6 st = text_eq st.ipv6 (codes "enabled")

abbrev pub most_only : PortClaim → Bool
most_only c = not (text_eq c.v6only (codes "no"))

most_ipv6-Settles : (st : IpStack) → Settles st (most_ipv6 st)
most_ipv6-Settles st = record {
  on = λ e. rw e (unfold text_eq in refl);
  off = λ e. rw e (unfold text_eq in refl);
}

least_ipv6-Settles : (st : IpStack) → Settles st (least_ipv6 st)
least_ipv6-Settles st = record {
  on = λ e. rw e (unfold text_eq in refl);
  off = λ e. rw e (unfold text_eq in refl);
}

least_only-Agrees : (c : PortClaim) → Agrees c (least_only c)
least_only-Agrees c = record {
  alone = λ e. rw e (unfold text_eq in refl);
  dual = λ e. rw e (unfold text_eq in refl);
}

most_only-Agrees : (c : PortClaim) → Agrees c (most_only c)
most_only-Agrees c = record {
  alone = λ e. rw e (unfold text_eq in refl);
  dual = λ e. rw e (unfold text_eq in refl);
}

-- The undecided case of a class matters only in the undecided class.
covers_settled :
    (c : Coverage) (m n : Bool) (a : Ip) → (c ≡ maybe_all → m ≡ n) → covers c m a ≡ covers c n a
covers_settled c m n a h = ground (arith, h)

-- On those hosts the undecided coverages come out all true, and all false.
settled_most :
    (st : IpStack) (c : PortClaim) (v4 : Bool)
    → coverage c v4 st ≡ maybe_all
    → settled (most_ipv6 st) (least_only c) c ≡ true
settled_most st c v4 e =
    let h = coverage_maybe st c v4 e in
    ground
      (arith, h.0, h.1, text_eq_iff st.ipv6 (codes "disabled"), text_eq_iff c.v6only (codes "yes"))

settled_least :
    (st : IpStack) (c : PortClaim) (v4 : Bool)
    → coverage c v4 st ≡ maybe_all
    → settled (least_ipv6 st) (most_only c) c ≡ false
settled_least st c v4 e =
    let h = coverage_maybe st c v4 e in
    ground
      (arith, h.0, h.1, text_eq_iff st.ipv6 (codes "enabled"), text_eq_iff c.v6only (codes "no"))

module _ (st : IpStack) (want held : PortClaim) where
  both_most :
      (a : Ip)
      → (answers (most_ipv6 st) (least_only want) want a
          && answers (most_ipv6 st) (least_only held) held a)
        ≡ (covers (coverage want (is_ipv4 a) st) true a
            && covers (coverage held (is_ipv4 a) st) true a)
  both_most a = cc (
    both st want held (most_ipv6 st) (least_only want) (least_only held) (most_ipv6-Settles st)
        (least_only-Agrees want) (least_only-Agrees held) a,
    covers_settled (coverage want (is_ipv4 a) st) _ true a (settled_most st want (is_ipv4 a)),
    covers_settled (coverage held (is_ipv4 a) st) _ true a (settled_most st held (is_ipv4 a)),
  )

  both_least :
      (a : Ip)
      → (answers (least_ipv6 st) (most_only want) want a
          && answers (least_ipv6 st) (most_only held) held a)
        ≡ (covers (coverage want (is_ipv4 a) st) false a
            && covers (coverage held (is_ipv4 a) st) false a)
  both_least a = cc (
    both st want held (least_ipv6 st) (most_only want) (most_only held) (least_ipv6-Settles st)
        (most_only-Agrees want) (most_only-Agrees held) a,
    covers_settled (coverage want (is_ipv4 a) st) _ false a (settled_least st want (is_ipv4 a)),
    covers_settled (coverage held (is_ipv4 a) st) _ false a (settled_least st held (is_ipv4 a)),
  )

  family_may-Meet :
      (v4 : Bool)
      → in_family st want held v4 ≡ undecidable
      → Meet (most_ipv6 st) (least_only want) (least_only held) want held
  family_may-Meet v4 h =
      let a = sample v4 (coverage want v4 st) (coverage held v4 st) in
      let e : is_ipv4 a ≡ v4 = is_ipv4-sample st want held v4 in
      (
        a,
        both_most a ∙ rw e (undecidable_may_share (coverage want v4 st) (coverage held v4 st) v4 h),
      )

  family_may_miss :
      (a : Ip) (v4 : Bool)
      → is_ipv4 a ≡ v4
      → in_family st want held v4 ≢ certain
      → (answers (least_ipv6 st) (most_only want) want a
          && answers (least_ipv6 st) (most_only held) held a)
        ≡ false
  family_may_miss a v4 e h =
      both_least a ∙ rw e (undecidable_may_miss (coverage want v4 st) (coverage held v4 st) a h)

  -- An answer left open is open: if both addresses could be read, there is a host that the observation
  -- allows on which the two bindings answer a common address, and one on which they answer none.
  pub undecidable_open :
      (collides st want held).0 ≡ undecidable
      → Readable want held
      → (Settles st (most_ipv6 st)
          × Agrees want (least_only want)
          × Agrees held (least_only held)
          × Meet (most_ipv6 st) (least_only want) (least_only held) want held)
        × (Settles st (least_ipv6 st)
            × Agrees want (most_only want)
            × Agrees held (most_only held)
            × (¬ Meet (least_ipv6 st) (most_only want) (most_only held) want held))
  undecidable_open h r =
      let p = certain-SamePort st want held (λ e. cc (h, e)) in
      let cases = worse_undecidable _ _ (sym (collides_families st want held p r) ∙ h) in
      (
        (
          most_ipv6-Settles st,
          least_only-Agrees want,
          least_only-Agrees held,
          elim cases.2 [ inl e ↦ family_may-Meet true e | inr e ↦ family_may-Meet false e ],
        ),
        (
          least_ipv6-Settles st,
          most_only-Agrees want,
          most_only-Agrees held,
          λ m. elim (Bool-cases (is_ipv4 m.0)) [
            | inl e ↦ cc (m.1, family_may_miss m.0 true e cases.0)
            | inr e ↦ cc (m.1, family_may_miss m.0 false e cases.1)
          ],
        ),
      )
