-- ===== src/Witness/PortHolders/Collected.antt =====
-- `portHolders` of app/witness/conflicts.rules.go: it collects what overlaps the wanted binding, all of it.
use deploy_witness_cli.Prelude.{
  ◌≤◌, ◌≡◌, refl, sym, ap, ◌≢◌, inl, inr, List, [], ◌∷◌, arith, Bool-cases, Option-cases, All,
  All-append, All-map, Exists, Exists-append_left, Exists-append_right, All-Exists, Exists-All,
}
use deploy_witness_cli.Model.Plan.{host_ports}
use deploy_witness_cli.Model.Host.{Container, Socket}
use deploy_witness_cli.Witness.Input.{Input}
use deploy_witness_cli.Witness.PortMatch.{
  PortClaim, stack_of, nowhere, overlap_rank, collides, claim_from_mapping, claim_from_socket,
}
use deploy_witness_cli.Witness.PortHolders.{
  HolderSource, by_container, by_socket, PortHolder, Best, no_best, improve_mappings,
  container_holder, container_holders, socket_holder, socket_holders, port_holders, is_nowhere,
}
use deploy_witness_cli.Witness.PortHolders.Improved.{
  IsPublished, IsFrom, weight, improve_mappings-IsFrom, weight-improve_mappings,
}

-- A source is observed on the host, and makes a claim.
abbrev pub Claims : Input → HolderSource → PortClaim → Type 0
Claims i (by_container k) c = Exists (λ x. x ≡ k) i.caps.containers × IsPublished c k
Claims i (by_socket s) c = Exists (λ x. x ≡ s) i.caps.ports × (claim_from_socket s ≡ c)

-- A holder is observed, and the overlap it carries is the comparison's.
pub record IsHolder (i : Input) (want : PortClaim) (h : PortHolder) : Type 0 where
  pub claims : Claims i h.source h.claim
  pub overlap : (collides (stack_of i) want h.claim).0 ≡ h.overlap
  pub overlaps : h.overlap ≢ nowhere

IsPublished-All :
    (k : Container)
    → All (λ m. All (λ p. IsPublished (claim_from_mapping m p) k) (host_ports m)) k.ports
IsPublished-All k =
    All-map
      (λ m.
        Exists
          (λ n.
            All (λ p. Exists (λ q. claim_from_mapping n q ≡ claim_from_mapping m p) (host_ports n))
              (host_ports m))
          k.ports)
      (λ m. All (λ p. IsPublished (claim_from_mapping m p) k) (host_ports m)) k.ports
      (λ m h.
        Exists-All
          (λ n p. Exists (λ q. claim_from_mapping n q ≡ claim_from_mapping m p) (host_ports n))
          k.ports (host_ports m) h)
      (All-Exists
        (λ n m.
          All (λ p. Exists (λ q. claim_from_mapping n q ≡ claim_from_mapping m p) (host_ports n))
            (host_ports m))
        k.ports
        (λ m.
          All-Exists (λ q p. claim_from_mapping m q ≡ claim_from_mapping m p) (host_ports m)
            (λ p. refl)))

module _ (i : Input) (want : PortClaim) where
  abbrev best_of : Container → Best
  best_of k = improve_mappings (stack_of i) want no_best k.ports

  best_of-IsFrom : (k : Container) → IsFrom (stack_of i) want (λ c. IsPublished c k) (best_of k)
  best_of-IsFrom k =
      improve_mappings-IsFrom (stack_of i) want (λ c. IsPublished c k) no_best k.ports
        (IsPublished-All k) refl

  container_holder-IsHolder :
      (k : Container) (b : Best)
      → Exists (λ x. x ≡ k) i.caps.containers
      → IsFrom (stack_of i) want (λ c. IsPublished c k) b
      → All (IsHolder i want) (container_holder k b)
  unfolding container_holder
  container_holder-IsHolder k b e h = elim (Option-cases b.claim) [
    | inl q ↦ rw q tt
    | inr (c, q) ↦
        let found = rw q at h in
        rw q (record { claims = (e, found.0); overlap = found.1; overlaps = found.2 }, tt)
  ]

  container_holders-IsHolder :
      (ks : List Container)
      → All (λ k. Exists (λ x. x ≡ k) i.caps.containers) ks
      → All (IsHolder i want) (container_holders (stack_of i) want ks)
  unfolding container_holders
  container_holders-IsHolder [] h = tt
  container_holders-IsHolder (k ∷ ks) h =
      All-append (IsHolder i want) _ _
        (container_holder-IsHolder k (best_of k) h.0 (best_of-IsFrom k))
        (container_holders-IsHolder ks h.1)

  socket_holder-IsHolder :
      (s : Socket)
      → Exists (λ x. x ≡ s) i.caps.ports
      → All (IsHolder i want) (socket_holder (stack_of i) want s)
  unfolding socket_holder is_nowhere
  socket_holder-IsHolder s h =
      elim (Bool-cases (is_nowhere (collides (stack_of i) want (claim_from_socket s)).0)) [
        | inl e ↦ rw e tt
        | inr e ↦ rw e (
          record { claims = (h, refl); overlap = refl; overlaps = λ n. cc (e, ap is_nowhere n) },
          tt,
        )
      ]

  socket_holders-IsHolder :
      (ss : List Socket)
      → All (λ s. Exists (λ x. x ≡ s) i.caps.ports) ss
      → All (IsHolder i want) (socket_holders (stack_of i) want ss)
  unfolding socket_holders
  socket_holders-IsHolder [] h = tt
  socket_holders-IsHolder (s ∷ ss) h =
      All-append (IsHolder i want) _ _ (socket_holder-IsHolder s h.0)
        (socket_holders-IsHolder ss h.1)

  -- Every holder that is collected is a container or a socket of the host, with a claim that it makes,
  -- and carries the verdict of the comparison on that claim, which is not that they are apart.
  pub port_holders-IsHolder : All (IsHolder i want) (port_holders i want)
  unfolding port_holders
  port_holders-IsHolder =
      All-append (IsHolder i want) _ _
        (container_holders-IsHolder i.caps.containers
          (All-Exists (λ x k. x ≡ k) i.caps.containers (λ k. refl)))
        (socket_holders-IsHolder i.caps.ports (All-Exists (λ x s. x ≡ s) i.caps.ports (λ s. refl)))

  -- A holder of the list covers a claim of a source.
  abbrev pub Covers : HolderSource → PortClaim → PortHolder → Type 0
  Covers src c h = (h.source ≡ src) × (weight (stack_of i) want c ≤ overlap_rank h.overlap)

  container_holder-Covers :
      (k : Container) (c : PortClaim) (b : Best)
      → (collides (stack_of i) want c).0 ≢ nowhere
      → weight (stack_of i) want c ≤ overlap_rank b.overlap
      → IsFrom (stack_of i) want (λ x. IsPublished x k) b
      → Exists (Covers (by_container k) c) (container_holder k b)
  unfolding container_holder
  container_holder-Covers k c b n w h = elim (Option-cases b.claim) [
    | inl q ↦ elim (n (ground (arith, w, rw q at h))) [ ]
    | inr (d, q) ↦ rw q (inl (refl, w))
  ]

  container_holders-Covers :
      (k : Container) (c : PortClaim) (ks : List Container)
      → (collides (stack_of i) want c).0 ≢ nowhere
      → IsPublished c k
      → Exists (λ x. x ≡ k) ks
      → Exists (Covers (by_container k) c) (container_holders (stack_of i) want ks)
  unfolding container_holders
  container_holders-Covers k c [] n p h = elim h [ ]
  container_holders-Covers k c (l ∷ ks) n p (inl e) =
      Exists-append_left (Covers (by_container k) c) (container_holder l (best_of l)) _ (
        rw e (
          container_holder-Covers k c (best_of k) n
            (weight-improve_mappings (stack_of i) want c no_best k.ports p) (best_of-IsFrom k)))
  container_holders-Covers k c (l ∷ ks) n p (inr h) =
      Exists-append_right (Covers (by_container k) c) _ _ (container_holders-Covers k c ks n p h)

  socket_holder-Covers :
      (s : Socket)
      → (collides (stack_of i) want (claim_from_socket s)).0 ≢ nowhere
      → Exists (Covers (by_socket s) (claim_from_socket s)) (socket_holder (stack_of i) want s)
  unfolding socket_holder is_nowhere
  socket_holder-Covers s n =
      elim (Bool-cases (is_nowhere (collides (stack_of i) want (claim_from_socket s)).0)) [
        | inl e ↦ elim (n (ground (arith, e))) [ ]
        | inr e ↦ rw e (inl (refl, omega arith))
      ]

  socket_holders-Covers :
      (s : Socket) (ss : List Socket)
      → (collides (stack_of i) want (claim_from_socket s)).0 ≢ nowhere
      → Exists (λ x. x ≡ s) ss
      → Exists (Covers (by_socket s) (claim_from_socket s)) (socket_holders (stack_of i) want ss)
  unfolding socket_holders
  socket_holders-Covers s [] n h = elim h [ ]
  socket_holders-Covers s (r ∷ ss) n (inl e) =
      Exists-append_left (Covers (by_socket s) (claim_from_socket s))
        (socket_holder (stack_of i) want r) _ (rw e (socket_holder-Covers s n))
  socket_holders-Covers s (r ∷ ss) n (inr h) =
      Exists-append_right (Covers (by_socket s) (claim_from_socket s)) _ _
        (socket_holders-Covers s ss n h)

  -- Nothing that overlaps is passed over: a claim of a container or a socket of the host that is not
  -- apart from the wanted binding has a holder in the list, with an overlap at least as certain.
  pub port_holders_complete :
      (src : HolderSource) (c : PortClaim)
      → Claims i src c
      → (collides (stack_of i) want c).0 ≢ nowhere
      → Exists (Covers src c) (port_holders i want)
  unfolding port_holders
  port_holders_complete (by_container k) c h n =
      Exists-append_left (Covers (by_container k) c) _ _
        (container_holders-Covers k c i.caps.containers n h.1 h.0)
  port_holders_complete (by_socket s) c h n =
      Exists-append_right (Covers (by_socket s) c)
        (container_holders (stack_of i) want i.caps.containers)
        (socket_holders (stack_of i) want i.caps.ports)
        (rw (sym h.1) (socket_holders-Covers s i.caps.ports (rw h.1 n) h.0))
