-- ===== src/Manifest/Ports/Bounds.antt =====
-- `parseShortPort` of app/collect/manifest/ports.go: what the ports of a mapping that it returns are.
use deploy_witness_cli.Prelude.{
  ℕ, ◌≤◌, ◌<◌, ◌≡◌, refl, sym, ap, ◌∙◌, ◌⊎◌, inl, inr, arith, ltb, if◌then◌else◌, Bool-cases,
  Option-cases, Text, is_empty, trim_space, cut_first, atoi,
}
use deploy_witness_cli.Manifest.Ports.{
  in_host, split_parts, in_container, in_host, split_protocol, PortParts, parse_short_port,
  read_parts, with_ports, PortMapping, parse_port_range, PortError, Parsed, parsed, refused,
  and_then, within, parse_port, close_range,
}

pub and_then_parsed {ℓ κ} :
    {A : Type ℓ} {B : Type κ} (r : Parsed A) (f : A → Parsed B) (b : B)
    → and_then r f ≡ parsed b
    → (a : A) × (r ≡ parsed a) × (f a ≡ parsed b)
unfolding and_then
and_then_parsed (parsed a) f b h = (a, refl, h)
and_then_parsed (refused e) f b h = cc h

within_parsed {ℓ} :
    {A : Type ℓ} (w : PortError → PortError) (r : Parsed A) (a : A)
    → within w r ≡ parsed a
    → r ≡ parsed a
unfolding within
within_parsed w (parsed x) a h = h
within_parsed w (refused e) a h = cc h

-- A port number.
abbrev pub IsPort : ℕ → Type 0
IsPort n = (1 ≤ n) × (n ≤ 65535)

parse_port-IsPort : (s : Text) (n : ℕ) → parse_port s ≡ parsed n → IsPort n
unfolding parse_port
parse_port-IsPort s n h = elim (Option-cases (atoi (trim_space s))) [
  | inl e ↦ ground (arith, h, e)
  | inr (k, e) ↦ (ground (arith, h, e), ground (arith, h, e))
]

-- A range of ports.
record IsRange (r : ℕ × ℕ) : Type 0 where
  start : IsPort r.0
  last : IsPort r.1
  ordered : r.0 ≤ r.1

close_range-IsRange :
    (a b : ℕ) (r : ℕ × ℕ) → IsPort a → IsPort b → close_range a b ≡ parsed r → IsRange r
unfolding close_range
close_range-IsRange a b r p q h = record {
  start = (ground (arith, p.0, p.1, h), ground (arith, p.0, p.1, h));
  last = (ground (arith, q.0, q.1, h), ground (arith, q.0, q.1, h));
  ordered = ground (arith, h);
}

close_same : (n : ℕ) → close_range n n ≡ parsed (n, n)
unfolding close_range
close_same n = ground arith

parse_port_range-IsRange : (s : Text) (r : ℕ × ℕ) → parse_port_range s ≡ parsed r → IsRange r
unfolding parse_port_range
parse_port_range-IsRange s r h = elim (Bool-cases (is_empty (trim_space s))) [
  | inl e ↦ cc (rw e at h)
  | inr e ↦ elim (Option-cases (cut_first b'-' (trim_space s))) [
    | inl q ↦
        let (n, k, l) =
          and_then_parsed (parse_port (trim_space s)) (λ start. parsed (start, start)) r
            (rw (e, q) at h) in
        close_range-IsRange n n r (parse_port-IsPort _ n k) (parse_port-IsPort _ n k)
          (close_same n ∙ l)
    | inr (p, q) ↦
        let (n, k, l) =
          and_then_parsed (parse_port p.0) (λ start. and_then (parse_port p.1) (close_range start))
            r (rw (e, q) at h) in
        let (m, k', l') = and_then_parsed (parse_port p.1) (close_range n) r l in
        close_range-IsRange n m r (parse_port-IsPort _ n k) (parse_port-IsPort _ m k') l'
  ]
]

-- A mapping as the engine reads it: the container ports are port numbers, with an end only where there
-- is a range, and the host ports are either none or a range of port numbers.
pub record IsWellFormed (m : PortMapping) : Type 0 where
  pub container : IsPort m.container_port
  pub container_end :
      (m.container_port_end ≡ 0)
      ⊎ ((m.container_port < m.container_port_end) × (m.container_port_end ≤ 65535))
  pub host :
      ((m.host_port ≡ 0) × (m.host_port_end ≡ 0))
      ⊎ ((1 ≤ m.host_port) × (m.host_port ≤ m.host_port_end) × (m.host_port_end ≤ 65535))

with_ports-IsWellFormed :
    (p : PortParts) (c h : ℕ × ℕ)
    → IsRange c
    → ((h.0 ≡ 0) × (h.1 ≡ 0)) ⊎ IsRange h
    → IsWellFormed (with_ports p c h)
unfolding with_ports
with_ports-IsWellFormed p c h r s = record {
  container = r.start;
  container_end = elim (Bool-cases (ltb c.0 c.1)) [
    | inl e ↦ inr (ground (arith, e), ground (arith, e, r.last))
    | inr e ↦ inl (ground (arith, e))
  ];
  host = elim s [ inl z ↦ inl z | inr k ↦ inr (k.start.0, k.ordered, k.last.1) ];
}

value_or : PortMapping → Parsed PortMapping → PortMapping
value_or d (parsed m) = m
value_or d (refused e) = d

parsed-IsWellFormed : (n m : PortMapping) → parsed n ≡ parsed m → IsWellFormed n → IsWellFormed m
unfolding value_or
parsed-IsWellFormed n m h w = rw (sym (ap (value_or n) h)) w

read_parts-IsWellFormed :
    (p : PortParts) (m : PortMapping) → read_parts p ≡ parsed m → IsWellFormed m
unfolding read_parts
read_parts-IsWellFormed p m h =
    let (c, k, l) =
      and_then_parsed (within in_container (parse_port_range p.container_spec))
        (λ c.
          if is_empty (trim_space p.host_spec)
          then parsed (with_ports p c (0, 0))
          else and_then (within in_host (parse_port_range p.host_spec))
              (λ h. parsed (with_ports p c h)))
        m h in
    let r = parse_port_range-IsRange p.container_spec c (within_parsed in_container _ c k) in
    elim (Bool-cases (is_empty (trim_space p.host_spec))) [
      | inl e ↦
          parsed-IsWellFormed _ m (rw e at l)
            (with_ports-IsWellFormed p c (0, 0) r (inl (refl, refl)))
      | inr e ↦
          let (x, k', l') =
            and_then_parsed (within in_host (parse_port_range p.host_spec))
              (λ h. parsed (with_ports p c h)) m (rw e at l) in
          parsed-IsWellFormed _ m l' (
            with_ports-IsWellFormed p c x r
              (inr (parse_port_range-IsRange p.host_spec x (within_parsed in_host _ x k'))))
    ]

-- Every mapping that `parseShortPort` returns is well formed: the container ports and the host ports, if
-- it has any, are in 1-65535, and no range ends below where it starts.
pub parse_short_port-IsWellFormed :
    (spec : Text) (m : PortMapping) → parse_short_port spec ≡ parsed m → IsWellFormed m
unfolding parse_short_port
parse_short_port-IsWellFormed spec m h = elim (Bool-cases (is_empty (trim_space spec))) [
  | inl e ↦ cc (rw e at h)
  | inr e ↦
      let (q, k, l) =
        and_then_parsed (split_protocol (trim_space spec))
          (λ q. and_then (split_parts q) read_parts) m (rw e at h) in
      let (p, k', l') = and_then_parsed (split_parts q) read_parts m l in
      read_parts-IsWellFormed p m l'
]
