-- ===== src/Manifest/Ports.antt =====
-- app/collect/manifest/ports.go: `parsePort`, `parsePortRange` and `parseShortPort`, the string form of a
-- published port. An error is a value; of what it quotes, the port is kept.
pub mod Bounds
use deploy_witness_cli.Prelude.{
  ℕ, ◌-◌, ◌/◌, Bool, ◌||◌, none, some, List, [], ◌∷◌, ltb, ◌==◌, if◌then◌else◌, Text, codes,
  is_empty, has_prefix, trim_space, to_lower, split_on, cut_first, cut_last, atoi,
}
use deploy_witness_cli.Model.Plan.{PortMapping}

pub data PortError : Type 0 where
  not_a_port : Text → PortError
  outside : Bool → ℕ → PortError
  empty_port backwards empty_spec no_protocol unterminated needs_both too_many : PortError
  in_container in_host : PortError → PortError

-- A Go result with its error.
pub data Parsed {ℓ} (A : Type ℓ) : Type ℓ where
  parsed : A → Parsed A
  refused : PortError → Parsed A

-- `if err != nil { return err }`.
unfoldable pub and_then {ℓ κ} : {A : Type ℓ} {B : Type κ} → Parsed A → (A → Parsed B) → Parsed B
and_then (parsed a) f = f a
and_then (refused e) f = refused e

-- The error with its context.
unfoldable pub within {ℓ} : {A : Type ℓ} → (PortError → PortError) → Parsed A → Parsed A
within wrap (parsed a) = parsed a
within wrap (refused e) = refused (wrap e)

-- `parsePort`.
unfoldable pub parse_port : Text → Parsed ℕ
parse_port spec =
    let text = trim_space spec in
    elim (atoi text) [
      | none ↦ refused (not_a_port text)
      | some (minus, port) ↦
          if minus || (ltb port 1 || ltb 65535 port)
          then refused (outside minus port)
          else parsed port
    ]

-- The end of a range.
close_range : ℕ → ℕ → Parsed (ℕ × ℕ)
close_range start end = if ltb end start then refused backwards else parsed (start, end)

-- `parsePortRange`.
unfoldable pub parse_port_range : Text → Parsed (ℕ × ℕ)
unfolding close_range
parse_port_range spec =
    let text = trim_space spec in
    if is_empty text then refused empty_port else elim (cut_first b'-' text) [
      | none ↦ and_then (parse_port text) (λ start. parsed (start, start))
      | some p ↦ and_then (parse_port p.0) (λ start. and_then (parse_port p.1) (close_range start))
    ]

-- What the text of a mapping comes apart into.
pub record PortParts : Type 0 where
  pub protocol : Text
  pub host_ip : Text
  pub host_spec : Text
  pub container_spec : Text

-- The part after the last slash, and what is left.
split_protocol : Text → Parsed (Text × Text)
split_protocol rest = elim (cut_last b'/' rest) [
  | none ↦ parsed (codes "tcp", rest)
  | some p ↦
      let protocol = to_lower (trim_space p.1) in
      if is_empty protocol then refused no_protocol else parsed (protocol, p.0)
]

-- `strings.TrimPrefix(s, ":")`, and a text less its first byte.
trim_colon : Text → Text
trim_colon [] = []
trim_colon (c ∷ s) = if c == b':' then s else c ∷ s

tail_text : Text → Text
tail_text [] = []
tail_text (c ∷ s) = s

-- The switch on the parts between the colons, without and with an address in brackets.
plain_parts : Text → List Text → Parsed PortParts
plain_parts protocol (c ∷ []) =
    parsed (record { protocol = protocol; host_ip = []; host_spec = []; container_spec = c })
plain_parts protocol (h ∷ c ∷ []) =
    parsed (record { protocol = protocol; host_ip = []; host_spec = h; container_spec = c })
plain_parts protocol (a ∷ h ∷ c ∷ []) =
    parsed
      (record { protocol = protocol; host_ip = trim_space a; host_spec = h; container_spec = c })
plain_parts protocol _ = refused too_many

bracketed_parts : Text → Text → List Text → Parsed PortParts
bracketed_parts protocol address (h ∷ c ∷ []) =
    parsed (record { protocol = protocol; host_ip = address; host_spec = h; container_spec = c })
bracketed_parts protocol address _ = refused needs_both

-- The address in brackets, if there is one, and the parts.
split_parts : Text × Text → Parsed PortParts
unfolding plain_parts bracketed_parts trim_colon tail_text
split_parts (protocol, rest) =
    if has_prefix rest (codes "[")
    then elim (cut_first b']' rest) [
      | none ↦ refused unterminated
      | some p ↦ bracketed_parts protocol (tail_text p.0) (split_on b':' (trim_colon p.1))
    ]
    else plain_parts protocol (split_on b':' rest)

-- The mapping of the parts, once the container port is read.
unfoldable pub with_ports : PortParts → ℕ × ℕ → ℕ × ℕ → PortMapping
with_ports p (start, end) (host, host_end) = record {
  host_ip = p.host_ip;
  host_port = host;
  host_port_end = host_end;
  container_port = start;
  container_port_end = if ltb start end then end else 0;
  protocol = p.protocol;
}

-- The ranges of the parts.
unfoldable pub read_parts : PortParts → Parsed PortMapping
read_parts p = and_then (within in_container (parse_port_range p.container_spec)) (λ c.
    if is_empty (trim_space p.host_spec)
    then parsed (with_ports p c (0, 0))
    else and_then (within in_host (parse_port_range p.host_spec)) (λ h. parsed (with_ports p c h)))

-- `parseShortPort`.
unfoldable pub parse_short_port : Text → Parsed PortMapping
unfolding split_protocol split_parts
parse_short_port spec =
    let rest = trim_space spec in
    if is_empty rest
    then refused empty_spec
    else and_then (split_protocol rest) (λ q. and_then (split_parts q) read_parts)
