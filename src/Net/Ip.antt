-- ===== src/Net/Ip.antt =====
-- `net.ParseIP`, `IP.To4`, `IP.IsUnspecified` and `IP.Equal` of Go's standard library. An address is its
-- sixteen bytes as one number; an IPv4 address is kept in the IPv4-mapped form, as the library keeps it.
use deploy_witness_cli.Prelude.{
  ℕ, zero, suc, ◌+◌, ◌-◌, ◌*◌, ◌/◌, ◌%◌, ◌^◌, ◌≡◌, refl, Bool, true, false, ◌&&◌, ◌||◌, Option,
  none, some, List, [], ◌∷◌, ◌++◌, ltb, leb, ◌==◌, if◌then◌else◌, length, Text, codes,
}

abbrev pub Ip : Type 0
Ip = ℕ

-- The prefix of an IPv4-mapped address.
abbrev mapped : ℕ
mapped = 0xffff

-- The sixteen bytes of an IPv4 address.
abbrev pub of_ipv4 : ℕ → Ip
of_ipv4 a = 0xffff00000000 + a

-- `To4() != nil`.
abbrev pub is_ipv4 : Ip → Bool
is_ipv4 ip = ip / 0x100000000 == mapped

-- `IsUnspecified`: 0.0.0.0 or ::.
abbrev pub is_unspecified : Ip → Bool
is_unspecified ip = ip == 0 || ip == 0xffff00000000

is_digit : ℕ → Bool
is_digit c = leb b'0' c && leb c b'9'

-- The fields of a dotted address: the number so far, the value and length of the open field, and how
-- many fields are closed. A field has a digit, no leading zero, and is at most 255.
ipv4_fields : Text → ℕ → ℕ → ℕ → ℕ → Option ℕ
ipv4_fields [] total value len closed =
    if closed == 3 && ltb 0 len then some (total * 256 + value) else none
ipv4_fields (c ∷ s) total value len closed =
    let next_digit = ipv4_fields s total (value * 10 + (c - b'0')) (len + 1) closed in
    let next_field = ipv4_fields s (total * 256 + value) 0 0 (closed + 1) in
    if is_digit c
    then (if (len == 1 && value == 0) || ltb 255 (value * 10 + (c - b'0'))
        then none
        else next_digit)
    else if c == b'.'
    then (if len == 0 || closed == 3 then none else next_field)
    else none

parse_ipv4 : Text → Option ℕ
unfolding ipv4_fields is_digit
parse_ipv4 s = ipv4_fields s 0 0 0 0

-- The value of a hexadecimal digit.
hex_digit : ℕ → Option ℕ
hex_digit c =
    if leb b'0' c && leb c b'9'
    then some (c - b'0')
    else if leb b'a' c && leb c b'f'
    then some (c - b'a' + 10)
    else if leb b'A' c && leb c b'F'
    then some (c - b'A' + 10)
    else none

-- A run of hexadecimal digits: its value, how many there are, and the rest.
hex_run : Text → ℕ → ℕ → ℕ × ℕ × Text
hex_run [] acc n = (acc, n, [])
hex_run (c ∷ s) acc n = elim (hex_digit c) [
  | none ↦ (acc, n, c ∷ s)
  | some d ↦ hex_run s (acc * 16 + d) (n + 1)
]

-- The sixteen-bit groups before and after the ellipsis, if there is one.
pub record Groups : Type 0 where
  pub before : List ℕ
  pub after : Option (List ℕ)

count_groups : Groups → ℕ
count_groups g = length g.before + elim g.after [ none ↦ 0 | some l ↦ length l ]

put_group : ℕ → Groups → Groups
put_group v g = elim g.after [
  | none ↦ record g { before = g.before ++ v ∷ [] }
  | some l ↦ record g { after = some (l ++ v ∷ []) }
]

start_ellipsis : Groups → Option Groups
start_ellipsis g = elim g.after [ none ↦ some (record g { after = some [] }) | some l ↦ none ]

-- The value of groups, most significant first.
group_value : ℕ → List ℕ → ℕ
group_value acc [] = acc
group_value acc (v ∷ vs) = group_value (acc * 65536 + v) vs

assemble : Groups → Option ℕ
assemble g = elim g.after [
  | none ↦ if length g.before == 8 then some (group_value 0 g.before) else none
  | some l ↦
      if ltb (length g.before + length l) 8
      then some (group_value 0 g.before * 65536 ^ (8 - length g.before) + group_value 0 l)
      else none
]

-- What follows a group: the end, `::`, or `:` and another group.
pub data After : Type 0 where
  finished : After
  ellipsis : Text → After
  another : Text → After
  bad : After

after_group : Text → After
after_group [] = finished
after_group (c ∷ []) = bad
after_group (c ∷ d ∷ s) =
    if c == b':' then (if d == b':' then ellipsis s else another (d ∷ s)) else bad

has_ellipsis : Groups → Bool
has_ellipsis g = elim g.after [ none ↦ false | some l ↦ true ]

starts_with_dot : Text → Bool
starts_with_dot [] = false
starts_with_dot (c ∷ s) = c == b'.'

-- The loop of the library over the groups, on fuel: each round reads one group.
ipv6_groups : ℕ → Text → Groups → Option Groups
ipv6_groups zero s g = none
ipv6_groups (suc fuel) s g =
    let (v, n, rest) = hex_run s 0 0 in
    let dotted : Option Groups = elim (parse_ipv4 s) [
      | none ↦ none
      | some a ↦ some (put_group (a % 65536) (put_group (a / 65536) g))
    ] in
    let go_on = λ (t : Text) (h : Groups). ipv6_groups fuel t h in
    let next : Option Groups = elim (after_group rest) [
      | finished ↦ some (put_group v g)
      | bad ↦ none
      | another t ↦ go_on t (put_group v g)
      | ellipsis [] ↦ start_ellipsis (put_group v g)
      | ellipsis (c ∷ t) ↦ elim (start_ellipsis (put_group v g)) [
        | none ↦ none
        | some h ↦ go_on (c ∷ t) h
      ]
    ] in
    if n == 0 || ltb 4 n || leb 8 (count_groups g)
    then none
    else if starts_with_dot rest
    then (if leb (count_groups g) 6 && (count_groups g == 6 || has_ellipsis g)
        then dotted
        else none)
    else next

finish : Option Groups → Option ℕ
finish none = none
finish (some g) = assemble g

no_groups : Groups
no_groups = record { before = []; after = none }

parse_ipv6 : Text → Option ℕ
unfolding finish assemble group_value ipv6_groups hex_run hex_digit parse_ipv4 after_group
    starts_with_dot count_groups put_group start_ellipsis no_groups has_ellipsis
parse_ipv6 (c ∷ d ∷ []) =
    if c == b':' && d == b':' then some 0 else finish (ipv6_groups 9 (c ∷ d ∷ []) no_groups)
parse_ipv6 (c ∷ d ∷ e ∷ s) =
    if c == b':' && d == b':'
    then finish (ipv6_groups 9 (e ∷ s) (record { before = []; after = some [] }))
    else finish (ipv6_groups 9 (c ∷ d ∷ e ∷ s) no_groups)
parse_ipv6 s = finish (ipv6_groups 9 s no_groups)

-- A zone ends in a refusal, wherever it stands.
has_zone : Text → Bool
has_zone [] = false
has_zone (c ∷ s) = c == b'%' || has_zone s

-- The first dot or colon says which form it is.
pub data Form : Type 0 where
  dots colons neither : Form

form : Text → Form
form [] = neither
form (c ∷ s) =
    if c == b'.' then dots else if c == b':' then colons else if c == b'%' then neither else form s

-- `net.ParseIP`.
unfoldable pub parse_ip : Text → Option Ip
unfolding form has_zone parse_ipv4 parse_ipv6
parse_ip s = elim (form s) [
  | dots ↦ elim (parse_ipv4 s) [ none ↦ none | some a ↦ some (of_ipv4 a) ]
  | colons ↦ if has_zone s then none else parse_ipv6 s
  | neither ↦ none
]

parse_ip_forms :
    (parse_ip (codes "127.0.0.1") ≡ some (of_ipv4 0x7f000001))
    × (parse_ip (codes "::") ≡ some 0)
    × (parse_ip (codes "::1") ≡ some 1)
    × (parse_ip (codes "fe80::1:2") ≡ some 0xfe800000000000000000000000010002)
    × (parse_ip (codes "::ffff:127.0.0.1") ≡ some (of_ipv4 0x7f000001))
    × (parse_ip (codes "1:2:3:4:5:6:7:8") ≡ some 0x00010002000300040005000600070008)
unfolding parse_ip
parse_ip_forms = (refl, refl, refl, refl, refl, refl)

parse_ip_refuses :
    (parse_ip (codes "127.0.0.01") ≡ none)
    × (parse_ip (codes "256.0.0.1") ≡ none)
    × (parse_ip (codes "1.2.3") ≡ none)
    × (parse_ip (codes "1::2::3") ≡ none)
    × (parse_ip (codes "fe80::1%eth0") ≡ none)
    × (parse_ip (codes "${HOST_IP}") ≡ none)
unfolding parse_ip
parse_ip_refuses = (refl, refl, refl, refl, refl, refl)
