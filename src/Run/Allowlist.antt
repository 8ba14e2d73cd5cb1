-- ===== src/Run/Allowlist.antt =====
-- app/run/allowlist.go: the matching of a command line against the published list. The patterns are
-- anchored regular expressions of one class for the first byte and one for the others. The purpose of a
-- command is left out: it is only printed.
pub mod Plain
pub mod Origin
pub mod Literal
use deploy_witness_cli.Prelude.{
  ℕ, ◌+◌, ◌-◌, ◌/◌, ◌%◌, ◌<◌, Bool, true, false, not, ◌&&◌, ◌||◌, Option, none, some, List, [], ◌∷◌,
  ltb, leb, ◌==◌, if◌then◌else◌, length, any, Text, codes, text_eq, is_empty, has_prefix, all,
  strip_suffix, lookup_text,
}

-- The bytes that every class has, and those of the classes.
is_alnum : ℕ → Bool
is_alnum c =
    (leb b'A' c && leb c b'Z') || ((leb b'a' c && leb c b'z') || (leb b'0' c && leb c b'9'))

is_unit : ℕ → Bool
is_unit c = is_alnum c || any (λ d. c == d) (codes "@:._\\-")

is_suite : ℕ → Bool
is_suite c = is_alnum c || any (λ d. c == d) (codes "._-")

is_path : ℕ → Bool
is_path c = is_alnum c || any (λ d. c == d) (codes "@:+,%._/-")

is_container_byte : ℕ → Bool
is_container_byte c = is_alnum c || any (λ d. c == d) (codes "_.-")

is_image : ℕ → Bool
is_image c = is_alnum c || any (λ d. c == d) (codes "_.:/@-")

is_name : ℕ → Bool
is_name c = is_alnum c || any (λ d. c == d) (codes "@+._-")

-- An anchored expression: its first byte, its others, and how many others there may be.
pub record ArgPattern : Type 0 where
  pub first : ℕ → Bool
  pub others : ℕ → Bool
  pub most : ℕ

abbrev pattern_of : (ℕ → Bool) → (ℕ → Bool) → ℕ → ArgPattern
pattern_of first others most = record { first = first; others = others; most = most }

unfoldable pub arg_patterns : List (Text × ArgPattern)
unfolding is_alnum is_unit is_suite is_path is_container_byte is_image is_name
arg_patterns =
    (codes "unit", pattern_of is_unit is_unit 254)
    ∷ (codes "suite", pattern_of is_suite is_suite 63)
    ∷ (codes "path", pattern_of (λ c. c == b'/') is_path 1000)
    ∷ (codes "container", pattern_of is_alnum is_container_byte 127)
    ∷ (codes "image", pattern_of is_alnum is_image 255)
    ∷ (codes "user", pattern_of is_suite is_suite 63)
    ∷ (codes "name", pattern_of is_name is_name 127)
    ∷ []

-- `argPatterns[kind]`.
unfoldable pub arg_pattern : Text → Option ArgPattern
arg_pattern kind = lookup_text kind arg_patterns

-- `pattern.MatchString`.
unfoldable pub match_string : ArgPattern → Text → Bool
match_string p [] = false
match_string p (c ∷ s) = p.first c && (leb (length s) p.most && all p.others s)

pub record Spec : Type 0 where
  pub binary : Text
  pub args : List Text
  pub section : Text
  pub max_repeat : ℕ
  pub options : List (Text × Text)
  pub network : Text

abbrev pub options_token : Text
options_token = codes "<options>"

-- The bound on repetitions, with its default.
unfoldable pub repeat_bound : Spec → ℕ
repeat_bound s = if s.max_repeat == 0 then 256 else s.max_repeat

-- `placeholder`: the kind, and whether it repeats.
unfoldable pub placeholder : Text → Option (Text × Bool)
unfolding strip_suffix has_prefix text_eq
placeholder token =
    let repeats = strip_suffix (codes "...") token in
    let trimmed : Text = elim repeats [ none ↦ token | some s ↦ s ] in
    if not (has_prefix trimmed (codes "<")) then none else elim (strip_suffix (codes ">") trimmed) [
      | none ↦ none
      | some s ↦ elim s [
        | [] ↦ none
        | c ∷ kind ↦ some (kind, elim repeats [ none ↦ false | some r ↦ true ])
      ]
    ]

-- A value of a kind: the kind is known, and its pattern matches.
unfoldable pub is_value : Text → Text → Bool
is_value kind a = elim (arg_pattern kind) [ none ↦ false | some p ↦ match_string p a ]

-- The loop over option pairs: what is left of the command line, unless a pair is refused.
unfoldable pub take_options : Spec → ℕ → List Text → Option (List Text)
take_options s pairs (flag ∷ value ∷ rest) =
    let more = take_options s (pairs + 1) rest in
    elim (lookup_text flag s.options) [
      | none ↦ some (flag ∷ value ∷ rest)
      | some kind ↦
          if not (is_value kind value) || ltb (repeat_bound s) (pairs + 1) then none else more
    ]
take_options s pairs argv = some argv

-- The tail that a repeated placeholder takes.
unfoldable pub match_tail : Spec → Text → List Text → Bool
match_tail s kind argv =
    not (is_empty argv) && (leb (length argv) (repeat_bound s) && all (is_value kind) argv)

-- The loop of `Spec.matches` over the elements that are still to be matched.
unfoldable pub match_args : Spec → List Text → List Text → Bool
match_args s [] argv = is_empty argv
match_args s (want ∷ wants) argv =
    if text_eq want options_token
    then elim (take_options s 0 argv) [ none ↦ false | some rest ↦ match_args s wants rest ]
    else elim (placeholder want) [
      | none ↦ elim argv [ [] ↦ false | a ∷ rest ↦ text_eq a want && match_args s wants rest ]
      | some (kind, repeats) ↦
          if repeats
          then match_tail s kind argv
          else elim argv [ [] ↦ false | a ∷ rest ↦ is_value kind a && match_args s wants rest ]
    ]

-- `Spec.matches`.
unfoldable pub spec_matches : Spec → List Text → Bool
spec_matches s argv = match_args s s.args argv

-- `Allowed` over a list of commands.
unfoldable pub allowed_in : List Spec → Text → List Text → Option Spec
allowed_in [] binary args = none
allowed_in (s ∷ specs) binary args =
    if text_eq s.binary binary && spec_matches s args then some s else allowed_in specs binary args
