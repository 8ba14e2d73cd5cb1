-- ===== src/Manifest/Interpolate.antt =====
-- app/collect/manifest/interpolate.go: the substitution of variables in a scalar. The environment is a
-- lookup. `w.add` is a list of what was added, in order; the messages are constructors.
pub mod Total
pub mod Escape
pub mod Reference
use deploy_witness_cli.Prelude.{
  ℕ, zero, suc, ◌+◌, ◌-◌, Bool, true, false, not, ◌&&◌, ◌||◌, Option, none, some, List, [], ◌∷◌,
  ◌++◌, leb, ◌==◌, if◌then◌else◌, length, Text, codes, is_empty, has_prefix, lookup_text,
  strip_prefix, span,
}

-- The calls of `w.add`, with the arguments that are formatted after the line.
pub data Warning : Type 0 where
  unterminated : Text → Warning
  unresolved : Text → Warning
  unresolved_braced : Text → Warning
  no_reference : Text → Warning
  required : Text → Warning
  unknown_operator : Text → Warning

-- `environment.lookup`, on the process's variables and those of the `.env` file.
unfoldable pub lookup : (Text → Option Text) → List (Text × Text) → Text → Option Text
lookup process dotenv name = elim (process name) [
  | some value ↦ some value
  | none ↦ lookup_text name dotenv
]

unfoldable pub is_name_start : ℕ → Bool
is_name_start c = c == b'_' || ((leb b'a' c && leb c b'z') || (leb b'A' c && leb c b'Z'))

unfoldable pub is_name_char : ℕ → Bool
is_name_char c = is_name_start c || (leb b'0' c && leb c b'9')

-- `scanName`, and what follows the name.
unfoldable pub scan_name : Text → Text × Text
scan_name [] = ([], [])
scan_name (c ∷ s) =
    let rest = span is_name_char s in if is_name_start c then (c ∷ rest.0, rest.1) else ([], c ∷ s)

abbrev pub after_byte : ℕ → Option (Text × Text) → Option (Text × Text)
after_byte c none = none
after_byte c (some (before, rest)) = some (c ∷ before, rest)

-- `closingBrace` after the brace that opens at depth 1: what is before the brace that closes, and
-- what is after it.
unfoldable pub closing_brace : ℕ → Text → Option (Text × Text)
closing_brace depth [] = none
closing_brace depth (c ∷ s) =
    let deeper = closing_brace (depth + 1) s in
    let higher = closing_brace (depth - 1) s in
    let level = closing_brace depth s in
    if c == b'{'
    then after_byte c deeper
    else if c == b'}'
    then if depth == 1 then some ([], s) else after_byte c higher
    else after_byte c level

-- What a reference is replaced by: a text with its warnings, or the substitution of a text.
pub data Reading : Type 0 where
  gives : Text → List Warning → Reading
  reads : Text → Reading

-- A value that is set.
unfoldable pub is_set : Option Text → Bool
is_set value = elim value [ none ↦ false | some v ↦ true ]

-- A value that is set and not empty.
unfoldable pub is_filled : Option Text → Bool
is_filled value = elim value [ none ↦ false | some v ↦ not (is_empty v) ]

-- The value, or the empty string of an unset variable.
unfoldable pub value_of : Option Text → Text
value_of value = elim value [ none ↦ [] | some v ↦ v ]

-- A case of a switch on the prefix of a text, with the other cases.
unfoldable pub on_prefix {ℓ} : {A : Type ℓ} → Text → Text → (Text → A) → A → A
on_prefix p s found otherwise = elim (strip_prefix p s) [
  | none ↦ otherwise
  | some rest ↦ found rest
]

-- The case of `:?` and `?`.
unfoldable pub require : Text → Text → Option Text → Reading
require literal operator value =
    if not (is_set value) || (not (is_filled value) && has_prefix operator (codes ":?"))
    then gives literal (required literal ∷ [])
    else gives (value_of value) []

-- The switch of `expandBraced` on the operator.
unfoldable pub apply_operator : Text → Text → Option Text → Reading
apply_operator literal operator value =
    if is_empty operator
    then if is_set value
      then gives (value_of value) []
      else gives literal (unresolved_braced literal ∷ [])
    else on_prefix (codes ":-") operator
        (λ word. if is_filled value then gives (value_of value) [] else reads word)
        (on_prefix (codes "-") operator
          (λ word. if is_set value then gives (value_of value) [] else reads word)
          (on_prefix (codes ":+") operator
            (λ word. if is_filled value then reads word else gives [] [])
            (on_prefix (codes "+") operator
              (λ word. if is_set value then reads word else gives [] [])
              (if has_prefix operator (codes ":?") || has_prefix operator (codes "?")
                then require literal operator value
                else gives literal (unknown_operator literal ∷ [])))))

-- `expandBraced`, up to its call of `substitute`.
unfoldable pub expand_braced : (Text → Option Text) → Text → Reading
expand_braced env body =
    let literal = codes "${" ++ body ++ codes "}" in
    let name = (scan_name body).0 in
    if is_empty name
    then gives literal (no_reference literal ∷ [])
    else apply_operator literal (scan_name body).1 (env name)

-- The round at `${`.
unfoldable pub next_braced : (Text → Option Text) → Text → Text → Text → Reading × Text
next_braced env whole s inner = elim (closing_brace 1 inner) [
  | none ↦ (gives (codes "$" ++ s) (unterminated whole ∷ []), [])
  | some (body, rest) ↦ (expand_braced env body, rest)
]

-- The round at a `$` before anything else.
unfoldable pub next_name : (Text → Option Text) → Text → Reading × Text
next_name env s =
    let name = (scan_name s).0 in
    if is_empty name then (gives (codes "$") [], s) else elim (env name) [
      | some value ↦ (gives value [], (scan_name s).1)
      | none ↦ (gives (codes "$" ++ name) (unresolved name ∷ []), (scan_name s).1)
    ]

-- One round of the loop of `substitute`: what is written, and the text that is left. `whole` is the
-- text that the loop started from.
unfoldable pub next_dollar : (Text → Option Text) → Text → Text → Reading × Text
next_dollar env whole s =
    on_prefix (codes "$") s (λ rest. (gives (codes "$") [], rest))
      (on_prefix (codes "{") s (next_braced env whole s) (next_name env s))

unfoldable pub next : (Text → Option Text) → Text → ℕ → Text → Reading × Text
next env whole c s = if c == b'$' then next_dollar env whole s else (gives (c ∷ []) [], s)

-- The text that a reading has to substitute first.
unfoldable pub pending : Reading → Text
pending (gives out ws) = []
pending (reads word) = word

-- What a reading writes, once the text it has to substitute first is done.
unfoldable pub settle : Reading → Option (Text × List Warning) → Option (Text × List Warning)
settle (gives out ws) inner = some (out, ws)
settle (reads word) inner = inner

-- What is written before and after.
unfoldable pub joined :
    Option (Text × List Warning) → Option (Text × List Warning) → Option (Text × List Warning)
joined none after = none
joined (some before) none = none
joined (some before) (some after) = some (before.0 ++ after.0, before.1 ++ after.1)

-- The loop of `substitute`, on fuel.
unfoldable pub substitute_from :
    (Text → Option Text) → ℕ → Text → Text → Option (Text × List Warning)
substitute_from env fuel whole [] = some ([], [])
substitute_from env zero whole (c ∷ s) = none
substitute_from env (suc fuel) whole (c ∷ s) =
    let step = next env whole c s in
    let word = pending step.0 in
    joined (settle step.0 (substitute_from env fuel word word))
      (substitute_from env fuel whole step.1)

-- `substitute`: as much fuel as the text has bytes.
unfoldable pub substitute : (Text → Option Text) → Text → Option (Text × List Warning)
substitute env text = substitute_from env (length text) text text
