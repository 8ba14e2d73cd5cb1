-- ===== src/Manifest/Interpolate/Reference.antt =====
-- `${NAME}` and `$NAME` of app/collect/manifest/interpolate.go: a reference that stands alone.
use deploy_witness_cli.Prelude.{
  ℕ, ◌≡◌, refl, ap, ◌∙◌, inl, inr, Bool, true, false, ◌&&◌, Option, none, some, List, [], ◌∷◌, ◌++◌,
  arith, ◌==◌, Option-cases, Text, codes, all, strip_prefix, span,
}
use deploy_witness_cli.Manifest.Interpolate.{
  Warning, Reading, unresolved, unresolved_braced, next_name, is_name_start, is_name_char,
  scan_name, closing_brace, gives, is_set, value_of, on_prefix, apply_operator, expand_braced,
  next_braced, next_dollar, next, pending, settle, joined, substitute_from, substitute,
}

-- A variable's name: a letter or an underscore, then letters, underscores and digits.
unfoldable pub is_name : Text → Bool
is_name [] = false
is_name (c ∷ s) = is_name_start c && all is_name_char s

span-all : (test : ℕ → Bool) (s : Text) → all test s ≡ true → span test s ≡ (s, [])
unfolding span
span-all test [] h = refl
span-all test (c ∷ s) h =
    let ih = span-all test s (ground (arith, h)) in
    let e : test c ≡ true = ground (arith, h) in rw (e, ih) refl

scan_name-is_name : (s : Text) → is_name s ≡ true → scan_name s ≡ (s, [])
unfolding scan_name is_name
scan_name-is_name [] h = refl
scan_name-is_name (c ∷ s) h =
    let q = span-all is_name_char s (ground (arith, h)) in
    let e : is_name_start c ≡ true = ground (arith, h) in rw (e, q) refl

name_char_open : (c : ℕ) → is_name_char c ≡ true → (c == b'{') ≡ false
unfolding is_name_char is_name_start
name_char_open c h = ground (arith, h)

name_start_dollar : (c : ℕ) → is_name_start c ≡ true → (c == b'$') ≡ false
unfolding is_name_start
name_start_dollar c h = ground (arith, h)

name_start_open : (c : ℕ) → is_name_start c ≡ true → (c == b'{') ≡ false
unfolding is_name_start
name_start_open c h = ground (arith, h)

name_char_close : (c : ℕ) → is_name_char c ≡ true → (c == b'}') ≡ false
unfolding is_name_char is_name_start
name_char_close c h = ground (arith, h)

closing_brace-all :
    (s : Text) → all is_name_char s ≡ true → closing_brace 1 (s ++ codes "}") ≡ some (s, [])
unfolding closing_brace
closing_brace-all [] h = refl
closing_brace-all (c ∷ s) h =
    let n : is_name_char c ≡ true = ground (arith, h) in
    let ih = closing_brace-all s (ground (arith, h)) in
    let o = name_char_open c n in let k = name_char_close c n in rw (o, k, ih) refl

is_name-all : (s : Text) → is_name s ≡ true → all is_name_char s ≡ true
unfolding is_name is_name_char
is_name-all [] h = refl
is_name-all (c ∷ s) h = ground (arith, h)

append_nil : {A : Type 0} (s : List A) → s ++ [] ≡ s
append_nil [] = refl
append_nil (c ∷ s) = ap (λ t. c ∷ t) (append_nil s)

-- The value of a variable that is set, or the reference itself with a warning.
abbrev pub resolved : Option Text → Text → Text × List Warning
resolved (some value) name = (value, [])
resolved none name =
    let literal = codes "${" ++ name ++ codes "}" in (literal, unresolved_braced literal ∷ [])

apply_nothing :
    (name : Text) (value : Option Text)
    → apply_operator (codes "${" ++ name ++ codes "}") [] value
      ≡ gives (resolved value name).0 (resolved value name).1
unfolding apply_operator is_set value_of
apply_nothing name none = refl
apply_nothing name (some v) = refl

expand_braced-is_name :
    (env : Text → Option Text) (name : Text)
    → is_name name ≡ true
    → expand_braced env name ≡ gives (resolved (env name) name).0 (resolved (env name) name).1
unfolding expand_braced is_name
expand_braced-is_name env [] h = cc h
expand_braced-is_name env (c ∷ s) h =
    let q = scan_name-is_name (c ∷ s) h in
    rw (q, expand_braced) (apply_nothing (c ∷ s) (env (c ∷ s)))

next_braced-found :
    (env : Text → Option Text) (whole s inner body rest : Text)
    → closing_brace 1 inner ≡ some (body, rest)
    → next_braced env whole s inner ≡ (expand_braced env body, rest)
unfolding next_braced
next_braced-found env whole s inner body rest h = rw (h, next_braced) refl

next-is_name :
    (env : Text → Option Text) (whole name : Text)
    → is_name name ≡ true
    → next env whole b'$' (codes "{" ++ name ++ codes "}")
      ≡ (gives (resolved (env name) name).0 (resolved (env name) name).1, [])
unfolding next next_dollar on_prefix strip_prefix
next-is_name env whole name h =
    let b = closing_brace-all name (is_name-all name h) in
    next_braced-found env whole (codes "{" ++ name ++ codes "}") (name ++ codes "}") name [] b
    ∙ ap (λ r. (r, [])) (expand_braced-is_name env name h)

-- The value of a variable that is set, or the reference without braces with a warning.
abbrev pub resolved_plain : Option Text → Text → Text × List Warning
resolved_plain (some value) name = (value, [])
resolved_plain none name = (codes "$" ++ name, unresolved name ∷ [])

no_prefix : (d c : ℕ) (s : Text) → (c == d) ≡ false → strip_prefix (d ∷ []) (c ∷ s) ≡ none
unfolding strip_prefix
no_prefix d c s h = rw h refl

no_case :
    (p s : Text) (f : Text → Reading × Text) (o : Reading × Text)
    → strip_prefix p s ≡ none
    → on_prefix p s f o ≡ o
unfolding on_prefix
no_case p s f o h = rw (h, on_prefix) refl

next_name-is_name :
    (env : Text → Option Text) (name : Text)
    → is_name name ≡ true
    → next_name env name
      ≡ (gives (resolved_plain (env name) name).0 (resolved_plain (env name) name).1, [])
unfolding next_name is_name
next_name-is_name env [] h = cc h
next_name-is_name env (c ∷ s) h =
    let q = scan_name-is_name (c ∷ s) h in
    elim (Option-cases (env (c ∷ s))) [ inl e ↦ rw (q, e, q) refl | inr (v, e) ↦ rw (q, e, q) refl ]

next-plain :
    (env : Text → Option Text) (whole name : Text)
    → is_name name ≡ true
    → next env whole b'$' name
      ≡ (gives (resolved_plain (env name) name).0 (resolved_plain (env name) name).1, [])
unfolding next next_dollar is_name
next-plain env whole [] h = cc h
next-plain env whole (c ∷ s) h =
    let d = no_prefix b'$' c s (name_start_dollar c (ground (arith, h))) in
    let o = no_prefix b'{' c s (name_start_open c (ground (arith, h))) in
    no_case (codes "$") (c ∷ s) _ _ d
    ∙ (no_case (codes "{") (c ∷ s) _ _ o ∙ next_name-is_name env (c ∷ s) h)

-- A text that is one reference, `${NAME}` with nothing but a name in the braces or `$NAME`, is replaced
-- by the value of its variable. If the variable is not set, the reference stays as it was written, never
-- an empty string, and exactly one warning names it.
pub substitute-reference :
    (env : Text → Option Text) (name : Text)
    → is_name name ≡ true
    → (substitute env (codes "${" ++ name ++ codes "}") ≡ some (resolved (env name) name))
      × (substitute env (codes "$" ++ name) ≡ some (resolved_plain (env name) name))
unfolding substitute substitute_from settle joined pending
substitute-reference env name h =
    let n = next-is_name env (codes "${" ++ name ++ codes "}") name h in
    let o = append_nil (resolved (env name) name).0 in
    let w = append_nil (resolved (env name) name).1 in
    let m = next-plain env (codes "$" ++ name) name h in
    let p = append_nil (resolved_plain (env name) name).0 in
    let v = append_nil (resolved_plain (env name) name).1 in (rw (n, o, w) refl, rw (m, p, v) refl)
