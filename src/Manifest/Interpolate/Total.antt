-- ===== src/Manifest/Interpolate/Total.antt =====
-- `substitute` of app/collect/manifest/interpolate.go ends: every round, and every text that a
-- reference has to substitute first, is shorter.
use deploy_witness_cli.Prelude.{
  ℕ, zero, suc, ◌+◌, ◌-◌, ◌≤◌, ◌≡◌, refl, inl, inr, Bool, true, false, Option, none, some, List, [],
  ◌∷◌, ◌++◌, arith, ◌==◌, if◌then◌else◌, Bool-cases, Option-cases, length, Text, codes, is_empty,
  strip_prefix, strip_prefix-length, span-length,
}
use deploy_witness_cli.Manifest.Interpolate.{
  next_dollar, substitute, substitute_from, joined, settle, next, next_name, next_braced,
  no_reference, is_name_char, is_name_start, Warning, scan_name, after_byte, closing_brace, Reading,
  gives, reads, is_set, is_filled, on_prefix, require, apply_operator, expand_braced, pending,
}

scan_name-length : (s : Text) → length (scan_name s).0 + length (scan_name s).1 ≡ length s
unfolding scan_name
scan_name-length [] = omega arith
scan_name-length (c ∷ s) = elim (Bool-cases (is_name_start c)) [
  | inl e ↦ rw e (omega (arith, span-length is_name_char s))
  | inr e ↦ rw e (omega arith)
]

-- The two parts are those of what is left after one more byte.
after_byte-length :
    (c n : ℕ) (found : Option (Text × Text)) (before rest : Text)
    → ((b r : Text) → found ≡ some (b, r) → suc (length b + length r) ≤ n)
    → after_byte c found ≡ some (before, rest)
    → suc (length before + length rest) ≤ suc n
after_byte-length c n none before rest ih h = cc h
after_byte-length c n (some (b, r)) before rest ih h =
    let x : before ≡ c ∷ b = cc h in
    let y : rest ≡ r = cc h in let z = ih b r refl in rw (x, y) (omega (arith, z))

closing_brace-length :
    (depth : ℕ) (s before rest : Text)
    → closing_brace depth s ≡ some (before, rest)
    → suc (length before + length rest) ≤ length s
unfolding closing_brace
closing_brace-length depth [] before rest h = cc h
closing_brace-length depth (c ∷ s) before rest h = elim (Bool-cases (c == b'{')) [
  | inl e ↦
      after_byte-length c (length s) (closing_brace (depth + 1) s) before rest
        (closing_brace-length (depth + 1) s) (rw e at h)
  | inr e ↦ elim (Bool-cases (c == b'}')) [
    | inl f ↦ elim (Bool-cases (depth == 1)) [
      | inl g ↦
          let k = rw (e, f, g) at h in
          let x : before ≡ [] = cc k in let y : rest ≡ s = cc k in rw (x, y) (omega arith)
      | inr g ↦
          after_byte-length c (length s) (closing_brace (depth - 1) s) before rest
            (closing_brace-length (depth - 1) s) (rw (e, f, g) at h)
    ]
    | inr f ↦
        after_byte-length c (length s) (closing_brace depth s) before rest
          (closing_brace-length depth s) (rw (e, f) at h)
  ]
]

-- What a reading has to substitute first is no longer than a text.
abbrev IsWithin : ℕ → Reading → Type 0
IsWithin n r = length (pending r) ≤ n

if_IsWithin :
    (b : Bool) (n : ℕ) (x y : Reading)
    → IsWithin n x
    → IsWithin n y
    → IsWithin n (if b then x else y)
if_IsWithin true n x y p q = p
if_IsWithin false n x y p q = q

gives-IsWithin : (n : ℕ) (out : Text) (ws : List Warning) → IsWithin n (gives out ws)
unfolding pending
gives-IsWithin n out ws = omega arith

on_prefix-elim :
    {A : Type 0} (P : A → Type 0) (p s : Text) (found : Text → A) (otherwise : A)
    → ((rest : Text) → strip_prefix p s ≡ some rest → P (found rest))
    → P otherwise
    → P (on_prefix p s found otherwise)
unfolding on_prefix
on_prefix-elim P p s found otherwise f o = elim (Option-cases (strip_prefix p s)) [
  | inl e ↦ rw (e, on_prefix) o
  | inr (rest, e) ↦ rw (e, on_prefix) (f rest e)
]

on_prefix-IsWithin :
    (p s : Text) (found : Text → Reading) (otherwise : Reading)
    → ((rest : Text) → length rest ≤ length s → IsWithin (length s) (found rest))
    → IsWithin (length s) otherwise
    → IsWithin (length s) (on_prefix p s found otherwise)
on_prefix-IsWithin p s found otherwise f o =
    on_prefix-elim (IsWithin (length s)) p s found otherwise
      (λ rest e. f rest (omega (arith, strip_prefix-length p s rest e))) o

-- `${NAME-word}` and its kin: the word is a part of the operator.
choice-IsWithin :
    (b : Bool) (n : ℕ) (out word : Text)
    → length word ≤ n
    → IsWithin n (if b then gives out [] else reads word)
unfolding pending
choice-IsWithin true n out word h = omega arith
choice-IsWithin false n out word h = h

choice2-IsWithin :
    (b : Bool) (n : ℕ) (word : Text)
    → length word ≤ n
    → IsWithin n (if b then reads word else gives [] [])
unfolding pending
choice2-IsWithin true n word h = h
choice2-IsWithin false n word h = omega arith

apply_operator-IsWithin :
    (literal operator : Text) (value : Option Text)
    → IsWithin (length operator) (apply_operator literal operator value)
unfolding apply_operator require
apply_operator-IsWithin literal operator value =
    let n = length operator in
    let g = gives-IsWithin n in
    if_IsWithin (is_empty operator) n _ _ (if_IsWithin (is_set value) n _ _ (g _ _) (g _ _)) (
      on_prefix-IsWithin _ operator _ _ (λ w. choice-IsWithin (is_filled value) n _ w)
        (on_prefix-IsWithin _ operator _ _ (λ w. choice-IsWithin (is_set value) n _ w)
          (on_prefix-IsWithin _ operator _ _ (λ w. choice2-IsWithin (is_filled value) n w)
            (on_prefix-IsWithin _ operator _ _ (λ w. choice2-IsWithin (is_set value) n w)
              (if_IsWithin _ n _ _ (if_IsWithin _ n _ _ (g _ _) (g _ _)) (g _ _))))))

expand_braced-IsWithin :
    (env : Text → Option Text) (body : Text) → IsWithin (length body) (expand_braced env body)
unfolding expand_braced
expand_braced-IsWithin env body =
    let literal = codes "${" ++ body ++ codes "}" in
    let r = apply_operator literal (scan_name body).1 (env (scan_name body).0) in
    let x : IsWithin (length body) r = omega (
      arith,
      scan_name-length body,
      apply_operator-IsWithin literal (scan_name body).1 (env (scan_name body).0),
    ) in
    if_IsWithin _ (length body) _ r
      (gives-IsWithin (length body) literal (no_reference literal ∷ [])) x

-- A round leaves no more than what follows the byte it read, and has no more to substitute first.
abbrev IsShorter : ℕ → Reading × Text → Type 0
IsShorter n step = IsWithin n step.0 × (length step.1 ≤ n)

next_braced-IsShorter :
    (env : Text → Option Text) (whole s inner : Text)
    → strip_prefix (codes "{") s ≡ some inner
    → IsShorter (length s) (next_braced env whole s inner)
unfolding next_braced
next_braced-IsShorter env whole s inner h = elim (Option-cases (closing_brace 1 inner)) [
  | inl e ↦ rw (e, next_braced) (gives-IsWithin (length s) _ _, omega arith)
  | inr ((body, rest), e) ↦
      let l = strip_prefix-length (codes "{") s inner h in
      let k = closing_brace-length 1 inner body rest e in
      let x = expand_braced-IsWithin env body in
      rw (e, next_braced) (omega (arith, l, k, x), omega (arith, l, k))
]

next_name-IsShorter : (env : Text → Option Text) (s : Text) → IsShorter (length s) (next_name env s)
unfolding next_name
next_name-IsShorter env s =
    let l = scan_name-length s in
    elim (Bool-cases (is_empty (scan_name s).0)) [
      | inl e ↦ rw (e, next_name) (gives-IsWithin (length s) _ _, omega arith)
      | inr e ↦ elim (Option-cases (env (scan_name s).0)) [
        | inl q ↦ rw (e, q, next_name) (gives-IsWithin (length s) _ _, omega (arith, l))
        | inr (v, q) ↦ rw (e, q, next_name) (gives-IsWithin (length s) _ _, omega (arith, l))
      ]
    ]

next-IsShorter :
    (env : Text → Option Text) (whole : Text) (c : ℕ) (s : Text)
    → IsShorter (length s) (next env whole c s)
unfolding next next_dollar
next-IsShorter env whole c s = elim (Bool-cases (c == b'$')) [
  | inl e ↦
      rw (e, next)
        (on_prefix-elim (IsShorter (length s)) (codes "$") s _ _
          (λ rest k. (
            gives-IsWithin (length s) _ _,
            omega (arith, strip_prefix-length (codes "$") s rest k),
          ))
          (on_prefix-elim (IsShorter (length s)) (codes "{") s _ _
            (λ inner k. next_braced-IsShorter env whole s inner k) (next_name-IsShorter env s)))
  | inr e ↦ rw (e, next) (gives-IsWithin (length s) _ _, omega arith)
]

-- A computation that has its fuel.
abbrev IsDone : Option (Text × List Warning) → Type 0
IsDone r = (done : Text × List Warning) × (r ≡ some done)

settle-IsDone :
    (r : Reading) (inner : Option (Text × List Warning)) → IsDone inner → IsDone (settle r inner)
unfolding settle
settle-IsDone (gives out ws) inner d = ((out, ws), refl)
settle-IsDone (reads word) inner d = d

joined-IsDone :
    (before after : Option (Text × List Warning))
    → IsDone before
    → IsDone after
    → IsDone (joined before after)
unfolding joined
joined-IsDone none after b a = cc b.1
joined-IsDone (some x) none b a = cc a.1
joined-IsDone (some x) (some y) b a = ((x.0 ++ y.0, x.1 ++ y.1), refl)

substitute_from-IsDone :
    (env : Text → Option Text) (fuel : ℕ) (whole text : Text)
    → length text ≤ fuel
    → IsDone (substitute_from env fuel whole text)
unfolding substitute_from
substitute_from-IsDone env fuel whole [] h = (([], []), refl)
substitute_from-IsDone env zero whole (c ∷ s) h = let q : ◌≡◌ {A = ℕ} 0 1 = omega (arith, h) in cc q
substitute_from-IsDone env (suc fuel) whole (c ∷ s) h =
    let step = next env whole c s in
    let word = pending step.0 in
    let k = next-IsShorter env whole c s in
    joined-IsDone (settle step.0 (substitute_from env fuel word word))
      (substitute_from env fuel whole step.1)
      (settle-IsDone step.0 _ (substitute_from-IsDone env fuel word word (omega (arith, h, k.0))))
      (substitute_from-IsDone env fuel whole step.1 (omega (arith, h, k.1)))

-- The substitution ends on every text, however its references are nested, and whatever the environment
-- answers: the text's own length bounds the rounds.
pub substitute_total :
    (env : Text → Option Text) (text : Text)
    → (done : Text × List Warning) × (substitute env text ≡ some done)
unfolding substitute
substitute_total env text = substitute_from-IsDone env (length text) text text (omega arith)
