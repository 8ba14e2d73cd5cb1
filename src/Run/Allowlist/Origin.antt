-- ===== src/Run/Allowlist/Origin.antt =====
-- `Allowed` of app/run/allowlist.go: where the arguments of an accepted command line come from.
use deploy_witness_cli.Prelude.{
  ℕ, ◌+◌, ◌≡◌, refl, sym, ap, ◌∙◌, ◌⊎◌, inl, inr, true, false, not, ◌&&◌, ◌||◌, some, List, [], ◌∷◌,
  arith, ltb, Bool-cases, Option-cases, All, Text, text_eq, text_eq_sound, All-map, Exists,
  All-Exists, lookup_text, all-All,
}
use deploy_witness_cli.Run.Allowlist.{
  Spec, options_token, repeat_bound, placeholder, is_value, take_options, match_tail, match_args,
  spec_matches, allowed_in,
}
use deploy_witness_cli.Run.Allowlist.Plain.{is_plain, value-is_plain}

-- A literal of the command, a flag of its options, or a value of a known kind.
abbrev pub IsFrom : Spec → Text → Type 0
IsFrom s a =
    Exists (λ w. w ≡ a) s.args
    ⊎ (Exists (λ o. o.0 ≡ a) s.options ⊎ ((kind : Text) × (is_value kind a ≡ true)))

found_flag :
    (k : Text) (m : List (Text × Text)) (v : Text)
    → lookup_text k m ≡ some v
    → Exists (λ o. o.0 ≡ k) m
unfolding lookup_text
found_flag k [] v h = cc h
found_flag k ((j, w) ∷ m) v h = elim (Bool-cases (text_eq j k)) [
  | inl e ↦ inl (text_eq_sound j k e)
  | inr e ↦ inr (found_flag k m v (rw e at h))
]

take_options-IsFrom :
    (s : Spec) (pairs : ℕ) (argv rest : List Text)
    → take_options s pairs argv ≡ some rest
    → All (IsFrom s) rest
    → All (IsFrom s) argv
unfolding take_options
take_options-IsFrom s pairs [] rest h a = tt
take_options-IsFrom s pairs (x ∷ []) rest h a = let e : rest ≡ x ∷ [] = cc h in rw e at a
take_options-IsFrom s pairs (flag ∷ value ∷ argv) rest h a =
    elim (Option-cases (lookup_text flag s.options)) [
      | inl e ↦ let q : rest ≡ flag ∷ value ∷ argv = cc (rw (e, take_options) at h) in rw q at a
      | inr (kind, e) ↦
          elim (Bool-cases (not (is_value kind value) || ltb (repeat_bound s) (pairs + 1))) [
            | inl b ↦ cc (rw (e, b, take_options) at h)
            | inr b ↦ (
              inr (inl (found_flag flag s.options kind e)),
              (
                inr (inr (kind, ground (arith, b))),
                take_options-IsFrom s (pairs + 1) argv rest (rw (e, b, take_options) at h) a,
              ),
            )
          ]
    ]

match_tail-IsFrom :
    (s : Spec) (kind : Text) (argv : List Text)
    → match_tail s kind argv ≡ true
    → All (IsFrom s) argv
unfolding match_tail
match_tail-IsFrom s kind argv h =
    All-map (λ a. is_value kind a ≡ true) (IsFrom s) argv (λ a e. inr (inr (kind, e)))
      (all-All (is_value kind) argv (ground (arith, h)))

literal-IsFrom :
    (s : Spec) (want : Text) (wants argv : List Text)
    → Exists (λ x. x ≡ want) s.args
    → ((rest : List Text) → match_args s wants rest ≡ true → All (IsFrom s) rest)
    → elim argv [ [] ↦ false | a ∷ rest ↦ text_eq a want && match_args s wants rest ] ≡ true
    → All (IsFrom s) argv
literal-IsFrom s want wants [] w ih h = tt
literal-IsFrom s want wants (a ∷ rest) w ih h =
    let e : a ≡ want = text_eq_sound a want (ground (arith, h)) in
    (inl (rw e w), ih rest (ground (arith, h)))

value-IsFrom :
    (s : Spec) (kind : Text) (wants argv : List Text)
    → ((rest : List Text) → match_args s wants rest ≡ true → All (IsFrom s) rest)
    → elim argv [ [] ↦ false | a ∷ rest ↦ is_value kind a && match_args s wants rest ] ≡ true
    → All (IsFrom s) argv
value-IsFrom s kind wants [] ih h = tt
value-IsFrom s kind wants (a ∷ rest) ih h =
    (inr (inr (kind, ground (arith, h))), ih rest (ground (arith, h)))

-- What is left to match of the command's arguments is among them.
match_args-IsFrom :
    (s : Spec) (wants argv : List Text)
    → All (λ w. Exists (λ x. x ≡ w) s.args) wants
    → match_args s wants argv ≡ true
    → All (IsFrom s) argv
unfolding match_args
match_args-IsFrom s [] [] w h = tt
match_args-IsFrom s [] (a ∷ argv) w h = cc h
match_args-IsFrom s (want ∷ wants) argv w h = elim (Bool-cases (text_eq want options_token)) [
  | inl e ↦ elim (Option-cases (take_options s 0 argv)) [
    | inl q ↦ cc (rw (e, q) at h)
    | inr (rest, q) ↦
        take_options-IsFrom s 0 argv rest q (match_args-IsFrom s wants rest w.1 (rw (e, q) at h))
  ]
  | inr e ↦ elim (Option-cases (placeholder want)) [
    | inl q ↦
        literal-IsFrom s want wants argv w.0 (λ rest. match_args-IsFrom s wants rest w.1)
          (rw (e, q) at h)
    | inr ((kind, repeats), q) ↦ elim (Bool-cases repeats) [
      | inl r ↦ match_tail-IsFrom s kind argv (rw (e, q, r) at h)
      | inr r ↦
          value-IsFrom s kind wants argv (λ rest. match_args-IsFrom s wants rest w.1)
            (rw (e, q, r) at h)
    ]
  ]
]

-- An accepted command line has nothing but the literals and the flags of its command, and values.
pub spec_matches-IsFrom :
    (s : Spec) (argv : List Text) → spec_matches s argv ≡ true → All (IsFrom s) argv
unfolding spec_matches
spec_matches-IsFrom s argv h =
    match_args-IsFrom s s.args argv (All-Exists (λ x w. x ≡ w) s.args (λ w. refl)) h

-- An argument that the command spells out, or one without the bytes of `is_shell_byte`.
abbrev pub IsSpelled : Spec → Text → Type 0
IsSpelled s a = Exists (λ w. w ≡ a) s.args ⊎ (Exists (λ o. o.0 ≡ a) s.options ⊎ (is_plain a ≡ true))

from-IsSpelled : (s : Spec) (a : Text) → IsFrom s a → IsSpelled s a
from-IsSpelled s a (inl w) = inl w
from-IsSpelled s a (inr (inl o)) = inr (inl o)
from-IsSpelled s a (inr (inr (kind, v))) = inr (inr (value-is_plain kind a v))

-- What the list answers is one of its commands, of that binary, whose arguments match.
pub allowed_in-matches :
    (specs : List Spec) (binary : Text) (args : List Text) (s : Spec)
    → allowed_in specs binary args ≡ some s
    → Exists (λ t. t ≡ s) specs × ((s.binary ≡ binary) × (spec_matches s args ≡ true))
unfolding allowed_in
allowed_in-matches [] binary args s h = cc h
allowed_in-matches (t ∷ specs) binary args s h =
    elim (Bool-cases (text_eq t.binary binary && spec_matches t args)) [
      | inl b ↦
          let e : t ≡ s = cc (rw b at h) in
          (
            inl e,
            (
              ap (λ x. x.binary) (sym e) ∙ text_eq_sound t.binary binary (ground (arith, b)),
              ap (λ x. spec_matches x args) (sym e) ∙ ground (arith, b),
            ),
          )
      | inr b ↦ let ih = allowed_in-matches specs binary args s (rw b at h) in (inr ih.0, ih.1)
    ]

-- An accepted command line belongs to a command of the list with the same binary, and each of its
-- arguments is a word that this command spells out, the flag of one of its option pairs, or has no
-- white space, no quote and none of ; ` $ | & < > ( ) { } * ? ! # ~ (a backslash it may have).
pub allowed_in-IsSpelled :
    (specs : List Spec) (binary : Text) (args : List Text) (s : Spec)
    → allowed_in specs binary args ≡ some s
    → Exists (λ t. t ≡ s) specs × ((s.binary ≡ binary) × All (IsSpelled s) args)
allowed_in-IsSpelled specs binary args s h =
    let x = allowed_in-matches specs binary args s h in
    (
      x.0,
      (
        x.1.0,
        All-map (IsFrom s) (IsSpelled s) args (from-IsSpelled s) (spec_matches-IsFrom s args x.1.1),
      ),
    )
