-- ===== src/Run/Allowlist/Literal.antt =====
-- `Spec.matches` of app/run/allowlist.go: what a command spells out stands in every command line that
-- it accepts.
use deploy_witness_cli.Prelude.{
  ℕ, ◌+◌, ◌≡◌, refl, ap, ◌∙◌, ◌⊎◌, inl, inr, Bool, true, false, not, ◌&&◌, ◌||◌, none, some, List,
  [], ◌∷◌, arith, ltb, Bool-cases, Option-cases, Text, text_eq, text_eq_sound, is_empty, Exists,
  lookup_text,
}
use deploy_witness_cli.Run.Allowlist.{
  spec_matches, Spec, options_token, repeat_bound, placeholder, is_value, take_options, match_args,
}

-- An element that has to be matched as it is written.
unfoldable pub is_literal : Text → Bool
is_literal w =
    not (text_eq w options_token) && elim (placeholder w) [ none ↦ true | some p ↦ false ]

-- What is behind the option pairs is in the command line.
take_options-Exists :
    (s : Spec) (pairs : ℕ) (argv rest : List Text) (w : Text)
    → take_options s pairs argv ≡ some rest
    → Exists (λ a. a ≡ w) rest
    → Exists (λ a. a ≡ w) argv
unfolding take_options
take_options-Exists s pairs [] rest w h x = let e : rest ≡ [] = cc h in rw e at x
take_options-Exists s pairs (y ∷ []) rest w h x = let e : rest ≡ y ∷ [] = cc h in rw e at x
take_options-Exists s pairs (flag ∷ value ∷ argv) rest w h x =
    elim (Option-cases (lookup_text flag s.options)) [
      | inl e ↦ let q : rest ≡ flag ∷ value ∷ argv = cc (rw (e, take_options) at h) in rw q at x
      | inr (kind, e) ↦
          elim (Bool-cases (not (is_value kind value) || ltb (repeat_bound s) (pairs + 1))) [
            | inl b ↦ cc (rw (e, b, take_options) at h)
            | inr b ↦ inr (
                inr
                  (take_options-Exists s (pairs + 1) argv rest w (rw (e, b, take_options) at h) x))
          ]
    ]

-- One element: it is matched by itself, or what is sought is among the others.
literal_step :
    (s : Spec) (want w : Text) (wants argv : List Text)
    → (want ≡ w) ⊎ Exists (λ x. x ≡ w) wants
    → ((rest : List Text)
        → Exists (λ x. x ≡ w) wants
        → match_args s wants rest ≡ true
        → Exists (λ a. a ≡ w) rest)
    → elim argv [ [] ↦ false | a ∷ rest ↦ text_eq a want && match_args s wants rest ] ≡ true
    → Exists (λ a. a ≡ w) argv
literal_step s want w wants [] x ih h = cc h
literal_step s want w wants (a ∷ rest) (inl e) ih h =
    inl (text_eq_sound a want (ground (arith, h)) ∙ e)
literal_step s want w wants (a ∷ rest) (inr x) ih h = inr (ih rest x (ground (arith, h)))

value_step :
    (s : Spec) (kind w : Text) (wants argv : List Text)
    → Exists (λ x. x ≡ w) wants
    → ((rest : List Text)
        → Exists (λ x. x ≡ w) wants
        → match_args s wants rest ≡ true
        → Exists (λ a. a ≡ w) rest)
    → elim argv [ [] ↦ false | a ∷ rest ↦ is_value kind a && match_args s wants rest ] ≡ true
    → Exists (λ a. a ≡ w) argv
value_step s kind w wants [] x ih h = cc h
value_step s kind w wants (a ∷ rest) x ih h = inr (ih rest x (ground (arith, h)))

-- An element that is not a literal is not the one that is sought.
sought_later :
    (want w : Text) (wants : List Text)
    → is_literal w ≡ true
    → is_literal want ≡ false
    → (want ≡ w) ⊎ Exists (λ x. x ≡ w) wants
    → Exists (λ x. x ≡ w) wants
sought_later want w wants l n (inl e) = let q = ap is_literal e in cc (q, l, n)
sought_later want w wants l n (inr x) = x

-- A repeated placeholder stands only at the end.
unfoldable pub is_closed : List Text → Bool
is_closed [] = true
is_closed (want ∷ wants) =
    elim (placeholder want) [ none ↦ true | some (kind, repeats) ↦ not repeats || is_empty wants ]
    && is_closed wants

closed_end :
    (want kind : Text) (wants : List Text)
    → placeholder want ≡ some (kind, true)
    → is_closed (want ∷ wants) ≡ true
    → wants ≡ []
unfolding is_closed
closed_end want kind [] p h = refl
closed_end want kind (x ∷ wants) p h = cc (rw p at h)

closed_later :
    (want : Text) (wants : List Text) → is_closed (want ∷ wants) ≡ true → is_closed wants ≡ true
unfolding is_closed
closed_later want wants h = ground (arith, h)

none_left : (w : Text) (wants : List Text) → wants ≡ [] → ¬ Exists (λ x. x ≡ w) wants
none_left w [] e x = x
none_left w (y ∷ wants) e x = cc e

match_args-Exists :
    (s : Spec) (w : Text) (wants argv : List Text)
    → is_literal w ≡ true
    → is_closed wants ≡ true
    → Exists (λ x. x ≡ w) wants
    → match_args s wants argv ≡ true
    → Exists (λ a. a ≡ w) argv
unfolding match_args is_literal
match_args-Exists s w [] argv l c x h = elim x [ ]
match_args-Exists s w (want ∷ wants) argv l c x h =
    let ih = λ (rest : List Text) (y : Exists (λ z. z ≡ w) wants).
      match_args-Exists s w wants rest l (closed_later want wants c) y in
    elim (Bool-cases (text_eq want options_token)) [
      | inl e ↦ elim (Option-cases (take_options s 0 argv)) [
        | inl q ↦ cc (rw (e, q) at h)
        | inr (rest, q) ↦
            take_options-Exists s 0 argv rest w q
              (ih rest (sought_later want w wants l (rw e refl) x) (rw (e, q) at h))
      ]
      | inr e ↦ elim (Option-cases (placeholder want)) [
        | inl q ↦ literal_step s want w wants argv x ih (rw (e, q) at h)
        | inr ((kind, repeats), q) ↦
            let later = sought_later want w wants l (rw (e, q) refl) x in
            elim (Bool-cases repeats) [
              | inl r ↦
                  elim (none_left w wants (closed_end want kind wants (rw r at q) c) later) [ ]
              | inr r ↦ value_step s kind w wants argv later ih (rw (e, q, r) at h)
            ]
      ]
    ]

-- A literal of a command whose repeated placeholder, if any, comes last stands in every command line
-- that the command accepts.
pub spec_matches-Exists :
    (s : Spec) (w : Text) (argv : List Text)
    → is_literal w ≡ true
    → is_closed s.args ≡ true
    → Exists (λ x. x ≡ w) s.args
    → spec_matches s argv ≡ true
    → Exists (λ a. a ≡ w) argv
unfolding spec_matches
spec_matches-Exists s w argv l c x h = match_args-Exists s w s.args argv l c x h
