-- ===== src/Witness/Evaluate/Stated.antt =====
-- `Evaluate` of app/witness/preflight.go: a rule that ends in an open question states it.
use mathlib.Core.Path.{subst}
use mathlib.Core.List.{append-nil, append_assoc}
use deploy_witness_cli.Prelude.{
  ◌≡◌, refl, ◌⊎◌, inl, inr, true, List, [], ◌∷◌, ◌++◌, arith, ◌==◌, Bool-cases, length, All,
  All-append, All-map, Exists, Exists-append_left, Exists-append_right, All-Exists,
}
use deploy_witness_cli.Model.Outcome.{outcome_eq, Outcome, unknown, manual_check, outcome_eq_iff}
use deploy_witness_cli.Model.Finding.{Finding, RuleResult}
use deploy_witness_cli.Witness.Input.{Input}
use deploy_witness_cli.Witness.Outcomes.{
  Rule, fix_outcome, conclude, with_extra, verdict_of, verdict_finding, unstated,
}
use deploy_witness_cli.Witness.Outcomes.Concluded.{states, open_outcome_states}
use deploy_witness_cli.Witness.Order.{sort_findings}
use deploy_witness_cli.Witness.Order.Sorted.{Exists-sort_findings}
use deploy_witness_cli.Witness.Evaluate.{
  Tally, Progress, publish, publish_all, run_rule, run_rules, run_all, start, evaluate_input, named,
}

-- The outcomes that leave a question open.
abbrev pub IsOpen : Outcome → Type 0
IsOpen o = (o ≡ unknown) ⊎ (o ≡ manual_check)

-- The finding is one that the rule returned, as it is published, or it states the verdict of the rule
-- under the rule's code and name.
abbrev pub IsOf : Input → Rule → Finding → Type 0
IsOf i r f =
    Exists (λ g. f ≡ (fix_outcome (named r g)).0) (r.eval i)
    ⊎ (f.code ≡ r.code) × (f.collector ≡ r.name) × (f.outcome ≡ (verdict_of i r).outcome)

-- The findings have one of the rule with the outcome.
abbrev pub HasOwn : Input → List Finding → Rule → Outcome → Type 0
HasOwn i fs r o = Exists (λ f. IsOf i r f × (f.outcome ≡ o)) fs

-- The results are those of the rules, one for each in their order, and an open one is the outcome of a
-- finding of its own rule.
abbrev pub AreStated : Input → List Finding → List Rule → List RuleResult → Type 0
AreStated i fs [] [] = Unit
AreStated i fs [] (q ∷ qs) = ⊥
AreStated i fs (r ∷ rs) [] = ⊥
AreStated i fs (r ∷ rs) (q ∷ qs) =
    (q.code ≡ r.code)
    × (q.rule ≡ r.name)
    × (IsOpen q.outcome → HasOwn i fs r q.outcome)
    × AreStated i fs rs qs

AreStated-more :
    (i : Input) (fs gs : List Finding) (rs : List Rule) (qs : List RuleResult)
    → AreStated i fs rs qs
    → AreStated i (fs ++ gs) rs qs
AreStated-more i fs gs [] [] h = h
AreStated-more i fs gs [] (q ∷ qs) h = elim h [ ]
AreStated-more i fs gs (r ∷ rs) [] h = elim h [ ]
AreStated-more i fs gs (r ∷ rs) (q ∷ qs) (c, n, o, h) =
    (c, n, λ e. Exists-append_left _ fs gs (o e), AreStated-more i fs gs rs qs h)

AreStated-append :
    (i : Input) (fs : List Finding) (rs : List Rule) (qs : List RuleResult) (r : Rule)
    (q : RuleResult)
    → AreStated i fs rs qs
    → AreStated i fs (r ∷ []) (q ∷ [])
    → AreStated i fs (rs ++ r ∷ []) (qs ++ q ∷ [])
AreStated-append i fs [] [] r q h k = k
AreStated-append i fs [] (p ∷ qs) r q h k = elim h [ ]
AreStated-append i fs (s ∷ rs) [] r q h k = elim h [ ]
AreStated-append i fs (s ∷ rs) (p ∷ qs) r q (c, n, o, h) k =
    (c, n, o, AreStated-append i fs rs qs r q h k)

AreStated-sort :
    (i : Input) (fs : List Finding) (rs : List Rule) (qs : List RuleResult)
    → AreStated i fs rs qs
    → AreStated i (sort_findings fs) rs qs
AreStated-sort i fs [] [] h = h
AreStated-sort i fs [] (q ∷ qs) h = elim h [ ]
AreStated-sort i fs (r ∷ rs) [] h = elim h [ ]
AreStated-sort i fs (r ∷ rs) (q ∷ qs) (c, n, o, h) =
    (c, n, λ e. Exists-sort_findings _ fs (o e), AreStated-sort i fs rs qs h)

-- What a rule publishes is its own.
publish-IsOf :
    (i : Input) (r : Rule) (P : Finding → Type 0) (t : Tally) (g : Finding)
    → P (fix_outcome (named r g)).0
    → All P t.published
    → All P (publish r t g).published
unfolding publish
publish-IsOf i r P t g p h = elim (Bool-cases (length g.evidence == 0)) [
  | inl e ↦ rw e h
  | inr e ↦ rw e (All-append P t.published _ h (p, tt))
]

publish_all-IsOf :
    (i : Input) (r : Rule) (P : Finding → Type 0) (t : Tally) (gs : List Finding)
    → All (λ g. P (fix_outcome (named r g)).0) gs
    → All P t.published
    → All P (publish_all r t gs).published
unfolding publish_all
publish_all-IsOf i r P t [] p h = h
publish_all-IsOf i r P t (g ∷ gs) (p, ps) h =
    publish_all-IsOf i r P (publish r t g) gs ps (publish-IsOf i r P t g p h)

own-All :
    (r : Rule) (gs : List Finding)
    → All (λ f. Exists (λ g. (fix_outcome (named r f)).0 ≡ (fix_outcome (named r g)).0) gs) gs
own-All r gs =
    All-Exists (λ g f. (fix_outcome (named r f)).0 ≡ (fix_outcome (named r g)).0) gs (λ f. refl)

published-IsOf :
    (i : Input) (r : Rule) (t : Tally)
    → All (IsOf i r) t.published
    → All (IsOf i r) (publish_all r t (r.eval i)).published
published-IsOf i r t h =
    publish_all-IsOf i r (IsOf i r) t (r.eval i)
      (All-map
        (λ f. Exists (λ g. (fix_outcome (named r f)).0 ≡ (fix_outcome (named r g)).0) (r.eval i))
        (λ f. IsOf i r (fix_outcome (named r f)).0) (r.eval i) (λ f e. inl e)
        (own-All r (r.eval i)))
      h

-- So is the finding that `conclude` adds.
extra-IsOf :
    (i : Input) (r : Rule) (fs : List Finding)
    → All (IsOf i r) fs
    → All (IsOf i r) (with_extra fs (conclude i r fs).1)
unfolding conclude verdict_finding
extra-IsOf i r fs h = elim (Bool-cases (unstated (verdict_of i r) fs)) [
  | inl e ↦ rw e (All-append (IsOf i r) fs _ h (inr (refl, refl, refl), tt))
  | inr e ↦ rw e h
]

-- A finding among those of a rule that has the outcome.
states-HasOwn :
    (i : Input) (r : Rule) (o : Outcome) (fs : List Finding)
    → All (IsOf i r) fs
    → states o fs ≡ true
    → HasOwn i fs r o
states-HasOwn i r o [] h s = cc s
states-HasOwn i r o (f ∷ fs) (h, hs) s = elim (Bool-cases (outcome_eq f.outcome o)) [
  | inl e ↦ inl (h, (outcome_eq_iff f.outcome o).0 e)
  | inr e ↦ inr (states-HasOwn i r o fs hs (ground (arith, e, s)))
]

run_rule-AreStated :
    (i : Input) (p : Progress) (r : Rule) (rs : List Rule)
    → AreStated i p.findings rs p.rules
    → AreStated i (run_rule i p r).findings (rs ++ r ∷ []) (run_rule i p r).rules
unfolding run_rule
run_rule-AreStated i p r rs h =
    let t =
      publish_all r (record { published = []; dropped = p.dropped; corrected = p.corrected })
        (r.eval i) in
    let (result, extra) = conclude i r t.published in
    let own = extra-IsOf i r t.published (published-IsOf i r _ tt) in
    AreStated-append i (p.findings ++ with_extra t.published extra) rs p.rules r result
      (AreStated-more i p.findings _ rs p.rules h)
      (
        unfold conclude in refl,
        unfold conclude in refl,
        λ o.
            Exists-append_right _ p.findings _
              (states-HasOwn i r _ _ own (open_outcome_states i r t.published o)),
        tt,
      )

run_rules-AreStated :
    (i : Input) (p : Progress) (rs ss : List Rule)
    → AreStated i p.findings rs p.rules
    → AreStated i (run_rules i p ss).findings (rs ++ ss) (run_rules i p ss).rules
unfolding run_rules
run_rules-AreStated i p rs [] h = rw append-nil h
run_rules-AreStated i p rs (s ∷ ss) h =
    subst
      (λ l.
        AreStated i (run_rules i (run_rule i p s) ss).findings l
          (run_rules i (run_rule i p s) ss).rules)
      (append_assoc rs (s ∷ []) ss)
      (run_rules-AreStated i (run_rule i p s) (rs ++ s ∷ []) ss (run_rule-AreStated i p s rs h))

-- Every rule has one result, in the order of the rules and under its code and name; and where that
-- result is unknown or a manual check, the report has a finding with that outcome which the rule
-- returned itself, or which states the verdict of that rule under its code and name.
pub evaluate_open-IsStated :
    (rules : List Rule) (i : Input)
    → AreStated i (evaluate_input rules i).findings rules (evaluate_input rules i).rules
unfolding evaluate_input run_all
evaluate_open-IsStated rules i =
    AreStated-sort i _ rules (run_rules i start rules).rules
      (run_rules-AreStated i start [] rules tt)
