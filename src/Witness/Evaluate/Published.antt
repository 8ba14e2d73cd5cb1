-- ===== src/Witness/Evaluate/Published.antt =====
-- `Evaluate` of app/witness/preflight.go: what holds of every report, whatever the rules are.

use deploy_witness_cli.Prelude.{
  ℕ, ◌+◌, ◌≡◌, refl, sym, ◌∙◌, ◌≢◌, inl, inr, false, List, [], ◌∷◌, ◌++◌, arith, ◌==◌, Bool-cases,
  Option-cases, length, length-append, All, All-append,
}
use deploy_witness_cli.Model.Finding.{Finding, RuleResult}
use deploy_witness_cli.Witness.Input.{Input}
use deploy_witness_cli.Witness.Outcomes.{Rule, fix_outcome, conclude, with_extra}
use deploy_witness_cli.Witness.Outcomes.Fixed.{IsSound, fix_outcome-IsSound, evidence-fix_outcome}
use deploy_witness_cli.Witness.Outcomes.Concluded.{conclude_count, extra-IsSound}
use deploy_witness_cli.Witness.Order.Sorted.{All-sort_findings, length-sort_findings}
use deploy_witness_cli.Witness.Evaluate.{
  Tally, Progress, publish, publish_all, run_rule, run_rules, run_all, start, evaluate_input, named,
}

-- The findings that the results count, together.
abbrev pub total : List RuleResult → ℕ
total [] = 0
total (r ∷ rs) = r.findings + total rs

-- What every finding of a report satisfies.
abbrev pub IsBacked : Finding → Type 0
IsBacked f = IsSound f × (f.evidence ≢ [])

evidence-named : (r : Rule) (f : Finding) → (named r f).evidence ≡ f.evidence
unfolding named
evidence-named r f = ground arith

-- A finding with evidence, as it is published.
fixed-IsBacked :
    (r : Rule) (f : Finding)
    → (length f.evidence == 0) ≡ false
    → IsBacked (fix_outcome (named r f)).0
fixed-IsBacked r f h = (
  fix_outcome-IsSound (named r f),
  λ e. ground (arith, evidence-fix_outcome (named r f), evidence-named r f),
)

publish-IsBacked :
    (r : Rule) (t : Tally) (f : Finding)
    → All IsBacked t.published
    → All IsBacked (publish r t f).published
unfolding publish
publish-IsBacked r t f h = elim (Bool-cases (length f.evidence == 0)) [
  | inl e ↦ rw e h
  | inr e ↦ rw e (All-append IsBacked t.published _ h (fixed-IsBacked r f e, tt))
]

publish_all-IsBacked :
    (r : Rule) (t : Tally) (fs : List Finding)
    → All IsBacked t.published
    → All IsBacked (publish_all r t fs).published
unfolding publish_all
publish_all-IsBacked r t [] h = h
publish_all-IsBacked r t (f ∷ fs) h =
    publish_all-IsBacked r (publish r t f) fs (publish-IsBacked r t f h)

with_extra-IsBacked :
    (i : Input) (r : Rule) (fs : List Finding)
    → All IsBacked fs
    → All IsBacked (with_extra fs (conclude i r fs).1)
with_extra-IsBacked i r fs h = elim (Option-cases (conclude i r fs).1) [
  | inl e ↦ rw e h
  | inr (f, e) ↦ rw e (All-append IsBacked fs (f ∷ []) h (extra-IsSound i r fs f e, tt))
]

total-append : (rs ss : List RuleResult) → total (rs ++ ss) ≡ total rs + total ss
total-append [] ss = omega arith
total-append (r ∷ rs) ss = omega (arith, total-append rs ss)

-- What the findings and the results of the rules so far have in common.
record IsReport (fs : List Finding) (rs : List RuleResult) : Type 0 where
  backed : All IsBacked fs
  counted : total rs ≡ length fs

run_rule-IsReport :
    (i : Input) (p : Progress) (r : Rule)
    → IsReport p.findings p.rules
    → IsReport (run_rule i p r).findings (run_rule i p r).rules
unfolding run_rule
run_rule-IsReport i p r h =
    let t =
      publish_all r (record { published = []; dropped = p.dropped; corrected = p.corrected })
        (r.eval i) in
    let (result, extra) = conclude i r t.published in
    record {
      backed =
          All-append IsBacked p.findings (with_extra t.published extra) h.backed
            (with_extra-IsBacked i r t.published (publish_all-IsBacked r _ (r.eval i) tt));
      counted = omega (
        arith,
        h.counted,
        total-append p.rules (result ∷ []),
        length-append p.findings (with_extra t.published extra),
        conclude_count i r t.published,
      );
    }

run_rules-IsReport :
    (i : Input) (p : Progress) (rs : List Rule)
    → IsReport p.findings p.rules
    → IsReport (run_rules i p rs).findings (run_rules i p rs).rules
unfolding run_rules
run_rules-IsReport i p [] h = h
run_rules-IsReport i p (r ∷ rs) h =
    run_rules-IsReport i (run_rule i p r) rs (run_rule-IsReport i p r h)

run_all-IsReport :
    (rules : List Rule) (i : Input) → IsReport (run_all rules i).findings (run_all rules i).rules
unfolding run_all
run_all-IsReport rules i = run_rules-IsReport i start rules (record { backed = tt; counted = refl })

-- Every finding of a report has evidence, has an outcome, and is a blocker only if it is a proven
-- problem, whatever the rules returned.
pub evaluate-IsBacked :
    (rules : List Rule) (i : Input) → All IsBacked (evaluate_input rules i).findings
unfolding evaluate_input
evaluate-IsBacked rules i = All-sort_findings IsBacked _ (run_all-IsReport rules i).backed

-- The counts of the rule results add up to the number of findings of the report.
pub evaluate_counts :
    (rules : List Rule) (i : Input)
    → total (evaluate_input rules i).rules ≡ length (evaluate_input rules i).findings
unfolding evaluate_input
evaluate_counts rules i =
    (run_all-IsReport rules i).counted ∙ sym (length-sort_findings (run_all rules i).findings)
