-- ===== src/Witness/Evaluate/Results.antt =====
-- `Evaluate` of app/witness/preflight.go: one result for each rule.
use mathlib.Core.List.{append-nil, append_assoc}
use deploy_witness_cli.Prelude.{◌≡◌, refl, sym, ◌∙◌, List, [], ◌∷◌, ◌++◌, Text}
use deploy_witness_cli.Model.Finding.{RuleResult}
use deploy_witness_cli.Witness.Input.{Input}
use deploy_witness_cli.Witness.Outcomes.{Rule, conclude}
use deploy_witness_cli.Witness.Evaluate.{
  Progress, run_rule, run_rules, run_all, start, evaluate_input,
}

-- The code and the name of each result.
abbrev pub labels : List RuleResult → List (Text × Text)
labels [] = []
labels (r ∷ rs) = (r.code, r.rule) ∷ labels rs

abbrev pub rule_labels : List Rule → List (Text × Text)
rule_labels [] = []
rule_labels (r ∷ rs) = (r.code, r.name) ∷ rule_labels rs

labels-append : (rs ss : List RuleResult) → labels (rs ++ ss) ≡ labels rs ++ labels ss
labels-append [] ss = refl
labels-append (r ∷ rs) ss = rw (labels-append rs ss)

labels-run_rule :
    (i : Input) (p : Progress) (r : Rule)
    → labels (run_rule i p r).rules ≡ labels p.rules ++ (r.code, r.name) ∷ []
unfolding run_rule conclude
labels-run_rule i p r = labels-append p.rules _

labels-run_rules :
    (i : Input) (p : Progress) (rs : List Rule)
    → labels (run_rules i p rs).rules ≡ labels p.rules ++ rule_labels rs
unfolding run_rules
labels-run_rules i p [] = sym (append-nil _)
labels-run_rules i p (r ∷ rs) =
    labels-run_rules i (run_rule i p r) rs
    ∙ (rw labels-run_rule (append_assoc (labels p.rules) _ (rule_labels rs)))

-- Every rule has exactly one result, in the order of the rules.
pub evaluate_rules :
    (rules : List Rule) (i : Input) → labels (evaluate_input rules i).rules ≡ rule_labels rules
unfolding evaluate_input run_all
evaluate_rules rules i = labels-run_rules i start rules
