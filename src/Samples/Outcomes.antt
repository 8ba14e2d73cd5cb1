-- ===== src/Samples/Outcomes.antt =====
-- Tests of the outcome rules and of the evaluation loop, and their theorems at concrete inputs.
use deploy_witness_cli.Prelude.{◌≡◌, refl, ◌↔◌, List, [], ◌∷◌, arith, All}
use deploy_witness_cli.Model.Outcome.{Outcome, problem, no_problem, unknown, blocker, warning, info}
use deploy_witness_cli.Model.Finding.{Finding}
use deploy_witness_cli.Witness.Outcomes.{fix_outcome}
use deploy_witness_cli.Witness.Outcomes.Fixed.{IsAllowed, IsFalseBlocker, fix_outcome-IsAllowed_iff}
use deploy_witness_cli.Witness.Order.{less, sort_findings}
use deploy_witness_cli.Witness.Evaluate.{evaluate_input}
use deploy_witness_cli.Witness.Evaluate.Published.{IsBacked, evaluate-IsBacked}
use deploy_witness_cli.Witness.Evaluate.Stated.{AreStated, evaluate_open-IsStated}
use deploy_witness_cli.Samples.Inputs.{finding, input, rules, taken}

-- The two findings that outcomes_test.go downgrades and reads.
unknown_blocker : (fix_outcome (finding blocker unknown)).0.severity ≡ warning
unfolding fix_outcome
unknown_blocker = refl

blocker_reads_as_problem : (fix_outcome (finding blocker Outcome.unset)).0.outcome ≡ problem
unfolding fix_outcome
blocker_reads_as_problem = refl

-- A blocker that is no problem comes out as a warning that is no problem.
harmless_blocker : (fix_outcome (finding blocker no_problem)).0 ≡ finding warning no_problem
unfolding fix_outcome
harmless_blocker = refl

fix_outcome-IsAllowed_iff_example :
    IsAllowed (fix_outcome (finding warning no_problem)).0
    ↔ (¬ IsFalseBlocker (finding warning no_problem))
fix_outcome-IsAllowed_iff_example = fix_outcome-IsAllowed_iff (finding warning no_problem)

taken-IsAllowed : IsAllowed taken
taken-IsAllowed = ground arith

abbrev two : List Finding
two = finding info no_problem ∷ taken ∷ []

worst_first : sort_findings two ≡ taken ∷ finding info no_problem ∷ []
unfolding sort_findings less
worst_first = refl

evaluate-IsBacked_example : All IsBacked (evaluate_input rules input).findings
evaluate-IsBacked_example = evaluate-IsBacked rules input

evaluate_open-IsStated_example :
    AreStated input (evaluate_input rules input).findings rules (evaluate_input rules input).rules
evaluate_open-IsStated_example = evaluate_open-IsStated rules input
