-- ===== src/Witness/Outcomes/Low.antt =====
-- `conclude` of app/witness/outcomes.go: what a rule that ends in no problem says of its findings.
use deploy_witness_cli.Prelude.{◌≤◌, ◌≡◌, List, [], ◌∷◌, ◌++◌, arith, All, All-map}
use deploy_witness_cli.Model.Outcome.{
  Outcome, problem, no_problem, unknown, manual_check, outcome_rank,
}
use deploy_witness_cli.Model.Finding.{Finding}
use deploy_witness_cli.Witness.Input.{Input}
use deploy_witness_cli.Witness.Outcomes.{Rule, verdict_of, conclude}
use deploy_witness_cli.Witness.Outcomes.Concluded.{conclude_outcome}

-- An outcome that leaves the rule's outcome at no problem.
abbrev pub IsLow : Outcome → Type 0
IsLow o = outcome_rank no_problem ≤ outcome_rank o

pub problem_high : IsLow problem → ⊥
unfolding outcome_rank
problem_high h = omega (arith, h)

pub unknown_high : IsLow unknown → ⊥
unfolding outcome_rank
unknown_high h = omega (arith, h)

pub manual_check_high : IsLow manual_check → ⊥
unfolding outcome_rank
manual_check_high h = omega (arith, h)

pub All-left :
    (P : Finding → Type 0) (xs ys : List Finding) → All P (xs ++ ys) → All P xs × All P ys
All-left P [] ys h = (tt, h)
All-left P (x ∷ xs) ys h = let k = All-left P xs ys h.1 in ((h.0, k.0), k.1)

-- The verdict and every finding of a rule that ends in no problem leave it there.
pub no_problem-IsLow :
    (i : Input) (r : Rule) (fs : List Finding)
    → (conclude i r fs).0.outcome ≡ no_problem
    → IsLow (verdict_of i r).outcome × All (λ f. IsLow f.outcome) fs
no_problem-IsLow i r fs h =
    let c = conclude_outcome i r fs in
    let low : (o : Outcome) → outcome_rank (conclude i r fs).0.outcome ≤ outcome_rank o → IsLow o =
      λ o x. rw h at x in
    (
      low (verdict_of i r).outcome c.0,
      All-map _ (λ f. IsLow f.outcome) fs (λ f x. low f.outcome x) c.1,
    )
