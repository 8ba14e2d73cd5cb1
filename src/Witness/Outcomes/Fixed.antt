-- ===== src/Witness/Outcomes/Fixed.antt =====
-- `fixOutcome` of app/witness/outcomes.go: the two invariants between outcome and severity.
use deploy_witness_cli.Prelude.{◌≡◌, ◌≢◌, ◌↔◌, ◌⊎◌, inl, inr, true, false, arith}
use deploy_witness_cli.Model.Outcome.{
  Outcome, problem, no_problem, not_applicable, blocker, warning, info,
}
use deploy_witness_cli.Model.Finding.{Finding}
use deploy_witness_cli.Witness.Outcomes.{fix_outcome}

-- What `fixOutcome` establishes of every finding: its outcome is set, and only a problem is a blocker.
pub record IsSound (f : Finding) : Type 0 where
  pub decided : f.outcome ≢ Outcome.unset
  pub proven : f.severity ≡ blocker → f.outcome ≡ problem

-- The two invariants of the comment at the top of outcomes.go: beside `IsSound`, what is no problem is
-- information.
pub record IsAllowed (f : Finding) : Type 0 where
  pub sound : IsSound f
  pub harmless : f.outcome ≡ no_problem → f.severity ≡ info
  pub absent : f.outcome ≡ not_applicable → f.severity ≡ info

-- The one finding that a single pass leaves outside the invariants: a blocker that is no problem.
abbrev pub IsFalseBlocker : Finding → Type 0
IsFalseBlocker f =
    (f.severity ≡ blocker) × ((f.outcome ≡ no_problem) ⊎ (f.outcome ≡ not_applicable))

fix_decided : (f : Finding) → (fix_outcome f).0.outcome ≢ Outcome.unset
unfolding fix_outcome
fix_decided f = ground arith

fix_proven :
    (f : Finding) → (fix_outcome f).0.severity ≡ blocker → (fix_outcome f).0.outcome ≡ problem
unfolding fix_outcome
fix_proven f h = ground arith

-- Whatever a rule wrote, the finding that `fixOutcome` leaves has an outcome, and it is a blocker only
-- if it is a problem.
pub fix_outcome-IsSound : (f : Finding) → IsSound (fix_outcome f).0
fix_outcome-IsSound f = record { decided = fix_decided f; proven = fix_proven f }

fix_harmless :
    (f : Finding)
    → ¬ IsFalseBlocker f
    → ((fix_outcome f).0.outcome ≡ no_problem → (fix_outcome f).0.severity ≡ info)
      × ((fix_outcome f).0.outcome ≡ not_applicable → (fix_outcome f).0.severity ≡ info)
unfolding fix_outcome
fix_harmless f h = (
  λ e. ground (arith, λ (p : f.severity ≡ blocker) (q : f.outcome ≡ no_problem). h (p, inl q)),
  λ e. ground (arith, λ (p : f.severity ≡ blocker) (q : f.outcome ≡ not_applicable). h (p, inr q)),
)

-- A blocker that is no problem, or not applicable, is left as a warning with that outcome.
pub fix_outcome_false_blocker :
    (f : Finding)
    → IsFalseBlocker f
    → ((fix_outcome f).0.severity ≡ warning) × ((fix_outcome f).0.outcome ≡ f.outcome)
unfolding fix_outcome
fix_outcome_false_blocker f (p, inl q) = (ground arith, ground arith)
fix_outcome_false_blocker f (p, inr q) = (ground arith, ground arith)

not-IsAllowed_false_blocker : (f : Finding) → IsFalseBlocker f → ¬ IsAllowed (fix_outcome f).0
not-IsAllowed_false_blocker f (p, inl q) a =
    ground (arith, fix_outcome_false_blocker f (p, inl q), a.harmless)
not-IsAllowed_false_blocker f (p, inr q) a =
    ground (arith, fix_outcome_false_blocker f (p, inr q), a.absent)

-- One pass of `fixOutcome` establishes both invariants exactly on the findings that are not a blocker
-- with the outcome no-problem or not-applicable.
pub fix_outcome-IsAllowed_iff : (f : Finding) → IsAllowed (fix_outcome f).0 ↔ (¬ IsFalseBlocker f)
fix_outcome-IsAllowed_iff f = (
  λ a b. not-IsAllowed_false_blocker f b a,
  λ h.
      let (p, q) = fix_harmless f h in
      record { sound = fix_outcome-IsSound f; harmless = p; absent = q },
)

-- A finding that satisfies the invariants is left as it is, and no correction is counted.
pub fix_outcome_of_IsAllowed : (f : Finding) → IsAllowed f → fix_outcome f ≡ (f, false)
unfolding fix_outcome
fix_outcome_of_IsAllowed f h = ground (arith, h.sound.decided, h.sound.proven, h.harmless, h.absent)

-- A correction is counted exactly when the severity changes; it never raises a severity to a blocker,
-- and an outcome that was set stays.
pub fix_outcome_corrects :
    (f : Finding)
    → (((fix_outcome f).1 ≡ true) ↔ ((fix_outcome f).0.severity ≢ f.severity))
      × (f.severity ≢ blocker → (fix_outcome f).0.severity ≢ blocker)
      × (f.outcome ≢ Outcome.unset → (fix_outcome f).0.outcome ≡ f.outcome)
unfolding fix_outcome
fix_outcome_corrects f = (ground arith, λ h. ground arith, λ h. ground arith)

pub evidence-fix_outcome : (f : Finding) → (fix_outcome f).0.evidence ≡ f.evidence
unfolding fix_outcome
evidence-fix_outcome f = ground arith
