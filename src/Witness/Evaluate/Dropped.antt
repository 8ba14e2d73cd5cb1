-- ===== src/Witness/Evaluate/Dropped.antt =====
-- `Evaluate` of app/witness/preflight.go: the findings that it discards.

use deploy_witness_cli.Prelude.{ℕ, ◌+◌, ◌≡◌, List, [], ◌∷◌, arith, ◌==◌, if◌then◌else◌, length}
use deploy_witness_cli.Model.Finding.{Finding}
use deploy_witness_cli.Witness.Input.{Input}
use deploy_witness_cli.Witness.Outcomes.{Rule}
use deploy_witness_cli.Witness.Evaluate.{
  Tally, Progress, publish, publish_all, run_rule, run_rules, run_all, start,
}

-- The findings without evidence among those that the rules return.
abbrev unbacked : List Finding → ℕ
unbacked [] = 0
unbacked (f ∷ fs) = (if length f.evidence == 0 then 1 else 0) + unbacked fs

abbrev pub unbacked_all : Input → List Rule → ℕ
unbacked_all i [] = 0
unbacked_all i (r ∷ rs) = unbacked (r.eval i) + unbacked_all i rs

dropped-publish :
    (r : Rule) (t : Tally) (f : Finding)
    → (publish r t f).dropped ≡ t.dropped + (if length f.evidence == 0 then 1 else 0)
unfolding publish
dropped-publish r t f = ground arith

dropped-publish_all :
    (r : Rule) (t : Tally) (fs : List Finding)
    → (publish_all r t fs).dropped ≡ t.dropped + unbacked fs
unfolding publish_all
dropped-publish_all r t [] = omega arith
dropped-publish_all r t (f ∷ fs) =
    ground (arith, dropped-publish_all r (publish r t f) fs, dropped-publish r t f)

dropped-run_rule :
    (i : Input) (p : Progress) (r : Rule)
    → (run_rule i p r).dropped ≡ p.dropped + unbacked (r.eval i)
unfolding run_rule
dropped-run_rule i p r = dropped-publish_all r _ (r.eval i)

dropped-run_rules :
    (i : Input) (p : Progress) (rs : List Rule)
    → (run_rules i p rs).dropped ≡ p.dropped + unbacked_all i rs
unfolding run_rules
dropped-run_rules i p [] = omega arith
dropped-run_rules i p (r ∷ rs) =
    omega (arith, dropped-run_rules i (run_rule i p r) rs, dropped-run_rule i p r)

-- The number in the first note is that of the findings that the rules returned without evidence.
pub evaluate_dropped :
    (rules : List Rule) (i : Input) → (run_all rules i).dropped ≡ unbacked_all i rules
unfolding run_all
evaluate_dropped rules i = omega (arith, dropped-run_rules i start rules)
