-- ===== src/Witness/Evaluate.antt =====
-- `Evaluate` of app/witness/preflight.go. The rule set is an argument, the list that `rules()` returns;
-- the clock is read once, if the input has no time. The change list and the rollback plan, which
-- `Evaluate` takes from two other functions, are left out of the result.
pub mod Published
pub mod Results
pub mod Dropped
pub mod Stated
pub mod Ordered
use deploy_witness_cli.Prelude.{
  ℕ, ◌+◌, ◌-◌, not, Option, none, some, List, [], ◌∷◌, ◌++◌, ltb, ◌==◌, if◌then◌else◌, length, Text,
  codes, is_empty, itoa, em_dash,
}
use deploy_witness_cli.Model.Finding.{Finding, RuleResult}
use deploy_witness_cli.Model.Plan.{Manifest}
use deploy_witness_cli.Model.Host.{Capabilities}
use deploy_witness_cli.Witness.Input.{Input, Run}
use deploy_witness_cli.Witness.Outcomes.{Rule, fix_outcome, conclude, with_extra}
use deploy_witness_cli.Witness.Order.{sort_findings}

pub record Result : Type 0 where
  pub findings : List Finding
  pub rules : List RuleResult
  pub notes : List Text

-- What the inner loop keeps: the findings published so far and the two counters.
pub record Tally : Type 0 where
  pub published : List Finding
  pub dropped : ℕ
  pub corrected : ℕ

-- The collector that a finding is published under.
unfoldable pub named : Rule → Finding → Finding
named r f = if is_empty f.collector then record f { collector = r.name } else f

-- One round of the inner loop.
unfoldable pub publish : Rule → Tally → Finding → Tally
unfolding named
publish r t f =
    if length f.evidence == 0
    then record t { dropped = t.dropped + 1 }
    else let (fixed, bug) = fix_outcome (named r f) in
      record t {
        published = t.published ++ fixed ∷ [];
        corrected = if bug then t.corrected + 1 else t.corrected;
      }

-- The inner loop, over what `eval` returned.
unfoldable pub publish_all : Rule → Tally → List Finding → Tally
publish_all r t [] = t
publish_all r t (f ∷ fs) = publish_all r (publish r t f) fs

-- What the outer loop keeps.
pub record Progress : Type 0 where
  pub findings : List Finding
  pub rules : List RuleResult
  pub dropped : ℕ
  pub corrected : ℕ

-- One round of the outer loop.
unfoldable pub run_rule : Input → Progress → Rule → Progress
run_rule i p r =
    let t =
      publish_all r (record { published = []; dropped = p.dropped; corrected = p.corrected })
        (r.eval i) in
    let (result, extra) = conclude i r t.published in
    record {
      findings = p.findings ++ with_extra t.published extra;
      rules = p.rules ++ result ∷ [];
      dropped = t.dropped;
      corrected = t.corrected;
    }

pub run_rules : Input → Progress → List Rule → Progress
run_rules i p [] = p
run_rules i p (r ∷ rs) = run_rules i (run_rule i p r) rs

abbrev dropped_note : ℕ → List Text
dropped_note n =
    if ltb 0 n
    then (itoa n
        ++ (codes
              " finding(s) were discarded because no evidence was attached to them; this is a bug in deploy-witness, "
            ++ codes "not a property of the host"))
      ∷ []
    else []

abbrev corrected_note : ℕ → List Text
corrected_note n =
    if ltb 0 n
    then (itoa n
        ++ (codes
              " finding(s) carried a severity their outcome does not allow (a blocker that is not a proven "
            ++ (codes
                  "problem, or a warning that is not a problem at all) and were downgraded; this is a bug in "
                ++ codes "deploy-witness, not a property of the host")))
      ∷ []
    else []

abbrev start : Progress
start = record { findings = []; rules = []; dropped = 0; corrected = 0 }

-- What the two loops leave.
unfoldable pub run_all : List Rule → Input → Progress
run_all rules i = run_rules i start rules

-- The run with the clock's time, if it has none.
abbrev pub with_time : Text → Run → Run
with_time clock r = record r { now = elim r.now [ none ↦ some clock | some t ↦ some t ] }

-- The part of `Evaluate` behind its guard.
unfoldable pub evaluate_input : List Rule → Input → Result
evaluate_input rules i =
    let p = run_all rules i in
    record {
      findings = sort_findings p.findings;
      rules = p.rules;
      notes = dropped_note p.dropped ++ corrected_note p.corrected;
    }

abbrev pub nothing_to_compare : Result
nothing_to_compare = record {
  findings = [];
  rules = [];
  notes =
      (codes "witness: nothing to compare "
        ++ (em_dash ++ codes " a manifest and the host capabilities are both required"))
      ∷ [];
}

-- `Evaluate`.
unfoldable pub evaluate : List Rule → Text → Option Manifest → Option Capabilities → Run → Result
evaluate rules clock manifest caps r = elim manifest [
  | none ↦ nothing_to_compare
  | some m ↦ elim caps [
    | none ↦ nothing_to_compare
    | some c ↦ evaluate_input rules (record { manifest = m; caps = c; run = with_time clock r })
  ]
]
