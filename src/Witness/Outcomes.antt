-- ===== src/Witness/Outcomes.antt =====
-- app/witness/outcomes.go: `verdict`, `fixOutcome`, `conclude` and `verdictFinding`; and `rule` of
-- app/witness/preflight.go. A rule's `eval` and `assess` are functions of the input, as in the source;
-- an optional `assess` is an `Option`.
pub mod Fixed
pub mod Concluded
pub mod Low
use deploy_witness_cli.Prelude.{
  ℕ, zero, suc, ◌+◌, ◌-◌, ◌*◌, ◌/◌, ◌%◌, ◌^◌, ◌≤◌, ◌<◌, String, ◌≡◌, refl, sym, ap, ◌∙◌, ◌≢◌, ◌↔◌,
  ◌⊎◌, inl, inr, Bool, true, false, not, ◌&&◌, ◌||◌, Option, none, some, List, [], ◌∷◌, ◌++◌, map,
  arith, ltb, leb, ◌==◌, if◌then◌else◌, ==_iff, Bool-cases, Option-cases, length, length-append,
  length-map, All, All-append, any, Text, codes, text_eq, text_eq_iff, text_eq_refl, text_eq_sound,
  is_empty, has_prefix, contains_text, join, trim_left_where, trim_where, trim_space, trim_brackets,
  to_lower, lower, upper, trim_suffix_byte, text_compare, itoa, is_space, em_dash, quoted, split_on,
  All-map, Exists, Exists-append_left, Exists-append_right, Exists-map, All-Exists, Exists-All,
  Exists-with, cut_first, cut_last, atoi, all, strip_suffix, lookup_text, all-Exists, all-All,
  All-all, all-with, lookup_text-All, take, strip_prefix, strip_prefix-length, is_empty_sound, span,
  span-length, ellipsis,
}
use deploy_witness_cli.Model.Outcome.{
  Outcome, problem, no_problem, unknown, manual_check, not_applicable, outcome_eq, outcome_rank,
  outcomes, outcome_text, Severity, blocker, warning, info, severity_eq,
}
use deploy_witness_cli.Model.Finding.{
  Finding, Evidence, RuleResult, Category, Confidence, missing, high,
}
use deploy_witness_cli.Witness.Input.{Input, evidence}

pub record Verdict : Type 0 where
  pub outcome : Outcome
  pub reason : Text
  pub evidence : List Evidence
  pub todo : Text

unfoldable pub checked : Text → Verdict
checked reason = record { outcome = no_problem; reason = reason; evidence = []; todo = [] }

unfoldable pub not_applicable_verdict : Text → Verdict
not_applicable_verdict reason = record {
  outcome = not_applicable;
  reason = reason;
  evidence = [];
  todo = [];
}

unfoldable pub undecided : Input → Text → Text → Text → Text → Verdict
undecided i reason command output todo = record {
  outcome = unknown;
  reason = reason;
  evidence = evidence i command output ∷ [];
  todo = todo;
}

-- `rule`.
pub record Rule : Type 0 where
  pub name : Text
  pub code : Text
  pub title : Text
  pub requires : Text
  pub eval : Input → List Finding
  pub assess : Option (Input → Verdict)

-- An outcome that a rule forgot to set.
default_outcome : Finding → Outcome
default_outcome f =
    if outcome_eq f.outcome Outcome.unset
    then (if severity_eq f.severity info then no_problem else problem)
    else f.outcome

-- `fixOutcome`: the finding as it is left, and whether its severity was corrected.
unfoldable pub fix_outcome : Finding → Finding × Bool
unfolding default_outcome outcome_eq severity_eq
fix_outcome f =
    let o = default_outcome f in
    if severity_eq f.severity blocker && not (outcome_eq o problem)
    then (record f { outcome = o; severity = warning }, true)
    else if (outcome_eq o no_problem || outcome_eq o not_applicable)
        && not (severity_eq f.severity info)
    then (record f { outcome = o; severity = info }, true)
    else (record f { outcome = o }, false)

-- `counts[o]` after the loop over the findings.
pub tally : List Finding → Outcome → ℕ
tally [] o = 0
tally (f ∷ fs) o = (if outcome_eq f.outcome o then 1 else 0) + tally fs o

-- One round of the loop of `conclude`.
unfoldable pub lower_of : Outcome → Outcome → Outcome
lower_of a b = if ltb (outcome_rank a) (outcome_rank b) then a else b

-- The loop of `conclude`: the lowest-ranked outcome.
unfoldable pub lowest : Outcome → List Finding → Outcome
lowest o [] = o
lowest o (f ∷ fs) = lowest (lower_of f.outcome o) fs

-- `countOutcomes`.
count_parts : (Outcome → ℕ) → List Outcome → List Text
count_parts counts [] = []
count_parts counts (o ∷ os) =
    let rest = count_parts counts os in
    if ltb 0 (counts o) then (itoa (counts o) ++ b' ' ∷ outcome_text o) ∷ rest else rest

count_outcomes : (Outcome → ℕ) → Text
unfolding count_parts
count_outcomes counts = join (count_parts counts outcomes) (codes ", ")

-- `verdictFinding`, less its prose.
unfoldable pub verdict_finding : Input → Rule → Verdict → Finding
verdict_finding i r v = record {
  code = r.code;
  collector = r.name;
  category = missing;
  severity = info;
  subject = [];
  confidence = high;
  sort_order = 1000;
  evidence = elim v.evidence [
    | [] ↦ evidence i (codes "deploy-witness rule " ++ r.code) v.reason ∷ []
    | e ∷ es ↦ e ∷ es
  ];
  outcome = v.outcome;
}

-- The verdict of a rule, with the default of one that has no `assess`.
unfoldable pub verdict_of : Input → Rule → Verdict
unfolding checked
verdict_of i r = elim r.assess [
  | none ↦ checked (codes "checked; nothing in the plan collides with what was observed")
  | some assess ↦ assess i
]

-- Whether `conclude` has to state the verdict by a finding of its own.
unfoldable pub unstated : Verdict → List Finding → Bool
unfolding outcome_eq
unstated v findings =
    (outcome_eq v.outcome unknown || outcome_eq v.outcome manual_check)
    && tally findings v.outcome == 0

-- `result.Reason`.
conclude_reason : Verdict → List Finding → (Outcome → ℕ) → Text
unfolding count_outcomes
conclude_reason v [] counts = v.reason
conclude_reason v (f ∷ fs) counts =
    let summary = itoa (length (f ∷ fs)) ++ codes " finding(s): " ++ count_outcomes counts in
    if outcome_eq v.outcome no_problem then summary else summary ++ codes "; " ++ v.reason

-- `conclude`.
unfoldable pub conclude : Input → Rule → List Finding → RuleResult × Option Finding
unfolding conclude_reason
conclude i r findings =
    let v = verdict_of i r in
    let stated = unstated v findings in
    let extra = if stated then 1 else 0 in
    let counts =
      λ (o : Outcome). tally findings o + (if outcome_eq o v.outcome then extra else 0) in
    (
      record {
        code = r.code;
        rule = r.name;
        outcome = lowest v.outcome findings;
        findings = length findings + extra;
        reason = conclude_reason v findings counts;
        requires = r.requires;
      },
      if stated then some (verdict_finding i r v) else none,
    )

-- The findings of a rule after `conclude`: those that it was given, and the one that it adds.
abbrev pub with_extra : List Finding → Option Finding → List Finding
with_extra fs none = fs
with_extra fs (some f) = fs ++ f ∷ []
