-- ===== src/Model/Outcome.antt =====
-- app/model/preflight.go: `Outcome` and `FindingSeverity` with their ranks. Both are Go strings; the
-- program writes only the constants below, and the empty string stands for a value not set.
use deploy_witness_cli.Prelude.{
  ℕ, suc, ◌≡◌, ◌↔◌, Bool, true, ◌||◌, List, [], ◌∷◌, arith, ◌==◌, if◌then◌else◌, Text, codes,
}

pub data Outcome : Type 0 where
  problem no_problem unknown manual_check not_applicable unset : Outcome

-- A number for each value, by which two values are compared.
abbrev index : Outcome → ℕ
index problem = 0
index no_problem = 1
index unknown = 2
index manual_check = 3
index not_applicable = 4
index unset = 5

-- `==` on outcomes.
unfoldable pub outcome_eq : Outcome → Outcome → Bool
outcome_eq a b = index a == index b

pub outcome_eq_iff : (a b : Outcome) → (outcome_eq a b ≡ true) ↔ (a ≡ b)
unfolding outcome_eq
outcome_eq_iff a b = ground arith

-- The order in which a reader is shown them.
abbrev pub outcomes : List Outcome
outcomes = problem ∷ unknown ∷ manual_check ∷ no_problem ∷ not_applicable ∷ []

-- The position of a value in a list, or the length of the list.
position : List Outcome → Outcome → ℕ
position [] o = 0
position (v ∷ vs) o = if outcome_eq v o then 0 else suc (position vs o)

-- `Outcome.Rank`.
unfoldable pub outcome_rank : Outcome → ℕ
unfolding position outcome_eq
outcome_rank o = position outcomes o

pub outcome_rank_inj : (a b : Outcome) → outcome_rank a ≡ outcome_rank b → a ≡ b
unfolding outcome_rank
outcome_rank_inj a b h = ground arith

-- `Outcome.Decided`.
unfoldable pub decided : Outcome → Bool
unfolding outcome_eq
decided o = outcome_eq o problem || outcome_eq o no_problem

-- The strings that the report prints.
abbrev pub outcome_text : Outcome → Text
outcome_text problem = codes "problem"
outcome_text no_problem = codes "no-problem"
outcome_text unknown = codes "unknown"
outcome_text manual_check = codes "manual-check"
outcome_text not_applicable = codes "not-applicable"
outcome_text unset = []

pub data Severity : Type 0 where
  blocker warning info unset : Severity

-- `FindingSeverity.Rank`.
abbrev pub severity_rank : Severity → ℕ
severity_rank blocker = 0
severity_rank warning = 1
severity_rank info = 2
severity_rank unset = 3

-- `==` on severities.
unfoldable pub severity_eq : Severity → Severity → Bool
severity_eq a b = severity_rank a == severity_rank b

pub severity_eq_iff : (a b : Severity) → (severity_eq a b ≡ true) ↔ (a ≡ b)
unfolding severity_eq
severity_eq_iff a b = ground arith
