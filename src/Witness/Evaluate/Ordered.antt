-- ===== src/Witness/Evaluate/Ordered.antt =====
-- `Evaluate` of app/witness/preflight.go: the order in which the report lists its findings.
use deploy_witness_cli.Prelude.{ℕ, ◌<◌, ◌≡◌, List, [], ◌∷◌, All, Text}
use deploy_witness_cli.Model.Outcome.{Severity, blocker, warning, info}
use deploy_witness_cli.Model.Finding.{Finding}
use deploy_witness_cli.Witness.Input.{Input}

-- The worse severity of two: a blocker before a warning, and both before a note; one that is not set
-- comes last.
pub data Worse : Severity → Severity → Type 0 where
  blocker_warning : Worse blocker warning
  blocker_info : Worse blocker info
  blocker_unset : Worse blocker Severity.unset
  warning_info : Worse warning info
  warning_unset : Worse warning Severity.unset
  info_unset : Worse info Severity.unset

-- The first text is a proper beginning of the second, or smaller at the first byte where they differ.
pub data Before : Text → Text → Type 0 where
  shorter : (c : ℕ) (t : Text) → Before [] (c ∷ t)
  smaller : (c d : ℕ) (s t : Text) → c < d → Before (c ∷ s) (d ∷ t)
  alike : (c : ℕ) (s t : Text) → Before s t → Before (c ∷ s) (c ∷ t)

-- The first finding has to be read before the second: it is worse; or as bad, and its collector comes
-- first; or of the same collector, with the smaller place; or in the same place, and its subject comes
-- first.
pub data Precedes : Finding → Finding → Type 0 where
  by_severity : (f g : Finding) → Worse f.severity g.severity → Precedes f g
  by_collector :
      (f g : Finding) → f.severity ≡ g.severity → Before f.collector g.collector → Precedes f g
  by_place :
      (f g : Finding)
      → f.severity ≡ g.severity
      → f.collector ≡ g.collector
      → f.sort_order < g.sort_order
      → Precedes f g
  by_subject :
      (f g : Finding)
      → f.severity ≡ g.severity
      → f.collector ≡ g.collector
      → f.sort_order ≡ g.sort_order
      → Before f.subject g.subject
      → Precedes f g

-- No finding has to be read before one that the list has before it.
abbrev pub AreOrdered : List Finding → Type 0
AreOrdered [] = Unit
AreOrdered (f ∷ fs) = All (λ g. ¬ Precedes g f) fs × AreOrdered fs
