-- ===== src/Witness/PortRule/Published.antt =====
-- The rule `portConflicts` of app/witness/conflicts.rules.go inside `Evaluate` of app/witness/preflight.go.
use mathlib.Core.List.{append-nil, append_assoc}
use deploy_witness_cli.Prelude.{
  ◌≡◌, refl, sym, ap, ◌∙◌, inl, inr, false, List, [], ◌∷◌, ◌++◌, map, arith, ◌==◌, Bool-cases,
  length, All, is_empty,
}
use deploy_witness_cli.Model.Finding.{Finding}
use deploy_witness_cli.Witness.Input.{Input}
use deploy_witness_cli.Witness.Outcomes.{Rule}
use deploy_witness_cli.Witness.Outcomes.Fixed.{IsAllowed, fix_outcome_of_IsAllowed}
use deploy_witness_cli.Witness.Evaluate.{Tally, named, publish, publish_all}
use deploy_witness_cli.Witness.PortRule.{port_conflicts}
use deploy_witness_cli.Witness.PortRule.Publishable.{IsPublishable, port_conflicts-IsPublishable}

-- The collector of a finding does not matter to the invariants.
named-IsAllowed : (r : Rule) (f : Finding) → IsAllowed f → IsAllowed (named r f)
unfolding named
named-IsAllowed r f h = elim (Bool-cases (is_empty f.collector)) [
  | inl e ↦ rw e (record {
    sound = record { decided = h.sound.decided; proven = h.sound.proven };
    harmless = h.harmless;
    absent = h.absent;
  })
  | inr e ↦ rw e h
]

publish-kept :
    (r : Rule) (t : Tally) (f : Finding)
    → IsPublishable f
    → publish r t f ≡ record t { published = t.published ++ named r f ∷ [] }
unfolding publish
publish-kept r t f h =
    let e : (length f.evidence == 0) ≡ false = ground (arith, h.backed) in
    rw (e, fix_outcome_of_IsAllowed (named r f) (named-IsAllowed r f h.allowed)) refl

publish_all-kept :
    (r : Rule) (t : Tally) (fs : List Finding)
    → All IsPublishable fs
    → publish_all r t fs ≡ record t { published = t.published ++ map (named r) fs }
unfolding publish_all
publish_all-kept r t [] h = ap (λ l. record t { published = l }) (sym (append-nil t.published))
publish_all-kept r t (f ∷ fs) h =
    ap (λ u. publish_all r u fs) (publish-kept r t f h.0)
    ∙ publish_all-kept r (record t { published = t.published ++ named r f ∷ [] }) fs h.1
    ∙ ap (λ l. record t { published = l })
        (append_assoc t.published (named r f ∷ []) (map (named r) fs))

-- A rule that evaluates to `portConflicts` has all its findings published, in their order and as they
-- are but for the collector's name; none is counted as discarded or as corrected.
pub port_conflicts_published :
    (r : Rule) (t : Tally) (i : Input)
    → r.eval i ≡ port_conflicts i
    → publish_all r t (r.eval i)
      ≡ record t { published = t.published ++ map (named r) (port_conflicts i) }
port_conflicts_published r t i e =
    ap (publish_all r t) e
    ∙ publish_all-kept r t (port_conflicts i) (port_conflicts-IsPublishable i)
