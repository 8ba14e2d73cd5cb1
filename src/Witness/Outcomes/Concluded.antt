-- ===== src/Witness/Outcomes/Concluded.antt =====
-- `conclude` of app/witness/outcomes.go: the outcome of a rule against its findings and its verdict.
use native.Mathlib.Nat.{le_refl, le_trans}
use deploy_witness_cli.Prelude.{
  ◌≤◌, ◌≡◌, refl, sym, ◌∙◌, ◌≢◌, ◌⊎◌, inl, inr, Bool, true, false, ◌||◌, Option, none, some, List,
  [], ◌∷◌, ◌++◌, arith, ◌==◌, Bool-cases, length, length-append, All,
}
use deploy_witness_cli.Model.Outcome.{
  Outcome, unknown, manual_check, outcome_eq, outcome_eq_iff, outcome_rank,
}
use deploy_witness_cli.Model.Finding.{Finding}
use deploy_witness_cli.Witness.Input.{Input}
use deploy_witness_cli.Witness.Outcomes.{
  Rule, Verdict, with_extra, lower_of, verdict_of, verdict_finding, unstated, tally, lowest,
  conclude,
}
use deploy_witness_cli.Witness.Outcomes.Fixed.{IsSound}

-- Some finding of the list has the outcome.
abbrev pub states : Outcome → List Finding → Bool
states o [] = false
states o (f ∷ fs) = outcome_eq f.outcome o || states o fs

states_head :
    (o : Outcome) (f : Finding) (fs : List Finding) → f.outcome ≡ o → states o (f ∷ fs) ≡ true
states_head o f fs e = ground (arith, outcome_eq_iff f.outcome o)

states_tail :
    (o : Outcome) (f : Finding) (fs : List Finding) → states o fs ≡ true → states o (f ∷ fs) ≡ true
states_tail o f fs h = ground arith

lower_of_cases : (a b : Outcome) → (lower_of a b ≡ a) ⊎ (lower_of a b ≡ b)
unfolding lower_of
lower_of_cases a b = ground arith

lower_of_le :
    (a b : Outcome)
    → (outcome_rank (lower_of a b) ≤ outcome_rank a)
      × (outcome_rank (lower_of a b) ≤ outcome_rank b)
unfolding lower_of
lower_of_le a b = ground arith

lowest-le : (o : Outcome) (fs : List Finding) → outcome_rank (lowest o fs) ≤ outcome_rank o
unfolding lowest
lowest-le o [] = le_refl _
lowest-le o (f ∷ fs) = le_trans (lowest-le (lower_of f.outcome o) fs) (lower_of_le f.outcome o).1

lowest-le-All :
    (o : Outcome) (fs : List Finding)
    → All (λ f. outcome_rank (lowest o fs) ≤ outcome_rank f.outcome) fs
unfolding lowest
lowest-le-All o [] = tt
lowest-le-All o (f ∷ fs) = (
  le_trans (lowest-le (lower_of f.outcome o) fs) (lower_of_le f.outcome o).0,
  lowest-le-All (lower_of f.outcome o) fs,
)

-- The lowest outcome is the verdict's, or that of a finding.
lowest_cases :
    (o : Outcome) (fs : List Finding) → (lowest o fs ≡ o) ⊎ (states (lowest o fs) fs ≡ true)
unfolding lowest
lowest_cases o [] = inl refl
lowest_cases o (f ∷ fs) = elim (lowest_cases (lower_of f.outcome o) fs) [
  | inl e ↦ elim (lower_of_cases f.outcome o) [
    | inl p ↦ inr (states_head _ f fs (sym (e ∙ p)))
    | inr p ↦ inl (e ∙ p)
  ]
  | inr s ↦ inr (states_tail _ f fs s)
]

tally-states : (o : Outcome) (fs : List Finding) → (tally fs o == 0) ≡ false → states o fs ≡ true
unfolding tally
tally-states o [] h = ground arith
tally-states o (f ∷ fs) h = ground (arith, tally-states o fs)

pub states-append :
    (o : Outcome) (fs gs : List Finding) → states o (fs ++ gs) ≡ (states o fs || states o gs)
states-append o [] gs = refl
states-append o (f ∷ fs) gs = ground (arith, states-append o fs gs)

evidence-verdict_finding :
    (i : Input) (r : Rule) (v : Verdict) → (verdict_finding i r v).evidence ≢ []
unfolding verdict_finding
evidence-verdict_finding i r v = ground arith

module _ (i : Input) (r : Rule) (fs : List Finding) where
  -- The outcome of a rule ranks no lower than its verdict and each of its findings calls for, and it is
  -- the verdict's own or that of one of the findings.
  pub conclude_outcome :
      (outcome_rank (conclude i r fs).0.outcome ≤ outcome_rank (verdict_of i r).outcome)
      × All (λ f. outcome_rank (conclude i r fs).0.outcome ≤ outcome_rank f.outcome) fs
      × (((conclude i r fs).0.outcome ≡ (verdict_of i r).outcome)
          ⊎ (states (conclude i r fs).0.outcome fs ≡ true))
  unfolding conclude
  conclude_outcome = (
    lowest-le (verdict_of i r).outcome fs,
    lowest-le-All (verdict_of i r).outcome fs,
    lowest_cases (verdict_of i r).outcome fs,
  )

  -- The count of a rule is the number of findings that it publishes, the added one included.
  pub conclude_count : (conclude i r fs).0.findings ≡ length (with_extra fs (conclude i r fs).1)
  unfolding conclude
  conclude_count = ground (arith, length-append fs (verdict_finding i r (verdict_of i r) ∷ []))

  -- A verdict that the question is open, unknown or a manual check, is the outcome of some published
  -- finding.
  pub open_verdict_states :
      ((verdict_of i r).outcome ≡ unknown) ⊎ ((verdict_of i r).outcome ≡ manual_check)
      → states (verdict_of i r).outcome (with_extra fs (conclude i r fs).1) ≡ true
  unfolding conclude unstated verdict_finding
  open_verdict_states h =
      let v = verdict_of i r in
      elim (Bool-cases (tally fs v.outcome == 0)) [
        | inl e ↦ ground (
          arith,
          outcome_eq_iff v.outcome v.outcome,
          outcome_eq_iff v.outcome unknown,
          outcome_eq_iff v.outcome manual_check,
          states-append v.outcome fs (verdict_finding i r v ∷ []),
        )
        | inr e ↦ ground (arith, tally-states v.outcome fs e)
      ]

  -- A finding that `conclude` adds has evidence and is sound.
  pub extra-IsSound : (f : Finding) → (conclude i r fs).1 ≡ some f → IsSound f × (f.evidence ≢ [])
  unfolding conclude unstated
  extra-IsSound f h =
      let v = verdict_of i r in
      (
        record {
          decided =
              unfold verdict_finding in
              ground
                (arith, outcome_eq_iff v.outcome unknown, outcome_eq_iff v.outcome manual_check);
          proven = unfold verdict_finding in ground arith;
        },
        ground (arith, evidence-verdict_finding i r v),
      )

states-with_extra :
    (o : Outcome) (fs : List Finding) (e : Option Finding)
    → states o fs ≡ true
    → states o (with_extra fs e) ≡ true
states-with_extra o fs none h = h
states-with_extra o fs (some f) h = ground (arith, states-append o fs (f ∷ []))

-- A rule that ends in an open question, unknown or a manual check, publishes a finding that says so.
pub open_outcome_states :
    (i : Input) (r : Rule) (fs : List Finding)
    → ((conclude i r fs).0.outcome ≡ unknown) ⊎ ((conclude i r fs).0.outcome ≡ manual_check)
    → states (conclude i r fs).0.outcome (with_extra fs (conclude i r fs).1) ≡ true
open_outcome_states i r fs h = elim (conclude_outcome i r fs).2 [
  | inl e ↦ rw e (open_verdict_states i r fs (rw e at h))
  | inr s ↦ states-with_extra _ fs (conclude i r fs).1 s
]
