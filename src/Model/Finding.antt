-- ===== src/Model/Finding.antt =====
-- app/model/preflight.go: `Evidence`, `Finding` and `RuleResult`. The prose of a finding (Title,
-- Description, WhyItMatters, WhatToDo) is left out: it is written and never read back.
use deploy_witness_cli.Prelude.{ℕ, Bool, List, Text}
use deploy_witness_cli.Model.Outcome.{Outcome, Severity}

-- Where a piece of evidence comes from.
pub data Origin : Type 0 where
  host plan rule : Origin

pub record Evidence : Type 0 where
  pub command : Text
  pub output : Text
  pub truncated : Bool
  pub captured_at : Text
  pub origin : Origin
  pub source : Text

pub data Category : Type 0 where
  conflict resource security expiry missing : Category

pub data Confidence : Type 0 where
  low medium high : Confidence

pub record Finding : Type 0 where
  pub code : Text
  pub collector : Text
  pub category : Category
  pub severity : Severity
  pub subject : Text
  pub confidence : Confidence
  pub sort_order : ℕ
  pub evidence : List Evidence
  pub outcome : Outcome

pub record RuleResult : Type 0 where
  pub code : Text
  pub rule : Text
  pub outcome : Outcome
  pub findings : ℕ
  pub reason : Text
  pub requires : Text
