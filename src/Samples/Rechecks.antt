-- ===== src/Samples/Rechecks.antt =====
-- Tests and witnesses for app/audit/recheck.go.
use deploy_witness_cli.Prelude.{
  ℕ, ◌+◌, ◌*◌, ◌≡◌, refl, ◌↔◌, Bool, true, false, Option, none, some, [], arith, Text, codes,
  text_eq,
}
use deploy_witness_cli.Prelude.Int.{pos}
use deploy_witness_cli.Run.Runner.{
  Host, new, output, output_allow_exit, run_allowed, launch_command, judge,
}
use deploy_witness_cli.Samples.Runs.{answer}
use deploy_witness_cli.Audit.Recheck.{
  Report, decoded, Answer, verdict, refused, second, compose_preflight, current_engine_id,
  recheck_report, recheck, compare_report, check, age_of, compare_plan, compare_engine, compare_age,
  compare_rules, compare_timeline,
}
use deploy_witness_cli.Audit.Recheck.Confirmed.{IsConfirmed, Stands, recheck-IsConfirmed_iff}

-- A host whose docker answers every question with its identity, and counts them.
abbrev answering_host : Host ℕ
answering_host = record {
  environ = λ w. [];
  available = λ w name. text_eq name (codes "docker");
  launch = λ w limit name args env. (
    w + 1,
    record {
      stdout = codes "E1";
      stderr = [];
      code = pos 0;
      deadline_exceeded = false;
      error = none;
    },
  );
}

abbrev held_report : Report
held_report = record {
  mode = compose_preflight;
  plan = some (record { digest = codes "d"; engine_id = codes "E1" });
  provenance =
      some (record { finished_at = codes "t"; rules_version = codes "2"; time_checks = [] });
}

-- Ten seconds after the origin.
abbrev ten_seconds : Text → Option ℕ
ten_seconds stamp = some (10 * second)

-- The answer at a time, with a limit of one minute.
answer_at : ℕ → Text → ℕ × Answer
unfolding answer text_eq recheck recheck_report current_engine_id compare_report compare_plan
    compare_engine compare_age compare_rules compare_timeline check age_of output output_allow_exit
    run_allowed launch_command judge
answer_at now digest =
    let a =
      recheck answering_host 0 (new (pos 0)) some ten_seconds now (60 * second) (some digest)
        (decoded (some held_report)) in
    (a.1, a.2)

verdict_at : ℕ → Text → Option Bool
unfolding answer_at
verdict_at now digest = elim (answer_at now digest).1 [
  | refused e ↦ none
  | verdict res ↦ some res.confirmed
]

fresh_confirmed : verdict_at (70 * second) (codes "d") ≡ some true
unfolding verdict_at
fresh_confirmed = refl

stale_rejected : verdict_at (70 * second + 1) (codes "d") ≡ some false
unfolding verdict_at
stale_rejected = refl

changed_rejected : verdict_at (70 * second) (codes "c") ≡ some false
unfolding verdict_at
changed_rejected = refl

recheck-IsConfirmed_iff_example :
    IsConfirmed
      (recheck answering_host 0
        (new (pos 0))
        some
        ten_seconds
        (70 * second)
        (60 * second)
        (some (codes "d"))
        (decoded (some held_report))).2
    ↔ Stands answering_host 0
        (new (pos 0))
        some
        ten_seconds
        (70 * second)
        (60 * second)
        (some (codes "d"))
        (decoded (some held_report))
recheck-IsConfirmed_iff_example =
    recheck-IsConfirmed_iff answering_host 0 (new (pos 0)) some ten_seconds (70 * second)
      (60 * second) (omega arith) (some (codes "d")) (decoded (some held_report))
