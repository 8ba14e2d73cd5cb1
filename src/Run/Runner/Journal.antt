-- ===== src/Run/Runner/Journal.antt =====
-- `OutputAllowExit` of app/run/run.go: the entry that a call leaves in the journal.
use deploy_witness_cli.Prelude.{
  ℕ, ◌≡◌, refl, ap, inl, inr, not, ◌&&◌, Option, none, some, List, [], Bool-cases, Option-cases,
  any, Text, is_empty,
}
use deploy_witness_cli.Prelude.Int.{ℤ, int_eq}
use deploy_witness_cli.Run.Allowlist.{Spec, allowed_in}
use deploy_witness_cli.Run.Commands.{commands}
use deploy_witness_cli.Run.Runner.{
  Execution, Host, JournalOutcome, ok, failed, timeout, missing, refused, Runner, RunError,
  not_allowed, network_not_allowed, not_found, timed_out, exited, record_entry, entry_of, judge,
  Done, command_env, launch_command, run_allowed, output_allow_exit,
}

-- The outcome that belongs to an error.
abbrev pub outcome_of : Option RunError → JournalOutcome
outcome_of none = ok
outcome_of (some (not_allowed name n)) = refused
outcome_of (some (network_not_allowed name flag)) = refused
outcome_of (some (not_found name)) = missing
outcome_of (some (timed_out name limit)) = timeout
outcome_of (some (exited name code msg)) = failed

-- The flag that a command needs.
abbrev pub network_of : Option Spec → Text
network_of none = []
network_of (some spec) = spec.network

judge-outcome :
    (allowed : List ℤ) (limit : ℕ) (name : Text) (x : Execution)
    → (judge allowed limit name x).0 ≡ outcome_of (judge allowed limit name x).1.error
unfolding judge
judge-outcome allowed limit name x = elim (Bool-cases x.deadline_exceeded) [
  | inl e ↦ rw e refl
  | inr e ↦ elim (Option-cases x.error) [
    | inl q ↦ rw (e, q) refl
    | inr (msg, q) ↦ elim (Bool-cases (any (λ k. int_eq x.code k) allowed)) [
      | inl a ↦ rw (e, q, a) refl
      | inr a ↦ rw (e, q, a) refl
    ]
  ]
]

-- The Runner after a call with the entry that its result calls for.
abbrev pub journalled : {W : Type 0} → Runner → Text → List Text → Text → Done W → Runner
journalled r name args network d =
    record_entry (entry_of name args network (outcome_of d.result.error) d.result.code) r

launch_command-journal :
    {W : Type 0} (host : Host W) (w : W) (r : Runner) (allowed : List ℤ) (name : Text)
    (args : List Text) (spec : Spec)
    → (launch_command host w r allowed name args spec).runner
      ≡ journalled r name args spec.network (launch_command host w r allowed name args spec)
unfolding launch_command
launch_command-journal host w r allowed name args spec =
    let child = host.launch w r.timeout name args (command_env r (host.environ w)) in
    let code = (judge allowed r.timeout name child.1).1.code in
    ap (λ o. record_entry (entry_of name args spec.network o code) r)
      (judge-outcome allowed r.timeout name child.1)

run_allowed-journal :
    {W : Type 0} (host : Host W) (w : W) (r : Runner) (allowed : List ℤ) (name : Text)
    (args : List Text) (found : Option Spec)
    → (run_allowed host w r allowed name args found).runner
      ≡ journalled r name args (network_of found) (run_allowed host w r allowed name args found)
unfolding run_allowed
run_allowed-journal host w r allowed name args none = refl
run_allowed-journal host w r allowed name args (some spec) =
    elim (Bool-cases (not (is_empty spec.network) && not r.network)) [
      | inl n ↦ rw n refl
      | inr n ↦ elim (Bool-cases (not (host.available w name))) [
        | inl a ↦ rw (n, a) refl
        | inr a ↦ rw (n, a) (launch_command-journal host w r allowed name args spec)
      ]
    ]

-- Every call appends exactly one entry to the journal and changes nothing else of the Runner. The
-- entry tells the command, the flag of the command that the list answers, the exit code that the
-- call returns and the outcome that belongs to the error that it returns.
pub output_allow_exit-journal :
    {W : Type 0} (host : Host W) (w : W) (r : Runner) (allowed : List ℤ) (name : Text)
    (args : List Text)
    → (output_allow_exit host w r allowed name args).runner
      ≡ journalled r name args
          (network_of (allowed_in commands name args))
          (output_allow_exit host w r allowed name args)
unfolding output_allow_exit
output_allow_exit-journal host w r allowed name args =
    run_allowed-journal host w r allowed name args (allowed_in commands name args)
