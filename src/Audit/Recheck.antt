-- ===== src/Audit/Recheck.antt =====
-- app/audit/recheck.go: whether a report still confirms the run that is about to be made. A time is a
-- count of nanoseconds from a fixed origin; time.Parse and json.Unmarshal are parameters, and a line
-- is a constructor with what it prints.
pub mod Confirmed
use deploy_witness_cli.Prelude.{
  ℕ, ◌+◌, ◌-◌, ◌^◌, Bool, true, false, not, Option, none, some, List, [], ◌∷◌, ◌++◌, ltb, leb,
  if◌then◌else◌, length, Text, codes, text_eq, is_empty,
}
use deploy_witness_cli.Run.Runner.{Host, Runner, Done, output}

-- The parts of a stored report that are read.
pub record ReportPlan : Type 0 where
  pub digest : Text
  pub engine_id : Text

pub record Provenance : Type 0 where
  pub finished_at : Text
  pub rules_version : Text
  pub time_checks : List Text

pub record Report : Type 0 where
  pub mode : Text
  pub plan : Option ReportPlan
  pub provenance : Option Provenance

-- What reading the file and decoding it gave.
pub data ReportFile : Type 0 where
  unreadable : ReportFile
  not_json : ReportFile
  decoded : Option Report → ReportFile

pub data Message : Type 0 where
  silent : Message
  plan_same : Text → Message
  plan_changed : Text → Text → Message
  engine_unrecorded : Message
  engine_silent : Text → Message
  engine_same : Text → Message
  engine_changed : Text → Text → Message
  finish_unrecorded : Message
  finish_ahead : Text → ℕ → Message
  recent : ℕ → ℕ → Message
  outdated : ℕ → ℕ → Message
  rules_same : Text → Message
  rules_changed : Text → Text → Message
  timeline_broken : ℕ → Message

-- "ok: " or "re-run: ", and what follows.
pub record Line : Type 0 where
  pub held : Bool
  pub message : Message

pub record RecheckResult : Type 0 where
  pub confirmed : Bool
  pub lines : List Line

pub data RecheckError : Type 0 where
  cannot_read cannot_decode not_a_preflight not_prepared : RecheckError

pub data Answer : Type 0 where
  refused : RecheckError → Answer
  verdict : RecheckResult → Answer

-- `check`, on the verdict so far.
unfoldable pub check : Bool → Message → Message → RecheckResult → RecheckResult
check held pass fail res =
    if held
    then record {
      confirmed = res.confirmed;
      lines = res.lines ++ (record { held = true; message = pass }) ∷ [];
    }
    else record {
      confirmed = false;
      lines = res.lines ++ (record { held = false; message = fail }) ∷ [];
    }

-- `witness.RulesVersion`, `model.ModeComposePreflight`, a second, and the longest `time.Duration`.
abbrev pub current_rules : Text
current_rules = codes "2"

abbrev pub compose_preflight : Text
compose_preflight = codes "compose-preflight"

abbrev pub second : ℕ
second = 1000000000

abbrev pub max_duration : ℕ
max_duration = 2 ^ 63 - 1

-- The comparisons, one after the other.
unfoldable pub compare_plan : Text → ReportPlan → RecheckResult → RecheckResult
compare_plan digest old =
    check (text_eq digest old.digest) (plan_same digest) (plan_changed old.digest digest)

unfoldable pub compare_engine : Text → ReportPlan → RecheckResult → RecheckResult
compare_engine engine old =
    if is_empty old.engine_id
    then check false silent engine_unrecorded
    else if is_empty engine
    then check false silent (engine_silent old.engine_id)
    else check (text_eq engine old.engine_id) (engine_same engine)
        (engine_changed old.engine_id engine)

-- `now.Sub(finished)`, at least a second.
unfoldable pub age_of : ℕ → ℕ → ℕ
age_of now finished =
    let age = if ltb max_duration (now - finished) then max_duration else now - finished in
    if ltb age second then second else age

unfoldable pub compare_age : Option ℕ → Text → ℕ → ℕ → RecheckResult → RecheckResult
compare_age none stamp now limit = check false silent finish_unrecorded
compare_age (some finished) stamp now limit =
    if ltb now finished
    then check false silent (finish_ahead stamp now)
    else check (leb (age_of now finished) limit) (recent (age_of now finished) limit)
        (outdated (age_of now finished) limit)

unfoldable pub compare_rules : Provenance → RecheckResult → RecheckResult
compare_rules old =
    check (text_eq old.rules_version current_rules) (rules_same current_rules)
      (rules_changed old.rules_version current_rules)

unfoldable pub compare_timeline : Provenance → RecheckResult → RecheckResult
compare_timeline old res =
    if is_empty old.time_checks
    then res
    else check false silent (timeline_broken (length old.time_checks)) res

-- `Recheck` from the first comparison on.
unfoldable pub compare_report :
    (Text → Option ℕ) → ℕ → ℕ → ReportPlan → Provenance → Text → Text → RecheckResult
compare_report parse_time now limit plan old digest engine = compare_timeline old (
    compare_rules old (
      compare_age (parse_time old.finished_at) old.finished_at now limit (
        compare_engine engine plan
          (compare_plan digest plan (record { confirmed = true; lines = [] })))))

-- `currentEngineID`: the Runner and the host after it, and the identity; `decode` is the decoding of
-- the ID out of the engine's answer.
unfoldable pub current_engine_id :
    {W : Type 0} → Host W → W → Runner → (Text → Option Text) → Runner × W × Text
current_engine_id {W} host w r decode =
    let ask : Text → Runner × W × Text = λ kind.
      let d = output host w r kind (codes "info" ∷ codes "--format" ∷ codes "{{json .}}" ∷ []) in
      let id : Text = elim d.result.error [
        | some e ↦ []
        | none ↦ elim (decode d.result.output) [ none ↦ [] | some id ↦ id ]
      ] in
      (d.runner, d.world, id) in
    if host.available w (codes "docker")
    then ask (codes "docker")
    else if host.available w (codes "podman")
    then ask (codes "podman")
    else (r, w, [])

-- `Recheck` on the file that was read, and on the digest of the plan that `Prepare` resolved.
unfoldable pub recheck_report :
    {W : Type 0}
    → Host W
    → W
    → Runner
    → (Text → Option Text)
    → (Text → Option ℕ)
    → ℕ
    → ℕ
    → Option Text
    → Report
    → Runner × W × Answer
recheck_report host w r decode parse_time now limit prepared old =
    if not (text_eq old.mode compose_preflight)
    then (r, w, refused not_a_preflight)
    else elim old.plan [
      | none ↦ (r, w, refused not_a_preflight)
      | some plan ↦ elim old.provenance [
        | none ↦ (r, w, refused not_a_preflight)
        | some provenance ↦ elim prepared [
          | none ↦ (r, w, refused not_prepared)
          | some digest ↦
              let (r', w', engine) = current_engine_id host w r decode in
              (r', w', verdict (compare_report parse_time now limit plan provenance digest engine))
        ]
      ]
    ]

unfoldable pub recheck :
    {W : Type 0}
    → Host W
    → W
    → Runner
    → (Text → Option Text)
    → (Text → Option ℕ)
    → ℕ
    → ℕ
    → Option Text
    → ReportFile
    → Runner × W × Answer
recheck host w r decode parse_time now limit prepared unreadable = (r, w, refused cannot_read)
recheck host w r decode parse_time now limit prepared not_json = (r, w, refused cannot_decode)
recheck host w r decode parse_time now limit prepared (decoded none) = (r, w, refused cannot_decode)
recheck host w r decode parse_time now limit prepared (decoded (some old)) =
    recheck_report host w r decode parse_time now limit prepared old
