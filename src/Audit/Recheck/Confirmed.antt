-- ===== src/Audit/Recheck/Confirmed.antt =====
-- `Recheck` of app/audit/recheck.go: what a confirmed report means.
use deploy_witness_cli.Prelude.{
  ℕ, ◌+◌, ◌-◌, ◌≤◌, ◌<◌, ◌≡◌, refl, ap, ◌∙◌, ◌↔◌, inl, inr, Bool, true, false, not, Option, none,
  some, arith, ltb, leb, Bool-cases, Option-cases, Text, text_eq, text_eq_iff, text_eq_refl,
  text_eq_sound, is_empty,
}
use deploy_witness_cli.Run.Runner.{Host, Runner}
use deploy_witness_cli.Audit.Recheck.{
  Report, ReportFile, decoded, unreadable, not_json, Answer, verdict, refused, compose_preflight,
  current_engine_id, recheck_report, recheck, compare_report, compare_rules, Runner, compare_plan,
  Host, ReportPlan, Provenance, RecheckResult, Message, check, current_rules, second, max_duration,
  compare_engine, age_of, compare_age, compare_timeline,
}

-- The report checked this plan, on this engine, no longer ago than the limit and not in the future,
-- with these rules, and its own timeline was consistent.
pub record Confirms (parse_time : Text → Option ℕ) (now limit : ℕ) (plan : ReportPlan)
    (old : Provenance) (digest engine : Text) : Type 0 where
  pub same_plan : digest ≡ plan.digest
  pub known_engine : is_empty plan.engine_id ≡ false
  pub same_engine : engine ≡ plan.engine_id
  pub recent : (t : ℕ) × (parse_time old.finished_at ≡ some t) × (t ≤ now) × (now ≤ t + limit)
  pub resolution : second ≤ limit
  pub same_rules : old.rules_version ≡ current_rules
  pub consistent : is_empty old.time_checks ≡ true

check-confirmed :
    (held : Bool) (pass fail : Message) (res : RecheckResult)
    → ((check held pass fail res).confirmed ≡ true) ↔ ((held ≡ true) × (res.confirmed ≡ true))
unfolding check
check-confirmed held pass fail res = ground arith

engine-confirmed :
    (engine : Text) (old : ReportPlan) (res : RecheckResult)
    → ((compare_engine engine old res).confirmed ≡ true)
      ↔ ((is_empty old.engine_id ≡ false) × (engine ≡ old.engine_id) × (res.confirmed ≡ true))
unfolding compare_engine check
engine-confirmed engine old res = (
  λ h. elim (Bool-cases (is_empty old.engine_id)) [
    | inl e ↦ cc (rw e at h)
    | inr e ↦ elim (Bool-cases (is_empty engine)) [
      | inl n ↦ cc (rw (e, n) at h)
      | inr n ↦
          (e, ground (arith, h, e, n, text_eq_iff engine old.engine_id), ground (arith, h, e, n))
    ]
  ],
  λ (e, q, r). rw (q, e, text_eq_refl old.engine_id) r,
)

age_of-le :
    (now u limit : ℕ)
    → limit < max_duration
    → (leb (age_of now u) limit ≡ true) ↔ ((now - u ≤ limit) × (second ≤ limit))
unfolding age_of
age_of-le now u limit b = ground arith

age-confirmed :
    (t : Option ℕ) (stamp : Text) (now limit : ℕ) (res : RecheckResult)
    → limit < max_duration
    → ((compare_age t stamp now limit res).confirmed ≡ true) ↔ (
        ((u : ℕ) × (t ≡ some u) × (u ≤ now) × (now ≤ u + limit))
        × (second ≤ limit)
        × (res.confirmed ≡ true))
unfolding compare_age check
age-confirmed none stamp now limit res b = (λ h. cc h, λ h. cc (h.0.1))
age-confirmed (some u) stamp now limit res b = elim (Bool-cases (ltb now u)) [
  | inl e ↦ rw e (
    λ h. cc h,
    λ (k, s, r).
        let q : u ≡ k.0 = cc k.1 in
        let l : now < u = ground (arith, e) in absurd (omega (arith, l, q, k.2)),
  )
  | inr e ↦ rw e (
    λ h.
        let c = (check-confirmed (leb (age_of now u) limit) _ _ res).0 h in
        let k = (age_of-le now u limit b).0 c.0 in
        ((u, refl, ground (arith, e), ground (arith, e, k.0)), k.1, c.1),
    λ (k, s, r).
        let q : u ≡ k.0 = cc k.1 in
        (check-confirmed (leb (age_of now u) limit) _ _ res).1
          ((age_of-le now u limit b).1 (omega (arith, q, k.3), s), r),
  )
]

timeline-confirmed :
    (old : Provenance) (res : RecheckResult)
    → ((compare_timeline old res).confirmed ≡ true)
      ↔ ((is_empty old.time_checks ≡ true) × (res.confirmed ≡ true))
unfolding compare_timeline check
timeline-confirmed old res = ground arith

-- What is compared of a report with the plan of the run, in full.
compare_report_confirmed :
    (parse_time : Text → Option ℕ) (now limit : ℕ) (plan : ReportPlan) (old : Provenance)
    (digest engine : Text)
    → limit < max_duration
    → ((compare_report parse_time now limit plan old digest engine).confirmed ≡ true)
      ↔ Confirms parse_time now limit plan old digest engine
unfolding compare_report compare_plan compare_rules
compare_report_confirmed parse_time now limit plan old digest engine b = (
  λ h.
      let t = (timeline-confirmed old _).0 h in
      let r = (check-confirmed (text_eq old.rules_version current_rules) _ _ _).0 t.1 in
      let a = (age-confirmed (parse_time old.finished_at) old.finished_at now limit _ b).0 r.1 in
      let e = (engine-confirmed engine plan _).0 a.2 in
      let p = (check-confirmed (text_eq digest plan.digest) _ _ _).0 e.2 in
      record {
        same_plan = text_eq_sound digest plan.digest p.0;
        known_engine = e.0;
        same_engine = e.1;
        recent = a.0;
        resolution = a.1;
        same_rules = text_eq_sound old.rules_version current_rules r.0;
        consistent = t.0;
      },
  λ c.
      let p =
        (check-confirmed (text_eq digest plan.digest) _ _ _).1
          ((text_eq_iff digest plan.digest).1 c.same_plan, refl) in
      let e = (engine-confirmed engine plan _).1 (c.known_engine, c.same_engine, p) in
      let a =
        (age-confirmed (parse_time old.finished_at) old.finished_at now limit _ b).1
          (c.recent, c.resolution, e) in
      let r =
        (check-confirmed (text_eq old.rules_version current_rules) _ _ _).1
          ((text_eq_iff old.rules_version current_rules).1 c.same_rules, a) in
      (timeline-confirmed old _).1 (c.consistent, r),
)

-- An answer that confirms the report.
abbrev pub IsConfirmed : Answer → Type 0
IsConfirmed (verdict res) = res.confirmed ≡ true
IsConfirmed (refused e) = ⊥

-- The file is a Compose preflight with a plan and a timeline, the plan of the run was resolved, and the
-- report confirms it on the engine that answers now.
pub record Stands {W : Type 0} (host : Host W) (w : W) (r : Runner) (decode : Text → Option Text)
    (parse_time : Text → Option ℕ) (now limit : ℕ) (prepared : Option Text) (file : ReportFile)
    : Type 0 where
  pub report : Report
  pub plan : ReportPlan
  pub provenance : Provenance
  pub digest : Text
  pub readable : file ≡ decoded (some report)
  pub is_preflight : report.mode ≡ compose_preflight
  pub has_plan : report.plan ≡ some plan
  pub has_provenance : report.provenance ≡ some provenance
  pub resolved : prepared ≡ some digest
  pub confirms :
      Confirms parse_time now limit plan provenance digest (current_engine_id host w r decode).2

module _ {W : Type 0} (host : Host W) (w : W) (r : Runner) (decode : Text → Option Text)
    (parse_time : Text → Option ℕ) (now limit : ℕ) (b : limit < max_duration) where
  report-Stands :
      (prepared : Option Text) (old : Report)
      → IsConfirmed (recheck_report host w r decode parse_time now limit prepared old).2
      → Stands host w r decode parse_time now limit prepared (decoded (some old))
  unfolding recheck_report
  report-Stands prepared old h = elim (Bool-cases (not (text_eq old.mode compose_preflight))) [
    | inl m ↦ elim (rw m at h) [ ]
    | inr m ↦ elim (Option-cases old.plan) [
      | inl p ↦ elim (rw (m, p, recheck_report) at h) [ ]
      | inr (plan, p) ↦ elim (Option-cases old.provenance) [
        | inl v ↦ elim (rw (m, p, v, recheck_report) at h) [ ]
        | inr (provenance, v) ↦ elim (Option-cases prepared) [
          | inl d ↦ elim (rw (m, p, v, d, recheck_report) at h) [ ]
          | inr (digest, d) ↦ record {
            report = old;
            plan = plan;
            provenance = provenance;
            digest = digest;
            readable = refl;
            is_preflight = text_eq_sound old.mode compose_preflight (ground (arith, m));
            has_plan = p;
            has_provenance = v;
            resolved = d;
            confirms =
                (compare_report_confirmed parse_time now limit plan provenance digest
                    (current_engine_id host w r decode).2 b).0
                  (rw (m, p, v, d, recheck_report) at h);
          }
        ]
      ]
    ]
  ]

  -- A report is confirmed exactly if it is readable as a Compose preflight with a plan, the plan of
  -- the run was resolved, and the digest of the plan, the identity of the engine, which both name,
  -- and the rules are the report's, its own timeline is consistent, and it finished at a time that is
  -- not ahead of the clock and lies back no longer than the limit, which is a second at least and
  -- less than the longest duration.
  pub recheck-IsConfirmed_iff :
      (prepared : Option Text) (file : ReportFile)
      → IsConfirmed (recheck host w r decode parse_time now limit prepared file).2
        ↔ Stands host w r decode parse_time now limit prepared file
  unfolding recheck recheck_report
  recheck-IsConfirmed_iff prepared unreadable = (λ h. elim h [ ], λ s. cc s.readable)
  recheck-IsConfirmed_iff prepared not_json = (λ h. elim h [ ], λ s. cc s.readable)
  recheck-IsConfirmed_iff prepared (decoded none) = (λ h. elim h [ ], λ s. cc s.readable)
  recheck-IsConfirmed_iff prepared (decoded (some old)) = (
    report-Stands prepared old,
    λ s.
        let o : old ≡ s.report = cc s.readable in
        let m : text_eq old.mode compose_preflight ≡ true =
          (text_eq_iff old.mode compose_preflight).1 (ap (λ z. z.mode) o ∙ s.is_preflight) in
        let p : old.plan ≡ some s.plan = ap (λ z. z.plan) o ∙ s.has_plan in
        let v : old.provenance ≡ some s.provenance = ap (λ z. z.provenance) o ∙ s.has_provenance in
        rw (m, p, v, s.resolved, recheck_report)
          ((compare_report_confirmed parse_time now limit s.plan s.provenance s.digest
              (current_engine_id host w r decode).2 b).1
            s.confirms),
  )
