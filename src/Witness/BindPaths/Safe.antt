-- ===== src/Witness/BindPaths/Safe.antt =====
-- `bindPathConflicts` of app/witness/conflicts.rules.go after `BindSources` of
-- app/collect/host/binds.go: what a passed check of the bind mounts means.
use deploy_witness_cli.Prelude.{
  ℕ, ◌/◌, ◌%◌, ◌≡◌, refl, ◌⊎◌, inl, inr, Bool, true, false, not, ◌&&◌, Option, none, some, List, [],
  ◌∷◌, ◌++◌, arith, ◌==◌, if◌then◌else◌, Bool-cases, Option-cases, All, codes, text_eq, is_empty,
  split_on,
}
use deploy_witness_cli.Prelude.Int.{ℤ, pos, int_eq}
use deploy_witness_cli.Model.Outcome.{
  Outcome, problem, no_problem, unknown, Severity, blocker, warning,
}
use deploy_witness_cli.Model.Plan.{ManifestService, VolumeMount}
use deploy_witness_cli.Model.Host.{PathInfo}
use deploy_witness_cli.Witness.Input.{Input}
use deploy_witness_cli.Witness.Outcomes.{conclude}
use deploy_witness_cli.Witness.Outcomes.Low.{
  IsLow, no_problem-IsLow, problem_high, unknown_high, All-left,
}
use deploy_witness_cli.Witness.Binds.{
  bind_source, container_user, numeric_user, parse_mode, below_zero, class_unit, denied_by_mode,
  has_extension, bind_finding, missing_findings, existing_findings, access_findings,
  source_findings, bind_source_findings,
}
use deploy_witness_cli.Witness.BindPaths.{
  sensitive_host_path, sensitive_finding, mount_findings, mounts_findings, services_findings,
  bind_path_conflicts, bind_path_rule,
}
use deploy_witness_cli.Collect.Binds.{Files, examine, collected_sources}
use deploy_witness_cli.Collect.Binds.Found.{IsAsked, AllAsked, collected_sources-All}

-- The digit of a mode for a class of users gives the access: 4 to read, 2 to write, 1 to enter.
abbrev pub DigitAllows : ℕ → Bool → Bool → Type 0
DigitAllows digit write enter =
    (digit / 4 % 2 ≡ 1) × (write ≡ true → digit / 2 % 2 ≡ 1) × (enter ≡ true → digit % 2 ≡ 1)

-- The mode of the path does not refuse the user: root, or a mode that is no number, or the digit of
-- the user's class allows the access.
abbrev pub Permits : PathInfo → ℤ → ℤ → Bool → Type 0
Permits info uid gid write =
    (int_eq uid (pos 0) ≡ true)
    ⊎ ((parse_mode info.mode ≡ none)
        ⊎ ((mode : ℕ) × (parse_mode info.mode ≡ some mode)
            × DigitAllows (mode / class_unit info uid gid % 8) write
                (text_eq info.type (codes "directory"))))

digit_allows :
    (digit : ℕ) (write enter : Bool)
    → is_empty (
        if digit / 4 % 2 == 0
        then codes "read"
        else if write && digit / 2 % 2 == 0
        then codes "write"
        else if enter && digit % 2 == 0
        then codes "enter"
        else [])
      ≡ true
    → DigitAllows digit write enter
digit_allows digit write enter h =
    (ground (arith, h), λ w. ground (arith, h, w), λ e. ground (arith, h, e))

denied_by_mode-Permits :
    (info : PathInfo) (uid gid : ℤ) (write : Bool)
    → is_empty (denied_by_mode info uid gid write) ≡ true
    → Permits info uid gid write
unfolding denied_by_mode
denied_by_mode-Permits info uid gid write h = elim (Bool-cases (int_eq uid (pos 0))) [
  | inl r ↦ inl r
  | inr r ↦ elim (Option-cases (parse_mode info.mode)) [
    | inl n ↦ inr (inl n)
    | inr (mode, s) ↦ inr (
        inr (
          mode,
          s,
          digit_allows (mode / class_unit info uid gid % 8) write
              (text_eq info.type (codes "directory")) (rw (r, s, denied_by_mode) at h),
        ))
  ]
]

-- The source is there or is created, and can be used as the plan says, as far as a stat can tell: a
-- missing one is created by the engine and is not called like a file; one that exists is no dangling
-- link, is on a filesystem that can be written to if it is written to, and its mode does not refuse
-- the container's user, where that is a number and the owner is known.
abbrev pub IsUsable : Input → ManifestService → VolumeMount → PathInfo → Type 0
IsUsable i svc m info =
    ((text_eq info.state (codes "missing") ≡ true)
      × (m.create_host_path ≡ some true)
      × (has_extension (split_on b'/' m.source) ≡ false))
    ⊎ ((text_eq info.state (codes "missing") ≡ false)
        × (text_eq info.state (codes "unknown") ≡ false)
        × (info.dangling ≡ false)
        × ((info.read_only_fs && not m.read_only) ≡ false)
        × ((uid gid : ℤ)
            → numeric_user (container_user i svc) ≡ some (uid, gid)
            → below_zero info.uid ≡ false
            → Permits info uid gid (not m.read_only)))

access-Permits :
    (i : Input) (svc : ManifestService) (m : VolumeMount) (info : PathInfo)
    → All (λ f. IsLow f.outcome) (access_findings i svc m info)
    → (uid gid : ℤ) → numeric_user (container_user i svc) ≡ some (uid, gid)
    → below_zero info.uid ≡ false
    → Permits info uid gid (not m.read_only)
unfolding access_findings bind_finding
access-Permits i svc m info h uid gid u o =
    elim (Bool-cases (is_empty (denied_by_mode info uid gid (not m.read_only)))) [
      | inl e ↦ denied_by_mode-Permits info uid gid (not m.read_only) e
      | inr e ↦
          let k : All (λ f. IsLow f.outcome) (bind_finding i svc m info unknown warning ∷ []) =
            rw (u, o, e, access_findings) at h in
          absurd (unknown_high k.0)
    ]

-- No finding on a path leaves the rule at no problem.
no_finding :
    (i : Input) (svc : ManifestService) (m : VolumeMount) (info : PathInfo) (o : Outcome)
    (s : Severity)
    → (IsLow o → ⊥)
    → All (λ f. IsLow f.outcome) (bind_finding i svc m info o s ∷ [])
    → ⊥
unfolding bind_finding
no_finding i svc m info o s high h = high h.0

missing-created :
    (i : Input) (svc : ManifestService) (m : VolumeMount) (info : PathInfo) (create : Option Bool)
    (file : Bool)
    → All (λ f. IsLow f.outcome) (missing_findings i svc m info create file)
    → (create ≡ some true) × (file ≡ false)
unfolding missing_findings
missing-created i svc m info none file h =
    absurd (no_finding i svc m info unknown warning unknown_high h)
missing-created i svc m info (some false) file h =
    absurd (no_finding i svc m info problem blocker problem_high h)
missing-created i svc m info (some true) true h =
    absurd (no_finding i svc m info unknown warning unknown_high h)
missing-created i svc m info (some true) false h = (refl, refl)

existing-usable :
    (i : Input) (svc : ManifestService) (m : VolumeMount) (info : PathInfo)
    (dangling unwritable : Bool)
    → All (λ f. IsLow f.outcome) (existing_findings i svc m info dangling unwritable)
    → (dangling ≡ false)
      × (unwritable ≡ false)
      × All (λ f. IsLow f.outcome) (access_findings i svc m info)
unfolding existing_findings
existing-usable i svc m info true unwritable h =
    absurd (no_finding i svc m info unknown warning unknown_high h)
existing-usable i svc m info false true h =
    absurd (no_finding i svc m info problem warning problem_high h)
existing-usable i svc m info false false h = (refl, refl, h)

source-IsUsable :
    (i : Input) (svc : ManifestService) (m : VolumeMount) (info : PathInfo)
    → All (λ f. IsLow f.outcome) (source_findings i svc m info)
    → IsUsable i svc m info
unfolding source_findings
source-IsUsable i svc m info h =
    let file = has_extension (split_on b'/' m.source) in
    let unwritable = info.read_only_fs && not m.read_only in
    elim (Bool-cases (text_eq info.state (codes "unknown"))) [
      | inl x ↦
          absurd
            (no_finding i svc m info unknown warning unknown_high (rw (x, source_findings) at h))
      | inr x ↦ elim (Bool-cases (text_eq info.state (codes "missing"))) [
        | inl n ↦
            let c =
              missing-created i svc m info m.create_host_path file
                (rw (x, n, source_findings) at h) in
            inl (n, c.0, c.1)
        | inr n ↦
            let e =
              existing-usable i svc m info info.dangling unwritable
                (rw (x, n, source_findings) at h) in
            inr (n, x, e.0, e.1, access-Permits i svc m info e.2)
      ]
    ]

-- What a passed check says of a mount.
abbrev pub IsSafe : Input → ManifestService → Files → VolumeMount → Type 0
IsSafe i svc files m =
    IsAsked m
    → (is_empty (sensitive_host_path m.source) ≡ true)
      × IsUsable i svc m (examine files i.caps.filesystems m.source)

mount-IsSafe :
    (i : Input) (svc : ManifestService) (files : Files) (m : VolumeMount)
    → (IsAsked m → bind_source i m.source ≡ some (examine files i.caps.filesystems m.source))
    → All (λ f. IsLow f.outcome) (mount_findings i svc m)
    → IsSafe i svc files m
unfolding mount_findings bind_source_findings sensitive_finding
mount-IsSafe i svc files m b h a =
    let info = examine files i.caps.filesystems m.source in
    let k : All (λ f. IsLow f.outcome)
        (source_findings i svc m info
          ++ (if is_empty (sensitive_host_path m.source)
              then []
              else sensitive_finding i svc m ∷ [])) =
      rw (a.0, a.1, b a, mount_findings, bind_source_findings) at h in
    let p = All-left (λ f. IsLow f.outcome) (source_findings i svc m info) _ k in
    (
      elim (Bool-cases (is_empty (sensitive_host_path m.source))) [
        | inl e ↦ e
        | inr e ↦ absurd (problem_high (rw e at (p.1)).0)
      ],
      source-IsUsable i svc m info p.0,
    )

mounts-IsSafe :
    (i : Input) (svc : ManifestService) (files : Files) (ms : List VolumeMount)
    → All
        (λ m. IsAsked m → bind_source i m.source ≡ some (examine files i.caps.filesystems m.source))
        ms
    → All (λ f. IsLow f.outcome) (mounts_findings i svc ms)
    → All (IsSafe i svc files) ms
unfolding mounts_findings
mounts-IsSafe i svc files [] b h = tt
mounts-IsSafe i svc files (m ∷ ms) b h =
    let p = All-left (λ f. IsLow f.outcome) (mount_findings i svc m) (mounts_findings i svc ms) h in
    (mount-IsSafe i svc files m b.0 p.0, mounts-IsSafe i svc files ms b.1 p.1)

services-IsSafe :
    (i : Input) (files : Files) (services : List ManifestService)
    → AllAsked (λ p. bind_source i p ≡ some (examine files i.caps.filesystems p)) services
    → All (λ f. IsLow f.outcome) (services_findings i services)
    → All (λ svc. All (IsSafe i svc files) svc.volumes) services
unfolding services_findings
services-IsSafe i files [] b h = tt
services-IsSafe i files (svc ∷ services) b h =
    let p =
      All-left (λ f. IsLow f.outcome) (mounts_findings i svc svc.volumes)
        (services_findings i services) h in
    (mounts-IsSafe i svc files svc.volumes b.0 p.0, services-IsSafe i files services b.1 p.1)

-- If the rule on bind mounts ends in no problem on what the collector found, then every bind mount of
-- an absolute path was examined, is of no sensitive path, and its source can be used as the plan says,
-- as far as a stat can tell: it is created by the engine, or it exists, is no dangling link, is not
-- written to on a read-only file system, and its mode does not refuse the container's user, where that
-- is a number and the owner is known.
pub bind_paths-IsSafe :
    (i : Input) (files : Files)
    → i.caps.bind_sources ≡ collected_sources files i.caps.filesystems i.manifest.services
    → (conclude i bind_path_rule (bind_path_conflicts i)).0.outcome ≡ no_problem
    → All (λ svc. All (IsSafe i svc files) svc.volumes) i.manifest.services
unfolding bind_path_conflicts bind_source
bind_paths-IsSafe i files c h =
    let low = no_problem-IsLow i bind_path_rule (bind_path_conflicts i) h in
    services-IsSafe i files i.manifest.services
      (rw c (collected_sources-All files i.caps.filesystems i.manifest.services)) low.1
