-- ===== src/Vuln/Osv.antt =====
-- app/vuln/osv.go: whether an installed version falls inside an OSV record. The severities and the
-- references of a record are left out. The version comparison is a parameter, as in the code, and
-- `strings.EqualFold` folds ASCII letters only.
pub mod Interval
pub mod Family
use deploy_witness_cli.Prelude.{
  zero, suc, ◌-◌, Bool, true, false, not, ◌||◌, Option, none, some, List, [], ◌∷◌, ◌==◌,
  if◌then◌else◌, any, Text, codes, text_eq, is_empty, has_prefix, to_lower,
}
use deploy_witness_cli.Prelude.Int.{ℤ, pos, negsuc}

pub record Event : Type 0 where
  pub introduced : Text
  pub fixed : Text
  pub last_affected : Text
  pub limit : Text

pub record Range : Type 0 where
  pub type : Text
  pub events : List Event

-- `OSVPackage`.
pub record OsvPackage : Type 0 where
  pub ecosystem : Text
  pub name : Text

pub record Affected : Type 0 where
  pub osv_package : OsvPackage
  pub ranges : List Range
  pub versions : List Text

pub record Entry : Type 0 where
  pub id : Text
  pub aliases : List Text
  pub withdrawn : Text
  pub affected : List Affected

-- `pkgmgr.Compare`.
abbrev pub Compare : Type 0
Compare = Text → Text → ℤ

abbrev pub is_negative : ℤ → Bool
is_negative (pos n) = false
is_negative (negsuc n) = true

abbrev pub is_positive : ℤ → Bool
is_positive (pos zero) = false
is_positive (pos (suc n)) = true
is_positive (negsuc n) = false

-- `strings.EqualFold`.
unfoldable pub equal_fold : Text → Text → Bool
equal_fold s t = text_eq (to_lower s) (to_lower t)

-- One round of the loop of `matchRange`, on `affected` and `fixed`.
unfoldable pub walk_event : Compare → Text → Bool × Text → Event → Bool × Text
walk_event cmp version (affected, fixed) e =
    if not (is_empty e.introduced)
    then if text_eq e.introduced (codes "0") || not (is_negative (cmp version e.introduced))
      then (true, fixed)
      else (affected, fixed)
    else if not (is_empty e.fixed)
    then if not (is_negative (cmp version e.fixed)) then (false, e.fixed) else (affected, e.fixed)
    else if not (is_empty e.last_affected)
    then if is_positive (cmp version e.last_affected) then (false, fixed) else (affected, fixed)
    else if not (is_empty e.limit)
    then if not (is_negative (cmp version e.limit)) then (false, fixed) else (affected, fixed)
    else (affected, fixed)

unfoldable pub walk_events : Compare → Text → Bool × Text → List Event → Bool × Text
walk_events cmp version state [] = state
walk_events cmp version state (e ∷ events) =
    walk_events cmp version (walk_event cmp version state e) events

-- `matchRange`.
unfoldable pub match_range : Compare → Range → Text → Bool × Text
match_range cmp r version = walk_events cmp version (false, []) r.events

-- The first fix of a range.
unfoldable pub first_fixed_event : List Event → Option Text
first_fixed_event [] = none
first_fixed_event (e ∷ events) =
    if not (is_empty e.fixed) then some e.fixed else first_fixed_event events

-- `firstFixed`.
unfoldable pub first_fixed : List Range → Text
first_fixed [] = []
first_fixed (r ∷ ranges) = elim (first_fixed_event r.events) [
  | some fixed ↦ fixed
  | none ↦ first_fixed ranges
]

-- The family of an ecosystem, and its version: `splitEcosystem`.
unfoldable pub split_ecosystem : Text → Text × Text
split_ecosystem [] = ([], [])
split_ecosystem (c ∷ v) =
    let rest = split_ecosystem v in if c == b':' then ([], v) else (c ∷ rest.0, rest.1)

-- `EcosystemMatches`.
unfoldable pub ecosystem_matches : Text → Text → Bool
ecosystem_matches entry host =
    if is_empty host || is_empty entry
    then false
    else if equal_fold entry host
    then true
    else if not (equal_fold (split_ecosystem entry).0 (split_ecosystem host).0)
    then false
    else is_empty (split_ecosystem entry).1 || is_empty (split_ecosystem host).1

-- The loop of `Match` over the ranges of a package.
unfoldable pub match_ranges : Compare → Text → List Range → Option Text
match_ranges cmp version [] = none
match_ranges cmp version (r ∷ ranges) =
    let found = match_range cmp r version in
    if equal_fold r.type (codes "GIT")
    then match_ranges cmp version ranges
    else if found.0
    then some found.1
    else match_ranges cmp version ranges

-- A package of the record against an installed one: the fix, if it matches.
unfoldable pub match_affected : Compare → Text → Text → Text → Affected → Option Text
match_affected cmp ecosystem name version a =
    if not (equal_fold a.osv_package.name name)
    then none
    else if not (ecosystem_matches a.osv_package.ecosystem ecosystem)
    then none
    else if any (λ v. text_eq v version) a.versions
    then some (first_fixed a.ranges)
    else match_ranges cmp version a.ranges

unfoldable pub match_packages : Compare → Text → Text → Text → List Affected → Option Text
match_packages cmp ecosystem name version [] = none
match_packages cmp ecosystem name version (a ∷ affected) =
    elim (match_affected cmp ecosystem name version a) [
      | some fixed ↦ some fixed
      | none ↦ match_packages cmp ecosystem name version affected
    ]

-- `Entry.Match`.
unfoldable pub match_entry : Entry → Text → Text → Text → Compare → Option Text
match_entry e ecosystem name version cmp =
    if not (is_empty e.withdrawn)
    then none
    else match_packages cmp ecosystem name version e.affected

-- The loop of `PrimaryId` over the aliases.
unfoldable pub first_cve : List Text → Option Text
first_cve [] = none
first_cve (a ∷ aliases) = if has_prefix a (codes "CVE-") then some a else first_cve aliases

-- `PrimaryId`.
unfoldable pub primary_id : Entry → Text
primary_id e =
    if has_prefix e.id (codes "CVE-")
    then e.id
    else elim (first_cve e.aliases) [ some alias ↦ alias | none ↦ e.id ]
