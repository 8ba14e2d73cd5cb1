-- ===== src/Vuln/Osv/Family.antt =====
-- `Match` of app/vuln/osv.go: a record is never applied to another package or another family.
use deploy_witness_cli.Prelude.{
  ℕ, ◌≡◌, refl, sym, ap, ◌∙◌, inl, inr, true, false, none, some, List, [], ◌∷◌, arith, ◌==◌,
  Bool-cases, Option-cases, any, Text, codes, text_eq_refl, text_eq_sound, is_empty, has_prefix,
  to_lower, lower, Exists, is_empty_sound,
}
use deploy_witness_cli.Vuln.Osv.{
  Compare, Affected, Entry, equal_fold, split_ecosystem, ecosystem_matches, match_affected,
  match_packages, match_entry, first_cve, primary_id,
}

lower-colon : (c : ℕ) → (lower c == b':') ≡ (c == b':')
unfolding lower
lower-colon c = ground arith

split-to_lower : (s : Text) → (split_ecosystem (to_lower s)).0 ≡ to_lower (split_ecosystem s).0
unfolding split_ecosystem to_lower
split-to_lower [] = refl
split-to_lower (c ∷ s) =
    let l = lower-colon c in
    let ih = split-to_lower s in
    elim (Bool-cases (c == b':')) [
      | inl e ↦ rw (l, e) refl
      | inr e ↦ rw (l, e) (ap (λ t. lower c ∷ t) ih)
    ]

-- Ecosystems that are the same but for their case are of the same family.
same_family :
    (a b : Text)
    → equal_fold a b ≡ true
    → equal_fold (split_ecosystem a).0 (split_ecosystem b).0 ≡ true
unfolding equal_fold
same_family a b h =
    let e = text_eq_sound (to_lower a) (to_lower b) h in
    let q : to_lower (split_ecosystem a).0 ≡ to_lower (split_ecosystem b).0 =
      sym (split-to_lower a) ∙ (ap (λ t. (split_ecosystem t).0) e ∙ split-to_lower b) in
    rw q (text_eq_refl (to_lower (split_ecosystem b).0))

-- Two ecosystems that match are of the same family.
ecosystem_matches-family :
    (entry host : Text)
    → ecosystem_matches entry host ≡ true
    → equal_fold (split_ecosystem entry).0 (split_ecosystem host).0 ≡ true
unfolding ecosystem_matches
ecosystem_matches-family entry host h = elim (Bool-cases (equal_fold entry host)) [
  | inl e ↦ same_family entry host e
  | inr e ↦ ground (arith, h, e)
]

-- An entry of a record that is about the package and the family.
abbrev pub IsAbout : Text → Text → Affected → Type 0
IsAbout ecosystem name a =
    (equal_fold a.osv_package.name name ≡ true)
    × (equal_fold (split_ecosystem a.osv_package.ecosystem).0 (split_ecosystem ecosystem).0 ≡ true)

match_affected-IsAbout :
    (cmp : Compare) (ecosystem name version fixed : Text) (a : Affected)
    → match_affected cmp ecosystem name version a ≡ some fixed
    → IsAbout ecosystem name a
unfolding match_affected
match_affected-IsAbout cmp ecosystem name version fixed a h =
    elim (Bool-cases (equal_fold a.osv_package.name name)) [
      | inl n ↦ elim (Bool-cases (ecosystem_matches a.osv_package.ecosystem ecosystem)) [
        | inl m ↦ (n, ecosystem_matches-family a.osv_package.ecosystem ecosystem m)
        | inr m ↦ cc (rw (n, m) at h)
      ]
      | inr n ↦ cc (rw n at h)
    ]

match_packages-IsAbout :
    (cmp : Compare) (ecosystem name version fixed : Text) (affected : List Affected)
    → match_packages cmp ecosystem name version affected ≡ some fixed
    → Exists (IsAbout ecosystem name) affected
unfolding match_packages
match_packages-IsAbout cmp ecosystem name version fixed [] h = cc h
match_packages-IsAbout cmp ecosystem name version fixed (a ∷ affected) h =
    elim (Option-cases (match_affected cmp ecosystem name version a)) [
      | inl e ↦ inr (
          match_packages-IsAbout cmp ecosystem name version fixed affected
            (rw (e, match_packages) at h))
      | inr (f, e) ↦ inl (match_affected-IsAbout cmp ecosystem name version f a e)
    ]

-- A record that matches an installed package was not withdrawn, and has an entry for a package of the
-- same name in an ecosystem of the same family, whatever the comparison of versions is.
pub match_entry-IsAbout :
    (cmp : Compare) (e : Entry) (ecosystem name version fixed : Text)
    → match_entry e ecosystem name version cmp ≡ some fixed
    → (e.withdrawn ≡ []) × Exists (IsAbout ecosystem name) e.affected
unfolding match_entry
match_entry-IsAbout cmp e ecosystem name version fixed h =
    elim (Bool-cases (is_empty e.withdrawn)) [
      | inl w ↦ (
        is_empty_sound e.withdrawn w,
        match_packages-IsAbout cmp ecosystem name version fixed e.affected (rw w at h),
      )
      | inr w ↦ cc (rw w at h)
    ]

first_cve-any :
    (aliases : List Text) (id : Text)
    → has_prefix id (codes "CVE-") ≡ false
    → has_prefix (elim (first_cve aliases) [ some alias ↦ alias | none ↦ id ]) (codes "CVE-")
      ≡ any (λ a. has_prefix a (codes "CVE-")) aliases
unfolding first_cve
first_cve-any [] id h = h
first_cve-any (a ∷ aliases) id h = elim (Bool-cases (has_prefix a (codes "CVE-"))) [
  | inl e ↦ rw e e
  | inr e ↦ rw e (first_cve-any aliases id h)
]

-- The primary identifier is a CVE exactly if the record's own identifier or an alias is one.
pub primary_id-any :
    (e : Entry)
    → has_prefix (primary_id e) (codes "CVE-")
      ≡ any (λ a. has_prefix a (codes "CVE-")) (e.id ∷ e.aliases)
unfolding primary_id
primary_id-any e = elim (Bool-cases (has_prefix e.id (codes "CVE-"))) [
  | inl q ↦ rw q q
  | inr q ↦ rw q (first_cve-any e.aliases e.id q)
]
