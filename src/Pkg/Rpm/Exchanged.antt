-- ===== src/Pkg/Rpm/Exchanged.antt =====
-- `CompareRPM` of app/pkgmgr/version.go: exchanging the two versions negates the answer.

use deploy_witness_cli.Prelude.{
  ℕ, zero, suc, ◌+◌, ◌≡◌, refl, ap, ◌∙◌, inl, inr, Bool, true, false, not, ◌&&◌, ◌||◌, Option, none,
  some, [], ◌∷◌, arith, if◌then◌else◌, Bool-cases, length, Text, text_eq, is_empty,
}
use deploy_witness_cli.Prelude.Int.{ℤ, pos, negsuc, is_zero, neg}
use deploy_witness_cli.Pkg.Debian.{at, is_digit, is_letter, compare_int, compare_bare, bare_number}
use deploy_witness_cli.Pkg.Debian.Antisymmetry.{negated, is_zero-neg}
use deploy_witness_cli.Pkg.Debian.Exchanged.{is_word, compare_bare_antisym}
use deploy_witness_cli.Pkg.Rpm.{
  is_kept, skip_separators, starts, Round, settled, onward, tail, ended, rpm_round, go_on,
  rpm_rounds, rpmvercmp, split_rpm, compare_releases, or_then, compare_rpm_parts, compare_rpm,
}
use deploy_witness_cli.Pkg.Rpm.Segments.{swapped, segments, segments-swapped, ended-swapped}

-- A text behind its separators: it is empty, or starts with a byte that is kept.
abbrev IsSkipped : Text → Type 0
IsSkipped a = (is_empty a || is_kept (at a)) ≡ true

skip-IsSkipped : (a : Text) → IsSkipped (skip_separators a)
unfolding skip_separators
skip-IsSkipped [] = refl
skip-IsSkipped (c ∷ a) = elim (Bool-cases (is_kept c)) [
  | inl k ↦ rw (k, skip_separators) k
  | inr k ↦ rw (k, skip_separators) (skip-IsSkipped a)
]

-- A text that starts with neither marker starts with a digit or a letter.
segment_start :
    (a : Text)
    → IsSkipped a
    → is_empty a ≡ false
    → starts b'~' a ≡ false
    → starts b'^' a ≡ false
    → (is_digit (at a) || is_letter (at a)) ≡ true
unfolding is_kept starts
segment_start a s n t c = ground (arith, s, n, t, c)

-- The two switches of a round on the markers, before the `other` round.
abbrev tilde_switch : Bool → Bool → Text → Text → Round → Round
tilde_switch p q u v other =
    if p || q
    then if not p then settled (pos 1) else if not q then settled (negsuc 0) else onward u v
    else other

abbrev caret_switch : Bool → Bool → Bool → Bool → Text → Text → Round → Round
caret_switch p q e f u v other =
    if p || q
    then if e
      then settled (negsuc 0)
      else if f
      then settled (pos 1)
      else if not p
      then settled (pos 1)
      else if not q
      then settled (negsuc 0)
      else onward u v
    else other

tilde-swapped :
    (p q : Bool) (u v : Text) (other later : Round)
    → (p ≡ false → q ≡ false → later ≡ swapped other)
    → tilde_switch q p v u later ≡ swapped (tilde_switch p q u v other)
tilde-swapped true true u v other later h = refl
tilde-swapped true false u v other later h = refl
tilde-swapped false true u v other later h = refl
tilde-swapped false false u v other later h = h refl refl

caret-swapped :
    (p q e f : Bool) (u v : Text) (other later : Round)
    → (p && e) ≡ false
    → (q && f) ≡ false
    → (p ≡ false → q ≡ false → later ≡ swapped other)
    → caret_switch q p f e v u later ≡ swapped (caret_switch p q e f u v other)
caret-swapped true true true f u v other later k l h = cc k
caret-swapped true true false true u v other later k l h = cc l
caret-swapped true true false false u v other later k l h = refl
caret-swapped true false true f u v other later k l h = cc k
caret-swapped true false false true u v other later k l h = refl
caret-swapped true false false false u v other later k l h = refl
caret-swapped false true e true u v other later k l h = cc l
caret-swapped false true true false u v other later k l h = refl
caret-swapped false true false false u v other later k l h = refl
caret-swapped false false e f u v other later k l h = h refl refl

-- The round on two texts without markers.
abbrev last_switch : Text → Text → Round
last_switch a b = if is_empty a || is_empty b then settled (ended a b) else segments a b

last-swapped :
    (a b : Text)
    → IsSkipped a
    → IsSkipped b
    → starts b'~' a ≡ false
    → starts b'~' b ≡ false
    → starts b'^' a ≡ false
    → starts b'^' b ≡ false
    → last_switch b a ≡ swapped (last_switch a b)
last-swapped a b s r t w c d = elim (Bool-cases (is_empty a || is_empty b)) [
  | inl n ↦
      let m : (is_empty b || is_empty a) ≡ true = ground (arith, n) in
      rw (n, m) (ap settled (ended-swapped a b n))
  | inr n ↦
      let m : (is_empty b || is_empty a) ≡ false = ground (arith, n) in
      let x : is_empty a ≡ false = ground (arith, n) in
      let y : is_empty b ≡ false = ground (arith, n) in
      rw (n, m) (segments-swapped a b x y (segment_start a s x t c) (segment_start b r y w d))
]

not_both : (c : ℕ) (a : Text) → (starts c a && is_empty a) ≡ false
unfolding starts
not_both c a = ground arith

rpm_round-swapped :
    (a b : Text) → IsSkipped a → IsSkipped b → rpm_round b a ≡ swapped (rpm_round a b)
unfolding rpm_round
rpm_round-swapped a b s r =
    tilde-swapped (starts b'~' a) (starts b'~' b) (tail a) (tail b)
      (caret_switch (starts b'^' a) (starts b'^' b) (is_empty a) (is_empty b) (tail a) (tail b)
        (last_switch a b))
      (caret_switch (starts b'^' b) (starts b'^' a) (is_empty b) (is_empty a) (tail b) (tail a)
        (last_switch b a))
      (λ t w.
        caret-swapped (starts b'^' a) (starts b'^' b) (is_empty a) (is_empty b) (tail a) (tail b)
          (last_switch a b) (last_switch b a) (not_both b'^' a) (not_both b'^' b)
          (λ c d. last-swapped a b s r t w c d))

go_on-swapped :
    (r : Round) (next later : Text → Text → Option ℤ)
    → ((a b : Text) → later b a ≡ negated (next a b))
    → go_on (swapped r) later ≡ negated (go_on r next)
unfolding go_on
go_on-swapped (settled z) next later h = refl
go_on-swapped (onward a b) next later h = h a b

if_negated :
    (c d : Bool) (x y : Option ℤ)
    → d ≡ c
    → y ≡ negated x
    → (if d then some (pos 0) else y) ≡ negated (if c then some (pos 0) else x)
if_negated true d x y e h = rw e refl
if_negated false d x y e h = rw e h

rpm_rounds_antisym : (fuel : ℕ) (a b : Text) → rpm_rounds fuel b a ≡ negated (rpm_rounds fuel a b)
unfolding rpm_rounds
rpm_rounds_antisym zero a b =
    if_negated (is_empty a && is_empty b) (is_empty b && is_empty a) none none (ground arith) refl
rpm_rounds_antisym (suc fuel) a b =
    let x = skip_separators a in
    let y = skip_separators b in
    let n : Text → Text → Option ℤ = λ u v. rpm_rounds fuel u v in
    if_negated (is_empty a && is_empty b) (is_empty b && is_empty a) (go_on (rpm_round x y) n)
      (go_on (rpm_round y x) n) (ground arith)
      (ap (λ r. go_on r n) (rpm_round-swapped x y (skip-IsSkipped a) (skip-IsSkipped b))
        ∙ go_on-swapped (rpm_round x y) n n (λ u v. rpm_rounds_antisym fuel u v))

text_eq_comm : (a b : Text) → text_eq b a ≡ text_eq a b
unfolding text_eq
text_eq_comm [] [] = refl
text_eq_comm [] (d ∷ b) = refl
text_eq_comm (c ∷ a) [] = refl
text_eq_comm (c ∷ a) (d ∷ b) = let ih = text_eq_comm a b in ground (arith, ih)

rpmvercmp_antisym : (a b : Text) → rpmvercmp b a ≡ negated (rpmvercmp a b)
unfolding rpmvercmp
rpmvercmp_antisym a b =
    if_negated (text_eq a b) (text_eq b a) (rpm_rounds (length a + length b) a b) _
      (text_eq_comm a b)
      (ap (λ n. rpm_rounds n b a) (omega arith) ∙ rpm_rounds_antisym (length a + length b) a b)

or_then-negated : (r n : Option ℤ) → or_then (negated r) (negated n) ≡ negated (or_then r n)
unfolding or_then
or_then-negated none n = refl
or_then-negated (some z) n = elim (Bool-cases (is_zero z)) [
  | inl e ↦ rw (is_zero-neg z ∙ e, e) refl
  | inr e ↦ rw (is_zero-neg z ∙ e, e) refl
]

releases_antisym : (a b : Text) → compare_releases b a ≡ negated (compare_releases a b)
unfolding compare_releases
releases_antisym a b =
    if_negated (is_empty a || is_empty b) (is_empty b || is_empty a) (rpmvercmp a b) (rpmvercmp b a)
      (ground arith) (rpmvercmp_antisym a b)

-- Exchanging two RPM versions negates the answer, if neither or both of their epochs are words.
pub compare_rpm_antisym :
    (a b : Text)
    → is_word (split_rpm a).epoch ≡ is_word (split_rpm b).epoch
    → compare_rpm b a ≡ negated (compare_rpm a b)
unfolding compare_rpm compare_rpm_parts compare_int
compare_rpm_antisym a b h =
    let v = split_rpm a in
    let w = split_rpm b in
    let x = compare_bare (bare_number v.epoch) (bare_number w.epoch) in
    let e = compare_bare_antisym (bare_number v.epoch) (bare_number w.epoch) h in
    let u = rpmvercmp_antisym v.version w.version in
    let r = releases_antisym v.release w.release in
    rw (e, u, r)
      (ap (or_then (some (neg x)))
          (or_then-negated (rpmvercmp v.version w.version) (compare_releases v.release w.release))
        ∙ or_then-negated (some x)
            (or_then (rpmvercmp v.version w.version) (compare_releases v.release w.release)))
