-- ===== src/Pkg/Rpm.antt =====
-- app/pkgmgr/version.go: `CompareRPM` with all it calls. An index into a string is the rest of the list.
-- The main loop of `rpmvercmp` is on fuel.
pub mod Segments
pub mod Exchanged
pub mod Returns
use deploy_witness_cli.Prelude.{
  ℕ, zero, suc, ◌+◌, ◌-◌, ◌^◌, Bool, true, false, not, ◌&&◌, ◌||◌, Option, none, some, [], ◌∷◌, ltb,
  ◌==◌, if◌then◌else◌, length, Text, codes, text_eq, is_empty, trim_space, cut_first, cut_last,
  span,
}
use deploy_witness_cli.Prelude.Int.{ℤ, pos, negsuc, is_zero}
use deploy_witness_cli.Pkg.Debian.{
  at, is_digit, is_letter, skip_zeros, compare_bytes, compare_int, or_next,
}

-- A byte that the loops over separators do not skip.
unfoldable pub is_kept : ℕ → Bool
is_kept c = is_digit c || (is_letter c || (c == b'~' || c == b'^'))

-- The loop over the separators.
unfoldable pub skip_separators : Text → Text
skip_separators [] = []
skip_separators (c ∷ s) = if is_kept c then c ∷ s else skip_separators s

-- `i < len(a) && a[i] == c`.
unfoldable pub starts : ℕ → Text → Bool
starts c s = not (is_empty s) && at s == c

-- What one round comes to: the answer that it returns, or what is left of the two texts.
pub data Round : Type 0 where
  settled : ℤ → Round
  onward : Text → Text → Round

abbrev pub tail : Text → Text
tail [] = []
tail (c ∷ s) = s

-- The answer of the switch after the loop.
unfoldable pub ended : Text → Text → ℤ
ended a b = if is_empty a && is_empty b then pos 0 else if is_empty a then negsuc 0 else pos 1

-- Two segments of digits without their leading zeros, or of letters.
unfoldable pub compare_segments : Bool → Text → Text → ℤ
compare_segments numeric a b =
    let x = if numeric then skip_zeros a else a in
    let y = if numeric then skip_zeros b else b in
    if numeric && not (length x == length y)
    then if ltb (length y) (length x) then pos 1 else negsuc 0
    else compare_bytes x y

-- The segment part of a round, on digits or on letters.
unfoldable pub segment_round : Bool → (Text × Text) → (Text × Text) → Round
segment_round numeric a b =
    if is_empty b.0
    then settled (if numeric then pos 1 else negsuc 0)
    else if is_zero (compare_segments numeric a.0 b.0)
    then onward a.1 b.1
    else settled (compare_segments numeric a.0 b.0)

-- A round behind the separators.
unfoldable pub rpm_round : Text → Text → Round
rpm_round a b =
    if starts b'~' a || starts b'~' b
    then if not (starts b'~' a)
      then settled (pos 1)
      else if not (starts b'~' b)
      then settled (negsuc 0)
      else onward (tail a) (tail b)
    else if starts b'^' a || starts b'^' b
    then if is_empty a
      then settled (negsuc 0)
      else if is_empty b
      then settled (pos 1)
      else if not (starts b'^' a)
      then settled (pos 1)
      else if not (starts b'^' b)
      then settled (negsuc 0)
      else onward (tail a) (tail b)
    else if is_empty a || is_empty b
    then settled (ended a b)
    else if is_digit (at a)
    then segment_round true (span is_digit a) (span is_digit b)
    else segment_round false (span is_letter a) (span is_letter b)

-- What a round comes to, with what the next rounds come to.
unfoldable pub go_on : Round → (Text → Text → Option ℤ) → Option ℤ
go_on (settled z) next = some z
go_on (onward a b) next = next a b

-- The loop of `rpmvercmp`.
unfoldable pub rpm_rounds : ℕ → Text → Text → Option ℤ
rpm_rounds zero a b = if is_empty a && is_empty b then some (pos 0) else none
rpm_rounds (suc fuel) a b =
    if is_empty a && is_empty b
    then some (pos 0)
    else go_on (rpm_round (skip_separators a) (skip_separators b)) (λ x y. rpm_rounds fuel x y)

-- `rpmvercmp`, with a round for every byte.
unfoldable pub rpmvercmp : Text → Text → Option ℤ
rpmvercmp a b = if text_eq a b then some (pos 0) else rpm_rounds (length a + length b) a b

pub record RpmVersion : Type 0 where
  pub epoch : Text
  pub version : Text
  pub release : Text

-- The part of `splitRPM` after the epoch.
unfoldable pub split_release : Text → Text → RpmVersion
split_release epoch v = elim (cut_last b'-' v) [
  | none ↦ record { epoch = epoch; version = v; release = [] }
  | some p ↦ record { epoch = epoch; version = p.0; release = p.1 }
]

-- `splitRPM`.
unfoldable pub split_rpm : Text → RpmVersion
split_rpm v = elim (cut_first b':' (trim_space v)) [
  | none ↦ split_release (codes "0") (trim_space v)
  | some p ↦
      split_release (if is_empty p.0 || text_eq p.0 (codes "(none)") then codes "0" else p.0) p.1
]

-- The comparison of the releases: an absent one is equal to any.
unfoldable pub compare_releases : Text → Text → Option ℤ
compare_releases a b = if is_empty a || is_empty b then some (pos 0) else rpmvercmp a b

-- A difference decides, or else what follows.
unfoldable pub or_then : Option ℤ → Option ℤ → Option ℤ
or_then none next = none
or_then (some z) next = if is_zero z then next else some z

unfoldable pub compare_rpm_parts : RpmVersion → RpmVersion → Option ℤ
compare_rpm_parts a b =
    or_then (some (compare_int a.epoch b.epoch))
      (or_then (rpmvercmp a.version b.version) (compare_releases a.release b.release))

-- `CompareRPM`.
unfoldable pub compare_rpm : Text → Text → Option ℤ
compare_rpm a b = compare_rpm_parts (split_rpm a) (split_rpm b)
