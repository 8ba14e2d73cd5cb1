-- ===== src/Pkg/Debian.antt =====
-- app/pkgmgr/version.go: `CompareDebian` with all it calls. A version is a list of bytes; an index into a
-- string is the rest of the list, and past the end the byte is 0, as the code's `at` says. The main loop
-- of `verrevcmp` is on fuel: `none` is a run that has not returned.
pub mod Rounds
pub mod Hangs
pub mod Antisymmetry
pub mod Exchanged
pub mod Progress
pub mod Returns
pub mod Reflexive
use deploy_witness_cli.Prelude.{
  ℕ, zero, suc, ◌+◌, ◌-◌, Bool, true, not, ◌&&◌, ◌||◌, Option, none, some, [], ◌∷◌, ltb, leb, ◌==◌,
  if◌then◌else◌, length, Text, codes, is_empty, trim_left_where, trim_space, cut_first, cut_last,
}
use deploy_witness_cli.Prelude.Int.{ℤ, pos, negsuc, sub_ℕ, sub, is_zero}

-- `at(s, 0)`.
abbrev pub at : Text → ℕ
at [] = 0
at (c ∷ s) = c

-- The local `isDigit`.
unfoldable pub is_digit : ℕ → Bool
is_digit c = leb b'0' c && leb c b'9'

unfoldable pub is_letter : ℕ → Bool
is_letter c = (leb b'a' c && leb c b'z') || (leb b'A' c && leb c b'Z')

-- `dpkgOrder`.
unfoldable pub dpkg_order : ℕ → ℤ
unfolding is_digit is_letter
dpkg_order c =
    if is_digit c
    then pos 0
    else if is_letter c
    then pos c
    else if c == b'~'
    then negsuc 0
    else if c == 0
    then pos 0
    else pos (c + 256)

-- What the loop over the characters that are no digits comes to: the difference that it returns, or what
-- is left of the two texts.
pub data Scan : Type 0 where
  differ : ℤ → Scan
  left_over : Text → Text → Scan

-- A byte keeps that loop running.
unfoldable pub is_part : ℕ → Bool
is_part c = not (c == 0) && not (is_digit c)

-- One round of that loop on two bytes: where it stops, and how it goes on.
unfoldable pub part_round : ℕ → ℕ → Scan → Scan → Scan
part_round c d stop next =
    let difference = sub (dpkg_order c) (dpkg_order d) in
    if is_part c || is_part d
    then (if is_zero difference then next else differ difference)
    else stop

-- That loop.
unfoldable pub scan_parts : Text → Text → Scan
scan_parts [] [] = left_over [] []
scan_parts [] (d ∷ b) = part_round 0 d (left_over [] (d ∷ b)) (scan_parts [] b)
scan_parts (c ∷ a) [] = part_round c 0 (left_over (c ∷ a) []) (scan_parts a [])
scan_parts (c ∷ a) (d ∷ b) = part_round c d (left_over (c ∷ a) (d ∷ b)) (scan_parts a b)

-- The loops over the leading zeros.
unfoldable pub skip_zeros : Text → Text
skip_zeros [] = []
skip_zeros (c ∷ s) = if c == b'0' then skip_zeros s else c ∷ s

pub record Digits : Type 0 where
  pub first_diff : ℤ
  pub left : Text
  pub right : Text

-- The loop over the common digits.
unfoldable pub digit_run : ℤ → Text → Text → Digits
digit_run first [] b = record { first_diff = first; left = []; right = b }
digit_run first (c ∷ a) [] = record { first_diff = first; left = c ∷ a; right = [] }
digit_run first (c ∷ a) (d ∷ b) =
    let rest = digit_run (if is_zero first then sub_ℕ c d else first) a b in
    if is_digit c && is_digit d
    then rest
    else record { first_diff = first; left = c ∷ a; right = d ∷ b }

-- How a round ends after its digits, and `rest`, what the next rounds come to.
unfoldable pub settle_digits : Digits → Option ℤ → Option ℤ
settle_digits r rest =
    if is_digit (at r.left)
    then some (pos 1)
    else if is_digit (at r.right)
    then some (negsuc 0)
    else if is_zero r.first_diff
    then rest
    else some r.first_diff

-- The digits of a round.
unfoldable pub round_digits : Text → Text → Digits
round_digits a b = digit_run (pos 0) (skip_zeros a) (skip_zeros b)

-- `verrevcmp`.
unfoldable pub verrevcmp : ℕ → Text → Text → Option ℤ
verrevcmp zero a b = none
verrevcmp (suc fuel) a b =
    if is_empty a && is_empty b then some (pos 0) else elim (scan_parts a b) [
      | differ z ↦ some z
      | left_over x y ↦
          let r = round_digits x y in
          let rest = verrevcmp fuel r.left r.right in settle_digits r rest
    ]

-- Enough fuel for two texts without the byte 0.
abbrev pub enough : Text → Text → ℕ
enough a b = suc (length a + length b)

-- `sign`.
abbrev pub sign : ℤ → ℤ
sign (pos zero) = pos 0
sign (pos (suc n)) = pos 1
sign (negsuc n) = negsuc 0

-- `strings.Compare`.
unfoldable pub compare_bytes : Text → Text → ℤ
compare_bytes [] [] = pos 0
compare_bytes [] (d ∷ t) = negsuc 0
compare_bytes (c ∷ s) [] = pos 1
compare_bytes (c ∷ s) (d ∷ t) =
    let rest = compare_bytes s t in if ltb c d then negsuc 0 else if ltb d c then pos 1 else rest

all_digits : Text → Bool
all_digits [] = true
all_digits (c ∷ s) = is_digit c && all_digits s

-- `isNumeric`.
unfoldable pub is_numeric : Text → Bool
unfolding all_digits
is_numeric s = not (is_empty s) && all_digits s

-- `strings.TrimLeft(strings.TrimSpace(a), "0")`.
unfoldable pub bare_number : Text → Text
bare_number a = trim_left_where (λ c. c == b'0') (trim_space a)

-- `compareInt` on the trimmed texts.
unfoldable pub compare_bare : Text → Text → ℤ
compare_bare a b =
    if not (is_numeric a) && not (is_empty a)
    then sign (compare_bytes a b)
    else if not (length a == length b)
    then (if ltb (length b) (length a) then pos 1 else negsuc 0)
    else sign (compare_bytes a b)

-- `compareInt`.
unfoldable pub compare_int : Text → Text → ℤ
compare_int a b = compare_bare (bare_number a) (bare_number b)

pub record DebianVersion : Type 0 where
  pub epoch : Text
  pub upstream : Text
  pub revision : Text

-- The part of `splitDebian` after the epoch.
split_revision : Text → Text → DebianVersion
unfolding cut_last
split_revision epoch v = elim (cut_last b'-' v) [
  | none ↦ record { epoch = epoch; upstream = v; revision = [] }
  | some p ↦ record { epoch = epoch; upstream = p.0; revision = p.1 }
]

-- `splitDebian`.
unfoldable pub split_debian : Text → DebianVersion
unfolding cut_first split_revision
split_debian v =
    let s = trim_space v in
    elim (cut_first b':' s) [
      | none ↦ split_revision (codes "0") s
      | some p ↦ split_revision p.0 p.1
    ]

-- A difference decides, or else what follows.
unfoldable pub or_next : Option ℤ → Option ℤ → Option ℤ
or_next none next = none
or_next (some z) next = if is_zero z then next else some (sign z)

unfoldable pub compare_split : DebianVersion → DebianVersion → Option ℤ
compare_split a b = or_next (some (compare_int a.epoch b.epoch)) (
    or_next (verrevcmp (enough a.upstream b.upstream) a.upstream b.upstream)
      (or_next (verrevcmp (enough a.revision b.revision) a.revision b.revision) (some (pos 0))))

-- `CompareDebian`.
unfoldable pub compare_debian : Text → Text → Option ℤ
compare_debian a b = compare_split (split_debian a) (split_debian b)
