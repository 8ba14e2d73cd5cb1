-- ===== src/Samples/Debian.antt =====
-- Tests of the comparison of Debian versions after version_test.go, and its theorems at concrete inputs.
use deploy_witness_cli.Prelude.{
  ◌≡◌, refl, Option, some, arith, Text, codes, trim_left_where, trim_space,
}
use deploy_witness_cli.Prelude.Int.{ℤ, pos, negsuc}
use deploy_witness_cli.Pkg.Debian.{
  compare_debian, split_debian, compare_split, compare_int, bare_number, compare_bare, is_numeric,
  compare_bytes, or_next, verrevcmp, scan_parts, part_round, dpkg_order, is_part, is_digit,
  round_digits, skip_zeros, digit_run, settle_digits,
}
use deploy_witness_cli.Pkg.Debian.Returns.{Returns, verrevcmp-Returns}
use deploy_witness_cli.Pkg.Debian.Antisymmetry.{negated}
use deploy_witness_cli.Pkg.Debian.Exchanged.{is_word, compare_debian_antisym}

-- Opening this opens all that a comparison computes with.
order : Text → Text → Option ℤ
unfolding compare_debian split_debian compare_split compare_int bare_number compare_bare is_numeric
    compare_bytes or_next verrevcmp scan_parts part_round dpkg_order is_part is_digit round_digits
    skip_zeros digit_run settle_digits trim_space trim_left_where
order a b = compare_debian a b

candidate_first : order (codes "1.0~rc1") (codes "1.0") ≡ some (negsuc 0)
unfolding order
candidate_first = refl

revision_by_number : order (codes "1.0-10") (codes "1.0-9") ≡ some (pos 1)
unfolding order
revision_by_number = refl

epoch_first : order (codes "1:0.5") (codes "2.0") ≡ some (pos 1)
unfolding order
epoch_first = refl

-- An epoch that is a word is greater than a longer number, and the number is greater than the word.
word_greater : order (codes "x:1") (codes "12:1") ≡ some (pos 1)
unfolding order
word_greater = refl

number_greater : order (codes "12:1") (codes "x:1") ≡ some (pos 1)
unfolding order
number_greater = refl

same_kind :
    is_word (split_debian (codes "1:1.0-1")).epoch ≡ is_word (split_debian (codes "1.0-2")).epoch
unfolding split_debian bare_number is_numeric is_digit trim_space trim_left_where
same_kind = refl

compare_debian_antisym_example :
    compare_debian (codes "1.0-2") (codes "1:1.0-1")
    ≡ negated (compare_debian (codes "1:1.0-1") (codes "1.0-2"))
compare_debian_antisym_example = compare_debian_antisym (codes "1:1.0-1") (codes "1.0-2") same_kind

verrevcmp-Returns_example : Returns (verrevcmp 9 (codes "1.0") (codes "1.0a"))
verrevcmp-Returns_example =
    verrevcmp-Returns 9 (codes "1.0") (codes "1.0a") refl refl (ground arith)
