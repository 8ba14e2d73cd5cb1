-- ===== src/Samples/Rpm.antt =====
-- Tests of the RPM comparison after version_test.go, and its theorems at concrete inputs.
use deploy_witness_cli.Prelude.{
  ◌≡◌, refl, Option, some, Text, codes, text_eq, trim_space, cut_first, cut_last, span,
}
use deploy_witness_cli.Prelude.Int.{ℤ, pos, negsuc}
use deploy_witness_cli.Pkg.Debian.{
  is_digit, is_letter, skip_zeros, compare_bytes, compare_int, compare_bare, bare_number,
  is_numeric,
}
use deploy_witness_cli.Pkg.Debian.Exchanged.{is_word}
use deploy_witness_cli.Pkg.Rpm.{
  is_kept, skip_separators, starts, ended, compare_segments, segment_round, rpm_round, go_on,
  rpm_rounds, rpmvercmp, split_release, split_rpm, compare_releases, or_then, compare_rpm_parts,
  compare_rpm,
}
use deploy_witness_cli.Pkg.Rpm.Returns.{Returns, compare_rpm-Returns}

compared : Text → Text → Option ℤ
unfolding compare_rpm compare_rpm_parts or_then compare_releases split_rpm split_release rpmvercmp
    rpm_rounds go_on rpm_round segment_round compare_segments ended starts skip_separators is_kept
    span cut_first cut_last trim_space text_eq compare_int compare_bare bare_number is_numeric
    compare_bytes skip_zeros is_letter is_digit
compared a b = compare_rpm a b

release_candidate : compared (codes "1.0~rc1") (codes "1.0") ≡ some (negsuc 0)
unfolding compared
release_candidate = refl

after_caret : compared (codes "1.0^git1") (codes "1.0") ≡ some (pos 1)
unfolding compared
after_caret = refl

later_epoch : compared (codes "1:1.0-1") (codes "2.0-1") ≡ some (pos 1)
unfolding compared
later_epoch = refl

no_release : compared (codes "1.010") (codes "1.10-3") ≡ some (pos 0)
unfolding compared
no_release = refl

-- A word against a number: both answers are 1.
word_epoch : compared (codes "10:1") (codes "x:1") ≡ compared (codes "x:1") (codes "10:1")
unfolding compared
word_epoch = refl

compare_rpm-Returns_example : Returns (compare_rpm (codes "1.0~rc1") (codes "1.0^git1-2"))
compare_rpm-Returns_example = compare_rpm-Returns (codes "1.0~rc1") (codes "1.0^git1-2")

epochs_alike :
    is_word (split_rpm (codes "1.0~rc1")).epoch ≡ is_word (split_rpm (codes "2:1.0")).epoch
unfolding split_rpm split_release cut_first cut_last trim_space text_eq bare_number is_numeric
    is_digit
epochs_alike = refl
