-- ===== src/Pkg/Debian/Hangs.antt =====
-- `verrevcmp` of app/pkgmgr/version.go on the byte 0.
use deploy_witness_cli.Prelude.{ℕ, zero, suc, ◌≡◌, refl, none, ◌∷◌, Text}
use deploy_witness_cli.Pkg.Debian.{
  verrevcmp, scan_parts, part_round, is_part, round_digits, skip_zeros, digit_run, settle_digits,
  is_digit,
}

-- Two texts that start with the byte 0 are never told apart nor found equal: the comparison does not
-- return, whatever the fuel and whatever follows.
pub verrevcmp_hangs : (fuel : ℕ) (a b : Text) → verrevcmp fuel (0 ∷ a) (0 ∷ b) ≡ none
unfolding verrevcmp scan_parts part_round is_part round_digits skip_zeros digit_run settle_digits
    is_digit
verrevcmp_hangs zero a b = refl
verrevcmp_hangs (suc fuel) a b = verrevcmp_hangs fuel a b
