-- ===== src/Pkg/Debian/Rounds.antt =====
-- `verrevcmp` of app/pkgmgr/version.go, one round at a time.
use deploy_witness_cli.Prelude.{
  ℕ, suc, ◌≡◌, refl, ap, ◌&&◌, Option, some, if◌then◌else◌, Text, is_empty,
}
use deploy_witness_cli.Prelude.Int.{ℤ, pos}
use deploy_witness_cli.Pkg.Debian.{
  Scan, differ, left_over, scan_parts, settle_digits, round_digits, verrevcmp,
}

-- What a round does after the characters that are no digits.
unfoldable pub after_scan : ℕ → Scan → Option ℤ
after_scan fuel (differ z) = some z
after_scan fuel (left_over x y) =
    settle_digits (round_digits x y)
      (verrevcmp fuel (round_digits x y).left (round_digits x y).right)

after_scan_lem :
    (fuel : ℕ) (s : Scan)
    → elim s [
      | differ z ↦ some z
      | left_over x y ↦
          settle_digits
            (round_digits x y)
            (verrevcmp fuel (round_digits x y).left (round_digits x y).right)
    ]
      ≡ after_scan fuel s
unfolding after_scan
after_scan_lem fuel (differ z) = refl
after_scan_lem fuel (left_over x y) = refl

pub verrevcmp-suc :
    (fuel : ℕ) (a b : Text)
    → verrevcmp (suc fuel) a b
      ≡ (if is_empty a && is_empty b then some (pos 0) else after_scan fuel (scan_parts a b))
unfolding verrevcmp
verrevcmp-suc fuel a b =
    ap (λ r. if is_empty a && is_empty b then some (pos 0) else r)
      (after_scan_lem fuel (scan_parts a b))
