-- ===== src/Pkg/Debian/Reflexive.antt =====
-- `verrevcmp` of app/pkgmgr/version.go: a text equals itself.
use deploy_witness_cli.Prelude.{
  ℕ, zero, suc, ◌+◌, ◌<◌, ◌≡◌, refl, sym, ap, ◌∙◌, true, some, arith, length, Text,
}
use deploy_witness_cli.Prelude.Int.{ℤ, pos, negsuc}
use deploy_witness_cli.Pkg.Debian.{verrevcmp}
use deploy_witness_cli.Pkg.Debian.Progress.{no_zero}
use deploy_witness_cli.Pkg.Debian.Returns.{verrevcmp-Returns}
use deploy_witness_cli.Pkg.Debian.Antisymmetry.{negated, verrevcmp_antisym}

own_negative : (z : ℤ) → some z ≡ negated (some z) → z ≡ pos 0
own_negative (pos zero) h = refl
own_negative (pos (suc n)) h = ground (arith, h)
own_negative (negsuc n) h = ground (arith, h)

-- A text without the byte 0 is found equal to itself, given fuel for one round more than its bytes twice.
pub verrevcmp_refl :
    (fuel : ℕ) (a : Text)
    → no_zero a ≡ true
    → length a + length a < fuel
    → verrevcmp fuel a a ≡ some (pos 0)
verrevcmp_refl fuel a h l =
    let (z, e) = verrevcmp-Returns fuel a a h h l in
    e ∙ ap some (own_negative z (sym e ∙ verrevcmp_antisym fuel a a ∙ ap negated e))
