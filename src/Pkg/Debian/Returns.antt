-- ===== src/Pkg/Debian/Returns.antt =====
-- `verrevcmp` of app/pkgmgr/version.go: it returns, on texts without the byte 0.
use deploy_witness_cli.Pkg.Debian.Progress.{
  no_zero, round-IsRest, IsScanned, Scanned, scan_parts-Scanned,
}
use deploy_witness_cli.Prelude.{
  ℕ, zero, suc, ◌+◌, ◌<◌, ◌≡◌, refl, ◌∙◌, inl, inr, true, false, ◌&&◌, Option, some, [], ◌∷◌, arith,
  Bool-cases, length, Text, is_empty,
}
use deploy_witness_cli.Prelude.Int.{ℤ, pos, negsuc, is_zero}
use deploy_witness_cli.Pkg.Debian.Rounds.{after_scan, verrevcmp-suc}
use deploy_witness_cli.Pkg.Debian.{
  Scan, differ, left_over, scan_parts, is_part, Digits, is_digit, settle_digits, round_digits,
  verrevcmp, at,
}

abbrev pub Returns : Option ℤ → Type 0
Returns r = (z : ℤ) × (r ≡ some z)

settle_digits-Returns :
    (r : Digits) (rest : Option ℤ)
    → (is_digit (at r.left) ≡ false → is_digit (at r.right) ≡ false → Returns rest)
    → Returns (settle_digits r rest)
unfolding settle_digits
settle_digits-Returns r rest h = elim (Bool-cases (is_digit (at r.left))) [
  | inl p ↦ rw p (pos 1, refl)
  | inr p ↦ elim (Bool-cases (is_digit (at r.right))) [
    | inl q ↦ rw (p, q) (negsuc 0, refl)
    | inr q ↦ elim (Bool-cases (is_zero r.first_diff)) [
      | inl z ↦ rw (p, q, z) (h p q)
      | inr z ↦ rw (p, q, z) (r.first_diff, refl)
    ]
  ]
]

-- A text without the byte 0 that starts with no digit and no other character is empty.
stopped_empty :
    (x : Text) → no_zero x ≡ true → is_part (at x) ≡ false → is_digit (at x) ≡ false → length x ≡ 0
unfolding is_part
stopped_empty [] h p d = refl
stopped_empty (c ∷ x) h p d = ground (arith, h, p, d)

some_byte : (a b : Text) → (is_empty a && is_empty b) ≡ false → 0 < length a + length b
some_byte [] [] n = cc n
some_byte [] (d ∷ b) n = omega arith
some_byte (c ∷ a) b n = omega arith

-- The fuel that a round leaves is enough for what the round leaves.
round_shorter :
    (a b x y : Text)
    → (is_empty a && is_empty b) ≡ false
    → IsScanned a b x y
    → no_zero x ≡ true
    → no_zero y ≡ true
    → is_digit (at (round_digits x y).left) ≡ false
    → is_digit (at (round_digits x y).right) ≡ false
    → length (round_digits x y).left + length (round_digits x y).right < length a + length b
round_shorter a b x y n s hx hy p q =
    let r = round-IsRest x y in
    elim (Bool-cases (is_digit (at x))) [
      | inl dx ↦ omega (arith, s.shorter, r.0.moved (λ k. cc (dx, p, k)), r.1.shorter)
      | inr dx ↦ elim (Bool-cases (is_digit (at y))) [
        | inl dy ↦ omega (arith, s.shorter, r.1.moved (λ k. cc (dy, q, k)), r.0.shorter)
        | inr dy ↦ omega (
          arith,
          r.0.shorter,
          r.1.shorter,
          stopped_empty x hx (ground (arith, s.stops)) dx,
          stopped_empty y hy (ground (arith, s.stops)) dy,
          some_byte a b n,
        )
      ]
    ]

after_scan-Returns :
    (fuel : ℕ) (a b : Text) (s : Scan)
    → ((x y : Text)
        → no_zero x ≡ true
        → no_zero y ≡ true
        → length x + length y < fuel
        → Returns (verrevcmp fuel x y))
    → no_zero a ≡ true
    → no_zero b ≡ true
    → (is_empty a && is_empty b) ≡ false
    → length a + length b < suc fuel
    → Scanned a b s
    → Returns (after_scan fuel s)
unfolding after_scan
after_scan-Returns fuel a b (differ z) ih ha hb n l s = (z, refl)
after_scan-Returns fuel a b (left_over x y) ih ha hb n l s =
    let r = round-IsRest x y in
    let (hx, hy) : (no_zero x ≡ true) × (no_zero y ≡ true) = (s.clean_left ha, s.clean_right hb) in
    settle_digits-Returns (round_digits x y) _ (λ p q.
      ih (round_digits x y).left (round_digits x y).right (r.0.clean hx) (r.1.clean hy)
        (omega (arith, l, round_shorter a b x y n s hx hy p q)))

-- On texts without the byte 0, `verrevcmp` returns, and fuel for one round more than they have bytes is
-- enough.
pub verrevcmp-Returns :
    (fuel : ℕ) (a b : Text)
    → no_zero a ≡ true
    → no_zero b ≡ true
    → length a + length b < fuel
    → Returns (verrevcmp fuel a b)
verrevcmp-Returns zero a b ha hb l = ground (arith, l)
verrevcmp-Returns (suc fuel) a b ha hb l = elim (Bool-cases (is_empty a && is_empty b)) [
  | inl e ↦ (pos 0, verrevcmp-suc fuel a b ∙ rw e refl)
  | inr e ↦
      let s = scan_parts-Scanned a b in
      let rest =
        after_scan-Returns fuel a b (scan_parts a b) (verrevcmp-Returns fuel) ha hb e l s in
      (rest.0, verrevcmp-suc fuel a b ∙ rw e rest.1)
]
