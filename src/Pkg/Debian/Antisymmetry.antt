-- ===== src/Pkg/Debian/Antisymmetry.antt =====
-- `CompareDebian` of app/pkgmgr/version.go: exchanging the two versions negates the answer.
use deploy_witness_cli.Prelude.{
  ℕ, zero, suc, ◌≡◌, refl, sym, ap, ◌∙◌, inl, inr, Bool, true, false, ◌&&◌, ◌||◌, Option, none,
  some, [], ◌∷◌, arith, if◌then◌else◌, Bool-cases, Text, is_empty,
}
use deploy_witness_cli.Prelude.Int.{
  ℤ, pos, negsuc, sub_ℕ, sub, is_zero, neg, neg-sub, neg-sub_ℕ, is_zero-sub_comm,
}
use deploy_witness_cli.Pkg.Debian.Rounds.{after_scan, verrevcmp-suc}
use deploy_witness_cli.Pkg.Debian.{
  Scan, differ, left_over, part_round, scan_parts, is_part, dpkg_order, Digits, digit_run, is_digit,
  settle_digits, round_digits, skip_zeros, verrevcmp, at,
}

-- What an exchange of the two texts does to each intermediate result.
abbrev flip : Scan → Scan
flip (differ z) = differ (neg z)
flip (left_over a b) = left_over b a

abbrev pub negated : Option ℤ → Option ℤ
negated none = none
negated (some z) = some (neg z)

abbrev exchange : Digits → Digits
exchange r = record { first_diff = neg r.first_diff; left = r.right; right = r.left }

pub is_zero-neg : (z : ℤ) → is_zero (neg z) ≡ is_zero z
is_zero-neg (pos zero) = refl
is_zero-neg (pos (suc n)) = ground arith
is_zero-neg (negsuc n) = refl

flip_zero :
    (z w : ℤ) (n : Scan)
    → w ≡ neg z
    → is_zero w ≡ is_zero z
    → (if is_zero w then flip n else differ w) ≡ flip (if is_zero z then n else differ z)
flip_zero z w n h e = elim (Bool-cases (is_zero z)) [
  | inl v ↦ rw (v, e ∙ v) refl
  | inr v ↦ rw (v, e ∙ v) (ap differ h)
]

flip_round :
    (p q : Bool) (z w : ℤ) (s n : Scan)
    → w ≡ neg z
    → is_zero w ≡ is_zero z
    → (if q || p then (if is_zero w then flip n else differ w) else flip s)
      ≡ flip (if p || q then (if is_zero z then n else differ z) else s)
flip_round false false z w s n h e = refl
flip_round false true z w s n h e = flip_zero z w n h e
flip_round true false z w s n h e = flip_zero z w n h e
flip_round true true z w s n h e = flip_zero z w n h e

flip-part_round :
    (c d : ℕ) (s n : Scan) → part_round d c (flip s) (flip n) ≡ flip (part_round c d s n)
unfolding part_round
flip-part_round c d s n =
    flip_round (is_part c) (is_part d) (sub (dpkg_order c) (dpkg_order d))
      (sub (dpkg_order d) (dpkg_order c)) s n (sym (neg-sub (dpkg_order c) (dpkg_order d)))
      (is_zero-sub_comm (dpkg_order d) (dpkg_order c))

flip-scan_parts : (a b : Text) → scan_parts b a ≡ flip (scan_parts a b)
unfolding scan_parts
flip-scan_parts [] [] = refl
flip-scan_parts [] (d ∷ b) =
    rw (flip-scan_parts [] b) (flip-part_round 0 d (left_over [] (d ∷ b)) (scan_parts [] b))
flip-scan_parts (c ∷ a) [] =
    rw (flip-scan_parts a []) (flip-part_round c 0 (left_over (c ∷ a) []) (scan_parts a []))
flip-scan_parts (c ∷ a) (d ∷ b) =
    rw (flip-scan_parts a b) (flip-part_round c d (left_over (c ∷ a) (d ∷ b)) (scan_parts a b))

neg_first :
    (f : ℤ) (c d : ℕ)
    → (if is_zero (neg f) then sub_ℕ d c else neg f) ≡ neg (if is_zero f then sub_ℕ c d else f)
neg_first f c d = elim (Bool-cases (is_zero f)) [
  | inl e ↦ rw (is_zero-neg f ∙ e, e) (sym (neg-sub_ℕ c d))
  | inr e ↦ rw (is_zero-neg f ∙ e, e) refl
]

exchange_digit :
    (p q : Bool) (r s : Digits) (f : ℤ) (c d : ℕ) (a b : Text)
    → r ≡ exchange s
    → (if q && p then r else record { first_diff = neg f; left = d ∷ b; right = c ∷ a })
      ≡ exchange (if p && q then s else record { first_diff = f; left = c ∷ a; right = d ∷ b })
exchange_digit true true r s f c d a b h = h
exchange_digit true false r s f c d a b h = refl
exchange_digit false true r s f c d a b h = refl
exchange_digit false false r s f c d a b h = refl

exchange-digit_run : (f : ℤ) (a b : Text) → digit_run (neg f) b a ≡ exchange (digit_run f a b)
unfolding digit_run
exchange-digit_run f [] [] = refl
exchange-digit_run f [] (d ∷ b) = refl
exchange-digit_run f (c ∷ a) [] = refl
exchange-digit_run f (c ∷ a) (d ∷ b) = exchange_digit (is_digit c) (is_digit d) _ _ f c d a b (
    ap (λ z. digit_run z b a) (neg_first f c d)
    ∙ exchange-digit_run (if is_zero f then sub_ℕ c d else f) a b)

settle_flipped :
    (p q : Bool) (z : ℤ) (rest : Option ℤ)
    → (p && q) ≡ false
    → (if q
        then some (pos 1)
        else if p
        then some (negsuc 0)
        else if is_zero (neg z)
        then negated rest
        else some (neg z))
      ≡ negated (
          if p
          then some (pos 1)
          else if q
          then some (negsuc 0)
          else if is_zero z
          then rest
          else some z)
settle_flipped true true z rest h = cc h
settle_flipped true false z rest h = refl
settle_flipped false true z rest h = refl
settle_flipped false false z rest h = elim (Bool-cases (is_zero z)) [
  | inl v ↦ rw (is_zero-neg z ∙ v, v) refl
  | inr v ↦ rw (is_zero-neg z ∙ v, v) refl
]

negated-settle_digits :
    (r : Digits) (rest : Option ℤ)
    → (is_digit (at r.left) && is_digit (at r.right)) ≡ false
    → settle_digits (exchange r) (negated rest) ≡ negated (settle_digits r rest)
unfolding settle_digits
negated-settle_digits r rest h =
    settle_flipped (is_digit (at r.left)) (is_digit (at r.right)) r.first_diff rest h

-- The loop over the common digits stops where one of the texts has no digit.
digit_run_stops :
    (f : ℤ) (a b : Text)
    → (is_digit (at (digit_run f a b).left) && is_digit (at (digit_run f a b).right)) ≡ false
unfolding digit_run is_digit
digit_run_stops f [] b = refl
digit_run_stops f (c ∷ a) [] = ground arith
digit_run_stops f (c ∷ a) (d ∷ b) =
    ground (arith, digit_run_stops (if is_zero f then sub_ℕ c d else f) a b)

exchange-round_digits : (a b : Text) → round_digits b a ≡ exchange (round_digits a b)
unfolding round_digits
exchange-round_digits a b = exchange-digit_run (pos 0) (skip_zeros a) (skip_zeros b)

verrevcmp_round :
    (x y : Text) (fuel : ℕ)
    → ((u v : Text) → verrevcmp fuel v u ≡ negated (verrevcmp fuel u v))
    → settle_digits
        (round_digits y x)
        (verrevcmp fuel (round_digits y x).left (round_digits y x).right)
      ≡ negated (
          settle_digits
            (round_digits x y)
            (verrevcmp fuel (round_digits x y).left (round_digits x y).right))
unfolding round_digits
verrevcmp_round x y fuel ih =
    let r = round_digits x y in
    ap (λ d. settle_digits d (verrevcmp fuel d.left d.right)) (exchange-round_digits x y)
    ∙ ap (settle_digits (exchange r)) (ih r.left r.right)
    ∙ negated-settle_digits r (verrevcmp fuel r.left r.right)
        (digit_run_stops (pos 0) (skip_zeros x) (skip_zeros y))

negated-after_scan :
    (fuel : ℕ)
    → ((u v : Text) → verrevcmp fuel v u ≡ negated (verrevcmp fuel u v))
    → (s : Scan) → after_scan fuel (flip s) ≡ negated (after_scan fuel s)
unfolding after_scan
negated-after_scan fuel ih (differ z) = refl
negated-after_scan fuel ih (left_over x y) = verrevcmp_round x y fuel ih

negated-choice :
    (p q : Bool) (r s : Option ℤ)
    → r ≡ negated s
    → (if q && p then some (pos 0) else r) ≡ negated (if p && q then some (pos 0) else s)
negated-choice true true r s h = refl
negated-choice true false r s h = h
negated-choice false true r s h = h
negated-choice false false r s h = h

-- The comparison of two texts, whatever the fuel, is negated if they are exchanged.
pub verrevcmp_antisym : (fuel : ℕ) (a b : Text) → verrevcmp fuel b a ≡ negated (verrevcmp fuel a b)
unfolding verrevcmp
verrevcmp_antisym zero a b = refl
verrevcmp_antisym (suc fuel) a b =
    verrevcmp-suc fuel b a
    ∙ negated-choice (is_empty a) (is_empty b) _ _ (
        ap (after_scan fuel) (flip-scan_parts a b)
        ∙ negated-after_scan fuel (verrevcmp_antisym fuel) (scan_parts a b))
    ∙ ap negated (sym (verrevcmp-suc fuel a b))
