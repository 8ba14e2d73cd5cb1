-- ===== src/Pkg/Debian/Progress.antt =====
-- `verrevcmp` of app/pkgmgr/version.go: what a round consumes of the two texts.
use deploy_witness_cli.Prelude.{
  ℕ, ◌+◌, ◌≤◌, ◌<◌, ◌≡◌, refl, sym, ◌∙◌, ◌≢◌, inl, inr, Bool, true, false, not, ◌&&◌, ◌||◌, [], ◌∷◌,
  arith, ◌==◌, if◌then◌else◌, Bool-cases, length, Text,
}
use deploy_witness_cli.Prelude.Int.{ℤ, pos, sub_ℕ, sub, is_zero}
use deploy_witness_cli.Pkg.Debian.{
  Scan, differ, left_over, part_round, scan_parts, is_part, dpkg_order, digit_run, is_digit,
  round_digits, skip_zeros, at,
}

-- No byte is 0.
abbrev pub no_zero : Text → Bool
no_zero [] = true
no_zero (c ∷ s) = not (c == 0) && no_zero s

-- What is left of a text after some rounds: no longer, without the byte 0 if the text has none, and, if
-- it starts differently, shorter.
pub record IsRest (s t : Text) : Type 0 where
  pub shorter : length t ≤ length s
  pub clean : no_zero s ≡ true → no_zero t ≡ true
  pub moved : is_digit (at s) ≢ is_digit (at t) → length t < length s

IsRest-refl : (s : Text) → IsRest s s
IsRest-refl s = record { shorter = omega arith; clean = λ h. h; moved = λ n. elim (n refl) [ ] }

IsRest-drop : (c : ℕ) (s t : Text) → IsRest s t → IsRest (c ∷ s) t
IsRest-drop c s t r = record {
  shorter = omega (arith, r.shorter);
  clean = λ h. r.clean (ground (arith, h));
  moved = λ n. omega (arith, r.shorter);
}

skip_zeros-IsRest : (s : Text) → IsRest s (skip_zeros s)
unfolding skip_zeros
skip_zeros-IsRest [] = IsRest-refl []
skip_zeros-IsRest (c ∷ s) = elim (Bool-cases (c == b'0')) [
  | inl e ↦ rw e (IsRest-drop c s (skip_zeros s) (skip_zeros-IsRest s))
  | inr e ↦ rw e (IsRest-refl (c ∷ s))
]

digit_run-IsRest :
    (f : ℤ) (a b : Text) → IsRest a (digit_run f a b).left × IsRest b (digit_run f a b).right
unfolding digit_run
digit_run-IsRest f [] b = (IsRest-refl [], IsRest-refl b)
digit_run-IsRest f (c ∷ a) [] = (IsRest-refl (c ∷ a), IsRest-refl [])
digit_run-IsRest f (c ∷ a) (d ∷ b) =
    let g = if is_zero f then sub_ℕ c d else f in
    let ih = digit_run-IsRest g a b in
    elim (Bool-cases (is_digit c && is_digit d)) [
      | inl e ↦ rw e (IsRest-drop c a _ ih.0, IsRest-drop d b _ ih.1)
      | inr e ↦ rw e (IsRest-refl (c ∷ a), IsRest-refl (d ∷ b))
    ]

IsRest-trans : (s t u : Text) → IsRest s t → IsRest t u → IsRest s u
IsRest-trans s t u p q = record {
  shorter = omega (arith, p.shorter, q.shorter);
  clean = λ h. q.clean (p.clean h);
  moved = λ n. elim (Bool-cases (is_digit (at s))) [
    | inl a ↦ elim (Bool-cases (is_digit (at t))) [
      | inl b ↦ omega (arith, p.shorter, q.moved (λ k. n (a ∙ sym b ∙ k)))
      | inr b ↦ omega (arith, q.shorter, p.moved (λ k. cc (a, b, k)))
    ]
    | inr a ↦ elim (Bool-cases (is_digit (at t))) [
      | inl b ↦ omega (arith, q.shorter, p.moved (λ k. cc (a, b, k)))
      | inr b ↦ omega (arith, p.shorter, q.moved (λ k. n (a ∙ sym b ∙ k)))
    ]
  ];
}

pub round-IsRest :
    (x y : Text) → IsRest x (round_digits x y).left × IsRest y (round_digits x y).right
unfolding round_digits
round-IsRest x y =
    let run = digit_run-IsRest (pos 0) (skip_zeros x) (skip_zeros y) in
    (
      IsRest-trans x (skip_zeros x) _ (skip_zeros-IsRest x) run.0,
      IsRest-trans y (skip_zeros y) _ (skip_zeros-IsRest y) run.1,
    )

-- What is left of two texts by the loop over the characters that are no digits.
pub record IsScanned (a b x y : Text) : Type 0 where
  pub shorter : length x + length y ≤ length a + length b
  pub clean_left : no_zero a ≡ true → no_zero x ≡ true
  pub clean_right : no_zero b ≡ true → no_zero y ≡ true
  pub stops : (is_part (at x) || is_part (at y)) ≡ false

abbrev pub Scanned : Text → Text → Scan → Type 0
Scanned a b (differ z) = Unit
Scanned a b (left_over x y) = IsScanned a b x y

stop-IsScanned : (a b : Text) → (is_part (at a) || is_part (at b)) ≡ false → IsScanned a b a b
stop-IsScanned a b e = record {
  shorter = omega arith;
  clean_left = λ h. h;
  clean_right = λ h. h;
  stops = e;
}

part_round-Scanned :
    (a b : Text) (s : Scan)
    → Scanned a b s
    → Scanned a b (part_round (at a) (at b) (left_over a b) s)
unfolding part_round
part_round-Scanned a b s k = elim (Bool-cases (is_part (at a) || is_part (at b))) [
  | inr e ↦ rw e (stop-IsScanned a b e)
  | inl e ↦ elim (Bool-cases (is_zero (sub (dpkg_order (at a)) (dpkg_order (at b))))) [
    | inl z ↦ rw (e, z) k
    | inr z ↦ rw (e, z) tt
  ]
]

-- A scan of what follows is a scan of the longer texts.
longer-Scanned :
    (a b a' b' : Text) (s : Scan) → IsRest a a' → IsRest b b' → Scanned a' b' s → Scanned a b s
longer-Scanned a b a' b' (differ z) p q h = tt
longer-Scanned a b a' b' (left_over x y) p q h = record {
  shorter = omega (arith, p.shorter, q.shorter, h.shorter);
  clean_left = λ k. h.clean_left (p.clean k);
  clean_right = λ k. h.clean_right (q.clean k);
  stops = h.stops;
}

pub scan_parts-Scanned : (a b : Text) → Scanned a b (scan_parts a b)
unfolding scan_parts is_part
scan_parts-Scanned [] [] = stop-IsScanned [] [] refl
scan_parts-Scanned [] (d ∷ b) = part_round-Scanned [] (d ∷ b) (scan_parts [] b) (
    longer-Scanned [] (d ∷ b) [] b (scan_parts [] b) (IsRest-refl [])
      (IsRest-drop d b b (IsRest-refl b)) (scan_parts-Scanned [] b))
scan_parts-Scanned (c ∷ a) [] = part_round-Scanned (c ∷ a) [] (scan_parts a []) (
    longer-Scanned (c ∷ a) [] a [] (scan_parts a []) (IsRest-drop c a a (IsRest-refl a))
      (IsRest-refl []) (scan_parts-Scanned a []))
scan_parts-Scanned (c ∷ a) (d ∷ b) = part_round-Scanned (c ∷ a) (d ∷ b) (scan_parts a b) (
    longer-Scanned (c ∷ a) (d ∷ b) a b (scan_parts a b) (IsRest-drop c a a (IsRest-refl a))
      (IsRest-drop d b b (IsRest-refl b)) (scan_parts-Scanned a b))
