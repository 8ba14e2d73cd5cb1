-- ===== src/Pkg/Rpm/Segments.antt =====
-- `rpmvercmp` of app/pkgmgr/version.go: the segments of a round, on exchanged texts.
use deploy_witness_cli.Prelude.{
  ℕ, ◌≡◌, refl, ap, ◌∙◌, inl, inr, Bool, true, false, ◌||◌, [], ◌∷◌, arith, if◌then◌else◌,
  Bool-cases, Text, is_empty, span,
}
use deploy_witness_cli.Prelude.Int.{pos, negsuc, is_zero, neg}
use deploy_witness_cli.Pkg.Debian.{at, is_digit, is_letter, skip_zeros}
use deploy_witness_cli.Pkg.Debian.Antisymmetry.{is_zero-neg}
use deploy_witness_cli.Pkg.Debian.Exchanged.{compare_bytes_antisym}
use deploy_witness_cli.Pkg.Rpm.{Round, settled, onward, ended, compare_segments, segment_round}

-- A round on the exchanged texts.
abbrev pub swapped : Round → Round
swapped (settled z) = settled (neg z)
swapped (onward a b) = onward b a

pub ended-swapped : (a b : Text) → (is_empty a || is_empty b) ≡ true → ended b a ≡ neg (ended a b)
unfolding ended
ended-swapped [] [] h = refl
ended-swapped [] (d ∷ b) h = refl
ended-swapped (c ∷ a) [] h = refl
ended-swapped (c ∷ a) (d ∷ b) h = cc h

compare_segments_antisym :
    (numeric : Bool) (a b : Text)
    → compare_segments numeric b a ≡ neg (compare_segments numeric a b)
unfolding compare_segments
compare_segments_antisym true a b =
    let x = skip_zeros a in
    let y = skip_zeros b in let e = compare_bytes_antisym x y in ground (arith, e)
compare_segments_antisym false a b = compare_bytes_antisym a b

-- Two segments that are both there.
segment_round-swapped :
    (numeric : Bool) (a b : Text × Text)
    → is_empty a.0 ≡ false
    → is_empty b.0 ≡ false
    → segment_round numeric b a ≡ swapped (segment_round numeric a b)
unfolding segment_round
segment_round-swapped numeric a b h k =
    let e = compare_segments_antisym numeric a.0 b.0 in
    elim (Bool-cases (is_zero (compare_segments numeric a.0 b.0))) [
      | inl z ↦
          let y : is_zero (compare_segments numeric b.0 a.0) ≡ true =
            ap is_zero e ∙ (is_zero-neg (compare_segments numeric a.0 b.0) ∙ z) in
          rw (h, k, z, y) refl
      | inr z ↦
          let y : is_zero (compare_segments numeric b.0 a.0) ≡ false =
            ap is_zero e ∙ (is_zero-neg (compare_segments numeric a.0 b.0) ∙ z) in
          rw (h, k, z, y) (ap settled e)
    ]

span-filled :
    (test : ℕ → Bool) (s : Text)
    → is_empty s ≡ false
    → test (at s) ≡ true
    → is_empty (span test s).0 ≡ false
unfolding span
span-filled test [] h t = cc h
span-filled test (c ∷ s) h t = rw t refl

span-none : (test : ℕ → Bool) (s : Text) → test (at s) ≡ false → is_empty (span test s).0 ≡ true
unfolding span
span-none test [] t = refl
span-none test (c ∷ s) t = rw t refl

-- A digit is no letter.
digit_no_letter : (c : ℕ) → is_digit c ≡ true → is_letter c ≡ false
unfolding is_digit is_letter
digit_no_letter c h = ground (arith, h)

-- The segment part of a round, as `rpm_round` chooses it.
abbrev pub segments : Text → Text → Round
segments a b =
    if is_digit (at a)
    then segment_round true (span is_digit a) (span is_digit b)
    else segment_round false (span is_letter a) (span is_letter b)

segment-none :
    (numeric : Bool) (a b : Text × Text)
    → is_empty b.0 ≡ true
    → segment_round numeric a b ≡ settled (if numeric then pos 1 else negsuc 0)
unfolding segment_round
segment-none numeric a b h = rw h refl

pub segments-swapped :
    (a b : Text)
    → is_empty a ≡ false
    → is_empty b ≡ false
    → (is_digit (at a) || is_letter (at a)) ≡ true
    → (is_digit (at b) || is_letter (at b)) ≡ true
    → segments b a ≡ swapped (segments a b)
segments-swapped a b m n x y = elim (Bool-cases (is_digit (at a))) [
  | inl d ↦ elim (Bool-cases (is_digit (at b))) [
    | inl f ↦
        rw (d, f)
          (segment_round-swapped true (span is_digit a) (span is_digit b)
            (span-filled is_digit a m d) (span-filled is_digit b n f))
    | inr f ↦
        let p = segment-none true (span is_digit a) (span is_digit b) (span-none is_digit b f) in
        let q =
          segment-none false (span is_letter b) (span is_letter a)
            (span-none is_letter a (digit_no_letter (at a) d)) in
        rw (d, f, p, q) refl
  ]
  | inr d ↦ elim (Bool-cases (is_digit (at b))) [
    | inl f ↦
        let p =
          segment-none false (span is_letter a) (span is_letter b)
            (span-none is_letter b (digit_no_letter (at b) f)) in
        let q = segment-none true (span is_digit b) (span is_digit a) (span-none is_digit a d) in
        rw (d, f, p, q) refl
    | inr f ↦
        rw (d, f)
          (segment_round-swapped false (span is_letter a) (span is_letter b)
            (span-filled is_letter a m (ground (arith, x, d)))
            (span-filled is_letter b n (ground (arith, y, f))))
  ]
]
