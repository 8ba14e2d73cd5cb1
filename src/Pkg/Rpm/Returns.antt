-- ===== src/Pkg/Rpm/Returns.antt =====
-- `CompareRPM` of app/pkgmgr/version.go returns: a round leaves less of the two texts.
use deploy_witness_cli.Prelude.{
  ℕ, zero, suc, ◌+◌, ◌≤◌, ◌≡◌, refl, inl, inr, Bool, true, false, not, ◌&&◌, ◌||◌, Option, none,
  some, [], ◌∷◌, arith, if◌then◌else◌, Bool-cases, length, Text, text_eq, is_empty, span,
  span-length,
}
use deploy_witness_cli.Prelude.Int.{ℤ, pos, is_zero}
use deploy_witness_cli.Pkg.Debian.{at, is_digit, is_letter, compare_int}
use deploy_witness_cli.Pkg.Rpm.{
  is_kept, skip_separators, starts, Round, settled, onward, tail, compare_segments, segment_round,
  rpm_round, go_on, rpm_rounds, rpmvercmp, split_rpm, compare_releases, or_then, compare_rpm_parts,
  compare_rpm,
}

-- What a round leaves is less than a number of bytes.
abbrev IsSmaller : ℕ → Round → Type 0
IsSmaller n (settled z) = Unit
IsSmaller n (onward a b) = suc (length a + length b) ≤ n

if_IsSmaller :
    (c : Bool) (n : ℕ) (x y : Round)
    → (c ≡ true → IsSmaller n x)
    → (c ≡ false → IsSmaller n y)
    → IsSmaller n (if c then x else y)
if_IsSmaller true n x y p q = p refl
if_IsSmaller false n x y p q = q refl

skip-length : (a : Text) → length (skip_separators a) ≤ length a
unfolding skip_separators
skip-length [] = omega arith
skip-length (c ∷ a) = elim (Bool-cases (is_kept c)) [
  | inl k ↦ rw k (omega arith)
  | inr k ↦ rw k (omega (arith, skip-length a))
]

tail-length : (c : ℕ) (a : Text) → starts c a ≡ true → suc (length (tail a)) ≤ length a
unfolding starts
tail-length c [] h = cc h
tail-length c (d ∷ a) h = omega arith

filled-length : (a : Text) → is_empty a ≡ false → 1 ≤ length a
filled-length [] h = cc h
filled-length (c ∷ a) h = omega arith

tails-IsSmaller :
    (c : ℕ) (a b : Text)
    → not (starts c a) ≡ false
    → not (starts c b) ≡ false
    → IsSmaller (length a + length b) (onward (tail a) (tail b))
tails-IsSmaller c a b h k =
    let x = tail-length c a (ground (arith, h)) in
    let y = tail-length c b (ground (arith, k)) in omega (arith, x, y)

segment-IsSmaller :
    (numeric : Bool) (test : ℕ → Bool) (a b : Text)
    → IsSmaller (length a + length b) (segment_round numeric (span test a) (span test b))
unfolding segment_round
segment-IsSmaller numeric test a b =
    let n = length a + length b in
    if_IsSmaller (is_empty (span test b).0) n _ _ (λ e. tt)
      (λ e.
        if_IsSmaller (is_zero (compare_segments numeric (span test a).0 (span test b).0)) n _ _
          (λ z.
            let f = filled-length (span test b).0 e in
            omega (arith, f, span-length test a, span-length test b))
          (λ z. tt))

round-IsSmaller : (a b : Text) → IsSmaller (length a + length b) (rpm_round a b)
unfolding rpm_round
round-IsSmaller a b =
    let n = length a + length b in
    if_IsSmaller (starts b'~' a || starts b'~' b) n _ _
      (λ t.
        if_IsSmaller (not (starts b'~' a)) n _ _ (λ e. tt)
          (λ e. if_IsSmaller (not (starts b'~' b)) n _ _ (λ f. tt) (tails-IsSmaller b'~' a b e)))
      (λ t.
        if_IsSmaller (starts b'^' a || starts b'^' b) n _ _
          (λ c.
            if_IsSmaller (is_empty a) n _ _ (λ e. tt)
              (λ e.
                if_IsSmaller (is_empty b) n _ _ (λ f. tt)
                  (λ f.
                    if_IsSmaller (not (starts b'^' a)) n _ _ (λ g. tt)
                      (λ g.
                        if_IsSmaller (not (starts b'^' b)) n _ _ (λ k. tt)
                          (tails-IsSmaller b'^' a b g)))))
          (λ c.
            if_IsSmaller (is_empty a || is_empty b) n _ _ (λ e. tt)
              (λ e.
                if_IsSmaller (is_digit (at a)) n _ _ (λ d. segment-IsSmaller true is_digit a b)
                  (λ d. segment-IsSmaller false is_letter a b))))

-- A run that has returned.
abbrev pub Returns : Option ℤ → Type 0
Returns r = (z : ℤ) × (r ≡ some z)

go_on-Returns :
    (n : ℕ) (r : Round) (next : Text → Text → Option ℤ)
    → IsSmaller n r
    → ((a b : Text) → suc (length a + length b) ≤ n → Returns (next a b))
    → Returns (go_on r next)
unfolding go_on
go_on-Returns n (settled z) next s f = (z, refl)
go_on-Returns n (onward a b) next s f = f a b s

if_Returns : (c : Bool) (x y : Option ℤ) → Returns x → Returns y → Returns (if c then x else y)
if_Returns true x y p q = p
if_Returns false x y p q = q

rpm_rounds-Returns :
    (fuel : ℕ) (a b : Text) → length a + length b ≤ fuel → Returns (rpm_rounds fuel a b)
unfolding rpm_rounds
rpm_rounds-Returns zero [] [] h = (pos 0, refl)
rpm_rounds-Returns zero [] (d ∷ b) h = let q : ◌≡◌ {A = ℕ} 0 1 = omega (arith, h) in cc q
rpm_rounds-Returns zero (c ∷ a) b h = let q : ◌≡◌ {A = ℕ} 0 1 = omega (arith, h) in cc q
rpm_rounds-Returns (suc fuel) a b h =
    let x = skip_separators a in
    let y = skip_separators b in
    if_Returns (is_empty a && is_empty b) (some (pos 0)) _ (pos 0, refl)
      (go_on-Returns (length x + length y) (rpm_round x y) _ (round-IsSmaller x y) (λ u v s.
        let k = skip-length a in
        let l = skip-length b in rpm_rounds-Returns fuel u v (omega (arith, h, s, k, l))))

rpmvercmp-Returns : (a b : Text) → Returns (rpmvercmp a b)
unfolding rpmvercmp
rpmvercmp-Returns a b =
    if_Returns (text_eq a b) (some (pos 0)) _ (pos 0, refl)
      (rpm_rounds-Returns (length a + length b) a b (omega arith))

or_then-Returns : (r n : Option ℤ) → Returns r → Returns n → Returns (or_then r n)
unfolding or_then
or_then-Returns none n r s = cc r.1
or_then-Returns (some z) n r s = if_Returns (is_zero z) n (some z) s (z, refl)

releases-Returns : (a b : Text) → Returns (compare_releases a b)
unfolding compare_releases
releases-Returns a b =
    if_Returns (is_empty a || is_empty b) (some (pos 0)) _ (pos 0, refl) (rpmvercmp-Returns a b)

-- The comparison of two RPM versions returns on all texts, within as many rounds as they have bytes.
pub compare_rpm-Returns : (a b : Text) → Returns (compare_rpm a b)
unfolding compare_rpm compare_rpm_parts
compare_rpm-Returns a b =
    let v = split_rpm a in
    let w = split_rpm b in
    or_then-Returns (some (compare_int v.epoch w.epoch)) _ (compare_int v.epoch w.epoch, refl)
      (or_then-Returns (rpmvercmp v.version w.version) _ (rpmvercmp-Returns v.version w.version)
        (releases-Returns v.release w.release))
