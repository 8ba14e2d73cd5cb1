-- ===== src/Pkg/Debian/Exchanged.antt =====
-- `CompareDebian` of app/pkgmgr/version.go: exchanging the two versions negates the answer.
use deploy_witness_cli.Prelude.{
  zero, suc, ◌≡◌, refl, ap, ◌∙◌, inl, inr, Bool, not, ◌&&◌, Option, none, some, [], ◌∷◌, arith,
  Bool-cases, Text, is_empty,
}
use deploy_witness_cli.Prelude.Int.{ℤ, pos, negsuc, is_zero, neg}
use deploy_witness_cli.Pkg.Debian.{
  verrevcmp, enough, sign, compare_bytes, compare_bare, compare_int, bare_number, is_numeric,
  or_next, compare_split, compare_debian, split_debian, DebianVersion,
}
use deploy_witness_cli.Pkg.Debian.Antisymmetry.{negated, is_zero-neg, verrevcmp_antisym}

sign-neg : (z : ℤ) → sign (neg z) ≡ neg (sign z)
sign-neg (pos zero) = refl
sign-neg (pos (suc n)) = ground arith
sign-neg (negsuc n) = ground arith

pub compare_bytes_antisym : (a b : Text) → compare_bytes b a ≡ neg (compare_bytes a b)
unfolding compare_bytes
compare_bytes_antisym [] [] = refl
compare_bytes_antisym [] (d ∷ b) = refl
compare_bytes_antisym (c ∷ a) [] = refl
compare_bytes_antisym (c ∷ a) (d ∷ b) = ground (arith, compare_bytes_antisym a b)

-- An epoch that `compareInt` compares as text: it is neither a number nor empty.
abbrev pub is_word : Text → Bool
is_word a = not (is_numeric (bare_number a)) && not (is_empty (bare_number a))

pub compare_bare_antisym :
    (a b : Text)
    → (not (is_numeric a) && not (is_empty a)) ≡ (not (is_numeric b) && not (is_empty b))
    → compare_bare b a ≡ neg (compare_bare a b)
unfolding compare_bare
compare_bare_antisym a b h =
    let e = ap sign (compare_bytes_antisym a b) ∙ sign-neg (compare_bytes a b) in
    ground (arith, h, e)

or_next-negated : (r n : Option ℤ) → or_next (negated r) (negated n) ≡ negated (or_next r n)
unfolding or_next
or_next-negated none n = refl
or_next-negated (some z) n = elim (Bool-cases (is_zero z)) [
  | inl e ↦ rw (is_zero-neg z ∙ e, e) refl
  | inr e ↦ rw (is_zero-neg z ∙ e, e) (ap some (sign-neg z))
]

parts_antisym : (a b : Text) → verrevcmp (enough b a) b a ≡ negated (verrevcmp (enough a b) a b)
parts_antisym a b = ap (λ n. verrevcmp n b a) (omega arith) ∙ verrevcmp_antisym (enough a b) a b

or_next-three :
    (x : ℤ) (u r : Option ℤ)
    → or_next (some (neg x)) (or_next (negated u) (or_next (negated r) (some (pos 0))))
      ≡ negated (or_next (some x) (or_next u (or_next r (some (pos 0)))))
or_next-three x u r =
    ap (λ s. or_next (some (neg x)) (or_next (negated u) s)) (or_next-negated r (some (pos 0)))
    ∙ ap (or_next (some (neg x))) (or_next-negated u (or_next r (some (pos 0))))
    ∙ or_next-negated (some x) (or_next u (or_next r (some (pos 0))))

compare_split_antisym :
    (v w : DebianVersion)
    → is_word v.epoch ≡ is_word w.epoch
    → compare_split w v ≡ negated (compare_split v w)
unfolding compare_split compare_int
compare_split_antisym v w h =
    rw
      (
        compare_bare_antisym (bare_number v.epoch) (bare_number w.epoch) h,
        parts_antisym v.upstream w.upstream,
        parts_antisym v.revision w.revision,
      )
      (or_next-three (compare_bare (bare_number v.epoch) (bare_number w.epoch))
        (verrevcmp (enough v.upstream w.upstream) v.upstream w.upstream)
        (verrevcmp (enough v.revision w.revision) v.revision w.revision))

-- Exchanging two Debian versions negates the answer, if neither or both of their epochs are words.
pub compare_debian_antisym :
    (a b : Text)
    → is_word (split_debian a).epoch ≡ is_word (split_debian b).epoch
    → compare_debian b a ≡ negated (compare_debian a b)
unfolding compare_debian
compare_debian_antisym a b h = compare_split_antisym (split_debian a) (split_debian b) h
