-- ===== src/Manifest/Interpolate/Escape.antt =====
-- `substitute` of app/collect/manifest/interpolate.go: the escape of a dollar, and a reference alone.
use deploy_witness_cli.Prelude.{
  ℕ, zero, suc, ◌≤◌, ◌≡◌, refl, inl, inr, true, false, Option, some, List, [], ◌∷◌, arith, ◌==◌,
  if◌then◌else◌, ==_iff, Bool-cases, length, Text, strip_prefix,
}
use deploy_witness_cli.Manifest.Interpolate.{
  Warning, gives, on_prefix, next_dollar, next, pending, settle, joined, substitute_from,
  substitute,
}

-- Every dollar written twice, as compose asks for a literal one.
unfoldable pub escape : Text → Text
escape [] = []
escape (c ∷ s) = if c == b'$' then c ∷ c ∷ escape s else c ∷ escape s

next-dollar :
    (env : Text → Option Text) (whole s : Text) (c : ℕ)
    → (c == b'$') ≡ true
    → next env whole c (c ∷ s) ≡ (gives (c ∷ []) [], s)
unfolding next next_dollar on_prefix strip_prefix
next-dollar env whole s c h = let e : c ≡ b'$' = (==_iff c b'$').0 h in rw e refl

next-byte :
    (env : Text → Option Text) (whole s : Text) (c : ℕ)
    → (c == b'$') ≡ false
    → next env whole c s ≡ (gives (c ∷ []) [], s)
unfolding next
next-byte env whole s c h = rw h refl

-- A round that writes one byte.
round_byte :
    (env : Text → Option Text) (fuel : ℕ) (whole s rest out : Text) (c d : ℕ) (ws : List Warning)
    → next env whole c s ≡ (gives (d ∷ []) [], rest)
    → substitute_from env fuel whole rest ≡ some (out, ws)
    → substitute_from env (suc fuel) whole (c ∷ s) ≡ some (d ∷ out, ws)
unfolding substitute_from settle joined pending
round_byte env fuel whole s rest out c d ws n h = rw (n, h) refl

substitute_from-escape :
    (env : Text → Option Text) (fuel : ℕ) (whole s : Text)
    → length (escape s) ≤ fuel
    → substitute_from env fuel whole (escape s) ≡ some (s, [])
unfolding escape substitute_from
substitute_from-escape env fuel whole [] h = refl
substitute_from-escape env zero whole (c ∷ s) h = elim (Bool-cases (c == b'$')) [
  | inl e ↦
      let q : suc (suc (length (escape s))) ≤ 0 = rw (e, escape) at h in
      let z : ◌≡◌ {A = ℕ} 0 1 = omega (arith, q) in cc z
  | inr e ↦
      let q : suc (length (escape s)) ≤ 0 = rw (e, escape) at h in
      let z : ◌≡◌ {A = ℕ} 0 1 = omega (arith, q) in cc z
]
substitute_from-escape env (suc fuel) whole (c ∷ s) h = elim (Bool-cases (c == b'$')) [
  | inl e ↦
      let q : suc (suc (length (escape s))) ≤ suc fuel = rw (e, escape) at h in
      rw (e, escape)
        (round_byte env fuel whole (c ∷ escape s) (escape s) s c c []
          (next-dollar env whole (escape s) c e)
          (substitute_from-escape env fuel whole s (omega (arith, q))))
  | inr e ↦
      let q : suc (length (escape s)) ≤ suc fuel = rw (e, escape) at h in
      rw (e, escape)
        (round_byte env fuel whole (escape s) (escape s) s c c []
          (next-byte env whole (escape s) c e)
          (substitute_from-escape env fuel whole s (omega (arith, q))))
]

-- A text whose dollars are all doubled comes back as it was, without a warning, in every environment.
pub substitute-escape :
    (env : Text → Option Text) (text : Text) → substitute env (escape text) ≡ some (text, [])
unfolding substitute
substitute-escape env text =
    substitute_from-escape env (length (escape text)) (escape text) text (omega arith)
