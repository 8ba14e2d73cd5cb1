-- ===== src/Run/Allowlist/Plain.antt =====
-- `argPatterns` of app/run/allowlist.go: the bytes that the kinds of arguments admit.
use deploy_witness_cli.Prelude.{
  ℕ, ◌≡◌, refl, inl, inr, Bool, true, not, [], ◌∷◌, arith, ◌==◌, Option-cases, All, any, Text,
  codes, All-map, all, lookup_text, all-All, All-all, lookup_text-All,
}
use deploy_witness_cli.Run.Allowlist.{
  is_alnum, is_unit, is_suite, is_path, is_container_byte, is_image, is_name, ArgPattern,
  arg_patterns, arg_pattern, match_string, is_value,
}

-- White space, quotes, `;`, a backtick, `$`, `|`, `&`, `<`, `>`, parentheses, braces, `*`, `?`, `!`,
-- `#`, `~`. The backslash, to which a shell gives a meaning too, is not among them: a unit name may have
-- one.
unfoldable pub is_shell_byte : ℕ → Bool
is_shell_byte c = any (λ d. c == d) (9 ∷ 10 ∷ 13 ∷ codes " \"';`$|&<>(){}*?!#~")

-- An argument without any of those bytes.
unfoldable pub is_plain : Text → Bool
is_plain a = all (λ c. not (is_shell_byte c)) a

unit_plain : (c : ℕ) → is_unit c ≡ true → not (is_shell_byte c) ≡ true
unfolding is_unit is_alnum is_shell_byte
unit_plain c h = ground (arith, h)

suite_plain : (c : ℕ) → is_suite c ≡ true → not (is_shell_byte c) ≡ true
unfolding is_suite is_alnum is_shell_byte
suite_plain c h = ground (arith, h)

path_plain : (c : ℕ) → is_path c ≡ true → not (is_shell_byte c) ≡ true
unfolding is_path is_alnum is_shell_byte
path_plain c h = ground (arith, h)

slash_plain : (c : ℕ) → (c == b'/') ≡ true → not (is_shell_byte c) ≡ true
unfolding is_shell_byte
slash_plain c h = ground (arith, h)

alnum_plain : (c : ℕ) → is_alnum c ≡ true → not (is_shell_byte c) ≡ true
unfolding is_alnum is_shell_byte
alnum_plain c h = ground (arith, h)

container_plain : (c : ℕ) → is_container_byte c ≡ true → not (is_shell_byte c) ≡ true
unfolding is_container_byte is_alnum is_shell_byte
container_plain c h = ground (arith, h)

image_plain : (c : ℕ) → is_image c ≡ true → not (is_shell_byte c) ≡ true
unfolding is_image is_alnum is_shell_byte
image_plain c h = ground (arith, h)

name_plain : (c : ℕ) → is_name c ≡ true → not (is_shell_byte c) ≡ true
unfolding is_name is_alnum is_shell_byte
name_plain c h = ground (arith, h)

-- A pattern over plain bytes matches plain arguments only.
match-is_plain :
    (p : ArgPattern) (a : Text)
    → ((c : ℕ) → p.first c ≡ true → not (is_shell_byte c) ≡ true)
    → ((c : ℕ) → p.others c ≡ true → not (is_shell_byte c) ≡ true)
    → match_string p a ≡ true
    → is_plain a ≡ true
unfolding match_string is_plain
match-is_plain p [] f g h = refl
match-is_plain p (c ∷ s) f g h =
    All-all (λ d. not (is_shell_byte d)) (c ∷ s)
      (
        f c (ground (arith, h)),
        All-map (λ d. p.others d ≡ true) (λ d. not (is_shell_byte d) ≡ true) s g
            (all-All p.others s (ground (arith, h))),
      )

-- Both classes of the pattern are of plain bytes.
abbrev IsPlainPattern : ArgPattern → Type 0
IsPlainPattern p =
    ((c : ℕ) → p.first c ≡ true → not (is_shell_byte c) ≡ true)
    × ((c : ℕ) → p.others c ≡ true → not (is_shell_byte c) ≡ true)

arg_patterns-IsPlainPattern : All (λ e. IsPlainPattern e.1) arg_patterns
unfolding arg_patterns
arg_patterns-IsPlainPattern = (
  (unit_plain, unit_plain),
  (
    (suite_plain, suite_plain),
    (
      (slash_plain, path_plain),
      (
        (alnum_plain, container_plain),
        ((alnum_plain, image_plain), ((suite_plain, suite_plain), ((name_plain, name_plain), tt))),
      ),
    ),
  ),
)

-- No kind admits white space, a quote or another byte that a shell reads.
pub value-is_plain : (kind a : Text) → is_value kind a ≡ true → is_plain a ≡ true
unfolding is_value arg_pattern
value-is_plain kind a h = elim (Option-cases (lookup_text kind arg_patterns)) [
  | inl e ↦ cc (rw (e, is_value) at h)
  | inr (p, e) ↦
      let x = lookup_text-All IsPlainPattern kind arg_patterns p arg_patterns-IsPlainPattern e in
      match-is_plain p a x.0 x.1 (rw (e, is_value) at h)
]
