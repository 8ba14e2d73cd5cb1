-- ===== src/Prelude/Strings.antt =====
-- Go strings as lists of bytes, with the functions of package strings that the program calls.
use Prim.Native.Nat.{ℕ, zero, suc, ◌+◌, ◌-◌, ◌*◌, ◌/◌, ◌%◌, ◌^◌, compare, Ordering}
use Prim.Native.Char.{code}
use Prim.Native.String.{String}
use mathlib.Core.Path.{◌≡◌, refl, sym}
use mathlib.Core.Logic.{◌↔◌, inl, inr}
use mathlib.Core.Bool.{Bool, true, false, ◌&&◌, ◌||◌}
use mathlib.Core.Option.{Option, none, some}
use mathlib.Core.List.{List, [], ◌∷◌, ◌++◌, map, reverse}
use native.Mathlib.Omega.{arith}
use deploy_witness_cli.Prelude.Tests.{ltb, leb, ◌==◌, if◌then◌else◌, Bool-cases}
use deploy_witness_cli.Prelude.Lists.{All, length}

abbrev pub Text : Type 0
Text = List ℕ

-- The bytes of an ASCII literal.
abbrev pub codes : String → Text
codes String.[] = []
codes (String.◌∷◌ c s) = code c ∷ codes s

-- The bytes of the dash U+2014.
abbrev pub em_dash : Text
em_dash = 0xe2 ∷ 0x80 ∷ 0x94 ∷ []

-- The bytes of the ellipsis U+2026.
abbrev pub ellipsis : Text
ellipsis = 0xe2 ∷ 0x80 ∷ 0xa6 ∷ []

-- `==` on strings.
unfoldable pub text_eq : Text → Text → Bool
text_eq [] [] = true
text_eq [] (d ∷ t) = false
text_eq (c ∷ s) [] = false
text_eq (c ∷ s) (d ∷ t) = c == d && text_eq s t

pub text_eq_sound : (s t : Text) → text_eq s t ≡ true → s ≡ t
unfolding text_eq
text_eq_sound [] [] h = refl
text_eq_sound [] (d ∷ t) h = ground arith
text_eq_sound (c ∷ s) [] h = ground arith
text_eq_sound (c ∷ s) (d ∷ t) h = ground (arith, text_eq_sound s t)

pub text_eq_refl : (s : Text) → text_eq s s ≡ true
unfolding text_eq
text_eq_refl [] = refl
text_eq_refl (c ∷ s) = ground (arith, text_eq_refl s)

pub text_eq_iff : (s t : Text) → (text_eq s t ≡ true) ↔ (s ≡ t)
text_eq_iff s t = (text_eq_sound s t, λ e. rw e (text_eq_refl t))

-- `s == ""`.
abbrev pub is_empty {ℓ} : {A : Type ℓ} → List A → Bool
is_empty [] = true
is_empty (c ∷ s) = false

pub is_empty_sound {ℓ} : {A : Type ℓ} (xs : List A) → is_empty xs ≡ true → xs ≡ []
is_empty_sound [] h = refl
is_empty_sound (x ∷ xs) h = cc h

-- `strings.HasPrefix(s, p)`.
unfoldable pub has_prefix : Text → Text → Bool
has_prefix s [] = true
has_prefix [] (d ∷ p) = false
has_prefix (c ∷ s) (d ∷ p) = c == d && has_prefix s p

-- `strings.Contains(s, p)`.
unfoldable pub contains_text : Text → Text → Bool
unfolding has_prefix
contains_text [] p = has_prefix [] p
contains_text (c ∷ s) p = has_prefix (c ∷ s) p || contains_text s p

-- `strings.Join(parts, sep)`.
unfoldable pub join : List Text → Text → Text
join [] sep = []
join (p ∷ []) sep = p
join (p ∷ q ∷ ps) sep = p ++ sep ++ join (q ∷ ps) sep

-- The bytes that `strings.TrimSpace` cuts off ASCII text.
unfoldable pub is_space : ℕ → Bool
is_space c = (leb 9 c && leb c 13) || c == 32

unfoldable pub trim_left_where : (ℕ → Bool) → Text → Text
trim_left_where test [] = []
trim_left_where test (c ∷ s) = if test c then trim_left_where test s else c ∷ s

unfoldable pub trim_where : (ℕ → Bool) → Text → Text
unfolding trim_left_where
trim_where test s = reverse (trim_left_where test (reverse (trim_left_where test s)))

-- `strings.TrimSpace`, `strings.Trim(s, "[]")`.
unfoldable pub trim_space : Text → Text
unfolding trim_where is_space
trim_space s = trim_where is_space s

unfoldable pub trim_brackets : Text → Text
unfolding trim_where
trim_brackets s = trim_where (λ c. c == b'[' || c == b']') s

-- `strings.ToLower` and `strings.ToUpper` on ASCII text.
unfoldable pub lower : ℕ → ℕ
lower c = if leb b'A' c && leb c b'Z' then c + 32 else c

unfoldable pub upper : ℕ → ℕ
upper c = if leb b'a' c && leb c b'z' then c - 32 else c

unfoldable pub to_lower : Text → Text
unfolding lower
to_lower s = map lower s

-- `strings.TrimSuffix(s, p)` at a suffix of one byte.
unfoldable pub trim_suffix_byte : ℕ → Text → Text
trim_suffix_byte b [] = []
trim_suffix_byte b (c ∷ []) = if c == b then [] else c ∷ []
trim_suffix_byte b (c ∷ d ∷ s) = c ∷ trim_suffix_byte b (d ∷ s)

-- `strings.Compare`, and the `<` of strings.
unfoldable pub text_compare : Text → Text → Ordering
text_compare [] [] = Ordering.eq
text_compare [] (d ∷ t) = Ordering.lt
text_compare (c ∷ s) [] = Ordering.gt
text_compare (c ∷ s) (d ∷ t) = elim (compare c d) [
  | Ordering.lt ↦ Ordering.lt
  | Ordering.gt ↦ Ordering.gt
  | Ordering.eq ↦ text_compare s t
]

-- `strconv.Itoa` of a number that is not negative: the digits, least significant first, on fuel.
digits_rev : ℕ → ℕ → Text
digits_rev zero n = []
digits_rev (suc fuel) n =
    let rest = digits_rev fuel (n / 10) in if n == 0 then [] else (b'0' + n % 10) ∷ rest

unfoldable pub itoa : ℕ → Text
unfolding digits_rev
itoa n = if n == 0 then b'0' ∷ [] else reverse (digits_rev (suc n) n)

-- `%q` of a text that has nothing to escape.
unfoldable pub quoted : Text → Text
quoted s = b'"' ∷ (s ++ b'"' ∷ [])

-- The parts of a text between the bytes that are equal to `sep`, as `strings.Split` cuts it.
unfoldable pub split_on : ℕ → Text → List Text
split_on sep [] = [] ∷ []
split_on sep (c ∷ s) = elim (split_on sep s) [
  | [] ↦ (c ∷ []) ∷ []
  | p ∷ ps ↦ if c == sep then [] ∷ p ∷ ps else (c ∷ p) ∷ ps
]

-- `strings.Cut` at a byte, where it occurs: what is before its first occurrence, and what is after it.
unfoldable pub cut_first : ℕ → Text → Option (Text × Text)
cut_first sep [] = none
cut_first sep (c ∷ s) =
    let rest = cut_first sep s in
    if c == sep then some ([], s) else elim rest [ none ↦ none | some p ↦ some (c ∷ p.0, p.1) ]

-- The same at its last occurrence (`strings.LastIndex`).
unfoldable pub cut_last : ℕ → Text → Option (Text × Text)
cut_last sep [] = none
cut_last sep (c ∷ s) = elim (cut_last sep s) [
  | some p ↦ some (c ∷ p.0, p.1)
  | none ↦ if c == sep then some ([], s) else none
]

-- What is left of a text that ends in another, without it: `strings.HasSuffix` with `strings.TrimSuffix`.
unfoldable pub strip_suffix : Text → Text → Option Text
strip_suffix p [] = if text_eq [] p then some [] else none
strip_suffix p (c ∷ s) =
    let rest = strip_suffix p s in
    if text_eq (c ∷ s) p then some [] else elim rest [ none ↦ none | some r ↦ some (c ∷ r) ]

-- The longest start of the text that passes a test, and what follows it.
unfoldable pub span : (ℕ → Bool) → Text → Text × Text
span test [] = ([], [])
span test (c ∷ s) = let rest = span test s in if test c then (c ∷ rest.0, rest.1) else ([], c ∷ s)

pub span-length :
    (test : ℕ → Bool) (s : Text) → length (span test s).0 + length (span test s).1 ≡ length s
unfolding span
span-length test [] = omega arith
span-length test (c ∷ s) = elim (Bool-cases (test c)) [
  | inl e ↦ rw e (omega (arith, span-length test s))
  | inr e ↦ rw e (omega arith)
]

-- What follows a prefix.
unfoldable pub strip_prefix : Text → Text → Option Text
strip_prefix [] s = some s
strip_prefix (d ∷ p) [] = none
strip_prefix (d ∷ p) (c ∷ s) = if c == d then strip_prefix p s else none

-- What is left without a prefix is shorter by it.
pub strip_prefix-length :
    (p s r : Text) → strip_prefix p s ≡ some r → length s ≡ length p + length r
unfolding strip_prefix
strip_prefix-length [] s r h = let e : s ≡ r = cc h in rw e (omega arith)
strip_prefix-length (d ∷ p) [] r h = cc h
strip_prefix-length (d ∷ p) (c ∷ s) r h = elim (Bool-cases (c == d)) [
  | inl e ↦ omega (arith, strip_prefix-length p s r (rw e at h))
  | inr e ↦ cc (rw e at h)
]

-- A Go map from strings as an association list.
unfoldable pub lookup_text {ℓ} : {V : Type ℓ} → Text → List (Text × V) → Option V
lookup_text k [] = none
lookup_text k ((j, v) ∷ m) = if text_eq j k then some v else lookup_text k m

-- What a map answers is an entry of it.
pub lookup_text-All :
    {V : Type 0} (Q : V → Type 0) (k : Text) (m : List (Text × V)) (v : V)
    → All (λ e. Q e.1) m
    → lookup_text k m ≡ some v
    → Q v
unfolding lookup_text
lookup_text-All Q k [] v a h = cc h
lookup_text-All Q k ((j, w) ∷ m) v a h = elim (Bool-cases (text_eq j k)) [
  | inl e ↦ let q : w ≡ v = cc (rw e at h) in rw (sym q) a.0
  | inr e ↦ lookup_text-All Q k m v a.1 (rw e at h)
]

-- The number that decimal digits stand for, after the digits read so far.
digits_value : ℕ → Text → Option ℕ
digits_value n [] = some n
digits_value n (c ∷ s) =
    let rest = digits_value (n * 10 + (c - b'0')) s in
    if leb b'0' c && leb c b'9' then rest else none

-- A number of digits, unless it is none or too large.
bounded_value : ℕ → Text → Option ℕ
unfolding digits_value
bounded_value bound s =
    if is_empty s
    then none
    else elim (digits_value 0 s) [ none ↦ none | some n ↦ if ltb bound n then none else some n ]

-- `strconv.Atoi` on 64 bits: whether the number has a minus sign, and its magnitude.
unfoldable pub atoi : Text → Option (Bool × ℕ)
unfolding bounded_value
atoi s =
    let minus = has_prefix s (b'-' ∷ []) in
    let digits : Text = elim s [ [] ↦ [] | c ∷ t ↦ if c == b'+' || c == b'-' then t else c ∷ t ] in
    elim (bounded_value (if minus then 2 ^ 63 else 2 ^ 63 - 1) digits) [
      | none ↦ none
      | some n ↦ some (minus, n)
    ]

itoa_test : itoa 65535 ≡ codes "65535"
unfolding itoa
itoa_test = refl

trim_test : to_lower (trim_space (codes " TCP6 ")) ≡ codes "tcp6"
unfolding trim_space to_lower
trim_test = refl
