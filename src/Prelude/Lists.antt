-- ===== src/Prelude/Lists.antt =====
-- Lists measured by native numbers, predicates on their members, and Boolean searches.
use Prim.Native.Nat.{ℕ, zero, suc, ◌+◌}
use mathlib.Core.Logic.{◌⊎◌, inl, inr}
use mathlib.Core.Path.{◌≡◌, refl, sym}
use mathlib.Core.Bool.{Bool, true, false, ◌&&◌, ◌||◌}
use mathlib.Core.List.{List, [], ◌∷◌, ◌++◌, map}
use native.Mathlib.Omega.{arith}

abbrev pub length {ℓ} : {A : Type ℓ} → List A → ℕ
length [] = 0
length (x ∷ xs) = suc (length xs)

pub length-append {ℓ} : {A : Type ℓ} (xs ys : List A) → length (xs ++ ys) ≡ length xs + length ys
length-append [] ys = omega arith
length-append (x ∷ xs) ys = omega (arith, length-append xs ys)

pub length-map {ℓ κ} :
    {A : Type ℓ} {B : Type κ} (f : A → B) (xs : List A) → length (map f xs) ≡ length xs
length-map f [] = refl
length-map f (x ∷ xs) = omega (arith, length-map f xs)

abbrev pub All {ℓ κ} : {A : Type ℓ} → (A → Type κ) → List A → Type κ
All P [] = Unit
All P (x ∷ xs) = P x × All P xs

pub All-append {ℓ κ} :
    {A : Type ℓ} (P : A → Type κ) (xs ys : List A) → All P xs → All P ys → All P (xs ++ ys)
All-append P [] ys hx hy = hy
All-append P (x ∷ xs) ys hx hy = (hx.0, All-append P xs ys hx.1 hy)

-- Whether some member passes a test.
abbrev pub any {ℓ} : {A : Type ℓ} → (A → Bool) → List A → Bool
any test [] = false
any test (x ∷ xs) = test x || any test xs

pub All-map {ℓ} :
    {A : Type ℓ} (P Q : A → Type 0) (xs : List A) → ((x : A) → P x → Q x) → All P xs → All Q xs
All-map P Q [] f h = h
All-map P Q (x ∷ xs) f h = (f x h.0, All-map P Q xs f h.1)

-- Some member satisfies the predicate.
abbrev pub Exists {ℓ} : {A : Type ℓ} → (A → Type 0) → List A → Type 0
Exists P [] = ⊥
Exists P (x ∷ xs) = P x ⊎ Exists P xs

pub Exists-append_left {ℓ} :
    {A : Type ℓ} (P : A → Type 0) (xs ys : List A) → Exists P xs → Exists P (xs ++ ys)
Exists-append_left P [] ys h = elim h [ ]
Exists-append_left P (x ∷ xs) ys (inl h) = inl h
Exists-append_left P (x ∷ xs) ys (inr h) = inr (Exists-append_left P xs ys h)

pub Exists-append_right {ℓ} :
    {A : Type ℓ} (P : A → Type 0) (xs ys : List A) → Exists P ys → Exists P (xs ++ ys)
Exists-append_right P [] ys h = h
Exists-append_right P (x ∷ xs) ys h = inr (Exists-append_right P xs ys h)

pub Exists-map {ℓ} :
    {A : Type ℓ} (P Q : A → Type 0) (xs : List A)
    → ((x : A) → P x → Q x)
    → Exists P xs
    → Exists Q xs
Exists-map P Q [] f h = elim h [ ]
Exists-map P Q (x ∷ xs) f (inl h) = inl (f x h)
Exists-map P Q (x ∷ xs) f (inr h) = inr (Exists-map P Q xs f h)

-- Every member is found among the members.
pub All-Exists {ℓ} :
    {A : Type ℓ} (R : A → A → Type 0) (xs : List A)
    → ((x : A) → R x x)
    → All (λ x. Exists (λ y. R y x) xs) xs
All-Exists R [] r = tt
All-Exists R (x ∷ xs) r = (
  inl (r x),
  All-map (λ y. Exists (λ z. R z y) xs) (λ y. Exists (λ z. R z y) (x ∷ xs)) xs (λ y h. inr h)
      (All-Exists R xs r),
)

pub Exists-All {ℓ κ} :
    {A : Type ℓ} {B : Type κ} (Q : A → B → Type 0) (xs : List A) (ys : List B)
    → Exists (λ x. All (Q x) ys) xs
    → All (λ y. Exists (λ x. Q x y) xs) ys
Exists-All Q [] ys h = elim h [ ]
Exists-All Q (x ∷ xs) ys (inl h) =
    All-map (Q x) (λ y. Exists (λ z. Q z y) (x ∷ xs)) ys (λ y e. inl e) h
Exists-All Q (x ∷ xs) ys (inr h) =
    All-map (λ y. Exists (λ z. Q z y) xs) (λ y. Exists (λ z. Q z y) (x ∷ xs)) ys (λ y e. inr e)
      (Exists-All Q xs ys h)

pub Exists-with {ℓ} :
    {A : Type ℓ} (P Q : A → Type 0) (xs : List A)
    → All P xs
    → Exists Q xs
    → Exists (λ x. P x × Q x) xs
Exists-with P Q [] a h = elim h [ ]
Exists-with P Q (x ∷ xs) a (inl h) = inl (a.0, h)
Exists-with P Q (x ∷ xs) a (inr h) = inr (Exists-with P Q xs a.1 h)

-- Whether all members pass a test.
abbrev pub all {ℓ} : {A : Type ℓ} → (A → Bool) → List A → Bool
all test [] = true
all test (x ∷ xs) = test x && all test xs

pub all-Exists :
    {A : Type 0} (test : A → Bool) (xs : List A) (a : A)
    → all test xs ≡ true
    → Exists (λ x. x ≡ a) xs
    → test a ≡ true
all-Exists test [] a h e = elim e [ ]
all-Exists test (x ∷ xs) a h (inl e) = rw (sym e) (ground (arith, h))
all-Exists test (x ∷ xs) a h (inr e) = all-Exists test xs a (ground (arith, h)) e

pub all-All {ℓ} :
    {A : Type ℓ} (test : A → Bool) (xs : List A) → all test xs ≡ true → All (λ x. test x ≡ true) xs
all-All test [] h = tt
all-All test (x ∷ xs) h = (ground (arith, h), all-All test xs (ground (arith, h)))

-- A test that passes on every element.
pub All-all : {A : Type 0} (p : A → Bool) (xs : List A) → All (λ a. p a ≡ true) xs → all p xs ≡ true
All-all p [] h = refl
All-all p (x ∷ xs) h =
    let q : all p xs ≡ true = All-all p xs h.1 in let r : p x ≡ true = h.0 in ground (arith, q, r)

-- A weaker test passes as well.
pub all-with :
    {A : Type 0} (p q : A → Bool) (xs : List A)
    → ((a : A) → p a ≡ true → q a ≡ true)
    → all p xs ≡ true
    → all q xs ≡ true
all-with p q xs f h =
    All-all q xs (All-map (λ a. p a ≡ true) (λ a. q a ≡ true) xs f (all-All p xs h))

abbrev pub take {ℓ} : {A : Type ℓ} → ℕ → List A → List A
take zero xs = []
take (suc n) [] = []
take (suc n) (x ∷ xs) = x ∷ take n xs
