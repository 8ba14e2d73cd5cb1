-- ===== src/Witness/Order/Sorted.antt =====
-- `sortFindings` of app/witness/preflight.go: the order of what it returns, and what it keeps.

use mathlib.Core.List.{Perm}
use mathlib.Core.List.Perm
use deploy_witness_cli.Prelude.{
  suc, ◌≡◌, refl, ap, ◌∙◌, ◌⊎◌, inl, inr, Bool, true, false, not, ◌&&◌, ◌||◌, List, [], ◌∷◌, arith,
  if◌then◌else◌, Bool-cases, length, All, Text, text_eq_iff, text_compare, Exists,
}
use deploy_witness_cli.Model.Outcome.{Outcome, outcome_eq}
use deploy_witness_cli.Model.Finding.{Finding}
use deploy_witness_cli.Witness.Outcomes.Concluded.{states}
use deploy_witness_cli.Witness.Order.{text_lt, less, insert, sort_findings}

text_lt_irrefl : (a : Text) → text_lt a a ≡ false
unfolding text_lt text_compare
text_lt_irrefl [] = refl
text_lt_irrefl (c ∷ a) = ground (arith, text_lt_irrefl a)

text_lt_asym : (a b : Text) → text_lt a b ≡ true → text_lt b a ≡ false
unfolding text_lt text_compare
text_lt_asym [] [] h = refl
text_lt_asym [] (d ∷ b) h = refl
text_lt_asym (c ∷ a) [] h = ground arith
text_lt_asym (c ∷ a) (d ∷ b) h = ground (arith, text_lt_asym a b)

text_lt_total : (a b : Text) → text_lt a b ≡ false → text_lt b a ≡ false → a ≡ b
unfolding text_lt text_compare
text_lt_total [] [] h k = refl
text_lt_total [] (d ∷ b) h k = ground arith
text_lt_total (c ∷ a) [] h k = ground arith
text_lt_total (c ∷ a) (d ∷ b) h k = ground (arith, text_lt_total a b)

not-text_lt_trans : (a b c : Text) → text_lt b a ≡ false → text_lt c b ≡ false → text_lt c a ≡ false
unfolding text_lt text_compare
not-text_lt_trans [] [] c h k = k
not-text_lt_trans [] (y ∷ b) [] h k = refl
not-text_lt_trans [] (y ∷ b) (z ∷ c) h k = refl
not-text_lt_trans (x ∷ a) [] c h k = ground arith
not-text_lt_trans (x ∷ a) (y ∷ b) [] h k = ground arith
not-text_lt_trans (x ∷ a) (y ∷ b) (z ∷ c) h k = ground (arith, not-text_lt_trans a b c)

less_irrefl : (a : Finding) → less a a ≡ false
unfolding less
less_irrefl a = ground (arith, text_eq_iff a.collector a.collector, text_lt_irrefl a.subject)

less_asym : (a b : Finding) → less a b ≡ true → less b a ≡ false
unfolding less
less_asym a b h = ground (
  arith,
  text_eq_iff a.collector b.collector,
  text_eq_iff b.collector a.collector,
  text_lt_asym a.collector b.collector,
  text_lt_asym a.subject b.subject,
)

-- Not being less is transitive.
not-less_trans : (a b c : Finding) → less b a ≡ false → less c b ≡ false → less c a ≡ false
unfolding less
not-less_trans a b c h k = ground (
  arith,
  text_eq_iff b.collector a.collector,
  text_eq_iff c.collector b.collector,
  text_eq_iff c.collector a.collector,
  text_lt_total a.collector b.collector,
  text_lt_total b.collector c.collector,
  not-text_lt_trans a.collector b.collector c.collector,
  not-text_lt_trans a.subject b.subject c.subject,
)

-- Every finding stands before those that are not less than it.
abbrev pub IsSorted : List Finding → Type 0
IsSorted [] = Unit
IsSorted (x ∷ xs) = All (λ y. less y x ≡ false) xs × IsSorted xs

All-not-less_trans :
    (x y : Finding) (ys : List Finding)
    → less y x ≡ false
    → All (λ z. less z y ≡ false) ys
    → All (λ z. less z x ≡ false) ys
All-not-less_trans x y [] h k = tt
All-not-less_trans x y (z ∷ ys) h (k, ks) =
    (not-less_trans x y z h k, All-not-less_trans x y ys h ks)

All-insert :
    (P : Finding → Type 0) (x : Finding) (ys : List Finding) → P x → All P ys → All P (insert x ys)
unfolding insert
All-insert P x [] h k = (h, tt)
All-insert P x (y ∷ ys) h (k, ks) = elim (Bool-cases (less y x)) [
  | inl e ↦ rw e (k, All-insert P x ys h ks)
  | inr e ↦ rw e (h, (k, ks))
]

insert-IsSorted : (x : Finding) (ys : List Finding) → IsSorted ys → IsSorted (insert x ys)
unfolding insert
insert-IsSorted x [] h = (tt, tt)
insert-IsSorted x (y ∷ ys) (h, hs) = elim (Bool-cases (less y x)) [
  | inl e ↦
      rw e (All-insert (λ z. less z y ≡ false) x ys (less_asym y x e) h, insert-IsSorted x ys hs)
  | inr e ↦ rw e ((e, All-not-less_trans x y ys e h), (h, hs))
]

-- The findings come out in the order of `less`: no finding is less than one before it.
pub sort_findings-IsSorted : (fs : List Finding) → IsSorted (sort_findings fs)
unfolding sort_findings
sort_findings-IsSorted [] = tt
sort_findings-IsSorted (f ∷ fs) = insert-IsSorted f (sort_findings fs) (sort_findings-IsSorted fs)

insert-perm : (x : Finding) (ys : List Finding) → Perm (insert x ys) (x ∷ ys)
unfolding insert
insert-perm x [] = Perm.refl (x ∷ [])
insert-perm x (y ∷ ys) = elim (Bool-cases (less y x)) [
  | inl e ↦ rw e (Perm.trans (Perm.cons y (insert-perm x ys)) (Perm.swap x y ys))
  | inr e ↦ rw e (Perm.refl (x ∷ y ∷ ys))
]

-- Sorting loses no finding and adds none.
pub sort_findings-perm : (fs : List Finding) → Perm (sort_findings fs) fs
unfolding sort_findings
sort_findings-perm [] = Perm.refl []
sort_findings-perm (f ∷ fs) =
    Perm.trans (insert-perm f (sort_findings fs)) (Perm.cons f (sort_findings-perm fs))

-- Neither finding is less than the other.
abbrev pub ties : Finding → Finding → Bool
ties x y = not (less x y) && not (less y x)

-- The findings that tie with a given one, in their order.
abbrev pub tied : Finding → List Finding → List Finding
tied k [] = []
tied k (x ∷ xs) = if ties k x then x ∷ tied k xs else tied k xs

tied-insert : (k x : Finding) (ys : List Finding) → tied k (insert x ys) ≡ tied k (x ∷ ys)
unfolding insert
tied-insert k x [] = refl
tied-insert k x (y ∷ ys) = elim (Bool-cases (less y x)) [
  | inl e ↦ rw e (
      ground (
        arith,
        tied-insert k x ys,
        not-less_trans y k x,
        not-less_trans x k y,
        not-less_trans x y k,
        not-less_trans y x k,
      ))
  | inr e ↦ rw e refl
]

-- The sort is stable: findings that tie stay in the order in which the rules stated them.
pub sort_findings_stable : (k : Finding) (fs : List Finding) → tied k (sort_findings fs) ≡ tied k fs
unfolding sort_findings
sort_findings_stable k [] = refl
sort_findings_stable k (f ∷ fs) =
    tied-insert k f (sort_findings fs) ∙ ground (arith, sort_findings_stable k fs)

-- What holds of every finding holds of every sorted one.
pub All-sort_findings :
    (P : Finding → Type 0) (fs : List Finding) → All P fs → All P (sort_findings fs)
unfolding sort_findings
All-sort_findings P [] h = tt
All-sort_findings P (f ∷ fs) (h, hs) =
    All-insert P f (sort_findings fs) h (All-sort_findings P fs hs)

Exists-insert :
    (P : Finding → Type 0) (x : Finding) (ys : List Finding)
    → P x ⊎ Exists P ys
    → Exists P (insert x ys)
unfolding insert
Exists-insert P x [] h = h
Exists-insert P x (y ∷ ys) h = elim (Bool-cases (less y x)) [
  | inl e ↦ rw e (elim h [
    | inl p ↦ inr (Exists-insert P x ys (inl p))
    | inr (inl q) ↦ inl q
    | inr (inr q) ↦ inr (Exists-insert P x ys (inr q))
  ])
  | inr e ↦ rw e h
]

-- What holds of some finding holds of some sorted one.
pub Exists-sort_findings :
    (P : Finding → Type 0) (fs : List Finding) → Exists P fs → Exists P (sort_findings fs)
unfolding sort_findings
Exists-sort_findings P [] h = h
Exists-sort_findings P (f ∷ fs) (inl p) = Exists-insert P f (sort_findings fs) (inl p)
Exists-sort_findings P (f ∷ fs) (inr q) =
    Exists-insert P f (sort_findings fs) (inr (Exists-sort_findings P fs q))

length-insert : (x : Finding) (ys : List Finding) → length (insert x ys) ≡ suc (length ys)
unfolding insert
length-insert x [] = refl
length-insert x (y ∷ ys) = ground (arith, length-insert x ys)

pub length-sort_findings : (fs : List Finding) → length (sort_findings fs) ≡ length fs
unfolding sort_findings
length-sort_findings [] = refl
length-sort_findings (f ∷ fs) =
    length-insert f (sort_findings fs) ∙ ap suc (length-sort_findings fs)

states-insert :
    (o : Outcome) (x : Finding) (ys : List Finding) → states o (insert x ys) ≡ states o (x ∷ ys)
unfolding insert
states-insert o x [] = refl
states-insert o x (y ∷ ys) = elim (Bool-cases (less y x)) [
  | inl e ↦ rw e (ground (arith, states-insert o x ys))
  | inr e ↦ rw e refl
]

pub states-sort_findings :
    (o : Outcome) (fs : List Finding) → states o (sort_findings fs) ≡ states o fs
unfolding sort_findings
states-sort_findings o [] = refl
states-sort_findings o (f ∷ fs) =
    states-insert o f (sort_findings fs)
    ∙ ap (λ b. outcome_eq f.outcome o || b) (states-sort_findings o fs)
