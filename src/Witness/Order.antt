-- ===== src/Witness/Order.antt =====
-- `sortFindings` of app/witness/preflight.go. The library's `sort.SliceStable` is an insertion sort: it
-- sorts stably by the same order.
pub mod Sorted
use Prim.Native.Nat.{Ordering}
use deploy_witness_cli.Prelude.{
  Bool, true, false, not, List, [], ◌∷◌, ltb, ◌==◌, if◌then◌else◌, Text, text_eq, text_compare,
}
use deploy_witness_cli.Model.Outcome.{severity_rank}
use deploy_witness_cli.Model.Finding.{Finding}

-- `a < b` on strings.
unfoldable pub text_lt : Text → Text → Bool
text_lt a b = elim (text_compare a b) [ Ordering.lt ↦ true | _ ↦ false ]

-- The function that `sortFindings` hands to the library.
unfoldable pub less : Finding → Finding → Bool
unfolding text_lt
less a b =
    if not (severity_rank a.severity == severity_rank b.severity)
    then ltb (severity_rank a.severity) (severity_rank b.severity)
    else if not (text_eq a.collector b.collector)
    then text_lt a.collector b.collector
    else if not (a.sort_order == b.sort_order)
    then ltb a.sort_order b.sort_order
    else text_lt a.subject b.subject

-- The new finding goes before the first one that is not less than it.
insert : Finding → List Finding → List Finding
insert x [] = x ∷ []
insert x (y ∷ ys) = if less y x then y ∷ insert x ys else x ∷ y ∷ ys

-- `sortFindings`.
unfoldable pub sort_findings : List Finding → List Finding
unfolding insert
sort_findings [] = []
sort_findings (x ∷ xs) = insert x (sort_findings xs)
