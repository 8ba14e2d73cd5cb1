-- ===== src/FilePath.antt =====
-- `filepath.Clean` of Go's standard library, on a Unix host.
use mathlib.Core.List.{reverse}
use deploy_witness_cli.Prelude.{
  ◌≡◌, refl, Bool, false, ◌||◌, List, [], ◌∷◌, ◌==◌, if◌then◌else◌, Text, codes, text_eq, is_empty,
  join, split_on,
}

dot : Text
dot = b'.' ∷ []

dot_dot : Text
dot_dot = b'.' ∷ b'.' ∷ []

-- One component of the path, on the components kept so far, last first.
keep : Bool → List Text → Text → List Text
unfolding dot dot_dot
keep rooted kept p =
    if is_empty p || text_eq p dot
    then kept
    else if text_eq p dot_dot
    then elim kept [
      | [] ↦ if rooted then [] else dot_dot ∷ []
      | q ∷ qs ↦ if text_eq q dot_dot then dot_dot ∷ q ∷ qs else qs
    ]
    else p ∷ kept

keep_all : Bool → List Text → List Text → List Text
keep_all rooted kept [] = kept
keep_all rooted kept (p ∷ ps) = keep_all rooted (keep rooted kept p) ps

is_rooted : Text → Bool
is_rooted [] = false
is_rooted (c ∷ s) = c == b'/'

-- `filepath.Clean`.
unfoldable pub clean : Text → Text
unfolding keep_all keep is_rooted split_on join text_eq
clean path =
    let rooted = is_rooted path in
    let body = join (reverse (keep_all rooted [] (split_on b'/' path))) (b'/' ∷ []) in
    if rooted then b'/' ∷ body else if is_empty body then dot else body

clean_test :
    (clean (codes "/srv//app/./x/..") ≡ codes "/srv/app")
    × (clean (codes "../a/../..") ≡ codes "../..")
    × (clean (codes "a/..") ≡ codes ".")
    × (clean (codes "/..") ≡ codes "/")
unfolding clean dot
clean_test = (refl, refl, refl, refl)
