-- ===== src/Proxy/Walk/Bounded.antt =====
-- `crawler` of app/collect/proxy/walk.go: how many files a walk reads.
use deploy_witness_cli.Prelude.{
  ℕ, zero, suc, ◌+◌, ◌≤◌, ◌<◌, inl, inr, List, [], ◌∷◌, arith, leb, Bool-cases, Text, codes,
}
use deploy_witness_cli.Proxy.Walk.{
  Stat, absent, failed, directory, regular, special, Reading, broken, body, Tree, Crawler,
  new_crawler, join_path, expand, real_path, is_visited, each, read_regular, visit_stat, visit_file,
  walk, max_walk_files,
}

-- The counter is within the bound, and it counts whatever the accumulator has cost.
abbrev Within : {A : Type 0} → (A → ℕ) → ℕ → Crawler A → Type 0
Within cost k c = (c.files ≤ max_walk_files) × (cost c.acc ≤ k + c.files)

-- A step that keeps to the bound.
abbrev Keeps : {A : Type 0} → (A → ℕ) → ℕ → (Text → Crawler A → Crawler A) → Type 0
Keeps {A} cost k f = (p : Text) (c : Crawler A) → Within cost k c → Within cost k (f p c)

each-Keeps :
    {A : Type 0} (cost : A → ℕ) (k : ℕ) (f : Text → Crawler A → Crawler A)
    → Keeps cost k f
    → (ps : List Text) (c : Crawler A) → Within cost k c
    → Within cost k (each f ps c)
unfolding each
each-Keeps cost k f s [] c h = h
each-Keeps cost k f s (p ∷ ps) c h = each-Keeps cost k f s ps (f p c) (s p c h)

module _ {A : Type 0} (tree : Tree) (base : Text) (scan : Text → Text → A → List Text × A)
    (cost : A → ℕ) (one : (path text : Text) (a : A) → cost (scan path text a).1 ≤ cost a + 1)
    (k : ℕ) where
  regular-Within :
      (f : Text → Crawler A → Crawler A)
      → Keeps cost k f
      → (path : Text) (r : Reading) (c : Crawler A) → c.files < max_walk_files
      → Within cost k c
      → Within cost k (read_regular tree base scan f path r c)
  unfolding read_regular
  regular-Within f s path (broken e) c l h = (omega arith, omega (arith, h.1))
  regular-Within f s path (body text over) c l h =
      each-Keeps cost k f s (scan path text c.acc).0 _
        (omega arith, omega (arith, h.1, one path text c.acc))

  stat-Within :
      (f : Text → Crawler A → Crawler A)
      → Keeps cost k f
      → (path : Text) (t : Stat) (c : Crawler A) → Within cost k c
      → Within cost k (visit_stat tree base scan f path t c)
  unfolding visit_stat
  stat-Within f s path absent c h = h
  stat-Within f s path (failed e) c h = h
  stat-Within f s path directory c h = s (join_path path (codes "*.conf")) c h
  stat-Within f s path special c h = h
  stat-Within f s path regular c h = elim (Bool-cases (leb max_walk_files c.files)) [
    | inl e ↦ rw e h
    | inr e ↦ rw e (regular-Within f s path (tree.read path) c (ground (arith, e)) h)
  ]

  file-Keeps :
      (f : Text → Crawler A → Crawler A)
      → Keeps cost k f
      → Keeps cost k (visit_file tree base scan f)
  unfolding visit_file
  file-Keeps f s path c h = elim (Bool-cases (is_visited c.visited (real_path tree path))) [
    | inl e ↦ rw e h
    | inr e ↦ rw e (stat-Within f s path (tree.stat path) _ h)
  ]

  walk-Within : (levels : ℕ) → Keeps cost k (walk tree base scan levels)
  unfolding walk
  walk-Within zero pattern c h = h
  walk-Within (suc levels) pattern c h =
      each-Keeps cost k (visit_file tree base scan (walk tree base scan levels))
        (file-Keeps (walk tree base scan levels) (walk-Within levels)) (expand tree base pattern) c
        h

-- A walk hands at most 256 bodies to the scanner, however the includes are linked: by any measure of
-- the accumulator to which one call of the scanner adds at most one, a walk of a new crawler adds at
-- most 256.
pub walk_bounded :
    {A : Type 0} (tree : Tree) (base : Text) (scan : Text → Text → A → List Text × A) (cost : A → ℕ)
    → ((path text : Text) (a : A) → cost (scan path text a).1 ≤ cost a + 1)
    → (levels : ℕ) (pattern : Text) (acc : A)
    → cost (walk tree base scan levels pattern (new_crawler acc)).acc ≤ cost acc + max_walk_files
unfolding new_crawler
walk_bounded tree base scan cost one levels pattern acc =
    let (files, paid) =
      walk-Within tree base scan cost one (cost acc) levels pattern (new_crawler acc)
        (omega arith, omega arith) in
    omega (arith, files, paid)
