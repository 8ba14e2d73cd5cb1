-- ===== src/Proxy/Walk/Closed.antt =====
-- `crawler` of app/collect/proxy/walk.go: what a walk without notes has seen.
use deploy_witness_cli.Prelude.{
  ℕ, zero, suc, ◌+◌, ◌≡◌, refl, sym, inl, inr, Bool, true, false, List, [], ◌∷◌, ◌++◌, arith, leb,
  if◌then◌else◌, Bool-cases, Text, codes, text_eq, text_eq_refl, text_eq_sound, is_empty,
}
use deploy_witness_cli.Proxy.Walk.{
  Stat, absent, failed, directory, regular, special, Reading, broken, body, Tree, Crawler,
  join_path, expand, real_path, is_visited, read_regular, visit_stat, visit_file, walk, new_crawler,
  notes, max_walk_files,
}
use deploy_witness_cli.Proxy.Walk.Grown.{
  IsClear, Named, ReadWhole, Followed, IsFollowed, Extends, Extends-refl, Extends-trans,
  Extends-marked, Visits, each-Extends, Walks, each-Walks,
}

is_empty-snoc : (xs : List Text) (x : Text) → is_empty (xs ++ x ∷ []) ≡ true → ⊥
is_empty-snoc [] x h = cc h
is_empty-snoc (y ∷ xs) x h = cc h

nil_parts : (xs ys : List Text) → xs ++ ys ≡ [] → (xs ≡ []) × (ys ≡ [])
nil_parts [] ys h = (refl, h)
nil_parts (x ∷ xs) ys h = cc h

unless_noted : (b : Bool) (x : Text) → (if b then x ∷ [] else []) ≡ [] → b ≡ false
unless_noted true x h = cc h
unless_noted false x h = refl

when_not_noted : (b : Bool) (x : Text) → (if b then [] else x ∷ []) ≡ [] → b ≡ true
when_not_noted true x h = refl
when_not_noted false x h = cc h

notes-IsClear : {A : Type 0} (c : Crawler A) → notes c ≡ [] → IsClear c
unfolding notes
notes-IsClear c h =
    let abc = nil_parts _ _ h in
    let ab = nil_parts _ _ abc.0 in
    let a = nil_parts _ _ ab.0 in
    record {
      depth = unless_noted c.hit_depth_limit _ a.0;
      files = unless_noted c.hit_file_limit _ a.1;
      whole = when_not_noted (is_empty c.oversize) _ ab.1;
      readable = when_not_noted (is_empty c.unreadable) _ abc.1;
    }

whole_before :
    (over : Bool) (xs : List Text) (x : Text)
    → is_empty (if over then xs ++ x ∷ [] else xs) ≡ true
    → (over ≡ false) × (is_empty xs ≡ true)
whole_before true xs x h = absurd (is_empty-snoc xs x h)
whole_before false xs x h = (refl, h)

module _ {A : Type 0} (tree : Tree) (base : Text) (scan : Text → Text → A → List Text × A)
    (includes : Text → Text → List Text)
    (law : (path text : Text) (a : A) → (scan path text a).0 ≡ includes path text) where
  regular-Extends :
      (f : Text → Crawler A → Crawler A)
      → Walks tree base includes f
      → (path : Text) (r : Reading) (c : Crawler A)
      → Extends tree base includes c (read_regular tree base scan f path r c)
        × (IsClear (read_regular tree base scan f path r c)
            → ReadWhole tree base includes (read_regular tree base scan f path r c) path r)
  unfolding read_regular
  regular-Extends f v path (broken e) c = (
    Extends-marked tree base includes c _ refl
        (λ k. absurd (is_empty-snoc c.unreadable _ k.readable)),
    λ k. absurd (is_empty-snoc c.unreadable _ k.readable),
  )
  regular-Extends f v path (body text over) c =
      let read : Crawler A = record c {
        files = c.files + 1;
        oversize = if over then c.oversize ++ path ∷ [] else c.oversize;
        acc = (scan path text c.acc).1;
      } in
      let w = each-Walks tree base includes f v (scan path text c.acc).0 read in
      (
        Extends-trans tree base includes c read _
            (Extends-marked tree base includes c read refl (λ k. record {
              depth = k.depth;
              files = k.files;
              whole = (whole_before over c.oversize path k.whole).1;
              readable = k.readable;
            }))
            w.0,
        λ k. (
          (whole_before over c.oversize path (w.0.grows.clear k).whole).0,
          rw (sym (law path text c.acc)) (w.1 k),
        ),
      )

  stat-Extends :
      (f : Text → Crawler A → Crawler A)
      → Walks tree base includes f
      → (path : Text) (s : Stat) (c : Crawler A)
      → Extends tree base includes c (visit_stat tree base scan f path s c)
        × (IsClear (visit_stat tree base scan f path s c)
            → Followed tree base includes (visit_stat tree base scan f path s c) path s)
  unfolding visit_stat
  stat-Extends f v path absent c = (Extends-refl tree base includes c, λ k. tt)
  stat-Extends f v path (failed e) c = (
    Extends-marked tree base includes c _ refl
        (λ k. absurd (is_empty-snoc c.unreadable _ k.readable)),
    λ k. is_empty-snoc c.unreadable _ k.readable,
  )
  stat-Extends f v path directory c = v (join_path path (codes "*.conf")) c
  stat-Extends f v path special c = (Extends-refl tree base includes c, λ k. tt)
  stat-Extends f v path regular c = elim (Bool-cases (leb max_walk_files c.files)) [
    | inl e ↦ rw e (Extends-marked tree base includes c _ refl (λ k. cc k.files), λ k. cc k.files)
    | inr e ↦ rw e (regular-Extends f v path (tree.read path) c)
  ]

  file-Visits :
      (f : Text → Crawler A → Crawler A)
      → Walks tree base includes f
      → Visits tree base includes (visit_file tree base scan f)
  unfolding visit_file is_visited
  file-Visits f v path c = elim (Bool-cases (is_visited c.visited (real_path tree path))) [
    | inl e ↦ rw e (Extends-refl tree base includes c, λ k. e)
    | inr e ↦
        let real = real_path tree path in
        let marked : Crawler A = record c { visited = real ∷ c.visited } in
        let s = stat-Extends f v path (tree.stat path) marked in
        rw e (
          record {
            grows = record {
              keeps = λ r h. s.0.grows.keeps r (ground (arith, h));
              clear = λ k.
                  let m = s.0.grows.clear k in
                  record {
                    depth = m.depth;
                    files = m.files;
                    whole = m.whole;
                    readable = m.readable;
                  };
            };
            new = λ k r h. elim (s.0.new k r h) [
              | inr g ↦ inr g
              | inl u ↦ elim (Bool-cases (text_eq real r)) [
                | inl q ↦
                    inr
                      (record { path = path; resolved = text_eq_sound real r q; followed = s.1 k })
                | inr q ↦ inl (rw q at u)
              ]
            ];
          },
          λ k. s.0.grows.keeps real (rw (text_eq_refl real) refl),
        )
  ]

  pub walk-Walks : (levels : ℕ) → Walks tree base includes (walk tree base scan levels)
  unfolding walk
  walk-Walks zero pattern c =
      (Extends-marked tree base includes c _ refl (λ k. cc k.depth), λ k. cc k.depth)
  walk-Walks (suc levels) pattern c =
      each-Extends tree base includes (visit_file tree base scan (walk tree base scan levels))
        (file-Visits (walk tree base scan levels) (walk-Walks levels)) (expand tree base pattern) c

  -- A walk that leaves no note has left nothing out: every path that the pattern stands for was
  -- visited, and of every file that was visited the path was followed: a directory by all its *.conf
  -- files, and a regular file, which was read in full, by every path that each of its includes stands
  -- for. The includes that the scanner returns are assumed to depend on the file alone.
  pub walk_closed :
      (levels : ℕ) (pattern : Text) (acc : A)
      → notes (walk tree base scan levels pattern (new_crawler acc)) ≡ []
      → Named tree base includes (walk tree base scan levels pattern (new_crawler acc)) pattern
        × ((r : Text)
            → is_visited (walk tree base scan levels pattern (new_crawler acc)).visited r ≡ true
            → IsFollowed tree base includes
                (walk tree base scan levels pattern (new_crawler acc))
                r)
  unfolding new_crawler is_visited
  walk_closed levels pattern acc h =
      let w = walk-Walks levels pattern (new_crawler acc) in
      let k = notes-IsClear (walk tree base scan levels pattern (new_crawler acc)) h in
      (w.1 k, λ r v. elim (w.0.new k r v) [ inl n ↦ cc n | inr f ↦ f ])
