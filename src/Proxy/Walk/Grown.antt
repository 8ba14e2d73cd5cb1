-- ===== src/Proxy/Walk/Grown.antt =====
-- `crawler` of app/collect/proxy/walk.go: what a walk adds, and what it has dealt with.
use deploy_witness_cli.Prelude.{
  ◌≡◌, ◌⊎◌, inl, inr, true, false, List, [], ◌∷◌, All, Text, codes, is_empty, All-map,
}
use deploy_witness_cli.Proxy.Walk.{
  Stat, absent, failed, directory, regular, special, Reading, broken, body, Tree, Crawler,
  join_path, expand, real_path, is_visited, each,
}

-- No bound was met, and every file that was opened could be read in full.
pub record IsClear {A : Type 0} (c : Crawler A) : Type 0 where
  pub depth : c.hit_depth_limit ≡ false
  pub files : c.hit_file_limit ≡ false
  pub whole : is_empty c.oversize ≡ true
  pub readable : is_empty c.unreadable ≡ true

pub record Grows {A : Type 0} (c c' : Crawler A) : Type 0 where
  pub keeps : (r : Text) → is_visited c.visited r ≡ true → is_visited c'.visited r ≡ true
  pub clear : IsClear c' → IsClear c

module _ {A : Type 0} (tree : Tree) (base : Text) (includes : Text → Text → List Text) where
  -- Every path that the pattern stands for was visited.
  abbrev pub Named : Crawler A → Text → Type 0
  Named c pattern =
      All (λ p. is_visited c.visited (real_path tree p) ≡ true) (expand tree base pattern)

  -- What became of a file that was read.
  abbrev pub ReadWhole : Crawler A → Text → Reading → Type 0
  ReadWhole c path (broken e) = ⊥
  ReadWhole c path (body text over) = (over ≡ false) × All (Named c) (includes path text)

  -- Nothing that the path leads to was left out.
  abbrev pub Followed : Crawler A → Text → Stat → Type 0
  Followed c path absent = Unit
  Followed c path (failed e) = ⊥
  Followed c path directory = Named c (join_path path (codes "*.conf"))
  Followed c path special = Unit
  Followed c path regular = ReadWhole c path (tree.read path)

  pub record IsFollowed (c : Crawler A) (real : Text) : Type 0 where
    pub path : Text
    pub resolved : real_path tree path ≡ real
    pub followed : Followed c path (tree.stat path)

  pub Grows-Named :
      (c c' : Crawler A) (pattern : Text) → Grows c c' → Named c pattern → Named c' pattern
  Grows-Named c c' pattern g n =
      All-map _ _ (expand tree base pattern) (λ p h. g.keeps (real_path tree p) h) n

  Grows-ReadWhole :
      (c c' : Crawler A) (path : Text) (r : Reading)
      → Grows c c'
      → ReadWhole c path r
      → ReadWhole c' path r
  Grows-ReadWhole c c' path (broken e) g f = f
  Grows-ReadWhole c c' path (body text over) g f =
      (f.0, All-map _ _ (includes path text) (λ p. Grows-Named c c' p g) f.1)

  Grows-Followed :
      (c c' : Crawler A) (path : Text) (s : Stat)
      → Grows c c'
      → Followed c path s
      → Followed c' path s
  Grows-Followed c c' path absent g f = tt
  Grows-Followed c c' path (failed e) g f = f
  Grows-Followed c c' path directory g f = Grows-Named c c' (join_path path (codes "*.conf")) g f
  Grows-Followed c c' path special g f = tt
  Grows-Followed c c' path regular g f = Grows-ReadWhole c c' path (tree.read path) g f

  pub Grows-IsFollowed :
      (c c' : Crawler A) (real : Text) → Grows c c' → IsFollowed c real → IsFollowed c' real
  Grows-IsFollowed c c' real g f = record {
    path = f.path;
    resolved = f.resolved;
    followed = Grows-Followed c c' f.path (tree.stat f.path) g f.followed;
  }

  -- The second state follows from the first by visits that were followed up.
  pub record Extends (c c' : Crawler A) : Type 0 where
    pub grows : Grows c c'
    pub new :
        IsClear c'
        → (r : Text) → is_visited c'.visited r ≡ true
        → (is_visited c.visited r ≡ true) ⊎ IsFollowed c' r

  pub Extends-refl : (c : Crawler A) → Extends c c
  Extends-refl c = record {
    grows = record { keeps = λ r h. h; clear = λ k. k };
    new = λ k r h. inl h;
  }

  pub Extends-trans : (a b c : Crawler A) → Extends a b → Extends b c → Extends a c
  Extends-trans a b c x y = record {
    grows = record {
      keeps = λ r h. y.grows.keeps r (x.grows.keeps r h);
      clear = λ k. x.grows.clear (y.grows.clear k);
    };
    new = λ k r h. elim (y.new k r h) [
      | inr f ↦ inr f
      | inl v ↦ elim (x.new (y.grows.clear k) r v) [
        | inl u ↦ inl u
        | inr f ↦ inr (Grows-IsFollowed b c r y.grows f)
      ]
    ];
  }

  -- Nothing but marks and the accumulator changed.
  pub Extends-marked :
      (c c' : Crawler A) → c'.visited ≡ c.visited → (IsClear c' → IsClear c) → Extends c c'
  Extends-marked c c' e k = record {
    grows = record { keeps = λ r h. rw e h; clear = k };
    new = λ l r h. inl (rw e at h);
  }

  -- What a visit of a path owes.
  abbrev pub Visits : (Text → Crawler A → Crawler A) → Type 0
  Visits f =
      (p : Text) (c : Crawler A)
      → Extends c (f p c) × (IsClear (f p c) → is_visited (f p c).visited (real_path tree p) ≡ true)

  pub each-Extends :
      (f : Text → Crawler A → Crawler A)
      → Visits f
      → (ps : List Text) (c : Crawler A)
      → Extends c (each f ps c)
        × (IsClear (each f ps c)
            → All (λ p. is_visited (each f ps c).visited (real_path tree p) ≡ true) ps)
  unfolding each
  each-Extends f v [] c = (Extends-refl c, λ k. tt)
  each-Extends f v (p ∷ ps) c =
      let a = v p c in
      let b = each-Extends f v ps (f p c) in
      (
        Extends-trans c (f p c) (each f ps (f p c)) a.0 b.0,
        λ k. (b.0.grows.keeps (real_path tree p) (a.1 (b.0.grows.clear k)), b.1 k),
      )

  -- What a walk owes.
  abbrev pub Walks : (Text → Crawler A → Crawler A) → Type 0
  Walks f =
      (pattern : Text) (c : Crawler A)
      → Extends c (f pattern c) × (IsClear (f pattern c) → Named (f pattern c) pattern)

  pub each-Walks :
      (f : Text → Crawler A → Crawler A)
      → Walks f
      → (ps : List Text) (c : Crawler A)
      → Extends c (each f ps c) × (IsClear (each f ps c) → All (Named (each f ps c)) ps)
  unfolding each
  each-Walks f v [] c = (Extends-refl c, λ k. tt)
  each-Walks f v (p ∷ ps) c =
      let a = v p c in
      let b = each-Walks f v ps (f p c) in
      (
        Extends-trans c (f p c) (each f ps (f p c)) a.0 b.0,
        λ k. (Grows-Named (f p c) (each f ps (f p c)) p b.0.grows (a.1 (b.0.grows.clear k)), b.1 k),
      )
