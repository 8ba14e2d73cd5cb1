-- ===== src/Proxy/Walk.antt =====
-- app/collect/proxy/walk.go: the crawler, which follows the includes of a configuration within
-- bounds. The file system is a parameter. The depth counts down, from `maxWalkDepth` to nothing.
pub mod Grown
pub mod Closed
pub mod Bounded
use deploy_witness_cli.Prelude.{
  ℕ, zero, suc, ◌+◌, ◌-◌, ◌*◌, ◌/◌, ◌%◌, ◌^◌, ◌≤◌, ◌<◌, String, ◌≡◌, refl, sym, ap, ◌∙◌, ◌≢◌, ◌↔◌,
  ◌⊎◌, inl, inr, Bool, true, false, not, ◌&&◌, ◌||◌, Option, none, some, List, [], ◌∷◌, ◌++◌, map,
  arith, ltb, leb, ◌==◌, if◌then◌else◌, ==_iff, Bool-cases, Option-cases, length, length-append,
  length-map, All, All-append, any, Text, codes, text_eq, text_eq_iff, text_eq_refl, text_eq_sound,
  is_empty, has_prefix, contains_text, join, trim_left_where, trim_where, trim_space, trim_brackets,
  to_lower, lower, upper, trim_suffix_byte, text_compare, itoa, is_space, em_dash, quoted, split_on,
  All-map, Exists, Exists-append_left, Exists-append_right, Exists-map, All-Exists, Exists-All,
  Exists-with, cut_first, cut_last, atoi, all, strip_suffix, lookup_text, all-Exists, all-All,
  All-all, all-with, lookup_text-All, take, strip_prefix, strip_prefix-length, is_empty_sound, span,
  span-length, ellipsis,
}
use deploy_witness_cli.FilePath.{clean}

-- What os.Stat finds at a path.
pub data Stat : Type 0 where
  absent : Stat
  failed : Text → Stat
  directory : Stat
  regular : Stat
  special : Stat

-- What `readLimited` returns: an error, or the first bytes of the file and whether there are more.
pub data Reading : Type 0 where
  broken : Text → Reading
  body : Text → Bool → Reading

-- filepath.EvalSymlinks, os.Stat, `readLimited`, and filepath.Glob with its matches in order.
pub record Tree : Type 0 where
  pub resolve : Text → Option Text
  pub stat : Text → Stat
  pub read : Text → Reading
  pub glob : Text → Option (List Text)

abbrev pub max_walk_depth : ℕ
max_walk_depth = 8

abbrev pub max_walk_files : ℕ
max_walk_files = 256

-- `crawler`, over an accumulator of a type `A`.
pub record Crawler (A : Type 0) : Type 0 where
  pub acc : A
  pub visited : List Text
  pub files : ℕ
  pub hit_file_limit : Bool
  pub hit_depth_limit : Bool
  pub oversize : List Text
  pub unreadable : List Text

-- `newCrawler`.
unfoldable pub new_crawler : {A : Type 0} → A → Crawler A
new_crawler acc = record {
  acc = acc;
  visited = [];
  files = 0;
  hit_file_limit = false;
  hit_depth_limit = false;
  oversize = [];
  unreadable = [];
}

-- filepath.Join of two elements that are not both empty.
unfoldable pub join_path : Text → Text → Text
join_path [] b = clean b
join_path (c ∷ a) b = if is_empty b then clean (c ∷ a) else clean ((c ∷ a) ++ b'/' ∷ b)

-- `crawler.expand`.
unfoldable pub expand : Tree → Text → Text → List Text
expand tree base written =
    let pattern = trim_where (λ c. c == b'"' || c == 39) written in
    let full = if has_prefix pattern (codes "/") then pattern else join_path base pattern in
    if is_empty pattern
    then []
    else if not (any (λ c. c == b'*' || (c == b'?' || c == b'[')) full)
    then full ∷ []
    else elim (tree.glob full) [ none ↦ [] | some matches ↦ matches ]

-- The path on which cycles are broken.
unfoldable pub real_path : Tree → Text → Text
real_path tree path = elim (tree.resolve path) [ none ↦ path | some real ↦ real ]

unfoldable pub is_visited : List Text → Text → Bool
is_visited visited real = any (λ v. text_eq v real) visited

-- A function on each of the paths, one after the other.
unfoldable pub each :
    {A : Type 0} → (Text → Crawler A → Crawler A) → List Text → Crawler A → Crawler A
each f [] c = c
each f (p ∷ ps) c = each f ps (f p c)

module _ {A : Type 0} (tree : Tree) (base : Text) (scan : Text → Text → A → List Text × A) where
  -- `crawler.file` from the reading of a regular file on; `walk` is `crawler.walk` one level below.
  unfoldable pub read_regular :
      (Text → Crawler A → Crawler A) → Text → Reading → Crawler A → Crawler A
  read_regular walk path (broken e) c = record c {
    files = c.files + 1;
    unreadable = c.unreadable ++ (path ++ codes ": " ++ e) ∷ [];
  }
  read_regular walk path (body text over) c =
      let (includes, acc) = scan path text c.acc in
      each walk includes (record c {
        files = c.files + 1;
        oversize = if over then c.oversize ++ path ∷ [] else c.oversize;
        acc = acc;
      })

  -- By what os.Stat says of the path.
  unfoldable pub visit_stat : (Text → Crawler A → Crawler A) → Text → Stat → Crawler A → Crawler A
  visit_stat walk path absent c = c
  visit_stat walk path (failed e) c = record c {
    unreadable = c.unreadable ++ (path ++ codes ": " ++ e) ∷ [];
  }
  visit_stat walk path directory c = walk (join_path path (codes "*.conf")) c
  visit_stat walk path special c = c
  visit_stat walk path regular c =
      if leb max_walk_files c.files
      then record c { hit_file_limit = true }
      else read_regular walk path (tree.read path) c

  -- `crawler.file`.
  unfoldable pub visit_file : (Text → Crawler A → Crawler A) → Text → Crawler A → Crawler A
  visit_file walk path c =
      let real = real_path tree path in
      if is_visited c.visited real
      then c
      else visit_stat walk path (tree.stat path) (record c { visited = real ∷ c.visited })

  -- `crawler.walk`, with the levels that are left.
  unfoldable pub walk : ℕ → Text → Crawler A → Crawler A
  walk zero pattern c = record c { hit_depth_limit = true }
  walk (suc levels) pattern c = each (visit_file (walk levels)) (expand tree base pattern) c

-- `crawler.notes`: the five paths that are shown at most, and the note on a bound.
unfoldable pub notes : {A : Type 0} → Crawler A → List Text
notes c =
    (if c.hit_depth_limit
      then (codes "the include chain was deeper than "
          ++ itoa max_walk_depth
          ++ codes " levels; anything below that was not read")
        ∷ []
      else [])
    ++ (if c.hit_file_limit
        then (codes "the configuration walk stopped at "
            ++ itoa max_walk_files
            ++ codes " files; the remaining files were not read")
          ∷ []
        else [])
    ++ (if is_empty c.oversize
        then []
        else (codes "read only the first 4 MiB of " ++ join c.oversize (codes ", ")) ∷ [])
    ++ (if is_empty c.unreadable
        then []
        else (itoa (length c.unreadable)
            ++ codes " configuration file(s) could not be read: "
            ++ join (take 5 c.unreadable) (codes "; ")
            ++ (if ltb 5 (length c.unreadable) then codes "; " ++ ellipsis else []))
          ∷ [])
