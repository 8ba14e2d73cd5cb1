-- ===== src/Proxy/Accumulator.antt =====
-- app/collect/proxy/walk.go: the accumulator of what the parsers find; and `scanNginxFile` and
-- `walkNginxTree` of app/collect/proxy/nginx.go. The sets of ports and paths are lists.
use deploy_witness_cli.Prelude.{
  ℕ, ◌≡◌, refl, ap, Bool, true, false, ◌||◌, none, some, List, [], ◌∷◌, ◌++◌, map, ltb, leb, ◌==◌,
  if◌then◌else◌, length, any, Text, codes, text_eq, is_empty, trim_where, trim_space, itoa,
  cut_last,
}
use deploy_witness_cli.FilePath.{clean}
use deploy_witness_cli.Proxy.Nginx.{Directive, nginx_directives, nginx_listen_port}
use deploy_witness_cli.Proxy.Walk.{Tree, Crawler, new_crawler, visit_file, walk, max_walk_depth}

pub record ServerName : Type 0 where
  pub name : Text
  pub file : Text
  pub line : ℕ

pub record Accumulator : Type 0 where
  pub names : List ServerName
  pub seen_name : List Text
  pub ports : List ℕ
  pub certs : List Text
  pub names_truncated : Bool

abbrev pub max_server_names : ℕ
max_server_names = 1000

-- `newAccumulator`.
abbrev pub new_accumulator : Accumulator
new_accumulator = record {
  names = [];
  seen_name = [];
  ports = [];
  certs = [];
  names_truncated = false;
}

-- strings.Trim of quotes, after strings.TrimSpace.
unfoldable pub trim_name : Text → Text
trim_name s = trim_where (λ c. c == b'"' || c == 39) (trim_space s)

-- `accumulator.addName`.
unfoldable pub add_name : Text → Text → ℕ → Accumulator → Accumulator
add_name written file line acc =
    let name = trim_name written in
    let key = name ++ 0 ∷ (file ++ 0 ∷ itoa line) in
    if is_empty name || any (λ k. text_eq k key) acc.seen_name
    then acc
    else if leb max_server_names (length acc.names)
    then record acc { names_truncated = true }
    else record acc {
      seen_name = key ∷ acc.seen_name;
      names = acc.names ++ (record { name = name; file = file; line = line }) ∷ [];
    }

-- `accumulator.addPort`.
unfoldable pub add_port : ℕ → Accumulator → Accumulator
add_port port acc =
    if port == 0 || (ltb 65535 port || any (λ p. p == port) acc.ports)
    then acc
    else record acc { ports = port ∷ acc.ports }

-- `accumulator.addCert`.
unfoldable pub add_cert : Text → Accumulator → Accumulator
add_cert written acc =
    let path = trim_name written in
    if is_empty path || any (λ p. text_eq p path) acc.certs
    then acc
    else record acc { certs = path ∷ acc.certs }

-- The names of a `server_name`, each with its line.
unfoldable pub add_names : Text → List Text → List ℕ → Accumulator → Accumulator
add_names file [] lines acc = acc
add_names file (name ∷ names) [] acc = acc
add_names file (name ∷ names) (line ∷ lines) acc =
    add_names file names lines (add_name name file line acc)

abbrev pub first_argument : List Text → List Text
first_argument [] = []
first_argument (a ∷ args) = a ∷ []

-- A round of the loop of `scanNginxFile`: what is added, and the include, if it is one.
unfoldable pub fold_directive : Text → Directive → Accumulator → Accumulator
fold_directive path d acc =
    if text_eq d.name (codes "server_name")
    then add_names path d.args d.arg_lines acc
    else if text_eq d.name (codes "listen")
    then elim (nginx_listen_port d.args) [ none ↦ acc | some port ↦ add_port port acc ]
    else if text_eq d.name (codes "ssl_certificate")
    then elim d.args [ [] ↦ acc | a ∷ args ↦ add_cert a acc ]
    else acc

unfoldable pub included : Directive → List Text
included d = if text_eq d.name (codes "include") then first_argument d.args else []

unfoldable pub scan_directives : Text → List Directive → Accumulator → List Text × Accumulator
scan_directives path [] acc = ([], acc)
scan_directives path (d ∷ ds) acc =
    let rest = scan_directives path ds (fold_directive path d acc) in (included d ++ rest.0, rest.1)

-- `scanNginxFile`.
unfoldable pub scan_nginx_file : Text → Text → Accumulator → List Text × Accumulator
scan_nginx_file path body acc = scan_directives path (nginx_directives body) acc

-- The includes of a body, whatever the accumulator holds.
unfoldable pub includes_of : List Directive → List Text
includes_of [] = []
includes_of (d ∷ ds) = included d ++ includes_of ds

pub scan_directives-includes :
    (path : Text) (ds : List Directive) (acc : Accumulator)
    → (scan_directives path ds acc).0 ≡ includes_of ds
unfolding scan_directives includes_of
scan_directives-includes path [] acc = refl
scan_directives-includes path (d ∷ ds) acc =
    ap (λ z. included d ++ z) (scan_directives-includes path ds (fold_directive path d acc))

abbrev pub nginx_drop_in_globs : List Text
nginx_drop_in_globs = map codes (
    "conf.d/*.conf" ∷ "sites-enabled/*" ∷ "http.d/*.conf" ∷ "vhosts.d/*.conf" ∷ "streams-enabled/*"
    ∷ "stream.d/*.conf" ∷ [])

-- filepath.Dir of a path in a directory.
unfoldable pub dir_of : Text → Text
dir_of path = elim (cut_last b'/' path) [
  | none ↦ codes "."
  | some (dir, name) ↦ clean (dir ++ b'/' ∷ [])
]

unfoldable pub walk_globs : Tree → Text → List Text → Crawler Accumulator → Crawler Accumulator
walk_globs tree base [] c = c
walk_globs tree base (g ∷ globs) c =
    walk_globs tree base globs (walk tree base scan_nginx_file max_walk_depth g c)

-- `walkNginxTree`. The root is at depth 0, so what it includes has all levels left.
unfoldable pub walk_nginx_tree : Tree → Text → Accumulator → Crawler Accumulator
walk_nginx_tree tree root acc =
    let base = if is_empty root then codes "/etc/nginx" else dir_of root in
    let start =
      if is_empty root
      then new_crawler acc
      else visit_file tree base scan_nginx_file (walk tree base scan_nginx_file max_walk_depth) root
          (new_crawler acc) in
    walk_globs tree base nginx_drop_in_globs start
