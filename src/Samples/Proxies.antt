-- ===== src/Samples/Proxies.antt =====
-- Tests and witnesses for app/collect/proxy.
use deploy_witness_cli.Prelude.{
  ℕ, ◌+◌, ◌≤◌, ◌≡◌, refl, true, false, ◌||◌, none, List, [], ◌∷◌, ◌++◌, map, arith, if◌then◌else◌,
  length, Text, codes, text_eq, has_prefix, trim_where, cut_last, atoi,
}
use deploy_witness_cli.FilePath.{clean}
use deploy_witness_cli.Proxy.Nginx.{
  nginx_directives, scan, step, step_between, flush, texts, token_lines, last_tokens,
  is_nginx_delimiter, next_line, nginx_listen_port,
}
use deploy_witness_cli.Proxy.Nginx.Written.{Command, print, located, nginx_directives-print}
use deploy_witness_cli.Proxy.Walk.{
  Stat, absent, regular, Reading, body, Tree, Crawler, new_crawler, walk, each, visit_file,
  visit_stat, read_regular, expand, join_path, real_path, is_visited, notes,
}
use deploy_witness_cli.Proxy.Walk.Grown.{Named, IsFollowed}
use deploy_witness_cli.Proxy.Walk.Closed.{walk_closed}
use deploy_witness_cli.Proxy.Walk.Bounded.{walk_bounded}
use deploy_witness_cli.Proxy.Accumulator.{
  Accumulator, new_accumulator, scan_nginx_file, scan_directives, scan_directives-includes,
  includes_of, included, fold_directive, add_names, add_name, add_port, trim_name,
}

-- A body with a comment, a block and quotes: the names, and the lines of the words.
read_words : Text → List (List Text)
unfolding nginx_directives scan step step_between flush texts token_lines last_tokens
    is_nginx_delimiter next_line
read_words s = map (λ d. d.name ∷ d.args) (nginx_directives s)

read_lines : Text → List (List ℕ)
unfolding nginx_directives scan step step_between flush texts token_lines last_tokens
    is_nginx_delimiter next_line
read_lines s = map (λ d. d.line ∷ d.arg_lines) (nginx_directives s)

abbrev server_block : Text
server_block = codes "server { # main;" ++ 10 ∷ codes "  server_name 'a' b" ++ 10 ∷ codes "    c;}"

block_words :
    read_words server_block
    ≡ (codes "server" ∷ []) ∷ (codes "server_name" ∷ codes "a" ∷ codes "b" ∷ codes "c" ∷ []) ∷ []
unfolding read_words
block_words = refl

block_lines : read_lines server_block ≡ (1 ∷ []) ∷ (2 ∷ 2 ∷ 2 ∷ 3 ∷ []) ∷ []
unfolding read_lines
block_lines = refl

abbrev quoted_command : List Command
quoted_command = record { name = codes "root"; args = (b'"' ∷ 92 ∷ 10 ∷ []) ∷ [] } ∷ []

nginx_directives-print_example : nginx_directives (print quoted_command) ≡ located 1 quoted_command
nginx_directives-print_example = nginx_directives-print quoted_command

-- Two files, each of which includes the other.
abbrev root_body : Text
root_body = codes "include sites;"

abbrev site_body : Text
site_body = codes "include /c/root; listen 8080;"

stat_two : Text → Stat
unfolding text_eq
stat_two p = if text_eq p (codes "/c/root") || text_eq p (codes "/c/sites") then regular else absent

read_two : Text → Reading
unfolding text_eq
read_two p = body (if text_eq p (codes "/c/root") then root_body else site_body) false

abbrev two_files : Tree
two_files = record { resolve = λ p. none; stat = stat_two; read = read_two; glob = λ p. none }

abbrev two_walked : Crawler Accumulator
two_walked =
    walk two_files (codes "/c") scan_nginx_file 8 (codes "root") (new_crawler new_accumulator)

walked_notes : Crawler Accumulator → List Text
unfolding notes walk each visit_file visit_stat read_regular expand join_path real_path is_visited
    stat_two read_two scan_nginx_file scan_directives included fold_directive add_names add_name
    add_port trim_name nginx_listen_port nginx_directives scan step step_between flush texts
    token_lines last_tokens is_nginx_delimiter next_line new_crawler clean text_eq has_prefix
    trim_where atoi cut_last
walked_notes c = notes c

no_notes : notes two_walked ≡ []
unfolding walked_notes
no_notes = refl

both_read : two_walked.files ≡ 2
unfolding walked_notes
both_read = refl

site_port : two_walked.acc.ports ≡ 8080 ∷ []
unfolding walked_notes
site_port = refl

include_law :
    (path text : Text) (a : Accumulator)
    → (scan_nginx_file path text a).0 ≡ includes_of (nginx_directives text)
unfolding scan_nginx_file
include_law path text a = scan_directives-includes path (nginx_directives text) a

walk_closed_example :
    Named two_files (codes "/c") (λ p t. includes_of (nginx_directives t)) two_walked (codes "root")
    × ((r : Text)
        → is_visited two_walked.visited r ≡ true
        → IsFollowed two_files (codes "/c") (λ p t. includes_of (nginx_directives t)) two_walked r)
walk_closed_example =
    walk_closed two_files (codes "/c") scan_nginx_file (λ p t. includes_of (nginx_directives t))
      include_law 8 (codes "root") new_accumulator no_notes

-- The scanner of nginx files that also keeps the paths it is called with.
abbrev kept_scan : Text → Text → List Text × Accumulator → List Text × (List Text × Accumulator)
kept_scan path text (paths, acc) =
    let (includes, next) = scan_nginx_file path text acc in (includes, (path ∷ paths, next))

kept_one :
    (path text : Text) (a : List Text × Accumulator)
    → length (kept_scan path text a).1.0 ≤ length a.0 + 1
kept_one path text (paths, acc) = omega arith

abbrev kept_walked : Crawler (List Text × Accumulator)
kept_walked =
    walk two_files (codes "/c") kept_scan 8 (codes "root") (new_crawler ([], new_accumulator))

walk_bounded_example : length kept_walked.acc.0 ≤ 256
walk_bounded_example =
    walk_bounded two_files (codes "/c") kept_scan (λ a. length a.0) kept_one 8 (codes "root")
      ([], new_accumulator)

-- A variable in braces ends the argument that it stands in.
braced_variable :
    read_words (codes "ssl_certificate /c/${n}.pem;")
    ≡ (codes "ssl_certificate" ∷ codes "/c/$" ∷ []) ∷ (codes ".pem" ∷ []) ∷ []
unfolding read_words
braced_variable = refl
