-- ===== src/Manifest/Dotenv.antt =====
-- app/collect/manifest/interpolate.go: `loadDotEnv` on the text of the file, and `unquote`. Reading the
-- file is left out; a file that does not exist is an empty text.
use deploy_witness_cli.Prelude.{
  ℕ, ◌&&◌, ◌||◌, none, some, List, [], ◌∷◌, ◌++◌, ◌==◌, if◌then◌else◌, Text, codes, is_empty,
  has_prefix, trim_space, trim_suffix_byte, split_on, cut_first, strip_prefix,
}

-- The last byte of a text that has one.
unfoldable pub last_byte : ℕ → Text → ℕ
last_byte c [] = c
last_byte c (d ∷ s) = last_byte d s

-- A text without its last byte.
unfoldable pub without_last : Text → Text
without_last [] = []
without_last (c ∷ []) = []
without_last (c ∷ d ∷ s) = c ∷ without_last (d ∷ s)

-- `unquote`.
unfoldable pub unquote : Text → Text
unquote [] = []
unquote (c ∷ []) = c ∷ []
unquote (c ∷ d ∷ s) =
    if c == last_byte d s && (c == b'"' || c == 39) then without_last (d ∷ s) else c ∷ d ∷ s

-- A line of the file: the variable that it sets, if any.
unfoldable pub dotenv_line : Text → List (Text × Text)
dotenv_line line =
    let text = trim_space (trim_suffix_byte 13 line) in
    if is_empty text || has_prefix text (codes "#")
    then []
    else let assignment : Text = elim (strip_prefix (codes "export ") text) [
      | none ↦ text
      | some rest ↦ rest
    ] in
      elim (cut_first b'=' assignment) [
        | none ↦ []
        | some (name, value) ↦
            if is_empty (trim_space name)
            then []
            else (trim_space name, unquote (trim_space value)) ∷ []
      ]

-- The lines, the later ones first: a later line sets its variable anew.
unfoldable pub dotenv_lines : List Text → List (Text × Text)
dotenv_lines [] = []
dotenv_lines (l ∷ ls) = dotenv_lines ls ++ dotenv_line l

-- `loadDotEnv`.
unfoldable pub load_dotenv : Text → List (Text × Text)
load_dotenv raw = dotenv_lines (split_on b'\n' raw)
