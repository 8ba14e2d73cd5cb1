-- ===== src/Samples/Plans.antt =====
-- Substitutions in a plan, on one environment.
use deploy_witness_cli.Prelude.{
  String, ◌≡◌, refl, true, Option, none, some, List, [], ◌∷◌, ◌++◌, Text, codes, text_eq,
  has_prefix, trim_space, trim_suffix_byte, split_on, cut_first, lookup_text, strip_prefix, span,
}
use deploy_witness_cli.Manifest.Interpolate.{
  Warning, unterminated, unresolved, required, lookup, is_name_start, is_name_char, scan_name,
  closing_brace, is_set, is_filled, value_of, on_prefix, require, apply_operator, expand_braced,
  next_braced, next_name, next_dollar, next, pending, settle, joined, substitute_from, substitute,
}
use deploy_witness_cli.Manifest.Dotenv.{
  load_dotenv, dotenv_lines, dotenv_line, unquote, last_byte, without_last,
}
use deploy_witness_cli.Manifest.Interpolate.Total.{substitute_total}
use deploy_witness_cli.Manifest.Interpolate.Escape.{escape, substitute-escape}
use deploy_witness_cli.Manifest.Interpolate.Reference.{
  is_name, resolved, resolved_plain, substitute-reference,
}

-- A process without variables, and a `.env` file.
env : Text → Option Text
unfolding lookup lookup_text text_eq
env name = lookup (λ x. none) ((codes "PORT", codes "8080") ∷ (codes "EMPTY", []) ∷ []) name

expanded : String → Option (Text × List Warning)
unfolding env substitute substitute_from joined settle pending next next_dollar next_name
    next_braced expand_braced apply_operator require on_prefix value_of is_filled is_set
    closing_brace scan_name span is_name_char is_name_start strip_prefix has_prefix
expanded text = substitute env (codes text)

port_set : expanded "${PORT}:80" ≡ some (codes "8080:80", [])
unfolding expanded
port_set = refl

nested_default : expanded "${HOST:-${EMPTY-x}a}/$PORT$" ≡ some (codes "a/8080$", [])
unfolding expanded
nested_default = refl

missing_kept : expanded "$DB:5432" ≡ some (codes "$DB:5432", unresolved (codes "DB") ∷ [])
unfolding expanded
missing_kept = refl

required_kept :
    expanded "${EMPTY:?no}" ≡ some (codes "${EMPTY:?no}", required (codes "${EMPTY:?no}") ∷ [])
unfolding expanded
required_kept = refl

never_closed : expanded "a${B" ≡ some (codes "a${B", unterminated (codes "a${B") ∷ [])
unfolding expanded
never_closed = refl

-- The last line that sets a variable counts, without its quotes.
set_twice :
    lookup_text (codes "A") (load_dotenv (codes "# c\nA=1\nexport A = '2 3'\nB\n"))
    ≡ some (codes "2 3")
unfolding load_dotenv dotenv_lines dotenv_line unquote last_byte without_last lookup_text text_eq
    split_on cut_first trim_space trim_suffix_byte strip_prefix has_prefix
set_twice = refl

substitute_total_example :
    (done : Text × List Warning) × (substitute env (codes "${HOST:-${EMPTY-x}a}/$PORT$")
      ≡ some done)
substitute_total_example = substitute_total env (codes "${HOST:-${EMPTY-x}a}/$PORT$")

substitute-escape_example : substitute env (escape (codes "a$PORT")) ≡ some (codes "a$PORT", [])
substitute-escape_example = substitute-escape env (codes "a$PORT")

name_of_port : is_name (codes "PORT") ≡ true
unfolding is_name is_name_start is_name_char
name_of_port = refl

substitute-reference_example :
    (substitute env (codes "${" ++ codes "PORT" ++ codes "}")
      ≡ some (resolved (env (codes "PORT")) (codes "PORT")))
    × (substitute env (codes "$" ++ codes "PORT")
        ≡ some (resolved_plain (env (codes "PORT")) (codes "PORT")))
substitute-reference_example = substitute-reference env (codes "PORT") name_of_port
