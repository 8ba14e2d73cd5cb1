-- ===== src/Proxy/Nginx.antt =====
-- app/collect/proxy/nginx.go: `nginxDirectives`, the tokeniser of a configuration. The three inner
-- loops, over a comment, a bare word and a quoted word, are modes of one loop over the bytes.
pub mod Written
use deploy_witness_cli.Prelude.{
  ℕ, ◌+◌, Bool, not, ◌&&◌, ◌||◌, Option, none, some, List, [], ◌∷◌, ◌++◌, ltb, leb, ◌==◌,
  if◌then◌else◌, any, Text, codes, is_empty, has_prefix, trim_where, cut_last, atoi,
}

-- A word and the line that it starts on.
pub record Token : Type 0 where
  pub text : Text
  pub line : ℕ

-- `nginxDirective`.
pub record Directive : Type 0 where
  pub name : Text
  pub args : List Text
  pub line : ℕ
  pub arg_lines : List ℕ

-- Where the loop stands: a bare or quoted word with what was read of it, the byte that closes it, and
-- the line on which it starts; `escaped` is after a backslash.
pub data Mode : Type 0 where
  between : Mode
  comment : Mode
  bare : Text → Mode
  quoted : Text → ℕ → ℕ → Mode
  escaped : Text → ℕ → ℕ → Mode

-- The variables of the loop.
pub record State : Type 0 where
  pub mode : Mode
  pub line : ℕ
  pub tokens : List Token
  pub out : List Directive

abbrev pub state : Mode → ℕ → List Token → List Directive → State
state mode line tokens out = record { mode = mode; line = line; tokens = tokens; out = out }

abbrev pub token : Text → ℕ → Token
token text line = record { text = text; line = line }

unfoldable pub texts : List Token → List Text
texts [] = []
texts (t ∷ ts) = t.text ∷ texts ts

unfoldable pub token_lines : List Token → List ℕ
token_lines [] = []
token_lines (t ∷ ts) = t.line ∷ token_lines ts

-- `flush`.
unfoldable pub flush : List Token → List Directive → List Directive
flush [] out = out
flush (t ∷ ts) out =
    out
    ++ (record { name = t.text; args = texts ts; line = t.line; arg_lines = token_lines ts }) ∷ []

-- `isNginxDelimiter`.
unfoldable pub is_nginx_delimiter : ℕ → Bool
is_nginx_delimiter c = any (λ d. c == d) (32 ∷ 9 ∷ 13 ∷ 10 ∷ b';' ∷ b'{' ∷ b'}' ∷ b'#' ∷ [])

-- The outer loop's switch.
unfoldable pub step_between : ℕ → ℕ → List Token → List Directive → State
step_between c line tokens out =
    if c == 10
    then state between (line + 1) tokens out
    else if c == 32 || (c == 9 || c == 13)
    then state between line tokens out
    else if c == b'#'
    then state comment line tokens out
    else if c == b';' || c == b'{'
    then state between line [] (flush tokens out)
    else if c == b'}'
    then state between line [] out
    else if c == b'"' || c == 39
    then state (quoted [] c line) line tokens out
    else state (bare (c ∷ [])) line tokens out

-- The line after a byte inside a quoted word.
unfoldable pub next_line : ℕ → ℕ → ℕ
next_line c line = if c == 10 then line + 1 else line

-- One byte.
unfoldable pub step : Mode → ℕ → ℕ → List Token → List Directive → State
step between c line tokens out = step_between c line tokens out
step comment c line tokens out =
    if c == 10 then state between (line + 1) tokens out else state comment line tokens out
step (bare v) c line tokens out =
    if is_nginx_delimiter c
    then step_between c line (tokens ++ token v line ∷ []) out
    else state (bare (v ++ c ∷ [])) line tokens out
step (quoted v quote start) c line tokens out =
    if c == 92
    then state (escaped v quote start) line tokens out
    else if c == quote
    then state between line (tokens ++ token v start ∷ []) out
    else state (quoted (v ++ c ∷ []) quote start) (next_line c line) tokens out
step (escaped v quote start) c line tokens out =
    state (quoted (v ++ c ∷ []) quote start) (next_line c line) tokens out

unfoldable pub scan : Text → State → State
scan [] s = s
scan (c ∷ body) s = scan body (step s.mode c s.line s.tokens s.out)

-- The words once the body has ended inside one. A backslash that ends the body stands for itself.
unfoldable pub last_tokens : Mode → ℕ → List Token → List Token
last_tokens between line tokens = tokens
last_tokens comment line tokens = tokens
last_tokens (bare v) line tokens = tokens ++ token v line ∷ []
last_tokens (quoted v quote start) line tokens = tokens ++ token v start ∷ []
last_tokens (escaped v quote start) line tokens = tokens ++ token (v ++ 92 ∷ []) start ∷ []

-- `nginxDirectives`.
unfoldable pub nginx_directives : Text → List Directive
nginx_directives body =
    let s = scan body (state between 1 [] []) in flush (last_tokens s.mode s.line s.tokens) s.out

-- `nginxListenPort`.
unfoldable pub nginx_listen_port : List Text → Option ℕ
nginx_listen_port [] = none
nginx_listen_port (arg ∷ args) =
    let spec = trim_where (λ c. c == b'"' || c == 39) arg in
    let valid : Bool × ℕ → Option ℕ =
      λ n. if not n.0 && (ltb 0 n.1 && leb n.1 65535) then some n.1 else none in
    if is_empty spec || has_prefix spec (codes "unix:") then none else elim (atoi spec) [
      | some n ↦ valid n
      | none ↦ elim (cut_last b':' spec) [
        | none ↦ some 80
        | some (host, port) ↦ elim (atoi port) [ some n ↦ valid n | none ↦ some 80 ]
      ]
    ]
