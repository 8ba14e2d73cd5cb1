-- ===== src/Proxy/Nginx/Written.antt =====
-- `nginxDirectives` of app/collect/proxy/nginx.go on directives that are written in quotes.
use deploy_witness_cli.Prelude.{
  ℕ, ◌+◌, ◌≡◌, refl, ap, ◌∙◌, inl, inr, false, ◌||◌, List, [], ◌∷◌, ◌++◌, arith, ◌==◌,
  if◌then◌else◌, Bool-cases, Text,
}
use mathlib.Core.List.{append_assoc, append-nil}
use deploy_witness_cli.Proxy.Nginx.{
  State, Token, Directive, between, quoted, state, token, texts, token_lines, flush, step_between,
  next_line, step, scan, last_tokens, nginx_directives,
}

-- A word in double quotes, with a backslash before every quote and every backslash.
unfoldable pub escape : Text → Text
escape [] = []
escape (c ∷ s) = if c == b'"' || c == 92 then 92 ∷ c ∷ escape s else c ∷ escape s

-- Words, each in quotes and followed by a space.
unfoldable pub print_words : List Text → Text
print_words [] = []
print_words (w ∷ ws) = b'"' ∷ (escape w ++ b'"' ∷ 32 ∷ print_words ws)

-- A directive to be written.
pub record Command : Type 0 where
  pub name : Text
  pub args : List Text

-- One directive after the other, each closed by a semicolon and the end of its line.
unfoldable pub print : List Command → Text
print [] = []
print (d ∷ ds) = print_words (d.name ∷ d.args) ++ b';' ∷ 10 ∷ print ds

-- The line after a word, and after words.
unfoldable pub after_word : ℕ → Text → ℕ
after_word line [] = line
after_word line (c ∷ s) = after_word (next_line c line) s

unfoldable pub after_words : ℕ → List Text → ℕ
after_words line [] = line
after_words line (w ∷ ws) = after_words (after_word line w) ws

-- The words with the lines on which they start.
unfoldable pub located_words : ℕ → List Text → List Token
located_words line [] = []
located_words line (w ∷ ws) = token w line ∷ located_words (after_word line w) ws

-- The directives with the lines on which they and their arguments start.
unfoldable pub located : ℕ → List Command → List Directive
located line [] = []
located line (d ∷ ds) =
    record {
      name = d.name;
      args = d.args;
      line = line;
      arg_lines = token_lines (located_words (after_word line d.name) d.args);
    }
    ∷ located (after_words line (d.name ∷ d.args) + 1) ds

step_plain :
    (v : Text) (c start line : ℕ) (tokens : List Token) (out : List Directive)
    → (c == b'"' || c == 92) ≡ false
    → step (quoted v b'"' start) c line tokens out
      ≡ state (quoted (v ++ c ∷ []) b'"' start) (next_line c line) tokens out
unfolding step
step_plain v c start line tokens out e = ground arith

scan_word :
    (v w rest : Text) (start line : ℕ) (tokens : List Token) (out : List Directive)
    → scan (escape w ++ b'"' ∷ rest) (state (quoted v b'"' start) line tokens out)
      ≡ scan rest (state between (after_word line w) (tokens ++ token (v ++ w) start ∷ []) out)
unfolding scan step escape after_word
scan_word v [] rest start line tokens out = rw (append-nil v)
scan_word v (c ∷ w) rest start line tokens out =
    let q =
      scan_word (v ++ c ∷ []) w rest start (next_line c line) tokens out
      ∙ ap
          (λ z.
            scan rest
              (state between (after_word (next_line c line) w) (tokens ++ token z start ∷ []) out))
          (append_assoc v (c ∷ []) w) in
    elim (Bool-cases (c == b'"' || c == 92)) [
      | inl e ↦ rw e q
      | inr e ↦
          rw e (
            ap (λ z. scan (escape w ++ b'"' ∷ rest) z) (step_plain v c start line tokens out e) ∙ q)
    ]

scan_words :
    (ws : List Text) (rest : Text) (line : ℕ) (tokens : List Token) (out : List Directive)
    → scan (print_words ws ++ rest) (state between line tokens out)
      ≡ scan rest (state between (after_words line ws) (tokens ++ located_words line ws) out)
unfolding scan step step_between print_words after_words located_words
scan_words [] rest line tokens out = rw (append-nil tokens)
scan_words (w ∷ ws) rest line tokens out =
    ap (λ z. scan z (state (quoted [] b'"' line) line tokens out))
      (append_assoc (escape w) (b'"' ∷ 32 ∷ print_words ws) rest)
    ∙ scan_word [] w (32 ∷ (print_words ws ++ rest)) line line tokens out
    ∙ scan_words ws rest (after_word line w) (tokens ++ token w line ∷ []) out
    ∙ ap (λ z. scan rest (state between (after_words (after_word line w) ws) z out))
        (append_assoc tokens (token w line ∷ []) (located_words (after_word line w) ws))

texts-located_words : (line : ℕ) (ws : List Text) → texts (located_words line ws) ≡ ws
unfolding texts located_words
texts-located_words line [] = refl
texts-located_words line (w ∷ ws) = ap (λ z. w ∷ z) (texts-located_words (after_word line w) ws)

-- The state after the directives.
after_all : ℕ → List Command → ℕ
after_all line [] = line
after_all line (d ∷ ds) = after_all (after_words line (d.name ∷ d.args) + 1) ds

scan-print :
    (ds : List Command) (line : ℕ) (out : List Directive)
    → scan (print ds) (state between line [] out)
      ≡ state between (after_all line ds) [] (out ++ located line ds)
unfolding scan step step_between print after_all located flush located_words
scan-print [] line out = rw (append-nil out)
scan-print (d ∷ ds) line out =
    let next = after_words line (d.name ∷ d.args) in
    let args = located_words (after_word line d.name) d.args in
    let written = λ (words : List Text).
      let r : Directive = record {
        name = d.name;
        args = words;
        line = line;
        arg_lines = token_lines args;
      } in
      r in
    scan_words (d.name ∷ d.args) (b';' ∷ 10 ∷ print ds) line [] out
    ∙ ap (λ words. scan (print ds) (state between (next + 1) [] (out ++ written words ∷ [])))
        (texts-located_words (after_word line d.name) d.args)
    ∙ scan-print ds (next + 1) (out ++ written d.args ∷ [])
    ∙ ap (λ z. state between (after_all (next + 1) ds) [] z)
        (append_assoc out (written d.args ∷ []) (located (next + 1) ds))

-- Reading is the inverse of writing: whatever the names and the arguments are, directives written with
-- every word in quotes are read back in full and in order, each word on the line on which it starts.
pub nginx_directives-print : (ds : List Command) → nginx_directives (print ds) ≡ located 1 ds
unfolding nginx_directives last_tokens flush
nginx_directives-print ds =
    ap (λ (s : State). flush (last_tokens s.mode s.line s.tokens) s.out) (scan-print ds 1 [])
