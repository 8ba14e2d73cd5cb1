-- ===== src/Run/Runner/Env.antt =====
-- `childEnv` of app/run/run.go: no child is pointed at a remote engine.
use deploy_witness_cli.Prelude.{
  ◌≡◌, refl, ◌⊎◌, inl, inr, Bool, true, ◌&&◌, List, [], ◌∷◌, ◌++◌, arith, Bool-cases, All, any,
  Text, codes, text_eq, text_eq_refl, is_empty, All-map, cut_first, is_empty_sound,
}
use deploy_witness_cli.Run.Runner.{
  Runner, engine_host_vars, env_name, env_value, is_remote_value, remote_names, remote_engine_env,
  without_names, child_env, command_env,
}

-- An entry of the environment that names no remote engine.
abbrev IsHarmless : Text → Type 0
IsHarmless kv = remote_names (env_name kv) (env_value kv) engine_host_vars ≡ []

-- Its name is one of those to drop.
abbrev is_dropped : List Text → Text → Bool
is_dropped drop kv = any (λ name. text_eq (env_name kv) name) drop

named_itself :
    (name value : Text) (vars : List Text)
    → (remote_names name value vars ≡ [])
      ⊎ (any (λ n. text_eq name n) (remote_names name value vars) ≡ true)
unfolding remote_names
named_itself name value [] = inl refl
named_itself name value (v ∷ vars) = elim (Bool-cases (text_eq name v && is_remote_value value)) [
  | inl e ↦ let q = text_eq_refl name in inr (rw e (ground (arith, q)))
  | inr e ↦ rw e (named_itself name value vars)
]

any-append_left :
    (test : Text → Bool) (xs ys : List Text) → any test xs ≡ true → any test (xs ++ ys) ≡ true
any-append_left test [] ys h = cc h
any-append_left test (x ∷ xs) ys h = elim (Bool-cases (test x)) [
  | inl e ↦ ground (arith, e)
  | inr e ↦ let q = any-append_left test xs ys (ground (arith, e, h)) in ground (arith, q)
]

any-append_right :
    (test : Text → Bool) (xs ys : List Text) → any test ys ≡ true → any test (xs ++ ys) ≡ true
any-append_right test [] ys h = h
any-append_right test (x ∷ xs) ys h = let q = any-append_right test xs ys h in ground (arith, q)

-- Every entry is harmless, or its name is in the list of remote engine variables.
each_covered :
    (environ : List Text)
    → All (λ kv. IsHarmless kv ⊎ (is_dropped (remote_engine_env environ) kv ≡ true)) environ
unfolding remote_engine_env
each_covered [] = tt
each_covered (kv ∷ environ) =
    let names = remote_names (env_name kv) (env_value kv) engine_host_vars in
    let later : (x : Text)
        → IsHarmless x ⊎ (is_dropped (remote_engine_env environ) x ≡ true)
        → IsHarmless x ⊎ (is_dropped (names ++ remote_engine_env environ) x ≡ true) =
      λ x h. elim h [
        | inl a ↦ inl a
        | inr b ↦
            inr (any-append_right (λ n. text_eq (env_name x) n) names (remote_engine_env environ) b)
      ] in
    (
      elim (named_itself (env_name kv) (env_value kv) engine_host_vars) [
        | inl a ↦ inl a
        | inr b ↦
            inr (any-append_left (λ n. text_eq (env_name kv) n) names (remote_engine_env environ) b)
      ],
      All-map (λ x. IsHarmless x ⊎ (is_dropped (remote_engine_env environ) x ≡ true))
          (λ x. IsHarmless x ⊎ (is_dropped (names ++ remote_engine_env environ) x ≡ true)) environ
          later (each_covered environ),
    )

without_names-IsHarmless :
    (drop environ : List Text)
    → All (λ kv. IsHarmless kv ⊎ (is_dropped drop kv ≡ true)) environ
    → All IsHarmless (without_names drop environ)
unfolding without_names
without_names-IsHarmless drop [] h = tt
without_names-IsHarmless drop (kv ∷ environ) h = elim (Bool-cases (is_dropped drop kv)) [
  | inl e ↦ rw e (without_names-IsHarmless drop environ h.1)
  | inr e ↦
      let a : IsHarmless kv = elim h.0 [ inl a ↦ a | inr b ↦ cc (b, e) ] in
      rw e (a, without_names-IsHarmless drop environ h.1)
]

IsHarmless-remote_engine_env :
    (environ : List Text) → All IsHarmless environ → remote_engine_env environ ≡ []
unfolding remote_engine_env
IsHarmless-remote_engine_env [] h = refl
IsHarmless-remote_engine_env (kv ∷ environ) h =
    let a : IsHarmless kv = h.0 in rw a (IsHarmless-remote_engine_env environ h.1)

-- What is left of an environment names no remote engine.
child_env_local : (environ : List Text) → remote_engine_env (child_env environ) ≡ []
unfolding child_env
child_env_local environ = elim (Bool-cases (is_empty (remote_engine_env environ))) [
  | inl e ↦ rw e (is_empty_sound (remote_engine_env environ) e)
  | inr e ↦ rw e (
      IsHarmless-remote_engine_env (without_names (remote_engine_env environ) environ)
        (without_names-IsHarmless (remote_engine_env environ) environ (each_covered environ)))
]

no_left : (xs ys : List Text) → xs ++ ys ≡ [] → xs ≡ []
no_left [] ys h = refl
no_left (x ∷ xs) ys h = cc h

remote_engine_env-append :
    (xs ys : List Text)
    → remote_engine_env xs ≡ []
    → remote_engine_env ys ≡ []
    → remote_engine_env (xs ++ ys) ≡ []
unfolding remote_engine_env
remote_engine_env-append [] ys h k = k
remote_engine_env-append (kv ∷ xs) ys h k =
    let a : IsHarmless kv = no_left _ (remote_engine_env xs) h in
    rw a (remote_engine_env-append xs ys (rw (a, remote_engine_env) at h) k)

locale_local : remote_engine_env (codes "LC_ALL=C" ∷ codes "LANG=C" ∷ codes "LANGUAGE=C" ∷ []) ≡ []
unfolding remote_engine_env remote_names env_name env_value cut_first text_eq
locale_local = refl

-- No command is given an environment that points the engine's client at another host, whatever the
-- environment of the program, as long as the entries that were set by the program do not.
pub command_env_local :
    (r : Runner) (environ : List Text)
    → remote_engine_env r.extra_env ≡ []
    → remote_engine_env (command_env r environ) ≡ []
unfolding command_env
command_env_local r environ h =
    remote_engine_env-append (child_env environ ++ r.extra_env) _
      (remote_engine_env-append (child_env environ) r.extra_env (child_env_local environ) h)
      locale_local
