-- ===== src/Run/Runner/Confined.antt =====
-- `OutputAllowExit` of app/run/run.go: what a call, and a run of calls, may do to the host.
use mathlib.Core.Path.{subst}
use deploy_witness_cli.Prelude.{
  ℕ, ◌+◌, ◌≡◌, refl, ap, ◌∙◌, inl, inr, Bool, true, not, ◌&&◌, ◌||◌, Option, none, some, List, [],
  ◌∷◌, arith, Bool-cases, length, length-append, Text, is_empty,
}
use deploy_witness_cli.Prelude.Int.{ℤ}
use deploy_witness_cli.Run.Allowlist.{Spec, allowed_in}
use deploy_witness_cli.Run.Commands.{commands}
use deploy_witness_cli.Run.Runner.{
  Host, Runner, record_entry, remote_engine_env, command_env, launch_command, run_allowed,
  output_allow_exit,
}
use deploy_witness_cli.Run.Runner.Env.{command_env_local}
use deploy_witness_cli.Run.Runner.Journal.{output_allow_exit-journal}

-- A launch that the published list permits, by a command that works from local data or on a run
-- that is online, in an environment that names no remote engine.
pub record IsPermitted {W : Type 0} (host : Host W) (online : Bool) (w : W) (name : Text)
    (args env : List Text) : Type 0 where
  pub spec : Spec
  pub listed : allowed_in commands name args ≡ some spec
  pub local : (is_empty spec.network || online) ≡ true
  pub present : host.available w name ≡ true
  pub engine : remote_engine_env env ≡ []

-- The states of the host that permitted launches lead to.
pub data Reaches {W : Type 0} (host : Host W) (online : Bool) : W → W → Type 0 where
  here : (w : W) → Reaches host online w w
  after :
      (w v : W) (limit : ℕ) (name : Text) (args env : List Text)
      → IsPermitted host online w name args env
      → Reaches host online (host.launch w limit name args env).0 v
      → Reaches host online w v

run_allowed-Reaches :
    {W : Type 0} (host : Host W) (w : W) (r : Runner) (allowed : List ℤ) (name : Text)
    (args : List Text) (found : Option Spec)
    → remote_engine_env r.extra_env ≡ []
    → allowed_in commands name args ≡ found
    → (v : W) → Reaches host r.network (run_allowed host w r allowed name args found).world v
    → Reaches host r.network w v
unfolding run_allowed launch_command
run_allowed-Reaches host w r allowed name args none x h v k = k
run_allowed-Reaches host w r allowed name args (some spec) x h v k =
    elim (Bool-cases (not (is_empty spec.network) && not r.network)) [
      | inl n ↦ rw n at k
      | inr n ↦ elim (Bool-cases (not (host.available w name))) [
        | inl a ↦ rw (n, a) at k
        | inr a ↦
            let permitted : IsPermitted host r.network w name args
                (command_env r (host.environ w)) =
              record {
                spec = spec;
                listed = h;
                local = ground (arith, n);
                present = ground (arith, a);
                engine = command_env_local r (host.environ w) x;
              } in
            after w v r.timeout name args (command_env r (host.environ w)) permitted
              (rw (n, a) at k)
      ]
    ]

-- One call: the codes that count as success, the binary and its arguments.
pub record Request : Type 0 where
  pub allowed : List ℤ
  pub name : Text
  pub args : List Text

-- Calls one after the other on one Runner: the Runner and the host at the end.
unfoldable pub run_all : {W : Type 0} → Host W → W → Runner → List Request → Runner × W
run_all host w r [] = (r, w)
run_all host w r (q ∷ qs) =
    let d = output_allow_exit host w r q.allowed q.name q.args in run_all host d.world d.runner qs

-- Whatever is asked of the Runner, one request after the other, the host gets from its first state to
-- its last one by launches that are permitted: of commands on the published list, of none that needs
-- the network unless the run is online, and with no environment that names a remote engine. The
-- entries that the program itself set are assumed not to name one.
pub run_all-Reaches :
    {W : Type 0} (host : Host W) (w : W) (r : Runner) (qs : List Request)
    → remote_engine_env r.extra_env ≡ []
    → Reaches host r.network w (run_all host w r qs).1
unfolding run_all output_allow_exit record_entry
run_all-Reaches host w r [] x = here w
run_all-Reaches host w r (q ∷ qs) x =
    let d = output_allow_exit host w r q.allowed q.name q.args in
    let j = output_allow_exit-journal host w r q.allowed q.name q.args in
    let dn : d.runner.network ≡ r.network = ap (λ z. z.network) j in
    let dx : d.runner.extra_env ≡ r.extra_env = ap (λ z. z.extra_env) j in
    let ih : Reaches host d.runner.network d.world (run_all host d.world d.runner qs).1 =
      run_all-Reaches host d.world d.runner qs (ap remote_engine_env dx ∙ x) in
    let next : Reaches host r.network d.world (run_all host d.world d.runner qs).1 =
      subst (λ n. Reaches host n d.world (run_all host d.world d.runner qs).1) dn ih in
    run_allowed-Reaches host w r q.allowed q.name q.args (allowed_in commands q.name q.args) x refl
      (run_all host d.world d.runner qs).1 next

-- The journal after a run has one entry more for each request.
pub run_all-length_journal :
    {W : Type 0} (host : Host W) (w : W) (r : Runner) (qs : List Request)
    → length (run_all host w r qs).0.journal ≡ length r.journal + length qs
unfolding run_all record_entry
run_all-length_journal host w r [] = omega arith
run_all-length_journal host w r (q ∷ qs) =
    let d = output_allow_exit host w r q.allowed q.name q.args in
    let j = output_allow_exit-journal host w r q.allowed q.name q.args in
    let dj = ap (λ z. length z.journal) j ∙ length-append r.journal (_ ∷ []) in
    omega (arith, run_all-length_journal host d.world d.runner qs, dj)
