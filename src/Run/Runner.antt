-- ===== src/Run/Runner.antt =====
-- app/run/run.go: the Runner, which executes commands of the published list and keeps a journal. The
-- clock is left out, and with it the start and the duration of a journal entry. The host is a
-- parameter: os.Environ, exec.LookPath and exec.Cmd.Run act on a state of a type `W`.
pub mod Env
pub mod Journal
pub mod Confined
use deploy_witness_cli.Prelude.{
  ℕ, zero, suc, ◌+◌, ◌-◌, ◌*◌, ◌/◌, ◌%◌, ◌^◌, ◌≤◌, ◌<◌, String, ◌≡◌, refl, sym, ap, ◌∙◌, ◌≢◌, ◌↔◌,
  ◌⊎◌, inl, inr, Bool, true, false, not, ◌&&◌, ◌||◌, Option, none, some, List, [], ◌∷◌, ◌++◌, map,
  arith, ltb, leb, ◌==◌, if◌then◌else◌, ==_iff, Bool-cases, Option-cases, length, length-append,
  length-map, All, All-append, any, Text, codes, text_eq, text_eq_iff, text_eq_refl, text_eq_sound,
  is_empty, has_prefix, contains_text, join, trim_left_where, trim_where, trim_space, trim_brackets,
  to_lower, lower, upper, trim_suffix_byte, text_compare, itoa, is_space, em_dash, quoted, split_on,
  All-map, Exists, Exists-append_left, Exists-append_right, Exists-map, All-Exists, Exists-All,
  Exists-with, cut_first, cut_last, atoi, all, strip_suffix, lookup_text, all-Exists, all-All,
  All-all, all-with, lookup_text-All, take, strip_prefix, strip_prefix-length, is_empty_sound, span,
  span-length, ellipsis,
}
use deploy_witness_cli.Prelude.Int.{ℤ, pos, negsuc, int_eq}
use deploy_witness_cli.Run.Allowlist.{Spec, allowed_in}
use deploy_witness_cli.Run.Commands.{commands}

-- What a finished child leaves: its two streams, the exit code of its process state, whether the
-- deadline of its context passed, and the text of `cmd.Run`'s error.
pub record Execution : Type 0 where
  pub stdout : Text
  pub stderr : Text
  pub code : ℤ
  pub deadline_exceeded : Bool
  pub error : Option Text

-- The operating system under the Runner.
pub record Host (W : Type 0) : Type 0 where
  pub environ : W → List Text
  pub available : W → Text → Bool
  pub launch : W → ℕ → Text → List Text → List Text → W × Execution

-- The journal's outcomes.
pub data JournalOutcome : Type 0 where
  ok failed timeout missing refused : JournalOutcome

pub record JournalEntry : Type 0 where
  pub command : Text
  pub exit_code : ℤ
  pub outcome : JournalOutcome
  pub network : Text

pub record Runner : Type 0 where
  pub timeout : ℕ
  pub network : Bool
  pub extra_env : List Text
  pub journal : List JournalEntry

-- The errors of a run: `ErrNotAllowed`, `ErrNetworkNotAllowed`, `ErrNotFound`, the deadline, and a
-- non-zero exit.
pub data RunError : Type 0 where
  not_allowed : Text → ℕ → RunError
  network_not_allowed : Text → Text → RunError
  not_found : Text → RunError
  timed_out : Text → ℕ → RunError
  exited : Text → ℤ → Text → RunError

-- `New`, on a timeout in nanoseconds.
unfoldable pub new : ℤ → Runner
new limit =
    let seconds = 30 * 1000000000 in
    let chosen : ℕ = elim limit [ pos n ↦ if n == 0 then seconds else n | negsuc n ↦ seconds ] in
    record { timeout = chosen; network = false; extra_env = []; journal = [] }

unfoldable pub set_env : Text → Text → Runner → Runner
set_env name value r = record {
  timeout = r.timeout;
  network = r.network;
  extra_env = r.extra_env ++ (name ++ codes "=" ++ value) ∷ [];
  journal = r.journal;
}

unfoldable pub allow_network : Bool → Runner → Runner
allow_network allowed r = record {
  timeout = r.timeout;
  network = allowed;
  extra_env = r.extra_env;
  journal = r.journal;
}

-- `Runner.record`.
unfoldable pub record_entry : JournalEntry → Runner → Runner
record_entry entry r = record {
  timeout = r.timeout;
  network = r.network;
  extra_env = r.extra_env;
  journal = r.journal ++ entry ∷ [];
}

-- `engineHostVars`.
abbrev pub engine_host_vars : List Text
engine_host_vars = codes "DOCKER_HOST" ∷ codes "CONTAINER_HOST" ∷ []

-- The name and the value of an entry of the environment.
unfoldable pub env_name : Text → Text
env_name kv = elim (cut_first b'=' kv) [ none ↦ kv | some (name, value) ↦ name ]

unfoldable pub env_value : Text → Text
env_value kv = elim (cut_first b'=' kv) [ none ↦ [] | some (name, value) ↦ value ]

-- A value that points anywhere but to a unix socket.
unfoldable pub is_remote_value : Text → Bool
is_remote_value value =
    not (is_empty (trim_space value)) && not (has_prefix (trim_space value) (codes "unix://"))

-- The inner loop of `RemoteEngineEnv`.
unfoldable pub remote_names : Text → Text → List Text → List Text
remote_names name value [] = []
remote_names name value (v ∷ vars) =
    if text_eq name v && is_remote_value value
    then name ∷ remote_names name value vars
    else remote_names name value vars

-- `RemoteEngineEnv`.
unfoldable pub remote_engine_env : List Text → List Text
remote_engine_env [] = []
remote_engine_env (kv ∷ environ) =
    remote_names (env_name kv) (env_value kv) engine_host_vars ++ remote_engine_env environ

-- The loop of `childEnv`.
unfoldable pub without_names : List Text → List Text → List Text
without_names drop [] = []
without_names drop (kv ∷ environ) =
    if any (λ name. text_eq (env_name kv) name) drop
    then without_names drop environ
    else kv ∷ without_names drop environ

-- `childEnv`.
unfoldable pub child_env : List Text → List Text
child_env environ =
    let drop = remote_engine_env environ in
    if is_empty drop then environ else without_names drop environ

-- `cmd.Env`.
unfoldable pub command_env : Runner → List Text → List Text
command_env r environ =
    (child_env environ ++ r.extra_env)
    ++ (codes "LC_ALL=C" ∷ codes "LANG=C" ∷ codes "LANGUAGE=C" ∷ [])

-- The first 300 bytes of an error's text.
unfoldable pub shorten : Text → Text
shorten msg = if ltb 300 (length msg) then take 300 msg ++ ellipsis else msg

-- The message of a non-zero exit.
unfoldable pub exit_message : Text → Text → Text
exit_message stderr error =
    let msg = trim_space stderr in shorten (if is_empty msg then error else msg)

-- `entry` after `finish`.
unfoldable pub entry_of : Text → List Text → Text → JournalOutcome → ℤ → JournalEntry
entry_of name args network outcome code = record {
  command = trim_space (name ++ codes " " ++ join args (codes " "));
  exit_code = code;
  outcome = outcome;
  network = network;
}

-- What a call returns: the output, the exit code and the error, if any.
pub record Result : Type 0 where
  pub output : Text
  pub code : ℤ
  pub error : Option RunError

abbrev pub result_of : Text → ℤ → Option RunError → Result
result_of output code error = record { output = output; code = code; error = error }

abbrev pub minus_one : ℤ
minus_one = negsuc 0

-- What is made of a finished child: the outcome, and the result.
unfoldable pub judge : List ℤ → ℕ → Text → Execution → JournalOutcome × Result
judge allowed limit name x =
    if x.deadline_exceeded
    then (timeout, result_of x.stdout x.code (some (timed_out name limit)))
    else elim x.error [
      | none ↦ (ok, result_of x.stdout x.code none)
      | some e ↦
          if any (λ k. int_eq x.code k) allowed then (ok, result_of x.stdout x.code none) else (
            failed,
            result_of x.stdout x.code (some (exited name x.code (exit_message x.stderr e))),
          )
    ]

-- The Runner and the host after a call, and what the call returns.
pub record Done (W : Type 0) : Type 0 where
  pub runner : Runner
  pub world : W
  pub result : Result

abbrev pub done : {W : Type 0} → Runner → W → Result → Done W
done r w x = record { runner = r; world = w; result = x }

-- The part of `OutputAllowExit` from the launch on.
unfoldable pub launch_command :
    {W : Type 0} → Host W → W → Runner → List ℤ → Text → List Text → Spec → Done W
launch_command host w r allowed name args spec =
    let child = host.launch w r.timeout name args (command_env r (host.environ w)) in
    let judged = judge allowed r.timeout name child.1 in
    done (record_entry (entry_of name args spec.network judged.0 judged.1.code) r) child.0 judged.1

-- `OutputAllowExit` once the list has answered.
unfoldable pub run_allowed :
    {W : Type 0} → Host W → W → Runner → List ℤ → Text → List Text → Option Spec → Done W
run_allowed host w r allowed name args none =
    done (record_entry (entry_of name args [] refused minus_one) r) w
      (result_of [] minus_one (some (not_allowed name (length args))))
run_allowed host w r allowed name args (some spec) =
    if not (is_empty spec.network) && not r.network
    then done (record_entry (entry_of name args spec.network refused minus_one) r) w
        (result_of [] minus_one (some (network_not_allowed name spec.network)))
    else if not (host.available w name)
    then done (record_entry (entry_of name args spec.network missing minus_one) r) w
        (result_of [] minus_one (some (not_found name)))
    else launch_command host w r allowed name args spec

-- `OutputAllowExit`.
unfoldable pub output_allow_exit :
    {W : Type 0} → Host W → W → Runner → List ℤ → Text → List Text → Done W
output_allow_exit host w r allowed name args =
    run_allowed host w r allowed name args (allowed_in commands name args)

-- `Output`.
unfoldable pub output : {W : Type 0} → Host W → W → Runner → Text → List Text → Done W
output host w r name args = output_allow_exit host w r [] name args

-- `Lines`.
unfoldable pub trimmed_lines : List Text → List Text
trimmed_lines [] = []
trimmed_lines (l ∷ ls) =
    if is_empty (trim_space l) then trimmed_lines ls else trim_space l ∷ trimmed_lines ls

unfoldable pub lines : Text → List Text
lines out = trimmed_lines (split_on b'\n' out)
