-- ===== src/Samples/Runs.antt =====
-- Runs of the Runner on a host that counts its launches.
use deploy_witness_cli.Prelude.{
  ℕ, ◌+◌, String, ◌≡◌, refl, inl, true, false, not, Option, none, some, List, [], ◌∷◌, map, All,
  Text, codes, text_eq, has_prefix, join, Exists, cut_first, strip_suffix, lookup_text,
}
use deploy_witness_cli.Prelude.Int.{pos}
use deploy_witness_cli.Run.Allowlist.{
  Spec, arg_patterns, arg_pattern, match_string, is_value, placeholder, take_options, repeat_bound,
  match_tail, match_args, spec_matches, allowed_in,
}
use deploy_witness_cli.Run.Allowlist.Origin.{IsSpelled, allowed_in-IsSpelled}
use deploy_witness_cli.Run.Commands.{
  spec, core_commands, system_commands, service_commands, port_commands, engine_commands,
  web_commands, schedule_commands, backup_commands, debian_commands, rhel_commands, suse_commands,
  arch_commands, alpine_commands, commands,
}
use deploy_witness_cli.Run.Commands.Readonly.{
  harmless_flags, questions, downloaders, member, flag-Exists,
}
use deploy_witness_cli.Run.Runner.{
  Host, JournalOutcome, ok, missing, refused, Runner, remote_engine_env, remote_names, env_name,
  env_value, judge, record_entry, entry_of, launch_command, run_allowed, output_allow_exit,
}
use deploy_witness_cli.Run.Runner.Journal.{network_of, journalled, output_allow_exit-journal}
use deploy_witness_cli.Run.Runner.Confined.{Reaches, Request, run_all, run_all-Reaches}

abbrev counting_host : Host ℕ
counting_host = record {
  environ = λ w. codes "PATH=/bin" ∷ codes "DOCKER_HOST=tcp://10.0.0.5:2375" ∷ [];
  available = λ w name. not (text_eq name (codes "podman"));
  launch = λ w limit name args env. (
    w + 1,
    record {
      stdout = join env (codes " ");
      stderr = [];
      code = pos 0;
      deadline_exceeded = false;
      error = none;
    },
  );
}

abbrev offline : Runner
offline = record {
  timeout = 5;
  network = false;
  extra_env = codes "DOCKER_CONTEXT=default" ∷ [];
  journal = [];
}

abbrev request : String → List String → Request
request name args = record { allowed = []; name = codes name; args = map codes args }

abbrev some_requests : List Request
some_requests =
    request "docker" ("ps" ∷ "-a" ∷ "--format" ∷ "{{json .}}" ∷ [])
    ∷ request "docker" ("rm" ∷ "web" ∷ [])
    ∷ request "debsecan" ("--format" ∷ "summary" ∷ [])
    ∷ request "podman" ("info" ∷ "--format" ∷ "{{json .}}" ∷ [])
    ∷ []

-- The list's answer, and a run, on concrete arguments.
unfoldable pub answer : Text → List Text → Option Spec
unfolding allowed_in spec_matches match_args match_tail take_options repeat_bound placeholder
    is_value match_string arg_pattern arg_patterns commands core_commands system_commands
    service_commands port_commands engine_commands web_commands schedule_commands backup_commands
    debian_commands rhel_commands suse_commands arch_commands alpine_commands lookup_text text_eq
    strip_suffix has_prefix
answer name args = allowed_in commands name args

abbrev simulate : List Text
simulate = map codes (
    "-s" ∷ "-q" ∷ "-o" ∷ "Debug::NoLocking=1" ∷ "-o" ∷ "APT::Get::Show-User-Simulation-Note=0"
    ∷ "dist-upgrade" ∷ [])

abbrev simulation : Spec
simulation = spec "apt-get" simulate "updates" 0 [] ""

simulation_flag : lookup_text (codes "apt-get") harmless_flags ≡ some (codes "-s")
unfolding answer
simulation_flag = refl

pacman_questions :
    lookup_text (codes "pacman") questions ≡ some (map codes ("-Q" ∷ "-Qu" ∷ "-Sl" ∷ []))
unfolding answer
pacman_questions = refl

pending_allowed :
    allowed_in commands (codes "pacman") (codes "-Qu" ∷ [])
    ≡ some (spec "pacman" (codes "-Qu" ∷ []) "updates" 0 [] "")
unfolding answer
pending_allowed = refl

audit_allowed :
    allowed_in commands (codes "arch-audit") (codes "--json" ∷ [])
    ≡ some (spec "arch-audit" (codes "--json" ∷ []) "vulnerabilities" 0 [] "--online")
unfolding answer
audit_allowed = refl

audit_downloads : member (codes "arch-audit") downloaders ≡ true
unfolding answer member
audit_downloads = refl

context_local : remote_engine_env offline.extra_env ≡ []
unfolding remote_engine_env remote_names env_name env_value cut_first text_eq
context_local = refl

upgrade_refused : answer (codes "apt-get") (codes "dist-upgrade" ∷ []) ≡ none
unfolding answer
upgrade_refused = refl

unit_with_command : answer (codes "systemctl") (codes "is-active" ∷ codes "web; reboot" ∷ []) ≡ none
unfolding answer
unit_with_command = refl

-- An option in the place of a unit, which makes systemctl connect to another host.
abbrev show_remote : List Text
show_remote = map codes (
    "show" ∷ "--property=Id" ∷ "--property=MainPID" ∷ "--property=User"
    ∷ "--property=ActiveEnterTimestamp" ∷ "-Hroot@host" ∷ [])

remote_show :
    Exists
      (λ n. n ≡ [])
      (elim (answer (codes "systemctl") show_remote) [ none ↦ [] | some s ↦ s.network ∷ [] ])
unfolding answer
remote_show = inl refl

simulation_allowed : allowed_in commands (codes "apt-get") simulate ≡ some simulation
unfolding answer
simulation_allowed = refl

allowed_in-IsSpelled_example :
    Exists (λ t. t ≡ simulation) commands
    × ((simulation.binary ≡ codes "apt-get") × All (IsSpelled simulation) simulate)
allowed_in-IsSpelled_example =
    allowed_in-IsSpelled commands (codes "apt-get") simulate simulation simulation_allowed

flag-Exists_example : Exists (λ a. a ≡ codes "-s") simulate
flag-Exists_example =
    flag-Exists (codes "apt-get") simulate simulation (codes "-s") simulation_allowed
      simulation_flag

journal_outcomes : List Request → List JournalOutcome × ℕ
unfolding answer run_all output_allow_exit run_allowed launch_command judge record_entry entry_of
journal_outcomes qs =
    let end = run_all counting_host 0 offline qs in (map (λ e. e.outcome) end.0.journal, end.1)

some_outcomes : journal_outcomes some_requests ≡ (ok ∷ refused ∷ refused ∷ missing ∷ [], 1)
unfolding journal_outcomes
some_outcomes = refl

run_all-Reaches_example :
    Reaches counting_host false 0 (run_all counting_host 0 offline some_requests).1
run_all-Reaches_example = run_all-Reaches counting_host 0 offline some_requests context_local

output_allow_exit-journal_example :
    (output_allow_exit counting_host 0 offline [] (codes "docker") (codes "rm" ∷ [])).runner
    ≡ journalled offline
        (codes "docker")
        (codes "rm" ∷ [])
        (network_of (allowed_in commands (codes "docker") (codes "rm" ∷ [])))
        (output_allow_exit counting_host 0 offline [] (codes "docker") (codes "rm" ∷ []))
output_allow_exit-journal_example =
    output_allow_exit-journal counting_host 0 offline [] (codes "docker") (codes "rm" ∷ [])
