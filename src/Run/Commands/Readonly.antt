-- ===== src/Run/Commands/Readonly.antt =====
-- app/run/commands.go: the flags that keep the package managers and the downloaders harmless.

use deploy_witness_cli.Prelude.{
  ◌≡◌, refl, inl, inr, Bool, true, false, not, ◌&&◌, ◌||◌, none, some, List, [], ◌∷◌, map, arith,
  Bool-cases, Option-cases, any, Text, codes, text_eq, text_eq_sound, has_prefix, Exists, all,
  strip_suffix, lookup_text, all-Exists,
}
use deploy_witness_cli.Run.Allowlist.{
  Spec, options_token, placeholder, match_args, spec_matches, allowed_in,
}
use deploy_witness_cli.Run.Allowlist.Origin.{allowed_in-matches}
use deploy_witness_cli.Run.Allowlist.Literal.{is_literal, is_closed, spec_matches-Exists}
use deploy_witness_cli.Run.Commands.{
  core_commands, system_commands, service_commands, port_commands, engine_commands, web_commands,
  schedule_commands, backup_commands, debian_commands, rhel_commands, suse_commands, arch_commands,
  alpine_commands, commands,
}

-- The flag that makes a binary simulate, or work from what is on the disk.
abbrev pub harmless_flags : List (Text × Text)
harmless_flags =
    (codes "apt-get", codes "-s")
    ∷ (codes "dnf", codes "-C")
    ∷ (codes "yum", codes "-C")
    ∷ (codes "zypper", codes "--no-refresh")
    ∷ []

-- The words that a binary may be started with: its questions.
abbrev pub questions : List (Text × List Text)
questions =
    (
      codes "docker",
      map codes
          ("version" ∷ "info" ∷ "ps" ∷ "network" ∷ "volume" ∷ "image" ∷ "compose" ∷ "context" ∷ []),
    )
    ∷ (codes "podman", map codes ("version" ∷ "info" ∷ "ps" ∷ "network" ∷ "volume" ∷ "image" ∷ []))
    ∷ (
      codes "systemctl",
      map codes ("is-active" ∷ "list-units" ∷ "list-unit-files" ∷ "list-timers" ∷ "show" ∷ []),
    )
    ∷ (codes "pacman", map codes ("-Q" ∷ "-Qu" ∷ "-Sl" ∷ []))
    ∷ (codes "rpm", map codes ("-qa" ∷ []))
    ∷ (codes "nft", map codes ("list" ∷ []))
    ∷ (codes "crontab", map codes ("-l" ∷ []))
    ∷ (codes "restic", map codes ("version" ∷ []))
    ∷ (codes "borg", map codes ("--version" ∷ []))
    ∷ []

-- The binaries that download on every call.
abbrev pub downloaders : List Text
downloaders = codes "debsecan" ∷ codes "arch-audit" ∷ []

unfoldable pub member : Text → List Text → Bool
member w xs = any (λ x. text_eq x w) xs

has_flag : Spec → Bool
has_flag s = elim (lookup_text s.binary harmless_flags) [
  | none ↦ true
  | some w ↦ is_literal w && member w s.args
]

asks : Spec → Bool
asks s = elim (lookup_text s.binary questions) [
  | none ↦ true
  | some ws ↦ elim s.args [ [] ↦ false | w ∷ rest ↦ is_literal w && member w ws ]
]

needs_flag : Spec → Bool
needs_flag s = not (member s.binary downloaders) || text_eq s.network (codes "--online")

is_sound : Spec → Bool
is_sound s = is_closed s.args && (has_flag s && (asks s && needs_flag s))

commands_sound : all is_sound commands ≡ true
unfolding commands core_commands system_commands service_commands port_commands engine_commands
    web_commands schedule_commands backup_commands debian_commands rhel_commands suse_commands
    arch_commands alpine_commands is_sound is_closed has_flag asks needs_flag member is_literal
    placeholder text_eq lookup_text strip_suffix has_prefix
commands_sound = refl

-- A command that the list answers has the binary asked for, accepts the arguments, and passes.
answered :
    (name : Text) (args : List Text) (s : Spec)
    → allowed_in commands name args ≡ some s
    → (s.binary ≡ name) × ((spec_matches s args ≡ true) × (is_sound s ≡ true))
answered name args s h =
    let x = allowed_in-matches commands name args s h in
    (x.1.0, (x.1.1, all-Exists is_sound commands s commands_sound x.0))

pub member-Exists : (w : Text) (xs : List Text) → member w xs ≡ true → Exists (λ x. x ≡ w) xs
unfolding member
member-Exists w [] h = cc h
member-Exists w (x ∷ xs) h = elim (Bool-cases (text_eq x w)) [
  | inl e ↦ inl (text_eq_sound x w e)
  | inr e ↦ inr (member-Exists w xs (ground (arith, h, e)))
]

-- Whatever arguments a package manager is given, its harmless flag is one of them: apt-get simulates,
-- dnf and yum stay on their cache, and zypper does not refresh.
pub flag-Exists :
    (name : Text) (args : List Text) (s : Spec) (flag : Text)
    → allowed_in commands name args ≡ some s
    → lookup_text name harmless_flags ≡ some flag
    → Exists (λ a. a ≡ flag) args
unfolding is_sound has_flag
flag-Exists name args s flag h f =
    let x = answered name args s h in
    let b : s.binary ≡ name = x.0 in
    let t : is_sound s ≡ true = x.1.1 in
    let g : lookup_text s.binary harmless_flags ≡ some flag = rw b f in
    let c : is_closed s.args ≡ true = ground (arith, t) in
    let q : (is_literal flag && member flag s.args) ≡ true = ground (arith, t, g) in
    spec_matches-Exists s flag args (ground (arith, q)) c
      (member-Exists flag s.args (ground (arith, q))) x.1.0

-- The first of the arguments is one of the words.
abbrev pub starts_with_one : List Text → List Text → Bool
starts_with_one ws [] = false
starts_with_one ws (a ∷ args) = member a ws

-- A command that starts with a literal accepts only what starts with it.
match_args-starts :
    (s : Spec) (w : Text) (wants argv ws : List Text)
    → is_literal w ≡ true
    → member w ws ≡ true
    → match_args s (w ∷ wants) argv ≡ true
    → starts_with_one ws argv ≡ true
unfolding match_args is_literal
match_args-starts s w wants argv ws l m h =
    let o : text_eq w options_token ≡ false = ground (arith, l) in
    elim (Option-cases (placeholder w)) [
      | inl p ↦ first_word s w wants argv ws m (rw (o, p) at h)
      | inr (k, p) ↦ cc (rw (o, p) at l)
    ]
  where
    first_word :
        (s : Spec) (w : Text) (wants argv ws : List Text)
        → member w ws ≡ true
        → elim argv [ [] ↦ false | a ∷ rest ↦ text_eq a w && match_args s wants rest ] ≡ true
        → starts_with_one ws argv ≡ true
    first_word s w wants [] ws m h = cc h
    first_word s w wants (a ∷ argv) ws m h =
        let e : a ≡ w = text_eq_sound a w (ground (arith, h)) in rw e m

asks-starts :
    (s : Spec) (wants argv ws : List Text)
    → elim wants [ [] ↦ false | w ∷ rest ↦ is_literal w && member w ws ] ≡ true
    → match_args s wants argv ≡ true
    → starts_with_one ws argv ≡ true
asks-starts s [] argv ws g h = cc g
asks-starts s (w ∷ wants) argv ws g h =
    match_args-starts s w wants argv ws (ground (arith, g)) (ground (arith, g)) h

-- A container engine, systemctl, a package database, nft, crontab or a backup tool is run with one of
-- its questions as the first argument, never with another subcommand and never with an option first.
pub question_first :
    (name : Text) (args : List Text) (s : Spec) (ws : List Text)
    → allowed_in commands name args ≡ some s
    → lookup_text name questions ≡ some ws
    → starts_with_one ws args ≡ true
unfolding is_sound asks spec_matches
question_first name args s ws h f =
    let x = answered name args s h in
    let b : s.binary ≡ name = x.0 in
    let t : is_sound s ≡ true = x.1.1 in
    let g : lookup_text s.binary questions ≡ some ws = rw b f in
    asks-starts s s.args args ws (ground (arith, t, g)) x.1.0

-- A binary that downloads is run only where the run is online.
pub downloader_online :
    (name : Text) (args : List Text) (s : Spec)
    → allowed_in commands name args ≡ some s
    → member name downloaders ≡ true
    → s.network ≡ codes "--online"
unfolding is_sound needs_flag
downloader_online name args s h m =
    let x = answered name args s h in
    let b : s.binary ≡ name = x.0 in
    let t : is_sound s ≡ true = x.1.1 in
    let k : member s.binary downloaders ≡ true = rw b m in
    text_eq_sound s.network (codes "--online") (ground (arith, t, k))
