-- ===== src/Run/Commands.antt =====
-- app/run/commands.go: the published list of commands, in the groups of the source.
pub mod Readonly
use deploy_witness_cli.Prelude.{
  ℕ, ◌+◌, ◌-◌, ◌*◌, ◌/◌, ◌%◌, ◌<◌, String, List, [], ◌∷◌, ◌++◌, Text, codes,
}
use deploy_witness_cli.Run.Allowlist.{Spec, options_token}

abbrev pub spec : String → List Text → String → ℕ → List (Text × Text) → String → Spec
spec binary args section max_repeat options network = record {
  binary = codes binary;
  args = args;
  section = codes section;
  max_repeat = max_repeat;
  options = options;
  network = codes network;
}

-- `composeOptions`.
abbrev pub compose_options : List (Text × Text)
compose_options =
    (codes "--file", codes "path")
    ∷ (codes "--env-file", codes "path")
    ∷ (codes "--profile", codes "name")
    ∷ (codes "--project-name", codes "name")
    ∷ (codes "--project-directory", codes "path")
    ∷ []

unfoldable pub core_commands : List Spec
core_commands = spec "uname" (codes "-m" ∷ []) "core" 0 [] "" ∷ []

unfoldable pub system_commands : List Spec
system_commands =
    spec "systemd-detect-virt" [] "system" 0 [] ""
    ∷ spec "timedatectl"
        (codes "show"
          ∷ codes "--property=Timezone"
          ∷ codes "--property=NTPSynchronized"
          ∷ codes "--property=NTP"
          ∷ [])
        "system" 0 [] ""
    ∷ spec "needs-restarting" (codes "-r" ∷ []) "system" 0 [] ""
    ∷ spec "sshd" (codes "-T" ∷ []) "system" 0 [] ""
    ∷ spec "/usr/sbin/sshd" (codes "-T" ∷ []) "system" 0 [] ""
    ∷ spec "systemctl" (codes "is-active" ∷ codes "<unit>" ∷ []) "system" 0 [] ""
    ∷ spec "nft" (codes "list" ∷ codes "ruleset" ∷ []) "system" 0 [] ""
    ∷ []

unfoldable pub service_commands : List Spec
service_commands =
    spec "systemctl"
      (codes "list-units"
        ∷ codes "--type=service"
        ∷ codes "--all"
        ∷ codes "--no-pager"
        ∷ codes "--plain"
        ∷ codes "--no-legend"
        ∷ [])
      "services" 0 [] ""
    ∷ spec "systemctl"
        (codes "list-unit-files"
          ∷ codes "--type=service"
          ∷ codes "--no-pager"
          ∷ codes "--plain"
          ∷ codes "--no-legend"
          ∷ [])
        "services" 0 [] ""
    ∷ spec "systemctl"
        (codes "show"
          ∷ codes "--property=Id"
          ∷ codes "--property=MainPID"
          ∷ codes "--property=User"
          ∷ codes "--property=ActiveEnterTimestamp"
          ∷ codes "<unit>..."
          ∷ [])
        "services" 128 [] ""
    ∷ spec "rc-status" (codes "--all" ∷ []) "services" 0 [] ""
    ∷ spec "service" (codes "--status-all" ∷ []) "services" 0 [] ""
    ∷ []

unfoldable pub port_commands : List Spec
port_commands = spec "ss" (codes "-lntupH" ∷ []) "ports" 0 [] "" ∷ []

unfoldable pub engine_commands : List Spec
engine_commands =
    spec "docker" (codes "version" ∷ codes "--format" ∷ codes "{{json .}}" ∷ []) "witness" 0 [] ""
    ∷ spec "docker" (codes "info" ∷ codes "--format" ∷ codes "{{json .}}" ∷ []) "witness" 0 [] ""
    ∷ spec "docker" (codes "ps" ∷ codes "-a" ∷ codes "--format" ∷ codes "{{json .}}" ∷ []) "witness"
        0 [] ""
    ∷ spec "docker" (codes "network" ∷ codes "ls" ∷ codes "--format" ∷ codes "{{json .}}" ∷ [])
        "witness" 0 [] ""
    ∷ spec "docker"
        (codes "network"
          ∷ codes "inspect"
          ∷ codes "<container>"
          ∷ codes "--format"
          ∷ codes "{{json .}}"
          ∷ [])
        "witness" 0 [] ""
    ∷ spec "docker" (codes "volume" ∷ codes "ls" ∷ codes "--format" ∷ codes "{{json .}}" ∷ [])
        "witness" 0 [] ""
    ∷ spec "docker"
        (codes "image"
          ∷ codes "ls"
          ∷ codes "--all"
          ∷ codes "--digests"
          ∷ codes "--format"
          ∷ codes "{{json .}}"
          ∷ [])
        "witness" 0 [] ""
    ∷ spec "docker"
        (codes "image"
          ∷ codes "inspect"
          ∷ codes "<image>"
          ∷ codes "--format"
          ∷ codes "{{json .}}"
          ∷ [])
        "witness" 0 [] ""
    ∷ spec "docker" (codes "compose" ∷ codes "version" ∷ codes "--short" ∷ []) "witness" 0 [] ""
    ∷ spec "docker"
        (codes "compose"
          ∷ options_token
          ∷ codes "config"
          ∷ codes "--format"
          ∷ codes "json"
          ∷ codes "--no-env-resolution"
          ∷ [])
        "witness" 64 compose_options ""
    ∷ spec "docker"
        (codes "compose" ∷ options_token ∷ codes "config" ∷ codes "--format" ∷ codes "json" ∷ [])
        "witness" 64 compose_options ""
    ∷ spec "docker"
        (codes "compose" ∷ options_token ∷ codes "config" ∷ codes "--hash" ∷ codes "*" ∷ [])
        "witness" 64 compose_options ""
    ∷ spec "docker" (codes "context" ∷ codes "show" ∷ []) "witness" 0 [] ""
    ∷ spec "docker"
        (codes "context"
          ∷ codes "inspect"
          ∷ codes "--format"
          ∷ codes "{{json .Endpoints.docker.Host}}"
          ∷ [])
        "witness" 0 [] ""
    ∷ spec "docker-compose" (codes "version" ∷ codes "--short" ∷ []) "witness" 0 [] ""
    ∷ spec "podman" (codes "version" ∷ codes "--format" ∷ codes "{{json .}}" ∷ []) "witness" 0 [] ""
    ∷ spec "podman" (codes "info" ∷ codes "--format" ∷ codes "{{json .}}" ∷ []) "witness" 0 [] ""
    ∷ spec "podman" (codes "ps" ∷ codes "-a" ∷ codes "--format" ∷ codes "{{json .}}" ∷ []) "witness"
        0 [] ""
    ∷ spec "podman" (codes "network" ∷ codes "ls" ∷ codes "--format" ∷ codes "{{json .}}" ∷ [])
        "witness" 0 [] ""
    ∷ spec "podman"
        (codes "network"
          ∷ codes "inspect"
          ∷ codes "<container>"
          ∷ codes "--format"
          ∷ codes "{{json .}}"
          ∷ [])
        "witness" 0 [] ""
    ∷ spec "podman" (codes "volume" ∷ codes "ls" ∷ codes "--format" ∷ codes "{{json .}}" ∷ [])
        "witness" 0 [] ""
    ∷ spec "podman"
        (codes "image"
          ∷ codes "ls"
          ∷ codes "--all"
          ∷ codes "--digests"
          ∷ codes "--format"
          ∷ codes "{{json .}}"
          ∷ [])
        "witness" 0 [] ""
    ∷ spec "podman"
        (codes "image"
          ∷ codes "inspect"
          ∷ codes "<image>"
          ∷ codes "--format"
          ∷ codes "{{json .}}"
          ∷ [])
        "witness" 0 [] ""
    ∷ spec "podman-compose" (codes "version" ∷ codes "--short" ∷ []) "witness" 0 [] ""
    ∷ []

unfoldable pub web_commands : List Spec
web_commands =
    spec "nginx" (codes "-v" ∷ []) "witness" 0 [] ""
    ∷ spec "nginx" (codes "-T" ∷ []) "witness" 0 [] ""
    ∷ spec "apachectl" (codes "-v" ∷ []) "witness" 0 [] ""
    ∷ spec "apachectl" (codes "-S" ∷ []) "witness" 0 [] ""
    ∷ spec "apache2ctl" (codes "-v" ∷ []) "witness" 0 [] ""
    ∷ spec "apache2ctl" (codes "-S" ∷ []) "witness" 0 [] ""
    ∷ spec "httpd" (codes "-v" ∷ []) "witness" 0 [] ""
    ∷ spec "httpd" (codes "-S" ∷ []) "witness" 0 [] ""
    ∷ []

unfoldable pub schedule_commands : List Spec
schedule_commands =
    spec "systemctl"
      (codes "list-timers"
        ∷ codes "--all"
        ∷ codes "--no-pager"
        ∷ codes "--plain"
        ∷ codes "--no-legend"
        ∷ [])
      "witness" 0 [] ""
    ∷ spec "crontab" (codes "-l" ∷ codes "-u" ∷ codes "<user>" ∷ []) "witness" 0 [] ""
    ∷ []

unfoldable pub backup_commands : List Spec
backup_commands =
    spec "restic" (codes "version" ∷ []) "witness" 0 [] ""
    ∷ spec "borg" (codes "--version" ∷ []) "witness" 0 [] ""
    ∷ spec "duplicity" (codes "--version" ∷ []) "witness" 0 [] ""
    ∷ spec "rsnapshot" (codes "--version" ∷ []) "witness" 0 [] ""
    ∷ []

unfoldable pub debian_commands : List Spec
debian_commands =
    spec "dpkg-query"
      (codes "-W" ∷ codes "-f=${Package}\t${Version}\t${Architecture}\t${db:Status-Status}\n" ∷ [])
      "updates" 0 [] ""
    ∷ spec "apt-get"
        (codes "-s"
          ∷ codes "-q"
          ∷ codes "-o"
          ∷ codes "Debug::NoLocking=1"
          ∷ codes "-o"
          ∷ codes "APT::Get::Show-User-Simulation-Note=0"
          ∷ codes "dist-upgrade"
          ∷ [])
        "updates" 0 [] ""
    ∷ spec "lsb_release" (codes "-cs" ∷ []) "updates" 0 [] ""
    ∷ spec "debsecan" (codes "--format" ∷ codes "summary" ∷ []) "vulnerabilities" 0 [] "--online"
    ∷ spec "debsecan" (codes "--format" ∷ codes "summary" ∷ codes "--suite" ∷ codes "<suite>" ∷ [])
        "vulnerabilities" 0 [] "--online"
    ∷ []

unfoldable pub rhel_commands : List Spec
rhel_commands =
    spec "rpm"
      (codes "-qa" ∷ codes "--qf" ∷ codes "%{NAME}\t%{EPOCH}:%{VERSION}-%{RELEASE}\t%{ARCH}\n" ∷ [])
      "updates" 0 [] ""
    ∷ spec "dnf" (codes "-C" ∷ codes "-q" ∷ codes "check-update" ∷ []) "updates" 0 [] ""
    ∷ spec "yum" (codes "-C" ∷ codes "-q" ∷ codes "check-update" ∷ []) "updates" 0 [] ""
    ∷ spec "dnf"
        (codes "-C" ∷ codes "-q" ∷ codes "updateinfo" ∷ codes "list" ∷ codes "--security" ∷ [])
        "vulnerabilities" 0 [] ""
    ∷ spec "dnf"
        (codes "-C"
          ∷ codes "-q"
          ∷ codes "updateinfo"
          ∷ codes "list"
          ∷ codes "--security"
          ∷ codes "--with-cve"
          ∷ [])
        "vulnerabilities" 0 [] ""
    ∷ spec "yum"
        (codes "-C" ∷ codes "-q" ∷ codes "updateinfo" ∷ codes "list" ∷ codes "--security" ∷ [])
        "vulnerabilities" 0 [] ""
    ∷ spec "yum"
        (codes "-C"
          ∷ codes "-q"
          ∷ codes "updateinfo"
          ∷ codes "list"
          ∷ codes "--security"
          ∷ codes "--with-cve"
          ∷ [])
        "vulnerabilities" 0 [] ""
    ∷ []

unfoldable pub suse_commands : List Spec
suse_commands =
    spec "zypper"
      (codes "--non-interactive"
        ∷ codes "--no-refresh"
        ∷ codes "--quiet"
        ∷ codes "list-updates"
        ∷ [])
      "updates" 0 [] ""
    ∷ spec "zypper"
        (codes "--non-interactive"
          ∷ codes "--no-refresh"
          ∷ codes "--quiet"
          ∷ codes "list-patches"
          ∷ codes "--category"
          ∷ codes "security"
          ∷ codes "--cve"
          ∷ [])
        "vulnerabilities" 0 [] ""
    ∷ []

unfoldable pub arch_commands : List Spec
arch_commands =
    spec "pacman" (codes "-Q" ∷ []) "updates" 0 [] ""
    ∷ spec "pacman" (codes "-Qu" ∷ []) "updates" 0 [] ""
    ∷ spec "pacman" (codes "-Sl" ∷ []) "updates" 0 [] ""
    ∷ spec "arch-audit" (codes "--json" ∷ []) "vulnerabilities" 0 [] "--online"
    ∷ []

unfoldable pub alpine_commands : List Spec
alpine_commands =
    spec "apk" (codes "info" ∷ codes "-v" ∷ []) "updates" 0 [] ""
    ∷ spec "apk" (codes "--print-arch" ∷ []) "updates" 0 [] ""
    ∷ spec "apk" (codes "version" ∷ codes "-l" ∷ codes "<" ∷ []) "updates" 0 [] ""
    ∷ []

-- `commands`.
unfoldable pub commands : List Spec
unfolding core_commands system_commands service_commands port_commands engine_commands web_commands
    schedule_commands backup_commands debian_commands rhel_commands suse_commands arch_commands
    alpine_commands
commands =
    core_commands
    ++ (system_commands
        ++ (service_commands
            ++ (port_commands
                ++ (engine_commands
                    ++ (web_commands
                        ++ (schedule_commands
                            ++ (backup_commands
                                ++ (debian_commands
                                    ++ (rhel_commands
                                        ++ (suse_commands
                                            ++ (arch_commands ++ (alpine_commands))))))))))))
