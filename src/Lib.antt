-- ===== src/Lib.antt =====
-- A verification library for deploy-witness, the command line tool that compares a Compose plan with
-- the host that it would be deployed on.
--
-- The program reads a plan (app/collect/manifest) and a host (the other collectors under app/collect)
-- into the records of app/model, and compares the two in app/witness: every rule of
-- app/witness/preflight.go is a function from the input to findings, `Evaluate` runs the rules, repairs
-- their findings, gives each rule one outcome, and sorts the report.
--
-- Prelude       lists, tests, signed integers, and Go strings as lists of bytes (package strings and
--               strconv, as far as they are used).
-- Net           IP addresses of package net: `net.ParseIP`, executable.
-- Model         the records of app/model/preflight.go and app/model/model.go, with their methods. A record
--               has the fields that the modelled code reads or writes. The prose of a finding is left out.
-- Witness.Input, Outcomes, Order, Evaluate
--               app/witness/preflight.go (`Input`, `evidence`, `Evaluate`, `sortFindings`) and
--               app/witness/outcomes.go (`fixOutcome`, `conclude`). The rule set is an argument of
--               `evaluate`, so the theorems hold of every rule set; a time is its RFC 3339 text.
-- Witness.PortMatch
--               app/witness/portmatch.go: what a binding is, and when two bindings collide.
-- Witness.Ownership
--               app/witness/ownership.go: whose an existing container is, and whether the planned run
--               releases it. A project name is ASCII.
-- Witness.PortHolders, HolderText, PortConflict, DynamicRange, HostNetwork, PortRule
--               the rule `portConflicts` of app/witness/conflicts.rules.go, from `portHolders` up, and its
--               verdict `assessPorts` of app/witness/outcomes.go.
-- Witness.ContainerNames, VolumeNames, NetworkNames, Subnets
--               the rules `containerNameConflicts`, `volumeNameConflicts`, `networkNameConflicts` and
--               `subnetOverlaps` of app/witness/conflicts.rules.go, each with its verdict in
--               app/witness/outcomes.go. `net.ParseCIDR` is a parameter; a network is the list of the bits
--               that its mask keeps.
-- Collect.Binds `BindSources`, `StatPath` and `FilesystemFor` of app/collect/host, on os.Lstat, os.Stat and
--               os.Readlink as parameters.
-- Witness.Binds, Witness.BindPaths
--               app/witness/binds.go, and `bindPathConflicts` with its verdict. The rule reads what
--               Collect.Binds left in the capabilities.
-- Witness.Rollback
--               `Rollback` of app/witness/changes.go. What a line prints is a constructor.
-- Witness.PortState
--               `portState` of app/witness/changes.go.
-- FilePath      `filepath.Clean` of package path/filepath.
-- Manifest.Ports
--               `parseShortPort` of app/collect/manifest/ports.go.
-- Manifest.Interpolate
--               `substitute` of app/collect/manifest/interpolate.go with all it calls. The environment is a
--               function; a warning is a constructor with what its message prints.
-- Manifest.Dotenv
--               `loadDotEnv` of the same file on the text of a `.env`, with `unquote`.
-- Pkg.Debian, Pkg.Rpm
--               `CompareDebian` and `CompareRPM` of app/pkgmgr/version.go.
-- Vuln.Osv      `Match`, `matchRange`, `EcosystemMatches` and `PrimaryId` of app/vuln/osv.go. The version
--               comparison is a parameter, as in the code.
-- Audit.Recheck `Recheck` and `currentEngineID` of app/audit/recheck.go, on the Runner of Run.Runner. A time is
--               a count of nanoseconds; `Prepare` is left out, and its digest is an argument.
-- Proxy.Nginx   `nginxDirectives` and `nginxListenPort` of app/collect/proxy/nginx.go. The inner loops are
--               modes of one loop over the bytes.
-- Proxy.Walk    The crawler of app/collect/proxy/walk.go. The file system is a parameter; the depth of an
--               include counts down from 8, so the recursion is on the levels that are left.
-- Proxy.Accumulator
--               The accumulator of walk.go, with `scanNginxFile` and `walkNginxTree` of nginx.go.
-- Run.Allowlist, Run.Commands
--               app/run/allowlist.go and app/run/commands.go: `Spec.matches`, `Allowed`, and the whole
--               published list. A pattern is a class for the first byte and one for the others.
-- Run.Runner    app/run/run.go: the Runner, with its journal and the environment of a child. The
--               operating system is a record of functions on a state: `environ`, `available`, `launch`.
-- Net.Endpoint  `CheckEndpoint`, `IsLoopbackHost` and `RedirectRefused` of app/netpath/netpath.go, on
--               `url.Parse` and `net.ParseIP` as parameters.
-- Samples       inputs, tests by evaluation, and the theorems at concrete inputs.
--
-- The state of the program is the report under construction: the loop of `Evaluate` is `run_rules` over
-- the record `Progress`, its inner loop `publish_all` over the record `Tally`. All loops are structural
-- recursions except those of `parse_ip` (a round reads one of at most eight groups, so nine rounds are
-- enough), of `verrevcmp` (every round that goes on consumes a byte, so one more round than there are
-- bytes is enough, unless a byte is 0), of `rpmvercmp` (a round takes a byte of either text, so as many
-- rounds as bytes are enough), of `substitute` (a round, and the default of a reference, is shorter than
-- what it is part of, so the length of the text is enough) and of `itoa` (a number has fewer digits than
-- itself plus one). Collectors run commands through the Runner and through nothing else; `run_all` is a
-- sequence of such calls.
--
-- Not modelled: the change list that `Evaluate` also returns; the rule `projectOwnership`, and those on
-- resources, hygiene, the front end and compatibility; what the other collectors make of files and of
-- the output of commands; the feeds of vulnerabilities and the grades of a record; the masking of
-- secrets, which is regular expressions of package regexp; the report writers; the command line.
pub mod Prelude
pub mod Model
pub mod Witness
pub mod Net
pub mod FilePath
pub mod Pkg
pub mod Manifest
pub mod Run
pub mod Vuln
pub mod Audit
pub mod Proxy
pub mod Collect
mod Samples
