-- ===== src/Samples/PortMatch.antt =====
-- Tests of the port comparison after portmatch_test.go, and its theorems at concrete inputs.
use deploy_witness_cli.Prelude.{
  ◌≡◌, refl, Bool, true, false, ◌&&◌, [], Text, codes, text_eq, trim_space, trim_brackets, to_lower,
  trim_suffix_byte,
}
use deploy_witness_cli.Net.Ip.{parse_ip}
use deploy_witness_cli.Model.Plan.{PortMapping}
use deploy_witness_cli.Model.Host.{Socket}
use deploy_witness_cli.Witness.PortMatch.{
  IpStack, PortClaim, Overlap, nowhere, undecidable, certain, collides, claim_from_mapping,
  claim_from_socket, coverage, family_overlap, coverage_overlap,
}
use deploy_witness_cli.Witness.PortMatch.Meaning.{answers, Settles, Agrees}
use deploy_witness_cli.Witness.PortMatch.Exact.{
  SamePort, Readable, Meet, certain_meets, nowhere_apart,
}
use deploy_witness_cli.Witness.PortMatch.Undecided.{
  undecidable_open, most_ipv6, least_ipv6, least_only, most_only,
}

-- A host whose IPv6 configuration could not be read.
abbrev dark : IpStack
dark = record { ipv6 = []; bind_v6_only = [] }

mapping : Text → Text → PortMapping
mapping address protocol = record {
  host_ip = address;
  host_port = 80;
  host_port_end = 80;
  container_port = 80;
  container_port_end = 0;
  protocol = protocol;
}

socket : Text → Text → Socket
socket address protocol = record {
  protocol = protocol;
  address = address;
  port = 80;
  state = codes "LISTEN";
  pid = 7;
  process = codes "nginx";
  v6only = [];
}

want : Text → PortClaim
unfolding mapping
want address = claim_from_mapping (mapping address (codes "tcp")) 80

held : Text → PortClaim
unfolding socket
held address = claim_from_socket (socket address (codes "tcp6"))

-- Opening this opens all that a comparison computes with.
verdict : Text → Text → Overlap
unfolding collides want held claim_from_mapping claim_from_socket parse_ip trim_space trim_brackets
    to_lower trim_suffix_byte text_eq coverage family_overlap coverage_overlap
verdict a b = (collides dark (want a) (held b)).0

same_address : (collides dark (want (codes "127.0.0.1")) (held (codes "127.0.0.1"))).0 ≡ certain
unfolding verdict
same_address = refl

other_address : (collides dark (want (codes "127.0.0.1")) (held (codes "192.168.1.10"))).0 ≡ nowhere
unfolding verdict
other_address = refl

v6_wildcard : (collides dark (want (codes "127.0.0.1")) (held (codes "[::]"))).0 ≡ undecidable
unfolding verdict
v6_wildcard = refl

unresolved : (collides dark (want (codes "${HOST_IP}")) (held (codes "0.0.0.0"))).0 ≡ undecidable
unfolding verdict
unresolved = refl

same_port : (a b : Text) → SamePort (want a) (held b)
unfolding want held claim_from_mapping claim_from_socket trim_space to_lower trim_suffix_byte
same_port a b = record { port = refl; protocol = refl }

any-Settles : (b : Bool) → Settles dark b
any-Settles b = record { on = λ e. cc; off = λ e. cc }

want-Agrees : (a : Text) (b : Bool) → Agrees (want a) b
unfolding want claim_from_mapping
want-Agrees a b = record { alone = λ e. cc; dual = λ e. cc }

held-Agrees : (a : Text) (b : Bool) → Agrees (held a) b
unfolding held claim_from_socket
held-Agrees a b = record { alone = λ e. cc; dual = λ e. cc }

certain_meets_example :
    SamePort (want (codes "127.0.0.1")) (held (codes "127.0.0.1"))
    × Meet true false true (want (codes "127.0.0.1")) (held (codes "127.0.0.1"))
certain_meets_example =
    certain_meets dark (want (codes "127.0.0.1")) (held (codes "127.0.0.1")) true false true
      (any-Settles true) (want-Agrees (codes "127.0.0.1") false)
      (held-Agrees (codes "127.0.0.1") true) same_address

nowhere_apart_example :
    (answers true false (want (codes "127.0.0.1")) 7
      && answers true true (held (codes "192.168.1.10")) 7)
    ≡ false
nowhere_apart_example =
    nowhere_apart dark (want (codes "127.0.0.1")) (held (codes "192.168.1.10")) true false true
      (any-Settles true) (want-Agrees (codes "127.0.0.1") false)
      (held-Agrees (codes "192.168.1.10") true) other_address
      (same_port (codes "127.0.0.1") (codes "192.168.1.10")) 7

both-Readable : Readable (want (codes "127.0.0.1")) (held (codes "[::]"))
unfolding verdict
both-Readable = record { wanted = refl; holds = refl }

undecidable_open_example :
    (Settles dark (most_ipv6 dark)
      × Agrees (want (codes "127.0.0.1")) (least_only (want (codes "127.0.0.1")))
      × Agrees (held (codes "[::]")) (least_only (held (codes "[::]")))
      × Meet
          (most_ipv6 dark)
          (least_only (want (codes "127.0.0.1")))
          (least_only (held (codes "[::]")))
          (want (codes "127.0.0.1"))
          (held (codes "[::]")))
    × (Settles dark (least_ipv6 dark)
        × Agrees (want (codes "127.0.0.1")) (most_only (want (codes "127.0.0.1")))
        × Agrees (held (codes "[::]")) (most_only (held (codes "[::]")))
        × (¬ Meet
            (least_ipv6 dark)
            (most_only (want (codes "127.0.0.1")))
            (most_only (held (codes "[::]")))
            (want (codes "127.0.0.1"))
            (held (codes "[::]"))))
undecidable_open_example =
    undecidable_open dark (want (codes "127.0.0.1")) (held (codes "[::]")) v6_wildcard both-Readable
