-- ===== src/Samples/Ports.antt =====
-- Tests of the string form of a port after ports_test.go, and its theorem at a concrete input.
use deploy_witness_cli.Prelude.{
  ◌≡◌, refl, Text, codes, has_prefix, trim_space, to_lower, split_on, cut_first, cut_last, atoi,
}
use deploy_witness_cli.Model.Plan.{PortMapping}
use deploy_witness_cli.Manifest.Ports.{
  in_host, backwards, Parsed, parsed, refused, and_then, within, parse_port, parse_port_range,
  with_ports, read_parts, parse_short_port,
}
use deploy_witness_cli.Manifest.Ports.Bounds.{IsWellFormed, parse_short_port-IsWellFormed}

read : Text → Parsed PortMapping
unfolding parse_short_port read_parts with_ports parse_port_range parse_port and_then within
    trim_space to_lower cut_first cut_last split_on has_prefix atoi
read spec = parse_short_port spec

abbrev dns : PortMapping
dns = record {
  host_ip = codes "127.0.0.1";
  host_port = 8053;
  host_port_end = 8053;
  container_port = 53;
  container_port_end = 0;
  protocol = codes "udp";
}

full_form : read (codes "127.0.0.1:8053:53/UDP") ≡ parsed dns
unfolding read
full_form = refl

range_backwards : read (codes "3005-3000:80") ≡ refused (in_host backwards)
unfolding read
range_backwards = refl

dns_read : parse_short_port (codes "127.0.0.1:8053:53/UDP") ≡ parsed dns
unfolding read
dns_read = refl

parse_short_port-IsWellFormed_example : IsWellFormed dns
parse_short_port-IsWellFormed_example =
    parse_short_port-IsWellFormed (codes "127.0.0.1:8053:53/UDP") dns dns_read
