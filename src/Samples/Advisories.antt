-- ===== src/Samples/Advisories.antt =====
-- A record of an advisory, on Debian versions and on versions that count strokes, and addresses of a
-- network path.
use deploy_witness_cli.Prelude.{
  ◌≡◌, refl, true, false, Option, none, some, List, [], ◌∷◌, length, any, Text, codes, text_eq,
  has_prefix, trim_left_where, trim_space, to_lower, lower, Exists,
}
use deploy_witness_cli.Prelude.Int.{pos, negsuc, sub_ℕ}
use deploy_witness_cli.Pkg.Debian.{
  compare_debian, split_debian, compare_split, compare_int, bare_number, compare_bare, is_numeric,
  compare_bytes, or_next, verrevcmp, scan_parts, part_round, dpkg_order, is_part, is_digit,
  round_digits, skip_zeros, digit_run, settle_digits,
}
use deploy_witness_cli.Vuln.Osv.{
  Entry, Compare, equal_fold, walk_event, walk_events, match_range, first_fixed, first_fixed_event,
  split_ecosystem, ecosystem_matches, match_ranges, match_affected, match_packages, match_entry,
  first_cve, primary_id,
}
use deploy_witness_cli.Vuln.Osv.Interval.{
  Interval, events_of, reaches, inside, follows, placed_from, placed, range_of, match_range-inside,
}
use deploy_witness_cli.Vuln.Osv.Family.{IsAbout, match_entry-IsAbout}
use deploy_witness_cli.Net.Endpoint.{
  Parse, parsed, rejected, plain_http, is_loopback_host, check_scheme, check_url, check_endpoint,
  Answers, check_endpoint-Answers,
}

-- The version that has more strokes is the later one.
abbrev strokes : Compare
strokes a b = sub_ℕ (length a) (length b)

-- The comparison of Debian versions, on texts that it returns on.
debian : Compare
unfolding compare_debian split_debian compare_split compare_int bare_number compare_bare is_numeric
    compare_bytes or_next verrevcmp scan_parts part_round dpkg_order is_part is_digit round_digits
    skip_zeros digit_run settle_digits trim_space trim_left_where
debian a b = elim (compare_debian a b) [ some z ↦ z | none ↦ pos 0 ]

abbrev two_intervals : List Interval
two_intervals =
    record { from = codes "0"; until = codes "1.4-2" }
    ∷ record { from = codes "2.0~rc1"; until = codes "2.0-3" }
    ∷ []

two_placed : placed debian (codes "2.0-1") two_intervals ≡ true
unfolding placed placed_from follows text_eq debian
two_placed = refl

match_range-inside_example :
    (match_range debian (range_of (codes "ECOSYSTEM") two_intervals) (codes "2.0-1")).0
    ≡ any (inside debian (codes "2.0-1")) two_intervals
match_range-inside_example =
    match_range-inside debian (codes "ECOSYSTEM") (codes "2.0-1") two_intervals two_placed

second_inside : any (inside debian (codes "2.0-1")) two_intervals ≡ true
unfolding inside reaches text_eq debian
second_inside = refl

-- Where epochs are words, the comparison is no order: 22:1 is before xx:1 and xx:1 is before y:1, but
-- 22:1 is after y:1.
first_before : debian (codes "22:1") (codes "xx:1") ≡ negsuc 0
unfolding debian
first_before = refl

second_before : debian (codes "xx:1") (codes "y:1") ≡ negsuc 0
unfolding debian
second_before = refl

first_after : debian (codes "22:1") (codes "y:1") ≡ pos 1
unfolding debian
first_after = refl

abbrev word_intervals : List Interval
word_intervals =
    record { from = codes "0"; until = codes "xx:1" }
    ∷ record { from = codes "y:1"; until = codes "z:1" }
    ∷ []

-- So a version inside of an interval can come out as one that is not affected.
inside_first : any (inside debian (codes "22:1")) word_intervals ≡ true
unfolding inside reaches text_eq debian
inside_first = refl

passed_over :
    (match_range debian (range_of (codes "ECOSYSTEM") word_intervals) (codes "22:1")).0 ≡ false
unfolding match_range walk_events walk_event events_of text_eq debian
passed_over = refl

-- The fix that is reported is that of the last interval.
last_fix :
    match_range debian (range_of (codes "ECOSYSTEM") two_intervals) (codes "1.3")
    ≡ (true, codes "2.0-3")
unfolding match_range walk_events walk_event events_of text_eq debian
last_fix = refl

abbrev advisory : Entry
advisory = record {
  id = codes "DSA-1";
  aliases = codes "GHSA-1" ∷ codes "CVE-2024-1" ∷ [];
  withdrawn = [];
  affected =
      record {
        osv_package = record { ecosystem = codes "Debian"; name = codes "OpenSSL" };
        ranges = range_of (codes "ECOSYSTEM") two_intervals ∷ [];
        versions = [];
      }
      ∷ [];
}

found : Text → Text → Option Text
unfolding match_entry match_packages match_affected match_ranges ecosystem_matches split_ecosystem
    equal_fold to_lower lower match_range walk_events walk_event events_of text_eq first_fixed
    first_fixed_event
found ecosystem version = match_entry advisory ecosystem (codes "openssl") version strokes

other_family : found (codes "Alpine:v3.18") (codes "11") ≡ none
unfolding found
other_family = refl

openssl_found :
    match_entry advisory (codes "Debian:12") (codes "openssl") (codes "11") strokes
    ≡ some (codes "2.0-3")
unfolding found
openssl_found = refl

match_entry-IsAbout_example :
    (advisory.withdrawn ≡ [])
    × Exists (IsAbout (codes "Debian:12") (codes "openssl")) advisory.affected
match_entry-IsAbout_example =
    match_entry-IsAbout strokes advisory (codes "Debian:12") (codes "openssl") (codes "11")
      (codes "2.0-3") openssl_found

cve_of_alias : primary_id advisory ≡ codes "CVE-2024-1"
unfolding primary_id first_cve has_prefix
cve_of_alias = refl

-- Every text is taken for the host of a plain address.
abbrev plain_parse : Text → Parse
plain_parse s = parsed record {
  scheme = codes "http";
  host = s;
  hostname = s;
  has_user = false;
  raw_query = [];
  fragment = [];
}

not_here :
    check_endpoint plain_parse (λ h. false) (codes "--upload") (codes " Example.org")
    ≡ rejected (plain_http (codes "--upload") (codes " Example.org"))
unfolding check_endpoint check_url check_scheme is_loopback_host trim_space to_lower lower text_eq
not_here = refl

check_endpoint-Answers_example :
    Answers
      (λ h. false)
      (plain_parse (trim_space (codes "LocalHost")))
      (check_endpoint plain_parse (λ h. false) (codes "--upload") (codes "LocalHost"))
check_endpoint-Answers_example =
    check_endpoint-Answers plain_parse (λ h. false) (codes "--upload") (codes "LocalHost")
