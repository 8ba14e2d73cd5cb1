-- ===== src/Net/Endpoint.antt =====
-- app/netpath/netpath.go: which addresses a network path may use. `url.Parse` and the loopback test of
-- package net are parameters; an error keeps what its message prints.
use mathlib.Core.Path.{subst}
use deploy_witness_cli.Prelude.{
  ℕ, ◌≡◌, refl, sym, inl, inr, Bool, true, false, not, ◌&&◌, ◌||◌, Option, none, some, arith, ltb,
  leb, if◌then◌else◌, Bool-cases, Text, codes, text_eq, is_empty, trim_space, to_lower,
}

-- What the check reads of a `url.URL`.
pub record Url : Type 0 where
  pub scheme : Text
  pub host : Text
  pub hostname : Text
  pub has_user : Bool
  pub raw_query : Text
  pub fragment : Text

pub data EndpointError : Type 0 where
  not_a_url : Text → Text → Text → EndpointError
  no_host : Text → Text → EndpointError
  credentials : Text → EndpointError
  not_a_base : Text → Text → EndpointError
  plain_http : Text → Text → EndpointError
  unsupported : Text → Text → Text → EndpointError

pub data Checked : Type 0 where
  accepted : Url → Checked
  rejected : EndpointError → Checked

-- `url.Parse`: an error with its text, or the URL.
pub data Parse : Type 0 where
  failed : Text → Parse
  parsed : Url → Parse

-- `IsLoopbackHost`, on the test that `net.ParseIP` and `IsLoopback` make.
unfoldable pub is_loopback_host : (Text → Bool) → Text → Bool
is_loopback_host is_loopback_ip host =
    text_eq (to_lower host) (codes "localhost") || is_loopback_ip host

-- The switch on the scheme.
unfoldable pub check_scheme : (Text → Bool) → Text → Text → Url → Checked
check_scheme is_loopback_ip flag raw url =
    if text_eq (to_lower url.scheme) (codes "https")
    then accepted url
    else if text_eq (to_lower url.scheme) (codes "http")
    then if not (is_loopback_host is_loopback_ip url.hostname)
      then rejected (plain_http flag raw)
      else accepted url
    else rejected (unsupported flag raw url.scheme)

-- The checks on a URL that could be parsed.
unfoldable pub check_url : (Text → Bool) → Text → Text → Url → Checked
check_url is_loopback_ip flag raw url =
    if is_empty url.host || is_empty url.hostname
    then rejected (no_host flag raw)
    else if url.has_user
    then rejected (credentials flag)
    else if not (is_empty url.raw_query) || not (is_empty url.fragment)
    then rejected (not_a_base flag raw)
    else check_scheme is_loopback_ip flag raw url

-- `CheckEndpoint`.
unfoldable pub check_endpoint : (Text → Parse) → (Text → Bool) → Text → Text → Checked
check_endpoint parse is_loopback_ip flag raw = elim (parse (trim_space raw)) [
  | failed e ↦ rejected (not_a_url flag raw e)
  | parsed url ↦ check_url is_loopback_ip flag raw url
]

-- `RedirectRefused`: the location that is reported, unless the status is no redirect.
unfoldable pub redirect_refused : ℕ → Text → Option Text
redirect_refused status location =
    if ltb status 300 || leb 400 status
    then none
    else some (if is_empty location then codes "(no Location header)" else location)

-- A scheme that may be used with a host.
abbrev pub is_safe_scheme : (Text → Bool) → Url → Bool
is_safe_scheme is_loopback_ip url =
    text_eq (to_lower url.scheme) (codes "https")
    || (text_eq (to_lower url.scheme) (codes "http")
        && is_loopback_host is_loopback_ip url.hostname)

-- An address that may be used: over TLS, or in clear to this host only, with a host, and with no
-- credentials, query or fragment.
abbrev pub is_safe : (Text → Bool) → Url → Bool
is_safe is_loopback_ip url =
    not (is_empty url.host)
    && (not (is_empty url.hostname)
        && (not url.has_user
            && (is_empty url.raw_query
                && (is_empty url.fragment && is_safe_scheme is_loopback_ip url))))

-- The check of a URL against that description.
abbrev pub Judged : (Text → Bool) → Url → Checked → Type 0
Judged is_loopback_ip url (accepted u) = (u ≡ url) × (is_safe is_loopback_ip url ≡ true)
Judged is_loopback_ip url (rejected e) = is_safe is_loopback_ip url ≡ false

-- Every test before the scheme has passed.
abbrev is_base : Url → Bool
is_base url =
    not (is_empty url.host)
    && (not (is_empty url.hostname)
        && (not url.has_user && (is_empty url.raw_query && is_empty url.fragment)))

check_scheme-Judged :
    (l : Text → Bool) (flag raw : Text) (url : Url)
    → is_base url ≡ true
    → Judged l url (check_scheme l flag raw url)
unfolding check_scheme
check_scheme-Judged l flag raw url b =
    elim (Bool-cases (text_eq (to_lower url.scheme) (codes "https"))) [
      | inl t ↦ rw (t, check_scheme) (refl, ground (arith, b, t))
      | inr t ↦ elim (Bool-cases (text_eq (to_lower url.scheme) (codes "http"))) [
        | inl p ↦ elim (Bool-cases (not (is_loopback_host l url.hostname))) [
          | inl n ↦ rw (t, p, n, check_scheme) (ground (arith, t, n))
          | inr n ↦ rw (t, p, n, check_scheme) (refl, ground (arith, b, p, n))
        ]
        | inr p ↦ rw (t, p, check_scheme) (ground (arith, t, p))
      ]
    ]

check_url-Judged :
    (is_loopback_ip : Text → Bool) (flag raw : Text) (url : Url)
    → Judged is_loopback_ip url (check_url is_loopback_ip flag raw url)
unfolding check_url check_scheme
check_url-Judged l flag raw url = elim (Bool-cases (is_empty url.host || is_empty url.hostname)) [
  | inl h ↦ rw (h, check_url) (ground (arith, h))
  | inr h ↦ elim (Bool-cases url.has_user) [
    | inl u ↦ rw (h, u, check_url) (ground (arith, h, u))
    | inr u ↦ elim (Bool-cases (not (is_empty url.raw_query) || not (is_empty url.fragment))) [
      | inl q ↦ rw (h, u, q, check_url) (ground (arith, h, q))
      | inr q ↦
          let e : check_url l flag raw url ≡ check_scheme l flag raw url =
            simp (h, u, q, check_url) refl in
          let k = check_scheme-Judged l flag raw url (ground (arith, h, u, q)) in
          subst (Judged l url) (sym e) k
    ]
  ]
]

-- The answer to a text that may not be a URL.
abbrev pub Answers : (Text → Bool) → Parse → Checked → Type 0
Answers is_loopback_ip (failed e) (accepted u) = ⊥
Answers is_loopback_ip (failed e) (rejected r) = Unit
Answers is_loopback_ip (parsed url) c = Judged is_loopback_ip url c

-- Whatever the operator gives is accepted exactly if it can be parsed, and then is an address that may
-- be used; what is returned is the URL that was parsed.
pub check_endpoint-Answers :
    (parse : Text → Parse) (is_loopback_ip : Text → Bool) (flag raw : Text)
    → Answers is_loopback_ip (parse (trim_space raw)) (check_endpoint parse is_loopback_ip flag raw)
unfolding check_endpoint
check_endpoint-Answers parse l flag raw = answers (parse (trim_space raw))
  where
    answers :
        (p : Parse)
        → Answers l p (elim p [
          | failed e ↦ rejected (not_a_url flag raw e)
          | parsed url ↦ check_url l flag raw url
        ])
    answers (failed e) = tt
    answers (parsed url) = check_url-Judged l flag raw url
