-- ===== src/WebReader.antt =====
-- The reader of public webpages: `_validated_target`, `_blocked_by_domain_policy`, `_request_once` and
-- `fetch_public_resource` of services/app/ai/web_reader.py.
pub mod Fetch
pub mod Guarded
pub mod Connections
mod Tests
use Prim.Native.String.{count}
use deep_foundry.Base.{
  ℕ, String, str_eq, Bool, true, false, ◌&&◌, ◌||◌, not, Option, none, some, List, [], ◌∷◌, any,
  find, ltb, ◌==◌, take, if◌then◌else◌,
}
use deep_foundry.Base.Text.{append_text}

-- What `urlsplit` makes of a URL; the port is `none` where reading it raises a ValueError.
pub record SplitUrl : Type 0 where
  pub scheme : String
  pub hostname : Option String
  pub has_credentials : Bool
  pub port : Option (Option ℕ)

-- The world that a fetch meets: name resolution at a time (`none`: a gaierror), whether an address is
-- global (`none`: it is none), its version, `encode("idna")` (`none`: a UnicodeError), and Python's
-- functions on texts and URLs.
pub record World : Type 0 where
  pub urlsplit : String → SplitUrl
  pub urljoin : String → String → String
  pub strip : String → String
  pub lower : String → String
  pub rstrip_dot : String → String
  pub lstrip_dot : String → String
  pub has_control : String → Bool
  pub idna : String → Option String
  pub ends_with : String → String → Bool
  pub getaddrinfo : ℕ → String → ℕ → Option (List String)
  pub is_global : String → Option Bool
  pub is_version_4 : String → Bool

-- What a `WebPageError` tells.
pub data WebPageError : Type 0 where
  no_url too_long control_characters bad_scheme credentials no_hostname bad_port other_port :
      WebPageError
  bad_hostname unresolved bad_address private_address time_limit blocked redirect_blocked :
      WebPageError
  too_large bad_limit request_failed no_location too_many_redirects downgrade bad_status
        bad_encoding bad_type :
      WebPageError

pub data Checked {ℓ} (A : Type ℓ) : Type ℓ where
  ok : A → Checked A
  error : WebPageError → Checked A

-- A checked target: the URL's scheme and host, and the address and port to connect to.
pub record Target : Type 0 where
  pub scheme : String
  pub hostname : String
  pub address : String
  pub port : ℕ

abbrev pub or_empty : Option String → String
or_empty none = ""
or_empty (some s) = s

-- The addresses without repetition, in order.
abbrev pub add_address : List String → List String → List String
add_address resolved [] = resolved
add_address resolved (a ∷ addresses) =
    let rest = add_address (a ∷ resolved) addresses in
    let skipped = add_address resolved addresses in
    if any (str_eq a) resolved then skipped else rest

abbrev pub reverse_onto : List String → List String → List String
reverse_onto [] ys = ys
reverse_onto (x ∷ xs) ys = reverse_onto xs (x ∷ ys)

unfoldable pub without_repeats : List String → List String
without_repeats addresses = reverse_onto (add_address [] addresses) []

-- An address that is not global is refused; another leaves it to the rest.
abbrev pub refuse_address : Option Bool → Option WebPageError → Option WebPageError
refuse_address none rest = some bad_address
refuse_address (some true) rest = rest
refuse_address (some false) rest = some private_address

-- The refusal of the first address that is not global.
unfoldable pub first_refused : World → List String → Option WebPageError
first_refused world [] = none
first_refused world (a ∷ addresses) =
    refuse_address (world.is_global a) (first_refused world addresses)

abbrev pub preferred : String → Option String → String
preferred first none = first
preferred first (some s) = s

abbrev pub unless_refused : Option WebPageError → Target → Checked Target
unless_refused (some refusal) target = error refusal
unless_refused none target = ok target

-- The first address of IPv4, or the first one.
abbrev pub choose_address : World → SplitUrl → String → ℕ → List String → Checked Target
choose_address world url hostname port [] = error unresolved
choose_address world url hostname port (first ∷ rest) =
    unless_refused (first_refused world (first ∷ rest)) (record {
      scheme = world.lower url.scheme;
      hostname = hostname;
      address = preferred first (find world.is_version_4 (first ∷ rest));
      port = port;
    })

abbrev pub with_addresses : World → SplitUrl → String → ℕ → Option (List String) → Checked Target
with_addresses world url hostname port none = error unresolved
with_addresses world url hostname port (some addresses) =
    choose_address world url hostname port (without_repeats addresses)

abbrev pub resolve_host : World → ℕ → SplitUrl → ℕ → String → Option String → Checked Target
resolve_host world time url port hostname none = error bad_hostname
resolve_host world time url port hostname (some ascii) =
    with_addresses world url hostname port (world.getaddrinfo time ascii port)

abbrev pub default_port : String → ℕ
default_port scheme = if str_eq scheme "https" then 443 else 80

-- `parsed.port or default_port`
abbrev pub port_or : ℕ → Option ℕ → ℕ
port_or default none = default
port_or default (some p) = if p == 0 then default else p

abbrev pub check_port : World → ℕ → SplitUrl → ℕ → String → Option (Option ℕ) → Checked Target
check_port world time url default hostname none = error bad_port
check_port world time url default hostname (some port) =
    if port_or default port == default
    then resolve_host world time url (port_or default port) hostname (world.idna hostname)
    else error other_port

abbrev pub check_host : World → ℕ → SplitUrl → Option String → Checked Target
check_host world time url none = error no_hostname
check_host world time url (some host) =
    check_port world time url (default_port (world.lower url.scheme)) (world.rstrip_dot host)
      url.port

abbrev pub check_url : World → ℕ → SplitUrl → Checked Target
check_url world time url =
    let host = if str_eq (or_empty url.hostname) "" then none else url.hostname in
    let checked = check_host world time url host in
    if any (str_eq (world.lower url.scheme)) ("http" ∷ "https" ∷ [])
    then (if url.has_credentials then error credentials else checked)
    else error bad_scheme

-- `_validated_target`
unfoldable pub validated_target : World → ℕ → String → Checked Target
validated_target world time url =
    let value = world.strip url in
    let checked = check_url world time (world.urlsplit value) in
    if str_eq value ""
    then error no_url
    else if ltb 2048 (count value)
    then error too_long
    else if world.has_control value
    then error control_characters
    else checked

-- One rule of `_blocked_by_domain_policy`; a rule that is no host name is passed over.
abbrev pub rule_text : World → String → String
rule_text world raw =
    let rule = world.rstrip_dot (world.lstrip_dot (world.lower (world.strip raw))) in rule

abbrev pub rule_blocks : World → String → Option String → Bool
rule_blocks world host none = false
rule_blocks world host (some rule) =
    not (str_eq rule "") && (str_eq host rule || world.ends_with host (append_text "." rule))

abbrev pub any_rule_blocks : World → (String → String) → List String → Option String → Bool
any_rule_blocks world host_of rules none = true
any_rule_blocks world host_of rules (some host) =
    any (λ raw. rule_blocks world host (world.idna (host_of (rule_text world raw))))
      (take 100 rules)

-- `_blocked_by_domain_policy`; `host_of` is the host of a rule that is a URL, or the rule itself.
unfoldable pub blocked_by_domain_policy : World → (String → String) → String → List String → Bool
blocked_by_domain_policy world host_of url [] = false
blocked_by_domain_policy world host_of url (rule ∷ rules) =
    any_rule_blocks world host_of (rule ∷ rules)
      (world.idna (world.lower (world.rstrip_dot (or_empty (world.urlsplit url).hostname))))
