-- ===== src/WebReader/Tests.antt =====
-- A page that redirects once, and the theorem on its fetch.
use deep_foundry.Base.{ℕ, zero, suc, false, true, Option, none, some, [], ◌∷◌, ◌≡◌, refl}
use deep_foundry.WebReader.{
  World, SplitUrl, Target, Checked, validated_target, first_refused, without_repeats,
  blocked_by_domain_policy,
}
use deep_foundry.WebReader.Fetch.{
  PageAnswer, Net, fetch_public_resource, fetch_from, pass, request_once, read_chunks,
}
use deep_foundry.WebReader.Connections.{IsSafeFetch, fetch_public_resource-IsSafeFetch}

abbrev split : SplitUrl
split = record {
  scheme = "https";
  hostname = some "example.org";
  has_credentials = false;
  port = some none;
}

abbrev world : World
world = record {
  urlsplit = λ s. split;
  urljoin = λ base s. s;
  strip = λ s. s;
  lower = λ s. s;
  rstrip_dot = λ s. s;
  lstrip_dot = λ s. s;
  has_control = λ s. false;
  idna = λ s. some s;
  ends_with = λ s t. false;
  getaddrinfo = λ time host port. some ("93.184.216.34" ∷ []);
  is_global = λ address. some true;
  is_version_4 = λ address. true;
}

abbrev moved : PageAnswer
moved = record {
  status = 301;
  headers = ("location", "https://example.org/b") ∷ [];
  announced = none;
  chunks = [];
}

abbrev answer : PageAnswer
answer = record {
  status = 200;
  headers = ("content-type", "text/plain") ∷ [];
  announced = some 5;
  chunks = (false, "Hello") ∷ [];
}

abbrev respond : ℕ → Target → Option PageAnswer
respond zero target = none
respond (suc zero) target = some moved
respond (suc (suc n)) target = some answer

abbrev net : Net
net = record {
  world = world;
  host_of = λ s. s;
  late = λ time. false;
  respond = respond;
  max_bytes = 100;
  document_bytes = 100;
  max_redirects = 3;
  blocked_domains = "example.com" ∷ [];
  accepted_statuses = [];
  allowed_content_types = "text/plain" ∷ [];
  media_type = λ s. s;
}

fetch_public_resource-IsSafeFetch_example :
    IsSafeFetch net 3 "https://example.org/a" (fetch_public_resource net "https://example.org/a")
fetch_public_resource-IsSafeFetch_example =
    fetch_public_resource-IsSafeFetch net "https://example.org/a"

abbrev to : Target
to = record { scheme = "https"; hostname = "example.org"; address = "93.184.216.34"; port = 443 }

-- The fetch opens two connections and returns the second answer.
fetches : fetch_public_resource net "https://example.org/a" ≡ (
  record { url = "https://example.org/a"; target = to }
      ∷ record { url = "https://example.org/b"; target = to }
      ∷ [],
  Checked.ok (record { final_url = "https://example.org/b"; answer = answer; body = "Hello" }),
)
unfolding fetch_public_resource fetch_from pass request_once validated_target first_refused
    without_repeats blocked_by_domain_policy read_chunks
fetches = refl
