-- ===== src/Crawler/Tests.antt =====
-- A site of two pages that link to each other, and the theorems on its crawl.
use deep_foundry.Base.{ℕ, String, true, false, Option, none, some, [], ◌∷◌, ◌≡◌, ◌≢◌, refl, arith}
use deep_foundry.Base.Int.{pos}
use deep_foundry.Crawler.{
  Page, Site, PageRecord, finished, out_of_fuel, crawl_website, crawl_from, visit, add_links,
  is_blocked_url, domain_matches,
}
use deep_foundry.Crawler.Ends.{HasFewLinks, crawl_website-ne-out_of_fuel}

abbrev page_of : ℕ → String → Option Page
page_of n url = some (record { url = url; checksum = url; links = "https://a.org/2" ∷ [] })

abbrev site : Site
site = record {
  normalize = λ url. some url;
  hostname = λ url. "a.org";
  normalize_domain = λ domain. domain;
  lstrip_dot = λ domain. domain;
  ends_with = λ host domain. false;
  allowed = λ url. true;
  read_page = page_of;
  late = λ time. false;
  start_host = "";
  blocked_domains = "b.org" ∷ [];
  max_pages = 50;
  max_depth = 3;
}

few : HasFewLinks 1 site
few n url page e =
    let same : ("https://a.org/2" ∷ []) ≡ page.links = cc e in rw (← same) (omega arith)

crawl_website-ne-out_of_fuel_example :
    crawl_website 1 site (pos 5) (pos 1) "https://a.org/1" [] ≢ out_of_fuel
crawl_website-ne-out_of_fuel_example =
    crawl_website-ne-out_of_fuel 1 site (pos 5) (pos 1) "https://a.org/1" [] few

abbrev read_of : String → String → ℕ → PageRecord
read_of url parent depth = record {
  url = url;
  parent_url = parent;
  depth = depth;
  robots_allowed = true;
  failed = false;
  duplicate_of = none;
}

-- The crawl hands each URL over once.
crawls :
    crawl_website 1 site (pos 5) (pos 1) "https://a.org/1" []
    ≡ finished (record {
      queue = [];
      seen = "https://a.org/2" ∷ "https://a.org/1" ∷ [];
      hashes = ("https://a.org/1", "https://a.org/1") ∷ ("https://a.org/2", "https://a.org/2") ∷ [];
      pages = read_of "https://a.org/1" "" 0 ∷ read_of "https://a.org/2" "https://a.org/1" 1 ∷ [];
      handed = "https://a.org/2" ∷ "https://a.org/1" ∷ [];
    })
unfolding crawl_website crawl_from visit add_links is_blocked_url domain_matches
crawls = refl
