-- ===== src/Crawler.antt =====
-- The crawler of public websites: `crawl_website`, `domain_matches` and `is_blocked_url` of
-- services/app/ai/web_crawler.py.
pub mod Visits
pub mod Polite
pub mod Ends
mod Tests
use deep_foundry.Base.{
  ℕ, zero, suc, ◌+◌, String, str_eq, Bool, true, false, ◌&&◌, ◌||◌, not, Option, none, some, List,
  [], ◌∷◌, ◌++◌, any, ltb, min, max, length, map, if◌then◌else◌,
}
use deep_foundry.Base.Int.{ℤ, pos_part}
use deep_foundry.Base.Dict.{Dict, lookup, insert}
use deep_foundry.Base.Text.{append_text}

-- A page that was read: its final URL, the hash of its text, and its links.
pub record Page : Type 0 where
  pub url : String
  pub checksum : String
  pub links : List String

-- What the crawl reads: the URL functions (`normalize` is `none` where `_normalize_url` raises a
-- UnicodeError or ValueError), the robots policy, the page of a URL by the number of pages before
-- (`none`: a WebPageError, or no rate-limit slot), the clock by the number of passes, and the controls
-- within their bounds.
pub record Site : Type 0 where
  pub normalize : String → Option String
  pub hostname : String → String
  pub normalize_domain : String → String
  pub lstrip_dot : String → String
  pub ends_with : String → String → Bool
  pub allowed : String → Bool
  pub read_page : ℕ → String → Option Page
  pub late : ℕ → Bool
  pub start_host : String
  pub blocked_domains : List String
  pub max_pages : ℕ
  pub max_depth : ℕ

-- A place in the queue.
pub record Lead : Type 0 where
  pub url : String
  pub depth : ℕ
  pub parent : String

-- A record of the result; `failed` where it has an error.
pub record PageRecord : Type 0 where
  pub url : String
  pub parent_url : String
  pub depth : ℕ
  pub robots_allowed : Bool
  pub failed : Bool
  pub duplicate_of : Option String

-- The variables of the loop, and the URLs that were handed to the page reader, newest first. The reader
-- follows redirects from them; their URLs are not recorded here.
pub record Crawl : Type 0 where
  pub queue : List Lead
  pub seen : List String
  pub hashes : Dict String
  pub pages : List PageRecord
  pub handed : List String

unfoldable pub domain_matches : Site → String → String → Bool
domain_matches site hostname rule =
    let host = site.normalize_domain hostname in
    let domain = site.lstrip_dot (site.normalize_domain rule) in
    not (str_eq domain "") && (str_eq host domain || site.ends_with host (append_text "." domain))

unfoldable pub is_blocked_url : Site → String → Bool
is_blocked_url site url = any (domain_matches site (site.hostname url)) site.blocked_domains

abbrev pub has_seen : String → List String → Bool
has_seen url seen = any (str_eq url) seen

abbrev pub add_page : PageRecord → Crawl → Crawl
add_page page crawl = record crawl { pages = crawl.pages ++ (page ∷ []) }

abbrev pub failed_page : String → Lead → Bool → PageRecord
failed_page url lead robots_allowed = record {
  url = url;
  parent_url = lead.parent;
  depth = lead.depth;
  robots_allowed = robots_allowed;
  failed = true;
  duplicate_of = none;
}

-- How a visit ends: with the loop's variables, or with an exception that leaves the crawl.
pub data Visit : Type 0 where
  visited : Crawl → Visit
  crashed : Visit

abbrev pub add_lead : Site → Page → ℕ → String → Crawl → Crawl
add_lead site page depth candidate crawl =
    if str_eq (site.hostname candidate) site.start_host && not (has_seen candidate crawl.seen)
    then record crawl {
      queue =
          crawl.queue ++ (record { url = candidate; depth = suc depth; parent = page.url } ∷ []);
    }
    else crawl

abbrev pub and_then : (Crawl → Visit) → Visit → Visit
and_then next crashed = crashed
and_then next (visited crawl) = next crawl

abbrev pub add_link : Site → Page → ℕ → Crawl → Option String → Visit
add_link site page depth crawl none = crashed
add_link site page depth crawl (some candidate) = visited (add_lead site page depth candidate crawl)

-- The loop over the links of a page.
unfoldable pub add_links : Site → Page → ℕ → List String → Crawl → Visit
add_links site page depth [] crawl = visited crawl
add_links site page depth (link ∷ links) crawl =
    and_then (λ c. add_links site page depth links c)
      (add_link site page depth crawl (site.normalize link))

-- `seen_hashes.get(checksum)`, and the page's own URL for a hash that is new.
abbrev pub note_hash : Page → Option String → Crawl → Crawl
note_hash page none crawl = record crawl { hashes = insert page.checksum page.url crawl.hashes }
note_hash page (some _) crawl = crawl

abbrev pub is_none {ℓ} : {A : Type ℓ} → Option A → Bool
is_none none = true
is_none (some _) = false

abbrev pub record_of : Lead → Page → Option String → PageRecord
record_of lead page duplicate_of = record {
  url = page.url;
  parent_url = lead.parent;
  depth = lead.depth;
  robots_allowed = true;
  failed = false;
  duplicate_of = duplicate_of;
}

-- A page on the permitted host is recorded, and its links are followed if its text is new.
abbrev pub take_page_record : Site → Lead → Page → Crawl → Visit
take_page_record site lead page crawl =
    let duplicate_of = lookup page.checksum crawl.hashes in
    let recorded =
      add_page (record_of lead page duplicate_of) (note_hash page duplicate_of crawl) in
    let followed = add_links site page lead.depth page.links recorded in
    if is_none duplicate_of && ltb lead.depth site.max_depth then followed else visited recorded

abbrev pub read_result : Site → String → Lead → Crawl → Option Page → Visit
read_result site url lead crawl none = visited (add_page (failed_page url lead true) crawl)
read_result site url lead crawl (some page) =
    let taken = take_page_record site lead page crawl in
    if not (str_eq (site.hostname page.url) site.start_host) || is_blocked_url site page.url
    then visited (add_page (failed_page url lead true) crawl)
    else taken

abbrev pub hand_page : Site → String → Lead → Crawl → Visit
hand_page site url lead crawl =
    read_result site url lead (record crawl { handed = url ∷ crawl.handed })
      (site.read_page (length crawl.pages) url)

-- A URL that is new, marked as seen.
abbrev pub visit_new : Site → String → Lead → Crawl → Visit
visit_new site url lead crawl =
    let handed = hand_page site url lead crawl in
    if ltb site.max_depth lead.depth || not (str_eq (site.hostname url) site.start_host)
    then visited crawl
    else if is_blocked_url site url || not (site.allowed url)
    then visited (add_page (failed_page url lead false) crawl)
    else handed

abbrev pub visit_url : Site → Lead → Crawl → Option String → Visit
visit_url site lead crawl none = crashed
visit_url site lead crawl (some url) =
    let fresh = visit_new site url lead (record crawl { seen = url ∷ crawl.seen }) in
    if has_seen url crawl.seen then visited crawl else fresh

-- One pass of the loop, on the lead at the head of the queue.
unfoldable pub visit : Site → Lead → Crawl → Visit
visit site lead crawl = visit_url site lead crawl (site.normalize lead.url)

pub data Crawled : Type 0 where
  finished : Crawl → Crawled
  refused raised out_of_fuel : Crawled

abbrev pub continue_crawl : (Crawl → Crawled) → Visit → Crawled
continue_crawl next crashed = raised
continue_crawl next (visited crawl) = next crawl

-- The queue's head is taken off, if the loop goes on.
abbrev pub next_lead : (Crawl → Crawled) → Site → ℕ → Crawl → List Lead → Crawled
next_lead next site time crawl [] = finished crawl
next_lead next site time crawl (lead ∷ queue) =
    let later = continue_crawl next (visit site lead (record crawl { queue = queue })) in
    if ltb (length crawl.pages) site.max_pages && not (site.late time)
    then later
    else finished crawl

-- The loop, on fuel.
unfoldable pub crawl_from : ℕ → Site → ℕ → Crawl → Crawled
crawl_from zero site time crawl = out_of_fuel
crawl_from (suc fuel) site time crawl =
    next_lead (λ c. crawl_from fuel site (suc time) c) site time crawl crawl.queue

-- The queue at the beginning: the start, and what the sitemaps name.
abbrev pub starting : String → List String → Crawl
starting start from_sitemaps = record {
  queue =
      record { url = start; depth = 0; parent = "" }
      ∷ map (λ url. record { url = url; depth = 0; parent = "sitemap" }) from_sitemaps;
  seen = [];
  hashes = [];
  pages = [];
  handed = [];
}

-- The links that so many pages can add.
abbrev pub link_budget : ℕ → ℕ → ℕ
link_budget links zero = 0
link_budget links (suc pages) = links + link_budget links pages

-- The controls are whole numbers, kept between their least value and the cap of the settings.
abbrev pub bounded : ℕ → ℕ → ℤ → ℕ
bounded least cap n = min (max (pos_part n) least) cap

abbrev pub controlled : Site → ℤ → ℤ → String → Site
controlled caps pages depth start = record caps {
  max_pages = bounded 1 caps.max_pages pages;
  max_depth = bounded 0 caps.max_depth depth;
  start_host = caps.hostname start;
}

-- The loop, with a pass for each lead that there can be, where no page has more links than so many.
abbrev pub crawl_start : ℕ → Site → String → List String → Crawled
crawl_start links site start from_sitemaps =
    let crawl = starting start from_sitemaps in
    let result =
      crawl_from (suc (length crawl.queue + link_budget links site.max_pages)) site 0 crawl in
    if site.allowed start then result else refused

abbrev pub crawl_normal : ℕ → Site → ℤ → ℤ → List String → Option String → Crawled
crawl_normal links caps pages depth from_sitemaps none = raised
crawl_normal links caps pages depth from_sitemaps (some start) =
    crawl_start links (controlled caps pages depth start) start from_sitemaps

-- `crawl_website`, where the site has the caps of the settings; what the sitemaps of the start name is
-- a parameter.
unfoldable pub crawl_website : ℕ → Site → ℤ → ℤ → String → List String → Crawled
crawl_website links caps pages depth url from_sitemaps =
    let result = crawl_normal links caps pages depth from_sitemaps (caps.normalize url) in
    if is_blocked_url caps url then refused else result
