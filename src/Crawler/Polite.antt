-- ===== src/Crawler/Polite.antt =====
-- What a crawl asks for and records (services/app/ai/web_crawler.py).
use deep_foundry.Base.{◌≤◌, String, true, false, List, [], ◌∷◌, length, All, ◌≡◌}
use deep_foundry.Crawler.{Site, Crawl, has_seen, Crawled, finished}
use deep_foundry.Crawler.Visits.{IsPermitted, IsFit}

-- No URL stands twice in a list.
abbrev pub IsOnce : List String → Type 0
IsOnce [] = Unit
IsOnce (url ∷ urls) = (has_seen url urls ≡ false) × IsOnce urls

-- What holds of the variables that a crawl returns.
abbrev pub Returns : (Crawl → Type 0) → Crawled → Type 0
Returns P (finished crawl) = P crawl
Returns P _ = Unit

module _ (site : Site) where
  -- Every URL that was handed to the page reader is on the start's host, is not blocked and is allowed
  -- by robots.txt, and none was handed to it twice; there are no more records than the limit, none of
  -- them deeper than the limit, and one for each of these URLs; and the page of a record has a URL, after
  -- redirects, on the start's host that is not blocked.
  pub record IsPolite (crawl : Crawl) : Type 0 where
    pub permitted : All (IsPermitted site) crawl.handed
    pub once : IsOnce crawl.handed
    pub few : length crawl.pages ≤ site.max_pages
    pub fit : All (IsFit site) crawl.pages
    pub counted : length crawl.handed ≤ length crawl.pages
    pub known : All (λ u. has_seen u crawl.seen ≡ true) crawl.handed
