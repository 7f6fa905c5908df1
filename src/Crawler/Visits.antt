-- ===== src/Crawler/Visits.antt =====
-- What a pass of the crawl does to its variables (services/app/ai/web_crawler.py).
use deep_foundry.Base.{
  ℕ, suc, ◌+◌, ◌≤◌, String, str_eq, eq_iff, Bool, true, false, ◌&&◌, ◌||◌, not, Option, none, some,
  List, [], ◌∷◌, ◌++◌, ltb, length, length-append, ◌≡◌, refl, ◌∙◌, inl, inr, arith, Bool-cases,
}
use deep_foundry.Base.Dict.{lookup}
use deep_foundry.Crawler.{
  Page, Site, Lead, PageRecord, Crawl, is_blocked_url, has_seen, add_page, failed_page, Visit,
  visited, crashed, add_lead, and_then, add_link, add_links, note_hash, is_none, record_of,
  take_page_record, read_result, visit_new, visit_url, visit,
}

-- What holds of the variables after a visit that does not leave the crawl.
abbrev pub After : (Crawl → Type 0) → Visit → Type 0
After P crashed = Unit
After P (visited crawl) = P crawl

abbrev pub links_of : Option Page → List String
links_of none = []
links_of (some page) = page.links

module _ (site : Site) where
  -- A URL that may be handed to the page reader.
  pub record IsPermitted (url : String) : Type 0 where
    pub host : site.hostname url ≡ site.start_host
    pub unblocked : is_blocked_url site url ≡ false
    pub robots : site.allowed url ≡ true

  -- The URL stands on the start's host and is not blocked.
  abbrev pub IsOnSite : String → Type 0
  IsOnSite url = (site.hostname url ≡ site.start_host) × (is_blocked_url site url ≡ false)

  -- A record is not too deep, and if a page was read, the page's own URL is on the site.
  pub record IsFit (page : PageRecord) : Type 0 where
    pub shallow : page.depth ≤ site.max_depth
    pub on_site : page.failed ≡ false → IsOnSite page.url

  failed-IsFit :
      (url : String) (lead : Lead) (robots_allowed : Bool)
      → lead.depth ≤ site.max_depth
      → IsFit (failed_page url lead robots_allowed)
  failed-IsFit url lead robots_allowed shallow = record { shallow = shallow; on_site = λ h. cc h }

  -- Only leads are added, one for each link at most.
  pub record Queued (n : ℕ) (before after : Crawl) : Type 0 where
    pub seen : after.seen ≡ before.seen
    pub pages : after.pages ≡ before.pages
    pub handed : after.handed ≡ before.handed
    pub short : length after.queue ≤ length before.queue + n

  pub data VisitDoes (lead : Lead) (before : Crawl) : Crawl → Type 0 where
    skips : VisitDoes lead before before
    marks : (url : String) → VisitDoes lead before (record before { seen = url ∷ before.seen })
    refuses :
        (url : String) (page : PageRecord)
        → IsFit page
        → VisitDoes lead before (add_page page (record before { seen = url ∷ before.seen }))
    requests :
        {after : Crawl} (url : String) (page : PageRecord) (read : Option Page)
        → IsPermitted url
        → has_seen url before.seen ≡ false
        → IsFit page
        → site.read_page (length before.pages) url ≡ read
        → after.seen ≡ url ∷ before.seen
        → after.handed ≡ url ∷ before.handed
        → after.pages ≡ before.pages ++ (page ∷ [])
        → length after.queue ≤ length before.queue + length (links_of read)
        → VisitDoes lead before after

  add_lead-Queued :
      (page : Page) (depth : ℕ) (candidate : String) (crawl : Crawl)
      → Queued 1 crawl (add_lead site page depth candidate crawl)
  add_lead-Queued page depth candidate crawl =
      elim (Bool-cases
        (str_eq (site.hostname candidate) site.start_host && not (has_seen candidate crawl.seen))) [
          | inl e ↦ rw e (record {
            seen = refl;
            pages = refl;
            handed = refl;
            short = omega (arith, length-append crawl.queue _);
          })
          | inr e ↦ rw e (record { seen = refl; pages = refl; handed = refl; short = omega arith })
        ]

  Queued-trans : (n : ℕ) (a b c : Crawl) → Queued 1 a b → Queued n b c → Queued (suc n) a c
  Queued-trans n a b c p q = record {
    seen = q.seen ∙ p.seen;
    pages = q.pages ∙ p.pages;
    handed = q.handed ∙ p.handed;
    short = omega (arith, p.short, q.short);
  }

  After-map : (P Q : Crawl → Type 0) (v : Visit) → ((c : Crawl) → P c → Q c) → After P v → After Q v
  After-map P Q crashed f h = tt
  After-map P Q (visited c) f h = f c h

  add_links-Queued :
      (page : Page) (depth : ℕ) (links : List String) (crawl : Crawl)
      → After (Queued (length links) crawl) (add_links site page depth links crawl)
  unfolding add_links
  add_links-Queued page depth [] crawl = record {
    seen = refl;
    pages = refl;
    handed = refl;
    short = omega arith;
  }
  add_links-Queued page depth (link ∷ links) crawl =
      by_link (λ c. add_links-Queued page depth links c) (site.normalize link)
    where
      by_link :
          ((c : Crawl) → After (Queued (length links) c) (add_links site page depth links c))
          → (candidate : Option String)
          → After (Queued (suc (length links)) crawl) (
              and_then
                (λ c. add_links site page depth links c)
                (add_link site page depth crawl candidate))
      by_link rest none = tt
      by_link rest (some candidate) =
          let added = add_lead site page depth candidate crawl in
          After-map (Queued (length links) added) (Queued (suc (length links)) crawl) _
            (λ c q.
              Queued-trans (length links) crawl added c (add_lead-Queued page depth candidate crawl)
                q)
            (rest added)

  -- A pass that hands a URL to the page reader, which is permitted and new.
  module _ (lead : Lead) (before : Crawl) (url : String) (permitted : IsPermitted url)
      (fresh : has_seen url before.seen ≡ false) (shallow : lead.depth ≤ site.max_depth) where
    abbrev asked : Crawl
    asked = record before { seen = url ∷ before.seen; handed = url ∷ before.handed }

    failed-VisitDoes :
        (read : Option Page)
        → site.read_page (length before.pages) url ≡ read
        → VisitDoes lead before (add_page (failed_page url lead true) asked)
    failed-VisitDoes read e =
        VisitDoes.requests url _ read permitted fresh (failed-IsFit url lead true shallow) e refl
          refl refl (omega arith)

    Queued-VisitDoes :
        (page : Page) (duplicate_of : Option String) (after : Crawl)
        → site.read_page (length before.pages) url ≡ some page
        → IsOnSite page.url
        → Queued
            (length page.links)
            (add_page (record_of lead page duplicate_of) (note_hash page duplicate_of asked))
            after
        → VisitDoes lead before after
    Queued-VisitDoes page none after e on q =
        VisitDoes.requests url (record_of lead page none) (some page) permitted fresh
          (record { shallow = shallow; on_site = λ h. on }) e q.seen q.handed q.pages q.short
    Queued-VisitDoes page (some first) after e on q =
        VisitDoes.requests url (record_of lead page (some first)) (some page) permitted fresh
          (record { shallow = shallow; on_site = λ h. on }) e q.seen q.handed q.pages q.short

    take_page_record-VisitDoes :
        (page : Page)
        → site.read_page (length before.pages) url ≡ some page
        → IsOnSite page.url
        → After (VisitDoes lead before) (take_page_record site lead page asked)
    take_page_record-VisitDoes page e on =
        let duplicate_of = lookup page.checksum before.hashes in
        let recorded =
          add_page (record_of lead page duplicate_of) (note_hash page duplicate_of asked) in
        elim (Bool-cases (is_none duplicate_of && ltb lead.depth site.max_depth)) [
          | inl f ↦ rw f (
              After-map (Queued (length page.links) recorded) (VisitDoes lead before) _
                (λ c q. Queued-VisitDoes page duplicate_of c e on q)
                (add_links-Queued page lead.depth page.links recorded))
          | inr f ↦ rw f (
              Queued-VisitDoes page duplicate_of recorded e on
                (record { seen = refl; pages = refl; handed = refl; short = omega arith }))
        ]

    read_result-VisitDoes :
        (read : Option Page)
        → site.read_page (length before.pages) url ≡ read
        → After (VisitDoes lead before) (read_result site url lead asked read)
    read_result-VisitDoes none e = failed-VisitDoes none e
    read_result-VisitDoes (some page) e =
        elim (Bool-cases
          (not (str_eq (site.hostname page.url) site.start_host) || is_blocked_url site page.url)) [
            | inl f ↦ rw f (failed-VisitDoes (some page) e)
            | inr f ↦ rw f (
                take_page_record-VisitDoes page e (
                  ground (arith, f, eq_iff (site.hostname page.url) site.start_host),
                  ground (arith, f),
                ))
          ]

  visit_new-VisitDoes :
      (lead : Lead) (before : Crawl) (url : String)
      → has_seen url before.seen ≡ false
      → After
          (VisitDoes lead before)
          (visit_new site url lead (record before { seen = url ∷ before.seen }))
  visit_new-VisitDoes lead before url fresh =
      elim (Bool-cases
        (ltb site.max_depth lead.depth || not (str_eq (site.hostname url) site.start_host))) [
          | inl e ↦ rw e (VisitDoes.marks url)
          | inr e ↦
              let shallow : lead.depth ≤ site.max_depth = ground (arith, e) in
              let host : site.hostname url ≡ site.start_host =
                ground (arith, eq_iff (site.hostname url) site.start_host) in
              elim (Bool-cases (is_blocked_url site url || not (site.allowed url))) [
                | inl f ↦ rw (e, f) (VisitDoes.refuses url _ (failed-IsFit url lead false shallow))
                | inr f ↦
                    rw (e, f)
                      (read_result-VisitDoes lead before url
                        (record {
                          host = host;
                          unblocked = ground (arith, f);
                          robots = ground (arith, f);
                        })
                        fresh shallow _ refl)
              ]
        ]

  -- Every pass that does not leave the crawl does one of these.
  pub visit-VisitDoes :
      (lead : Lead) (before : Crawl) → After (VisitDoes lead before) (visit site lead before)
  unfolding visit
  visit-VisitDoes lead before = by_url (site.normalize lead.url)
    where
      by_url :
          (url : Option String) → After (VisitDoes lead before) (visit_url site lead before url)
      by_url none = tt
      by_url (some url) = elim (Bool-cases (has_seen url before.seen)) [
        | inl e ↦ rw e VisitDoes.skips
        | inr e ↦ rw e (visit_new-VisitDoes lead before url e)
      ]
