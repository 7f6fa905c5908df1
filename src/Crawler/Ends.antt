-- ===== src/Crawler/Ends.antt =====
-- That a crawl ends (services/app/ai/web_crawler.py).
use deep_foundry.Base.{
  ℕ, zero, suc, ◌+◌, ◌-◌, ◌≤◌, ◌<◌, String, ◌&&◌, not, Option, none, some, List, [], ◌∷◌, ◌++◌, ltb,
  length, length-append, ◌≡◌, ◌≢◌, refl, inl, inr, arith, Bool-cases,
}
use deep_foundry.Base.Int.{ℤ}
use deep_foundry.Crawler.{
  Page, Site, Lead, Crawl, Visit, visited, crashed, out_of_fuel, continue_crawl, next_lead,
  crawl_from, starting, link_budget, controlled, crawl_normal, crawl_website, is_blocked_url,
}
use deep_foundry.Crawler.Visits.{
  After, links_of, VisitDoes, skips, marks, refuses, requests, visit-VisitDoes,
}

module _ (links : ℕ) where
  -- No page has more links than so many.
  abbrev pub HasFewLinks : Site → Type 0
  HasFewLinks site =
      (n : ℕ) (url : String) (page : Page)
      → site.read_page n url ≡ some page
      → length page.links ≤ links

  -- The passes that are left at most.
  abbrev passes_left : Site → Crawl → ℕ
  passes_left site crawl =
      length crawl.queue + link_budget links (site.max_pages - length crawl.pages)

  link_budget-suc :
      (cap pages : ℕ)
      → pages < cap
      → link_budget links (cap - pages) ≡ links + link_budget links (cap - suc pages)
  link_budget-suc cap pages h =
      let same : cap - pages ≡ suc (cap - suc pages) = omega (arith, h) in rw same refl

  link_budget-minus_zero : (cap : ℕ) → link_budget links (cap - 0) ≡ link_budget links cap
  link_budget-minus_zero cap = let same : cap - 0 ≡ cap = omega arith in rw same refl

  length-links_of :
      (site : Site) (n : ℕ) (url : String) (read : Option Page)
      → HasFewLinks site
      → site.read_page n url ≡ read
      → length (links_of read) ≤ links
  length-links_of site n url none few e = omega arith
  length-links_of site n url (some page) few e = few n url page e

  VisitDoes-le :
      (site : Site) (lead : Lead) (before after : Crawl)
      → HasFewLinks site
      → VisitDoes site lead before after
      → length before.pages < site.max_pages
      → passes_left site after ≤ passes_left site before
  VisitDoes-le site lead before after few skips room = omega arith
  VisitDoes-le site lead before after few (marks url) room = omega arith
  VisitDoes-le site lead before after few (refuses url page shallow) room =
      let grown : length (before.pages ++ (page ∷ [])) ≡ suc (length before.pages) =
        omega (arith, length-append before.pages (page ∷ [])) in
      rw grown (omega (arith, link_budget-suc site.max_pages (length before.pages) room))
  VisitDoes-le site lead before after few
        (requests url page read permitted fresh shallow e seen handed pages short) room =
      let grown : length (before.pages ++ (page ∷ [])) ≡ suc (length before.pages) =
        omega (arith, length-append before.pages (page ∷ [])) in
      rw (pages, grown)
        (omega (
          arith,
          short,
          length-links_of site (length before.pages) url read few e,
          link_budget-suc site.max_pages (length before.pages) room,
        ))

  crawl_from-ne-out_of_fuel :
      (fuel : ℕ) (site : Site) (time : ℕ) (crawl : Crawl)
      → HasFewLinks site
      → passes_left site crawl < fuel
      → crawl_from fuel site time crawl ≢ out_of_fuel
  unfolding crawl_from
  crawl_from-ne-out_of_fuel zero site time crawl few h = absurd (omega (arith, h))
  crawl_from-ne-out_of_fuel (suc fuel) site time crawl few h =
      by_queue (λ c k. crawl_from-ne-out_of_fuel fuel site (suc time) c few k) crawl.queue h
    where
      by_visit :
          ((c : Crawl)
            → passes_left site c < fuel
            → crawl_from fuel site (suc time) c ≢ out_of_fuel)
          → (lead : Lead) (before : Crawl) (v : Visit) → length before.pages < site.max_pages
          → passes_left site before < fuel
          → After (VisitDoes site lead before) v
          → continue_crawl (λ c. crawl_from fuel site (suc time) c) v ≢ out_of_fuel
      by_visit ih lead before crashed room k does = λ e. cc e
      by_visit ih lead before (visited c) room k does =
          ih c (omega (arith, k, VisitDoes-le site lead before c few does room))

      by_queue :
          ((c : Crawl)
            → passes_left site c < fuel
            → crawl_from fuel site (suc time) c ≢ out_of_fuel)
          → (queue : List Lead)
          → length queue + link_budget links (site.max_pages - length crawl.pages) < suc fuel
          → next_lead (λ c. crawl_from fuel site (suc time) c) site time crawl queue ≢ out_of_fuel
      by_queue ih [] k = λ e. cc e
      by_queue ih (lead ∷ queue) k =
          elim (Bool-cases (ltb (length crawl.pages) site.max_pages && not (site.late time))) [
            | inl e ↦ rw e (
                by_visit ih lead (record crawl { queue = queue }) _ (ground (arith, e))
                  (omega (arith, k)) (visit-VisitDoes site lead (record crawl { queue = queue })))
            | inr e ↦ rw e (λ q. cc q)
          ]

-- If no page has more links than so many, then the crawl makes no more passes than its first leads and
-- the links of as many pages as it may have: it ends without running out of fuel, even if the clock
-- never reaches the deadline.
pub crawl_website-ne-out_of_fuel :
    (links : ℕ) (caps : Site) (pages depth : ℤ) (url : String) (from_sitemaps : List String)
    → HasFewLinks links caps
    → crawl_website links caps pages depth url from_sitemaps ≢ out_of_fuel
unfolding crawl_website
crawl_website-ne-out_of_fuel links caps pages depth url from_sitemaps few =
    elim (Bool-cases (is_blocked_url caps url)) [
      | inl e ↦ rw e (λ q. cc q)
      | inr e ↦ rw e (by_start (caps.normalize url))
    ]
  where
    by_start :
        (normal : Option String)
        → crawl_normal links caps pages depth from_sitemaps normal ≢ out_of_fuel
    by_start none = λ q. cc q
    by_start (some start) = elim (Bool-cases (caps.allowed start)) [
      | inr f ↦ rw f (λ q. cc q)
      | inl f ↦ rw f (
          crawl_from-ne-out_of_fuel links _ (controlled caps pages depth start) 0
            (starting start from_sitemaps) few
            (omega
              (arith, link_budget-minus_zero links (controlled caps pages depth start).max_pages)))
    ]
