-- ===== src/Marketplace/Laws.antt =====
-- What passes the scan, and how an order is paid out.
use deep_foundry.Base.{
  ℕ, ◌+◌, ◌-◌, ◌*◌, ◌≤◌, ◌<◌, String, Bool, true, false, Option, none, some, List, [], ◌∷◌, ◌++◌,
  ◌≡◌, ◌≢◌, refl, sym, arith, length, All, Bool-cases, inl, inr, ltb,
}
use mathlib.Core.Path.{subst}
use deep_foundry.Base.Dict.{Dict, lookup, get_or_default}
use deep_foundry.Json.{Json, array, nil, or_null, truthy}
use deep_foundry.Marketplace.{
  Finding, bundled_code, broad_permissions, dependency_depth, passed, Review, penalties, items_of,
  listing_id_of, missing, if_so, findings_of, status_of, review_of, review_lists,
  scan_listing_version, OrderStatus, paid, Order, Payout, round_half_even, fee_of, has_payout,
  payout_of, pay, complete_marketplace_order, complete_by_status,
}

penalties-append : (fs gs : List Finding) → penalties (fs ++ gs) ≡ penalties fs + penalties gs
penalties-append [] gs = omega arith
penalties-append (f ∷ fs) gs = omega (arith, penalties-append fs gs)

module _ (approved : Json → Bool) (characters : String → List Json) where
  missing-none :
      (ds : List Json)
      → penalties (missing approved characters ds) < 25
      → All (λ d. approved (listing_id_of approved characters d) ≡ true) ds
  missing-none [] h = tt
  missing-none (d ∷ ds) h = elim (Bool-cases (approved (listing_id_of approved characters d))) [
    | inl e ↦ (e, missing-none ds (rw e at h))
    | inr e ↦ absurd (omega (arith, (rw e at h)))
  ]

  -- What a passed manifest has: no bundled code, no more than 8 tools or no more than 10
  -- dependencies, and an approved version of every dependency.
  pub record IsSafe (bundled : Bool) (declared dependencies : List Json) : Type 0 where
    pub no_code : bundled ≡ false
    pub available : All (λ d. approved (listing_id_of approved characters d) ≡ true) dependencies
    pub small : ltb 8 (length declared) ≡ true → length dependencies ≤ 10

  abbrev total : Bool → Bool → Bool → ℕ → ℕ
  total x y z m =
      penalties (if_so approved characters x bundled_code)
      + (penalties (if_so approved characters y broad_permissions)
          + (penalties (if_so approved characters z dependency_depth) + m))

  total-small :
      (x y z : Bool) (m : ℕ) → total x y z m ≤ 20 → (x ≡ false) × (m < 25) × (y ≡ true → z ≡ false)
  total-small true y z m h = absurd (omega (arith, h))
  total-small false true true m h = absurd (omega (arith, h))
  total-small false true false m h = (refl, omega (arith, h), λ e. refl)
  total-small false false z m h = (refl, omega (arith, h), λ e. cc)

  total_lem :
      (bundled : Bool) (declared dependencies : List Json)
      → penalties (findings_of approved characters bundled declared dependencies)
        ≡ total bundled
            (ltb 8 (length declared))
            (ltb 10 (length dependencies))
            (penalties (missing approved characters dependencies))
  total_lem bundled declared dependencies =
      let ms = missing approved characters dependencies in
      let deep = if_so approved characters (ltb 10 (length dependencies)) dependency_depth in
      let broad = if_so approved characters (ltb 8 (length declared)) broad_permissions in
      omega (
        arith,
        penalties-append (if_so approved characters bundled bundled_code) (broad ++ (deep ++ ms)),
        penalties-append broad (deep ++ ms),
        penalties-append deep ms,
      )

  findings-IsSafe :
      (bundled : Bool) (declared dependencies : List Json)
      → penalties (findings_of approved characters bundled declared dependencies) ≤ 20
      → IsSafe bundled declared dependencies
  findings-IsSafe bundled declared dependencies h =
      let (no_code, available, small) =
        total-small bundled (ltb 8 (length declared)) (ltb 10 (length dependencies))
          (penalties (missing approved characters dependencies))
          (omega (arith, h, total_lem bundled declared dependencies)) in
      record {
        no_code = no_code;
        available = missing-none dependencies available;
        small = λ e. let few = small e in ground (arith, few);
      }

  -- A listing version that passes the scan has no bundled code, an approved version exists for each
  -- of its dependencies, and it does not both declare more than 8 tools and have more than 10
  -- dependencies.
  pub scan_listing_version-IsSafe :
      (manifest : Dict Json) (review : Review)
      → scan_listing_version approved characters manifest ≡ some review
      → review.status ≡ passed
      → (declared : List Json) × (dependencies : List Json) × (items_of approved characters
            (get_or_default (array nil) (lookup "declared_tools" manifest))
          ≡ some declared)
        × (items_of approved characters
              (get_or_default (array nil) (lookup "dependencies" manifest))
            ≡ some dependencies)
        × IsSafe (truthy (or_null (lookup "bundled_code" manifest))) declared dependencies
  unfolding scan_listing_version
  scan_listing_version-IsSafe manifest review h ok =
      lists
        (items_of approved characters
          (get_or_default (array nil) (lookup "declared_tools" manifest)))
        (items_of approved characters (get_or_default (array nil) (lookup "dependencies" manifest)))
        refl refl h
    where
      bundled : Bool
      bundled = truthy (or_null (lookup "bundled_code" manifest))

      lists :
          (declared dependencies : Option (List Json))
          → items_of approved characters
              (get_or_default (array nil) (lookup "declared_tools" manifest))
            ≡ declared
          → items_of approved characters
              (get_or_default (array nil) (lookup "dependencies" manifest))
            ≡ dependencies
          → review_lists approved characters bundled declared dependencies ≡ some review
          → (ds : List Json) × (es : List Json) × (items_of approved characters
                (get_or_default (array nil) (lookup "declared_tools" manifest))
              ≡ some ds)
            × (items_of approved characters
                  (get_or_default (array nil) (lookup "dependencies" manifest))
                ≡ some es)
            × IsSafe bundled ds es
      lists none es e f k = cc
      lists (some ds) none e f k = cc
      lists (some ds) (some es) e f k =
          let same : review_of approved characters (findings_of approved characters bundled ds es)
              ≡ review =
            cc k in
          let high : status_of approved characters
                (100 - penalties (findings_of approved characters bundled ds es))
              ≡ passed =
            subst (λ (r : Review). r.status ≡ passed) (sym same) ok in
          (ds, es, e, f, findings-IsSafe bundled ds es (ground (arith, high)))

-- The fee is 15 % of the amount, to the nearest cent.
abbrev pub IsFee : ℕ → ℕ → Type 0
IsFee gross fee = (200 * fee ≤ 30 * gross + 100) × (30 * gross ≤ 200 * fee + 100)

fee_of-IsFee : (gross : ℕ) → IsFee gross (fee_of gross)
unfolding fee_of round_half_even
fee_of-IsFee gross = (ground arith, ground arith)

-- What an order's payout holds.
pub record Pays (order : Order) (payout : Payout) : Type 0 where
  pub of_order : payout.order_id ≡ order.id
  pub all : payout.gross ≡ order.amount
  pub shared : payout.platform_fee + payout.net_payout ≡ payout.gross
  pub fee : IsFee payout.gross payout.platform_fee

payout_of-Pays : (order : Order) → Pays order (payout_of order)
payout_of-Pays order = record {
  of_order = refl;
  all = refl;
  shared = omega (arith, fee_of-IsFee order.amount);
  fee = fee_of-IsFee order.amount;
}

again_paid :
    (now : ℕ) (reference : String) (order : Order) (payouts : List Payout)
    → order.status ≡ paid
    → complete_marketplace_order now reference order payouts ≡ some (order, payouts)
unfolding complete_marketplace_order
again_paid now reference order payouts e = at_status order.status e
  where
    at_status :
        (status : OrderStatus)
        → status ≡ paid
        → complete_by_status now reference order payouts status ≡ some (order, payouts)
    at_status paid f = refl
    at_status OrderStatus.pending f = cc
    at_status OrderStatus.refunded f = cc
    at_status OrderStatus.failed f = cc

-- What a completion has done.
abbrev pub Completes : Order → List Payout → Order → List Payout → Type 0
Completes order payouts after rows =
    (after.status ≡ paid)
    × (order.status ≢ paid → (p : Payout) × (rows ≡ p ∷ payouts) × Pays order p)

pay-Completes :
    (now : ℕ) (reference : String) (order after : Order) (payouts rows : List Payout)
    → pay now reference order payouts ≡ some (after, rows)
    → Completes order payouts after rows
pay-Completes now reference order after payouts rows h =
    elim (Bool-cases (has_payout order payouts)) [
      | inl e ↦ cc (rw e at h)
      | inr e ↦
          let h' : some (
            record order { status = paid; provider_reference = reference; paid_at = some now },
            payout_of order ∷ payouts,
          )
              ≡ some (after, rows) =
            rw e at h in
          let orders : record order {
            status = paid;
            provider_reference = reference;
            paid_at = some now;
          }
              ≡ after =
            cc h' in
          let added : payout_of order ∷ payouts ≡ rows = cc h' in
          (
            subst (λ (o : Order). o.status ≡ paid) orders refl,
            λ ne. (payout_of order, sym added, payout_of-Pays order),
          )
    ]

by_status :
    (now : ℕ) (reference : String) (order after : Order) (payouts rows : List Payout)
    (status : OrderStatus)
    → order.status ≡ status
    → complete_by_status now reference order payouts status ≡ some (after, rows)
    → Completes order payouts after rows
by_status now reference order after payouts rows paid e h =
    let same : order ≡ after = cc h in
    (subst (λ (o : Order). o.status ≡ paid) same e, λ ne. absurd (ne e))
by_status now reference order after payouts rows OrderStatus.pending e h =
    pay-Completes now reference order after payouts rows h
by_status now reference order after payouts rows OrderStatus.refunded e h =
    pay-Completes now reference order after payouts rows h
by_status now reference order after payouts rows OrderStatus.failed e h =
    pay-Completes now reference order after payouts rows h

-- Completing an order, unless it raises, leaves it paid, and a completion that comes again changes
-- nothing. The first one adds exactly one payout, in which the platform's fee, 15 % to the nearest
-- cent, and the publisher's share add up to the amount of the order.
pub complete_marketplace_order_lem :
    (now later : ℕ) (reference other : String) (order after : Order) (payouts rows : List Payout)
    → complete_marketplace_order now reference order payouts ≡ some (after, rows)
    → (complete_marketplace_order later other after rows ≡ some (after, rows))
      × (after.status ≡ paid)
      × (order.status ≢ paid → (p : Payout) × (rows ≡ p ∷ payouts) × Pays order p)
unfolding complete_marketplace_order
complete_marketplace_order_lem now later reference other order after payouts rows h =
    let (is_paid, added) = by_status now reference order after payouts rows order.status refl h in
    (again_paid later other after rows is_paid, is_paid, added)
