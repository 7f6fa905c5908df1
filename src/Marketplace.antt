-- ===== src/Marketplace.antt =====
-- The security scan of a marketplace listing and the completion of an order:
-- `scan_listing_version` and `complete_marketplace_order` of services/app/core/v3_services.py.
-- Amounts are in cents.
pub mod Laws
pub mod Installs
pub mod Walks
pub mod Dependencies
pub mod Depth
pub mod Skills
pub mod Granted
mod InstallTests
mod Tests
use deep_foundry.Base.{
  ℕ, ◌+◌, ◌-◌, ◌*◌, ◌/◌, ◌%◌, String, Bool, true, false, not, Option, none, some, List, [], ◌∷◌,
  ◌++◌, map, any, ltb, leb, length, ◌==◌, if◌then◌else◌,
}
use deep_foundry.Base.Dict.{Dict, lookup, get_or_default}
use deep_foundry.Json.{Json, text, array, nil, object, elements, entries, get, or_null, truthy}

pub data Finding : Type 0 where
  bundled_code broad_permissions dependency_depth : Finding
  missing_dependency : Json → Finding

pub data ReviewStatus : Type 0 where
  passed needs_review failed : ReviewStatus

-- `MarketplaceSecurityReview`
pub record Review : Type 0 where
  pub score : ℕ
  pub status : ReviewStatus
  pub findings : List Finding

-- What a finding takes off the score.
abbrev pub penalty : Finding → ℕ
penalty bundled_code = 45
penalty broad_permissions = 15
penalty dependency_depth = 10
penalty (missing_dependency _) = 25

abbrev pub penalties : List Finding → ℕ
penalties [] = 0
penalties (f ∷ fs) = penalty f + penalties fs

-- `approved` is whether a listing has an approved version, and `characters` a text's.
module _ (approved : Json → Bool) (characters : String → List Json) where
  -- What `len` counts and `for` goes through; `none` where they raise.
  abbrev pub items_of : Json → Option (List Json)
  items_of (array items) = some (elements items)
  items_of (object fields) = some (map (λ (e : String × Json). text e.0) (entries fields))
  items_of (text s) = some (characters s)
  items_of _ = none

  -- `dependency.get("listing_id") if isinstance(dependency, dict) else dependency`
  abbrev pub listing_id_of : Json → Json
  listing_id_of (object fields) = or_null (get "listing_id" (object fields))
  listing_id_of dependency = dependency

  -- The loop over the dependencies.
  abbrev pub missing : List Json → List Finding
  missing [] = []
  missing (d ∷ ds) =
      let rest = missing ds in
      if approved (listing_id_of d) then rest else missing_dependency (listing_id_of d) ∷ rest

  abbrev pub if_so : Bool → Finding → List Finding
  if_so true finding = finding ∷ []
  if_so false finding = []

  abbrev pub findings_of : Bool → List Json → List Json → List Finding
  findings_of bundled declared dependencies =
      if_so bundled bundled_code
      ++ (if_so (ltb 8 (length declared)) broad_permissions
          ++ (if_so (ltb 10 (length dependencies)) dependency_depth ++ missing dependencies))

  abbrev pub status_of : ℕ → ReviewStatus
  status_of score = if leb 80 score then passed else (if leb 50 score then needs_review else failed)

  -- `max(0, score)`: the subtraction stops at 0.
  abbrev pub review_of : List Finding → Review
  review_of findings =
      let score = 100 - penalties findings in
      record { score = score; status = status_of score; findings = findings }

  abbrev pub review_lists : Bool → Option (List Json) → Option (List Json) → Option Review
  review_lists bundled (some declared) (some dependencies) =
      some (review_of (findings_of bundled declared dependencies))
  review_lists bundled _ _ = none

  -- `none` where the scan raises, on a manifest that holds no list where it should.
  unfoldable pub scan_listing_version : Dict Json → Option Review
  scan_listing_version manifest =
      review_lists (truthy (or_null (lookup "bundled_code" manifest)))
        (items_of (get_or_default (array nil) (lookup "declared_tools" manifest)))
        (items_of (get_or_default (array nil) (lookup "dependencies" manifest)))

-- `MarketplaceOrder.Status`
pub data OrderStatus : Type 0 where
  pending paid refunded failed : OrderStatus

pub record Order : Type 0 where
  pub id : ℕ
  pub amount : ℕ
  pub status : OrderStatus
  pub provider_reference : String
  pub paid_at : Option ℕ

-- `MarketplacePayout`
pub record Payout : Type 0 where
  pub order_id : ℕ
  pub gross : ℕ
  pub platform_fee : ℕ
  pub net_payout : ℕ

-- Rounding to a whole cent, a half to the even one: `quantize(Decimal("0.01"))` in Python's default
-- context.
unfoldable pub round_half_even : ℕ → ℕ → ℕ
round_half_even a b =
    if ltb (2 * (a % b)) b
    then a / b
    else if ltb b (2 * (a % b))
    then a / b + 1
    else if a / b % 2 == 0
    then a / b
    else a / b + 1

-- 15 % of the amount.
unfoldable pub fee_of : ℕ → ℕ
fee_of gross = round_half_even (gross * 15) 100

-- An order has one payout at most: a second one violates its unique column, and the exception rolls
-- the order back (`none`).
abbrev pub has_payout : Order → List Payout → Bool
has_payout order payouts = any (λ (p : Payout). p.order_id == order.id) payouts

abbrev pub payout_of : Order → Payout
payout_of order = record {
  order_id = order.id;
  gross = order.amount;
  platform_fee = fee_of order.amount;
  net_payout = order.amount - fee_of order.amount;
}

abbrev pub pay : ℕ → String → Order → List Payout → Option (Order × List Payout)
pay now reference order payouts =
    if has_payout order payouts
    then none
    else some (
      record order { status = paid; provider_reference = reference; paid_at = some now },
      payout_of order ∷ payouts,
    )

abbrev pub complete_by_status :
    ℕ → String → Order → List Payout → OrderStatus → Option (Order × List Payout)
complete_by_status now reference order payouts paid = some (order, payouts)
complete_by_status now reference order payouts _ = pay now reference order payouts

unfoldable pub complete_marketplace_order :
    ℕ → String → Order → List Payout → Option (Order × List Payout)
complete_marketplace_order now reference order payouts =
    complete_by_status now reference order payouts order.status
