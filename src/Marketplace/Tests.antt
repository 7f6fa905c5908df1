-- ===== src/Marketplace/Tests.antt =====
-- A small listing, and an order of 10.10, and the theorems on them.
use deep_foundry.Base.{String, Bool, true, none, some, List, [], ◌∷◌, ◌≡◌, ◌≢◌, refl}
use deep_foundry.Base.Dict.{Dict, lookup, get_or_default}
use deep_foundry.Json.{Json, text, array, nil, cons, or_null, truthy}
use deep_foundry.Marketplace.{
  Review, ReviewStatus, items_of, scan_listing_version, Order, OrderStatus, Payout,
  complete_marketplace_order, fee_of, round_half_even,
}
use deep_foundry.Marketplace.Laws.{
  IsSafe, scan_listing_version-IsSafe, Pays, complete_marketplace_order_lem,
}

abbrev manifest : Dict Json
manifest =
    ("declared_tools", array (cons (text "search") nil))
    ∷ ("dependencies", array (cons (text "listing_1") nil))
    ∷ []

abbrev approved : Json → Bool
approved listing = true

abbrev characters : String → List Json
characters s = []

abbrev review : Review
review = record { score = 100; status = ReviewStatus.passed; findings = [] }

scanned : scan_listing_version approved characters manifest ≡ some review
unfolding scan_listing_version
scanned = refl

scan_listing_version-IsSafe_example :
    (declared : List Json) × (dependencies : List Json) × (items_of approved characters
        (get_or_default (array nil) (lookup "declared_tools" manifest))
      ≡ some declared)
    × (items_of approved characters (get_or_default (array nil) (lookup "dependencies" manifest))
        ≡ some dependencies)
    × IsSafe approved characters
        (truthy (or_null (lookup "bundled_code" manifest)))
        declared
        dependencies
scan_listing_version-IsSafe_example =
    scan_listing_version-IsSafe approved characters manifest review scanned refl

abbrev order : Order
order = record {
  id = 3;
  amount = 1010;
  status = OrderStatus.pending;
  provider_reference = "";
  paid_at = none;
}

abbrev no_payouts : List Payout
no_payouts = []

abbrev after : Order
after = record {
  id = 3;
  amount = 1010;
  status = OrderStatus.paid;
  provider_reference = "ref";
  paid_at = some 8;
}

-- 15 % of 10.10 is 1.515, a half that goes to the even cent.
abbrev payouts : List Payout
payouts = record { order_id = 3; gross = 1010; platform_fee = 152; net_payout = 858 } ∷ []

completes : complete_marketplace_order 8 "ref" order no_payouts ≡ some (after, payouts)
unfolding complete_marketplace_order fee_of round_half_even
completes = refl

complete_marketplace_order_lem_example :
    (complete_marketplace_order 9 "again" after payouts ≡ some (after, payouts))
    × (after.status ≡ OrderStatus.paid)
    × (order.status ≢ OrderStatus.paid → (p : Payout) × (payouts ≡ p ∷ no_payouts) × Pays order p)
complete_marketplace_order_lem_example =
    complete_marketplace_order_lem 8 9 "ref" "again" order after no_payouts payouts completes
