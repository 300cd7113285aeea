-- ===== src/Credit/Pricing.antt =====
-- src/rpc/rpcMeter.ts `creditsForMethod` and src/rpc/creditBudget.ts `creditsForBatch`.
use opiumo.Base.{ℕ, ◌+◌, List, [], ◌∷◌, Text, codes, text_eq, any, if◌then◌else◌}

-- The keys of `CREDIT_COST`; each of them costs ten credits.
abbrev pub ten_credit_methods : List Text
ten_credit_methods =
    codes "getTokenAccounts"
    ∷ codes "getAsset"
    ∷ codes "getAssetsByOwner"
    ∷ codes "getAssetsByGroup"
    ∷ codes "searchAssets"
    ∷ codes "getSignaturesForAsset"
    ∷ codes "getProgramAccounts"
    ∷ []

abbrev pub default_credit_cost : ℕ
default_credit_cost = 1

unfoldable pub credits_for_method : Text → ℕ
credits_for_method method =
    if any (text_eq method) ten_credit_methods then 10 else default_credit_cost

-- The loop of `creditsForBatch`, with its running total.
unfoldable pub credits_from : ℕ → List Text → ℕ
credits_from total [] = total
credits_from total (method ∷ methods) = credits_from (total + credits_for_method method) methods

unfoldable pub credits_for_batch : List Text → ℕ
unfolding credits_from
credits_for_batch methods = credits_from 0 methods
