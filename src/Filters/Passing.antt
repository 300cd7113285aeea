-- ===== src/Filters/Passing.antt =====
-- Which tokens pass.
use opiumo.Number.{Number}
use opiumo.Base.{
  if◌then◌else◌, Bool, List, Option, Text, [], arith, false, length, none, refl, some, true, ℕ,
  ◌++◌, ◌<◌, ◌↔◌, ◌∷◌, ◌≡◌, ◌≤◌,
}
use opiumo.Filters.Engine.{
  Verdict, all_reasons, FiltersConfig, NewPoolEvent, Reason, TokenMetrics,
  evaluate_activity_and_staleness_reasons, evaluate_filters, evaluate_stage1_reasons, pass,
  ratio_of, skip, verdict_of,
}

append_nil_iff : (xs ys : List Reason) → (xs ++ ys ≡ []) ↔ ((xs ≡ []) × (ys ≡ []))
append_nil_iff [] ys = (λ h. (refl, h), λ (_, h). h)
append_nil_iff (x ∷ xs) ys = (λ h. absurd (cc h), λ (h, _). absurd (cc h))

verdict_of-pass : (rs : List Reason) → (verdict_of rs ≡ pass) ↔ (rs ≡ [])
verdict_of-pass [] = (λ h. refl, λ h. refl)
verdict_of-pass (r ∷ rs) = (λ h. absurd (ground (arith, h)), λ h. absurd (ground (arith, h)))

-- A rule that asks for an authority to be renounced.
abbrev pub IsRenounced : Bool → Option Bool → Type 0
IsRenounced required none = required ≡ false
IsRenounced required (some renounced) = (required ≡ true → renounced ≡ true)

abbrev pub HasNoExtensions : Bool → Option (List Text) → Type 0
HasNoExtensions reject none = reject ≡ false
HasNoExtensions reject (some exts) = (reject ≡ true → length exts ≡ 0)

module _ {R : Type 0} ⦃n : Number R⦄ where
  -- Known, and not below or not above a bound.
  abbrev pub KnownFrom : Option R → R → Type 0
  KnownFrom none bound = ⊥
  KnownFrom (some x) bound = n.lt x bound ≡ false

  abbrev pub KnownTo : Option R → R → Type 0
  KnownTo none bound = ⊥
  KnownTo (some x) bound = n.lt bound x ≡ false

  abbrev pub IsActive : FiltersConfig R → Option ℕ → Option ℕ → Type 0
  IsActive f (some wallets) (some txs) =
      (f.min_unique_wallets ≤ wallets)
      × (f.min_transaction_count ≤ txs)
      × (0 < txs → n.lt (ratio_of wallets txs) f.min_unique_wallet_to_tx_ratio ≡ false)
  IsActive f wallets txs = ⊥

  abbrev pub IsSafe : TokenMetrics R → FiltersConfig R → Type 0
  IsSafe m f =
      KnownFrom m.liquidity_sol f.min_liquidity_sol
      × KnownTo m.top_holder_percent f.max_top_holder_percent
      × KnownTo m.dev_wallet_percent f.max_dev_wallet_percent
      × IsRenounced f.require_mint_authority_renounced m.mint_authority_renounced
      × IsRenounced f.require_freeze_authority_renounced m.freeze_authority_renounced
      × HasNoExtensions f.reject_risky_token_extensions m.risky_token_extensions
      × (m.lp_check_applicable ≡ true → KnownTo m.creator_lp_percent f.max_creator_lp_percent)

  stage1_iff :
      (m : TokenMetrics R) (f : FiltersConfig R)
      → (evaluate_stage1_reasons m f true ≡ []) ↔ IsSafe m f
  unfolding evaluate_stage1_reasons
  stage1_iff m f = (ground arith, ground arith)

  activity_iff :
      (m : TokenMetrics R) (f : FiltersConfig R)
      → (evaluate_activity_and_staleness_reasons m f ≡ []) ↔ (
          (m.activity_skipped_early ≡ false)
          × (m.stale ≡ false)
          × IsActive f m.unique_wallets m.transaction_count)
  unfolding evaluate_activity_and_staleness_reasons
  activity_iff m f = (ground arith, ground arith)

  -- A token passes exactly if every rule holds of metrics that are known: what could not be fetched
  -- fails its rule, as do activity that was not collected and stale metrics.
  pub evaluate_filters-pass_iff :
      (event : NewPoolEvent) (m : TokenMetrics R) (f : FiltersConfig R) (now : Text)
      → ((evaluate_filters event m f now).verdict ≡ pass) ↔ (
          IsSafe m f
          × (m.activity_skipped_early ≡ false)
          × (m.stale ≡ false)
          × IsActive f m.unique_wallets m.transaction_count)
  unfolding evaluate_filters
  evaluate_filters-pass_iff event m f now =
      let (empty, passes) = verdict_of-pass (all_reasons m f) in
      let (both, append) =
        append_nil_iff (evaluate_stage1_reasons m f true)
          (evaluate_activity_and_staleness_reasons m f) in
      let (safe, safe') = stage1_iff m f in
      let (active, active') = activity_iff m f in
      (
        λ h. let (a, b) = both (empty h) in let (e, t, c) = active b in (safe a, e, t, c),
        λ (s, e, t, a). passes (append (safe' s, active' (e, t, a))),
      )

  -- The metrics `m` of the first stage with the rest taken from `k`: the activity, the staleness,
  -- and, where the first stage had no holder data, the holdings too.
  abbrev pub completed : Bool → TokenMetrics R → TokenMetrics R → TokenMetrics R
  completed holders m k = record m {
    top_holder_percent = if holders then m.top_holder_percent else k.top_holder_percent;
    dev_wallet_percent = if holders then m.dev_wallet_percent else k.dev_wallet_percent;
    unique_wallets = k.unique_wallets;
    transaction_count = k.transaction_count;
    activity_skipped_early = k.activity_skipped_early;
    stale = k.stale;
  }

  stage1-completed :
      (m k : TokenMetrics R) (f : FiltersConfig R) (holders : Bool)
      → evaluate_stage1_reasons (completed holders m k) f true ≡ []
      → evaluate_stage1_reasons m f holders ≡ []
  unfolding evaluate_stage1_reasons
  stage1-completed m k f true h = h
  stage1-completed m k f false h = ground (arith, h)

  -- The checks of the first stage may decide early: once they give a reason, with the holder rules or
  -- without, the token is skipped, whatever the metrics that are collected later turn out to be.
  pub evaluate_stage1_reasons-skip :
      (event : NewPoolEvent) (m k : TokenMetrics R) (f : FiltersConfig R) (now : Text)
      (holders : Bool)
      → ¬ (evaluate_stage1_reasons m f holders ≡ [])
      → (evaluate_filters event (completed holders m k) f now).verdict ≡ skip
  unfolding evaluate_filters
  evaluate_stage1_reasons-skip event m k f now holders h =
      by_verdict (verdict_of (all_reasons later f)) refl
    where
      later : TokenMetrics R
      later = completed holders m k

      by_verdict :
          (v : Verdict)
          → verdict_of (all_reasons later f) ≡ v
          → verdict_of (all_reasons later f) ≡ skip
      by_verdict skip e = e
      by_verdict pass e =
          let empty = (verdict_of-pass (all_reasons later f)).0 e in
          let (first, _) =
            (append_nil_iff (evaluate_stage1_reasons later f true)
                (evaluate_activity_and_staleness_reasons later f)).0
              empty in
          absurd (h (stage1-completed m k f holders first))
