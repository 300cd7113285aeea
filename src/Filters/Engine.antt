-- ===== src/Filters/Engine.antt =====
-- src/filters/engine.ts. `none` is `null`, what could not be fetched, or a field that is absent. Of
-- the reasons, which are prose, the kind is kept.
use opiumo.Number.{Number}
use opiumo.Base.{
  Bool, List, Option, Text, [], if◌then◌else◌, length, ltb, none, not, some, true, ℕ, ◌&&◌, ◌++◌,
  ◌∷◌,
}

pub data PoolSource : Type 0 where
  pumpfun raydium : PoolSource

pub data LpBurnStatus : Type 0 where
  burned not_burned not_applicable unverified : LpBurnStatus

pub data BundleSource : Type 0 where
  fetched unknown_bundle not_fetched skipped_cheap_fail disabled : BundleSource

pub record TokenMetrics (R : Type 0) : Type 0 where
  pub mint : Text
  pub fetched_at : Text
  pub decimals : Option ℕ
  pub liquidity_sol : Option R
  pub top_holder_percent : Option R
  pub dev_wallet_percent : Option R
  pub mint_authority_renounced : Option Bool
  pub freeze_authority_renounced : Option Bool
  pub unique_wallets : Option ℕ
  pub transaction_count : Option ℕ
  pub risky_token_extensions : Option (List Text)
  pub holder_source : Option Text
  pub holder_credits_spent : Option ℕ
  pub creator_lp_percent : Option R
  pub lp_check_applicable : Bool
  pub lp_burn_status : Option LpBurnStatus
  pub lp_burned : Option Bool
  pub launch_slot_buyers : Option ℕ
  pub launch_slot_txs : Option ℕ
  pub bundle_source : Option BundleSource
  pub bundle_credits_spent : Option ℕ
  pub stale : Bool
  pub activity_skipped_early : Bool
  pub stage1_elapsed_ms : ℕ
  pub stage2_elapsed_ms : Option ℕ
  pub total_elapsed_ms : ℕ
  pub warnings : List Text

pub record FiltersConfig (R : Type 0) : Type 0 where
  pub min_liquidity_sol : R
  pub max_top_holder_percent : R
  pub max_dev_wallet_percent : R
  pub require_mint_authority_renounced : Bool
  pub require_freeze_authority_renounced : Bool
  pub min_unique_wallets : ℕ
  pub min_transaction_count : ℕ
  pub min_unique_wallet_to_tx_ratio : R
  pub reject_risky_token_extensions : Bool
  pub max_creator_lp_percent : R

pub record NewPoolEvent : Type 0 where
  pub source : PoolSource
  pub signature : Text
  pub slot : ℕ
  pub mint : Text
  pub pool_address : Option Text
  pub creator : Option Text
  pub pumpfun_associated_bonding_curve : Option Text
  pub raydium_coin_vault : Option Text
  pub raydium_pc_vault : Option Text
  pub raydium_pc_mint : Option Text
  pub raydium_lp_mint : Option Text
  pub detected_at : Text

pub data Verdict : Type 0 where
  pass skip : Verdict

pub data Reason : Type 0 where
  liquidity_unknown liquidity_too_low : Reason
  top_holder_unknown top_holder_too_high dev_wallet_unknown dev_wallet_too_high : Reason
  mint_authority_unknown mint_authority_kept freeze_authority_unknown freeze_authority_kept : Reason
  extensions_unknown extensions_risky creator_lp_unknown creator_lp_too_high : Reason
  activity_not_collected activity_unknown : Reason
  too_few_wallets too_few_transactions ratio_too_low metrics_stale : Reason

pub record FilterResult (R : Type 0) : Type 0 where
  pub mint : Text
  pub source : PoolSource
  pub signature : Text
  pub creator : Option Text
  pub verdict : Verdict
  pub reasons : List Reason
  pub metrics : TokenMetrics R
  pub evaluated_at : Text

abbrev pub reason_if : Bool → Reason → List Reason
reason_if b r = if b then r ∷ [] else []

-- The rules on an authority, `unknown` where it could not be verified.
abbrev pub authority_reasons : Bool → Reason → Reason → Option Bool → List Reason
authority_reasons required unknown kept none = reason_if required unknown
authority_reasons required unknown kept (some renounced) =
    reason_if (required && not renounced) kept

abbrev pub extension_reasons : Bool → Option (List Text) → List Reason
extension_reasons reject none = reason_if reject extensions_unknown
extension_reasons reject (some exts) = reason_if (reject && ltb 0 (length exts)) extensions_risky

abbrev pub verdict_of : List Reason → Verdict
verdict_of [] = pass
verdict_of (r ∷ rs) = skip

module _ {R : Type 0} ⦃n : Number R⦄ where
  open n use {of_nat, div, lt}

  -- A metric that has to be known and at least, or at most, a bound.
  abbrev pub floor_reasons : Reason → Reason → Option R → R → List Reason
  floor_reasons unknown low none bound = unknown ∷ []
  floor_reasons unknown low (some x) bound = reason_if (lt x bound) low

  abbrev pub ceiling_reasons : Reason → Reason → Option R → R → List Reason
  ceiling_reasons unknown high none bound = unknown ∷ []
  ceiling_reasons unknown high (some x) bound = reason_if (lt bound x) high

  abbrev pub holder_reasons : Bool → TokenMetrics R → FiltersConfig R → List Reason
  holder_reasons include_holder_rules m f =
      if include_holder_rules
      then ceiling_reasons top_holder_unknown top_holder_too_high m.top_holder_percent
          f.max_top_holder_percent
        ++ ceiling_reasons dev_wallet_unknown dev_wallet_too_high m.dev_wallet_percent
            f.max_dev_wallet_percent
      else []

  abbrev pub lp_reasons : TokenMetrics R → FiltersConfig R → List Reason
  lp_reasons m f =
      if m.lp_check_applicable
      then ceiling_reasons creator_lp_unknown creator_lp_too_high m.creator_lp_percent
          f.max_creator_lp_percent
      else []

  unfoldable pub evaluate_stage1_reasons : TokenMetrics R → FiltersConfig R → Bool → List Reason
  evaluate_stage1_reasons m f include_holder_rules =
      floor_reasons liquidity_unknown liquidity_too_low m.liquidity_sol f.min_liquidity_sol
      ++ (holder_reasons include_holder_rules m f
          ++ (authority_reasons f.require_mint_authority_renounced mint_authority_unknown
                mint_authority_kept m.mint_authority_renounced
              ++ (authority_reasons f.require_freeze_authority_renounced freeze_authority_unknown
                    freeze_authority_kept m.freeze_authority_renounced
                  ++ (extension_reasons f.reject_risky_token_extensions m.risky_token_extensions
                      ++ lp_reasons m f))))

  abbrev pub ratio_of : ℕ → ℕ → R
  ratio_of wallets txs = div (of_nat wallets) (of_nat txs)

  abbrev pub count_reasons : FiltersConfig R → Option ℕ → Option ℕ → List Reason
  count_reasons f none txs = activity_unknown ∷ []
  count_reasons f (some wallets) none = activity_unknown ∷ []
  count_reasons f (some wallets) (some txs) =
      reason_if (ltb wallets f.min_unique_wallets) too_few_wallets
      ++ (reason_if (ltb txs f.min_transaction_count) too_few_transactions
          ++ reason_if (ltb 0 txs && lt (ratio_of wallets txs) f.min_unique_wallet_to_tx_ratio)
              ratio_too_low)

  unfoldable pub evaluate_activity_and_staleness_reasons :
      TokenMetrics R → FiltersConfig R → List Reason
  evaluate_activity_and_staleness_reasons m f =
      (if m.activity_skipped_early
        then activity_not_collected ∷ []
        else count_reasons f m.unique_wallets m.transaction_count)
      ++ reason_if m.stale metrics_stale

  abbrev pub all_reasons : TokenMetrics R → FiltersConfig R → List Reason
  all_reasons m f = evaluate_stage1_reasons m f true ++ evaluate_activity_and_staleness_reasons m f

  -- `now` is the clock's time in ISO form.
  unfoldable pub evaluate_filters :
      NewPoolEvent → TokenMetrics R → FiltersConfig R → Text → FilterResult R
  unfolding evaluate_stage1_reasons evaluate_activity_and_staleness_reasons
  evaluate_filters event m f now = record {
    mint = event.mint;
    source = event.source;
    signature = event.signature;
    creator = event.creator;
    verdict = verdict_of (all_reasons m f);
    reasons = all_reasons m f;
    metrics = m;
    evaluated_at = now;
  }
