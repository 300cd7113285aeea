-- ===== src/Filters/Examples.antt =====
-- A token that passes, one whose liquidity is unknown, and the theorems at them.
use opiumo.Number.Integers.{ℤ_number}
use opiumo.Int.{pos, ℤ}
use opiumo.Base.{Text, [], arith, codes, false, none, refl, some, true, ◌↔◌, ◌∷◌, ◌≡◌}
use opiumo.Filters.Engine.{
  not_applicable, not_fetched, pumpfun, FiltersConfig, NewPoolEvent, TokenMetrics,
  evaluate_activity_and_staleness_reasons, evaluate_filters, evaluate_stage1_reasons,
  liquidity_unknown, pass, skip, top_holder_unknown,
}
use opiumo.Filters.Passing.{
  IsActive, IsSafe, completed, evaluate_filters-pass_iff, evaluate_stage1_reasons-skip,
}

abbrev rules : FiltersConfig ℤ
rules = record {
  min_liquidity_sol = pos 5;
  max_top_holder_percent = pos 20;
  max_dev_wallet_percent = pos 10;
  require_mint_authority_renounced = true;
  require_freeze_authority_renounced = true;
  min_unique_wallets = 10;
  min_transaction_count = 20;
  min_unique_wallet_to_tx_ratio = pos 0;
  reject_risky_token_extensions = true;
  max_creator_lp_percent = pos 5;
}

abbrev sound : TokenMetrics ℤ
sound = record {
  mint = codes "MINT";
  fetched_at = codes "2026-09-14T00:00:00.000Z";
  decimals = some 6;
  liquidity_sol = some (pos 12);
  top_holder_percent = some (pos 11);
  dev_wallet_percent = some (pos 2);
  mint_authority_renounced = some true;
  freeze_authority_renounced = some true;
  unique_wallets = some 40;
  transaction_count = some 60;
  risky_token_extensions = some [];
  creator_lp_percent = none;
  lp_check_applicable = false;
  holder_source = none;
  holder_credits_spent = none;
  lp_burn_status = some not_applicable;
  lp_burned = none;
  launch_slot_buyers = none;
  launch_slot_txs = none;
  bundle_source = some not_fetched;
  bundle_credits_spent = none;
  stale = false;
  activity_skipped_early = false;
  stage1_elapsed_ms = 120;
  stage2_elapsed_ms = some 300;
  total_elapsed_ms = 420;
  warnings = [];
}

abbrev unread : TokenMetrics ℤ
unread = record sound { liquidity_sol = none; top_holder_percent = none }

abbrev launch : NewPoolEvent
launch = record {
  source = pumpfun;
  signature = codes "SIG";
  slot = 7;
  mint = codes "MINT";
  pool_address = none;
  creator = none;
  pumpfun_associated_bonding_curve = none;
  raydium_coin_vault = none;
  raydium_pc_vault = none;
  raydium_pc_mint = none;
  raydium_lp_mint = none;
  detected_at = codes "2026-09-14T00:00:00.000Z";
}

abbrev today : Text
today = codes "2026-09-14T00:00:00.000Z"

sound_passes : (evaluate_filters launch sound rules today).verdict ≡ pass
unfolding evaluate_filters evaluate_stage1_reasons evaluate_activity_and_staleness_reasons
sound_passes = refl

unread_is_skipped :
    (evaluate_filters launch unread rules today).reasons
    ≡ liquidity_unknown ∷ top_holder_unknown ∷ []
unfolding evaluate_filters evaluate_stage1_reasons evaluate_activity_and_staleness_reasons
unread_is_skipped = refl

evaluate_filters-pass_iff_example :
    ((evaluate_filters launch sound rules today).verdict ≡ pass)
    ↔ (IsSafe sound rules × (false ≡ false) × (false ≡ false) × IsActive rules (some 40) (some 60))
evaluate_filters-pass_iff_example = evaluate_filters-pass_iff launch sound rules today

unread_has_reasons : ¬ (evaluate_stage1_reasons unread rules false ≡ [])
unfolding evaluate_stage1_reasons
unread_has_reasons h = ground (arith, h)

evaluate_stage1_reasons-skip_example :
    (evaluate_filters launch (completed false unread sound) rules today).verdict ≡ skip
evaluate_stage1_reasons-skip_example =
    evaluate_stage1_reasons-skip launch unread sound rules today false unread_has_reasons
