-- ===== src/Watchlist/Examples.antt =====
-- A token that grew past the floor, and the theorems at it.
use opiumo.Number.Integers.{ℤ_number}
use opiumo.Int.{pos, ℤ, ltb_ℤ, ◌*ℤ◌}
use opiumo.Base.{
  List, Text, delete, set, Option, [], arith, codes, inl, none, refl, some, text_eq, true, ℕ, ◌∷◌,
  ◌≡◌,
}
use opiumo.Watchlist.Policy.{
  LiquidityReading, WatchEntry, WatchPolicyConfig, baseline_sol, check_priority, classify_stage,
  dead, fresh, growth_multiple, latest_sol, successful_reads, warming,
}
use opiumo.Watchlist.Priority.{check_priority-order}
use opiumo.Filters.Engine.{FiltersConfig, NewPoolEvent, pumpfun}
use opiumo.Watchlist.Bounded.{WatchCall, adds, run_watch, stops, ticks}
use opiumo.Watchlist.Runtime.{
  PoolRead, Round, WatchlistConfig, add, invalid_address, liquidity, new_watch, put, stop_watch,
  tick,
}

abbrev policy : WatchPolicyConfig ℤ
policy = record {
  dead_below_sol = pos 5;
  patience_checks = 2;
  max_age_ms = 21_600_000;
  promote_on_multiple = pos 2;
  promote_on_absolute_sol = pos 300;
  max_full_checks_per_token = 4;
  graduation_sol = pos 8_500;
  near_migration_fraction = pos 1;
  interval_fresh_ms = 60_000;
  interval_warming_ms = 30_000;
  interval_near_migration_ms = 15_000;
}

abbrev read_at : ℕ → Option ℤ → LiquidityReading ℤ
read_at t sol = record { at_ms = t; sol = sol }

abbrev grown : WatchEntry ℤ
grown = record {
  mint = codes "MINT";
  source = codes "pumpfun";
  signature = codes "SIG";
  pool_address = none;
  detected_at_ms = 1000;
  readings =
      read_at 2000 none
      ∷ read_at 62_000 (some (pos 27))
      ∷ read_at 122_000 none
      ∷ read_at 182_000 (some (pos 434))
      ∷ [];
  stage = fresh;
  next_check_at_ms = 242_000;
  full_checks = 0;
  consecutive_failures = 0;
}

abbrev faded : WatchEntry ℤ
faded = record grown { readings = read_at 2000 (some (pos 4)) ∷ read_at 62_000 (some (pos 2)) ∷ [] }

grown_is_warming : classify_stage grown policy 300_000 ≡ warming
unfolding classify_stage latest_sol baseline_sol growth_multiple successful_reads text_eq ◌*ℤ◌
grown_is_warming = refl

faded_is_dead : classify_stage faded policy 300_000 ≡ dead
unfolding classify_stage latest_sol baseline_sol growth_multiple successful_reads text_eq ◌*ℤ◌
faded_is_dead = refl

check_priority-order_example :
    ltb_ℤ (check_priority grown warming 300_000) (check_priority faded fresh 300_000) ≡ true
check_priority-order_example =
    check_priority-order grown faded warming fresh 300_000 (inl (omega arith, omega arith))

abbrev ceiling : WatchlistConfig
ceiling = record { enabled = true; max_checks_per_tick = 1; max_watched = 2 }

abbrev floors : FiltersConfig ℤ
floors = record {
  min_liquidity_sol = pos 5;
  max_top_holder_percent = pos 20;
  max_dev_wallet_percent = pos 10;
  require_mint_authority_renounced = true;
  require_freeze_authority_renounced = true;
  min_unique_wallets = 10;
  min_transaction_count = 20;
  min_unique_wallet_to_tx_ratio = pos 0;
  reject_risky_token_extensions = true;
  max_creator_lp_percent = pos 5;
}

abbrev detected : Text → NewPoolEvent
detected mint = record {
  source = pumpfun;
  signature = codes "SIG";
  slot = 1;
  mint = mint;
  pool_address = some (codes "POOL");
  creator = none;
  pumpfun_associated_bonding_curve = none;
  raydium_coin_vault = none;
  raydium_pc_vault = none;
  raydium_pc_mint = none;
  raydium_lp_mint = none;
  detected_at = codes "2026-09-14T00:00:00.000Z";
}

abbrev round_at : ℕ → PoolRead ℤ → Round ℤ
round_at t read = record {
  now_ms = t;
  now_iso = codes "2026-09-14T00:01:00.000Z";
  read_pool = λ address. read;
  collect = λ mint. none;
}

-- Two tokens fill the list, a third is refused, one is promoted and one address is unreadable.
abbrev hour : List (WatchCall ℤ)
hour =
    adds (detected (codes "A")) (some (pos 27)) 1000
    ∷ adds (detected (codes "B")) none 2000
    ∷ adds (detected (codes "C")) none 3000
    ∷ ticks (round_at 70_000 (liquidity (pos 400)))
    ∷ ticks (round_at 80_000 invalid_address)
    ∷ stops
    ∷ []

hour_counts :
    let w = run_watch ceiling policy floors new_watch hour in
    (w.added ≡ 2) × (w.evicted ≡ 1) × (w.full_checks ≡ 1) × (w.cheap_checks ≡ 1)
unfolding run_watch new_watch add tick stop_watch set delete put text_eq ◌*ℤ◌
hour_counts = (refl, refl, refl, refl)
