-- ===== src/Spot/Records.antt =====
-- The records of the spot bot: src/trading/positionStore.ts, src/trading/priceHistory.ts,
-- src/trading/exitLogic.ts, and `TradingConfig` of src/config.ts without the settings that only the
-- swap itself takes and the timer's interval. Token amounts are whole raw units.
use opiumo.Base.{Bool, List, Option, Text, ℕ}

pub record TakeProfitStep (R : Type 0) : Type 0 where
  pub at_multiple_of_entry : R
  pub sell_percent_of_remaining : R

pub record TradingConfig (R : Type 0) : Type 0 where
  pub enabled : Bool
  pub paper_trading : Bool
  pub total_capital_sol : R
  pub risk_percent_per_trade : R
  pub max_open_positions : ℕ
  pub take_profit_ladder : List (TakeProfitStep R)
  pub atr_period : ℕ
  pub atr_stop_multiplier : R
  pub fallback_stop_loss_percent : R
  pub trailing_stop_activate_multiple : R
  pub trailing_stop_percent : R
  pub time_stop_hours : R
  pub max_consecutive_sell_failures : ℕ
  pub sell_failure_backoff_base_ms : ℕ
  pub sell_failure_backoff_max_ms : ℕ

pub record SpotPosition (R : Type 0) : Type 0 where
  pub mint : Text
  pub decimals : Option ℕ
  pub entry_price_sol : R
  pub entry_size_tokens : ℕ
  pub remaining_size_tokens : ℕ
  pub entry_at : ℕ
  pub highest_price_sol : R
  pub executed_ladder_tiers : List R
  pub stop_loss_price_sol : R
  pub sell_failure_count : ℕ
  pub last_sell_failure_at : Option ℕ
  pub abandoned : Bool

pub record PriceSample (R : Type 0) : Type 0 where
  pub observed_at : ℕ
  pub price_sol : R

pub data ExitReason : Type 0 where
  atr_stop_loss time_stop trailing_stop ladder_tier : ExitReason

-- An `ExitSignal` that is triggered, or none; its reason by kind.
pub record ExitSignal (R : Type 0) : Type 0 where
  pub reason : ExitReason
  pub sell_percent_of_remaining : R
