-- ===== src/Spot/Buying.antt =====
-- src/trading/engine.ts: `onFilterPass`, as a whole call; Steps has what may come between its awaits.
use opiumo.Base.{
  [], false, has_key, if◌then◌else◌, leb, length, none, not, some, ◌==◌, Bool, Option, Text, ℕ,
}
use opiumo.Number.{Number, nought}
use opiumo.Spot.Engine.{
  Bot, append_sample, at_max_open, buy, failed_buy, lamports_per_sol, log_trade, no_size,
  rejected_buy, save, trading_disabled,
}
use opiumo.Spot.Records.{SpotPosition, TradingConfig}
use opiumo.Spot.Sizing.{SizingResult, compute_spot_position_size_sol}

-- What a buy meets: the raw tokens that the probe is quoted, and what the swap for a size in SOL,
-- rounded to lamports, takes and gives; `none` is an exception.
pub record Buy (R : Type 0) : Type 0 where
  pub now : ℕ
  pub probe : Option ℕ
  pub swap : R → Option (ℕ × ℕ)

pub record PassEvent : Type 0 where
  pub mint : Text
  pub decimals : Option ℕ
  pub is_pass : Bool

-- `Number(outAmount) || 1`
abbrev pub or_one : ℕ → ℕ
or_one out = if out == 0 then 1 else out

module _ {R : Type 0} ⦃n : Number R⦄ where
  open n use {of_nat, add, mul, div, le, min}

  abbrev pub probe_sol : TradingConfig R → R
  probe_sol c =
      min (div (of_nat 1) (of_nat 100)) (mul c.total_capital_sol (div (of_nat 1) (of_nat 1000)))

  abbrev pub fallback_stop : TradingConfig R → R → R
  fallback_stop c price = mul price (add (of_nat 1) (div c.fallback_stop_loss_percent (of_nat 100)))

  abbrev pub bought_position : TradingConfig R → PassEvent → ℕ → R → ℕ → SpotPosition R
  bought_position c e now price out = record {
    mint = e.mint;
    decimals = e.decimals;
    entry_price_sol = price;
    entry_size_tokens = out;
    remaining_size_tokens = out;
    entry_at = now;
    highest_price_sol = price;
    executed_ladder_tiers = [];
    stop_loss_price_sol = fallback_stop c price;
    sell_failure_count = 0;
    last_sell_failure_at = none;
    abandoned = false;
  }

  abbrev pub record_buy : TradingConfig R → Bot R → PassEvent → ℕ → R → Option (ℕ × ℕ) → Bot R
  record_buy c b e now size none = log_trade b (failed_buy e.mint)
  record_buy c b e now size (some (paid, out)) =
      let price = div (div (of_nat paid) lamports_per_sol) (of_nat out) in
      let p = bought_position c e now price out in
      let kept =
        append_sample (save b p) e.mint (record { observed_at = now; price_sol = price }) in
      log_trade kept (buy e.mint price size out p.stop_loss_price_sol)

  abbrev pub buy_size :
      TradingConfig R → Buy R → Bot R → PassEvent → Option (SizingResult R) → Bot R
  buy_size c w b e none = log_trade b (failed_buy e.mint)
  buy_size c w b e (some s) =
      if le s.position_size_sol nought
      then log_trade b (rejected_buy e.mint no_size)
      else record_buy c b e w.now s.position_size_sol (w.swap s.position_size_sol)

  abbrev pub buy_probed : TradingConfig R → Buy R → Bot R → PassEvent → Option ℕ → Bot R
  buy_probed c w b e none = log_trade b (failed_buy e.mint)
  buy_probed c w b e (some out) =
      let indicative = div (probe_sol c) (of_nat (or_one out)) in
      buy_size c w b e (
        compute_spot_position_size_sol c.total_capital_sol c.risk_percent_per_trade indicative
          (fallback_stop c indicative))

  -- The whole call, if nothing else runs while it waits.
  unfoldable pub on_filter_pass : TradingConfig R → Buy R → Bot R → PassEvent → Bot R
  unfolding save append_sample compute_spot_position_size_sol
  on_filter_pass c w b e =
      if not e.is_pass
      then b
      else (if not c.enabled
          then log_trade b (rejected_buy e.mint trading_disabled)
          else (if has_key e.mint b.positions
              then b
              else (if leb c.max_open_positions (length b.positions)
                  then log_trade b (rejected_buy e.mint (at_max_open c.max_open_positions))
                  else buy_probed c w b e w.probe)))
