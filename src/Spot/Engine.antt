-- ===== src/Spot/Engine.antt =====
-- src/trading/engine.ts: the class `SpotTradingEngine`, over the files of src/trading/positionStore.ts and
-- src/trading/priceHistory.ts. What the network answers in a cycle comes in with the cycle.
use opiumo.Base.{
  Result, [], delete, err, if◌then◌else◌, leb, lookup, ltb, map, none, not, ok, set, some, true,
  ◌++◌, ◌+◌, ◌-◌, ◌==◌, ◌∷◌, List, Option, Text, ℕ,
}
use opiumo.Number.{Number}
use opiumo.Spot.Records.{
  ExitReason, ExitSignal, PriceSample, SpotPosition, TakeProfitStep, TradingConfig, ladder_tier,
}
use opiumo.Spot.Retry.{should_abandon_position, should_attempt_sell}
use opiumo.Spot.Rules.{
  candles_from_prices, check_atr_stop_loss, check_ladder_tier, check_time_stop, check_trailing_stop,
  compute_atr, compute_atr_stop_price, last_of,
}

-- What one cycle meets. `balance` is what the wallet holds, `quote` what a sale of the rest would
-- bring, and `swap` what the sale that is tried brings, in lamports; `none` is an exception.
-- `failed_at` is the clock when a sale has failed, and `share` is `Math.floor(x * (p / 100))`.
pub record Cycle (R : Type 0) : Type 0 where
  pub now : ℕ
  pub balance : Option ℕ
  pub quote : Option ℕ
  pub swap : Option ℕ
  pub failed_at : ℕ
  pub share : ℕ → R → ℕ

pub record Sale (R : Type 0) : Type 0 where
  pub mint : Text
  pub exit_price_sol : R
  pub size_sol_received : R
  pub size_tokens_sold : ℕ
  pub pnl_sol : R
  pub pnl_percent : R
  pub reason : ExitReason

pub data RejectedBuy : Type 0 where
  trading_disabled no_size : RejectedBuy
  at_max_open : ℕ → RejectedBuy

-- The rows of the trade log.
pub data TradeRow (R : Type 0) : Type 0 where
  sell : Sale R → TradeRow R
  failed_sell : Text → ℕ → TradeRow R
  failed_sell_untracked : Text → TradeRow R
  abandoned_row : Text → ℕ → TradeRow R
  removed corrected : Text → ℕ → ℕ → TradeRow R
  rejected_buy : Text → RejectedBuy → TradeRow R
  buy : Text → R → R → ℕ → R → TradeRow R
  failed_buy : Text → TradeRow R

pub record Bot (R : Type 0) : Type 0 where
  pub positions : List (Text × SpotPosition R)
  pub price_history : List (Text × List (PriceSample R))
  pub trades : List (TradeRow R)

abbrev pub max_samples_per_mint : ℕ
max_samples_per_mint = 500

module _ {R : Type 0} where
  unfoldable pub save : Bot R → SpotPosition R → Bot R
  save b p = record b { positions = set p.mint p b.positions }

  -- `positions.remove` and `priceHistory.clear`.
  unfoldable pub forget : Bot R → Text → Bot R
  forget b mint = record b {
    positions = delete mint b.positions;
    price_history = delete mint b.price_history;
  }

  abbrev pub log_trade : Bot R → TradeRow R → Bot R
  log_trade b row = record b { trades = b.trades ++ (row ∷ []) }

  abbrev pub get_samples : Bot R → Text → List (PriceSample R)
  get_samples b mint = elim (lookup mint b.price_history) [ none ↦ [] | some xs ↦ xs ]

  unfoldable pub append_sample : Bot R → Text → PriceSample R → Bot R
  append_sample b mint x = record b {
    price_history =
        set mint (last_of max_samples_per_mint (get_samples b mint ++ (x ∷ []))) b.price_history;
  }

  -- The position to go on with, if the wallet holds any of it.
  unfoldable pub reconcile_position :
      Bot R → SpotPosition R → Option ℕ → Bot R × Option (SpotPosition R)
  unfolding save forget
  reconcile_position b p none = (b, some p)
  reconcile_position b p (some actual) =
      if actual == p.remaining_size_tokens
      then (b, some p)
      else (if actual == 0
          then (forget (log_trade b (removed p.mint p.remaining_size_tokens actual)) p.mint, none)
          else (if ltb actual p.remaining_size_tokens
              then (let q = record p { remaining_size_tokens = actual } in
                  (save (log_trade b (corrected p.mint p.remaining_size_tokens actual)) q, some q))
              else (log_trade b (corrected p.mint p.remaining_size_tokens actual), some p)))

module _ {R : Type 0} ⦃n : Number R⦄ where
  open n use {of_nat, sub, mul, div, max}

  abbrev pub lamports_per_sol : R
  lamports_per_sol = of_nat 1000000000

  abbrev pub sale_of : SpotPosition R → R → ℕ → ExitReason → ℕ → Sale R
  sale_of p price amount why out =
      let received = div (of_nat out) lamports_per_sol in
      let size = of_nat p.entry_size_tokens in
      let cost = mul (div (of_nat amount) size) (mul size p.entry_price_sol) in
      let pnl = sub received cost in
      record {
        mint = p.mint;
        exit_price_sol = price;
        size_sol_received = received;
        size_tokens_sold = amount;
        pnl_sol = pnl;
        pnl_percent = mul (div pnl cost) (of_nat 100);
        reason = why;
      }

  -- After a sale that landed.
  abbrev pub record_sold : Bot R → SpotPosition R → ℕ → Bot R
  record_sold b p amount =
      if leb p.remaining_size_tokens amount
      then forget b p.mint
      else save b (record p {
        remaining_size_tokens = p.remaining_size_tokens - amount;
        sell_failure_count = 0;
        last_sell_failure_at = none;
      })

  abbrev pub failed_once_more : TradingConfig R → SpotPosition R → ℕ → SpotPosition R
  failed_once_more c fresh at = record fresh {
    sell_failure_count = fresh.sell_failure_count + 1;
    last_sell_failure_at = some at;
    abandoned =
        if should_abandon_position (fresh.sell_failure_count + 1) c.max_consecutive_sell_failures
        then true
        else fresh.abandoned;
  }

  -- After a sale that failed: the position is read again from the file.
  abbrev pub record_failed : TradingConfig R → Bot R → Text → ℕ → Option (SpotPosition R) → Bot R
  record_failed c b mint at none = log_trade b (failed_sell_untracked mint)
  record_failed c b mint at (some fresh) =
      let count = fresh.sell_failure_count + 1 in
      let noted =
        if should_abandon_position count c.max_consecutive_sell_failures
        then log_trade b (abandoned_row mint count)
        else b in
      log_trade (save noted (failed_once_more c fresh at)) (failed_sell mint count)

  abbrev pub record_swap :
      TradingConfig R → Bot R → SpotPosition R → R → ℕ → ExitReason → ℕ → Option ℕ → Bot R
  record_swap c b p price amount why at none =
      record_failed c b p.mint at (lookup p.mint b.positions)
  record_swap c b p price amount why at (some out) =
      record_sold (log_trade b (sell (sale_of p price amount why out))) p amount

  unfoldable pub execute_exit :
      TradingConfig R → Cycle R → Bot R → SpotPosition R → R → R → ExitReason → Bot R
  unfolding save forget should_abandon_position
  execute_exit c w b p price percent why =
      let amount = w.share p.remaining_size_tokens percent in
      if amount == 0 then b else record_swap c b p price amount why w.failed_at w.swap

  -- The tier that was tried counts as executed, if the position is still there.
  abbrev pub mark_tier : Bot R → R → Option (SpotPosition R) → Bot R
  mark_tier b tier none = b
  mark_tier b tier (some fresh) =
      save b (record fresh { executed_ladder_tiers = fresh.executed_ladder_tiers ++ (tier ∷ []) })

  abbrev pub act_on_ladder :
      TradingConfig R
      → Cycle R
      → Bot R
      → SpotPosition R
      → R
      → Result Unit (Option (TakeProfitStep R))
      → Bot R
  act_on_ladder c w b p price (err e) = b
  act_on_ladder c w b p price (ok none) = save b p
  act_on_ladder c w b p price (ok (some tier)) =
      let after = execute_exit c w b p price tier.sell_percent_of_remaining ladder_tier in
      mark_tier after tier.at_multiple_of_entry (lookup p.mint after.positions)

  -- The first of these signals that is triggered.
  abbrev pub first_signal : Option (ExitSignal R) → Option (ExitSignal R) → Option (ExitSignal R)
  first_signal (some s) later = some s
  first_signal none later = later

  unfoldable pub full_exit_signal : TradingConfig R → ℕ → SpotPosition R → R → Option (ExitSignal R)
  unfolding check_atr_stop_loss check_trailing_stop check_time_stop
  full_exit_signal c now p price = first_signal (check_atr_stop_loss price p) (
      first_signal (check_trailing_stop price p c)
        (check_time_stop now p c.take_profit_ladder c.time_stop_hours))

  abbrev pub act_on :
      TradingConfig R → Cycle R → Bot R → SpotPosition R → R → Option (ExitSignal R) → Bot R
  act_on c w b p price (some s) = execute_exit c w b p price (of_nat 100) s.reason
  act_on c w b p price none =
      act_on_ladder c w b p price (check_ladder_tier price p c.take_profit_ladder)

  abbrev pub tightened : TradingConfig R → SpotPosition R → Option R → SpotPosition R
  tightened c p none = p
  tightened c p (some atr) = record p {
    stop_loss_price_sol =
        max p.stop_loss_price_sol
          (compute_atr_stop_price p.entry_price_sol atr c.atr_stop_multiplier);
  }

  -- The cycle after the price is known and kept; an exception of the average leaves it there.
  abbrev pub judge_position :
      TradingConfig R → Cycle R → Bot R → SpotPosition R → R → Result Unit (Option R) → Bot R
  judge_position c w b p price (err e) = b
  judge_position c w b p price (ok atr) =
      let q = tightened c (record p { highest_price_sol = max p.highest_price_sol price }) atr in
      if not (
        should_attempt_sell q.sell_failure_count q.last_sell_failure_at w.now
          c.sell_failure_backoff_base_ms c.sell_failure_backoff_max_ms)
      then save b q
      else act_on c w b q price (full_exit_signal c w.now q price)

  abbrev pub watch_price : TradingConfig R → Cycle R → Bot R → SpotPosition R → Option ℕ → Bot R
  watch_price c w b p none = b
  watch_price c w b p (some out) =
      let price = div (div (of_nat out) lamports_per_sol) (of_nat p.remaining_size_tokens) in
      let b' = append_sample b p.mint (record { observed_at = w.now; price_sol = price }) in
      judge_position c w b' p price (
        compute_atr (candles_from_prices (map (λ x. x.price_sol) (get_samples b' p.mint)))
          c.atr_period)

  abbrev pub watch_reconciled : TradingConfig R → Cycle R → Bot R × Option (SpotPosition R) → Bot R
  watch_reconciled c w (b, none) = b
  watch_reconciled c w (b, some p) = watch_price c w b p w.quote

  -- The whole call, if nothing else runs while it waits; Steps has what may come between.
  unfoldable pub check_position : TradingConfig R → Cycle R → Bot R → SpotPosition R → Bot R
  unfolding execute_exit full_exit_signal check_ladder_tier compute_atr append_sample
      reconcile_position should_attempt_sell save
  check_position c w b p =
      if p.abandoned
      then b
      else watch_reconciled c w
          (if c.paper_trading then (b, some p) else reconcile_position b p w.balance)
