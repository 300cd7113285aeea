-- ===== src/Spot/Steps.antt =====
-- src/trading/engine.ts: the class `SpotTradingEngine` by its steps. A step is what the code does
-- between two awaits of the network; other calls may run while it waits. A task is a call that
-- waits, with the local variables that it goes on with. The positions that a tick lists are checked
-- in any order here; the code goes through them in order.
use opiumo.Base.{
  List, Option, Result, ℕ, [], err, has_key, if◌then◌else◌, leb, length, lookup, map, none, not, ok,
  some, suc, zero, ◌++◌, ◌==◌, ◌∷◌, Text,
}
use opiumo.Number.{Number, nought}
use opiumo.Spot.Buying.{Buy, PassEvent, fallback_stop, or_one, probe_sol, record_buy}
use opiumo.Spot.Engine.{
  Bot, Cycle, append_sample, at_max_open, failed_buy, full_exit_signal, get_samples,
  lamports_per_sol, log_trade, mark_tier, no_size, reconcile_position, record_swap, rejected_buy,
  save, tightened, trading_disabled,
}
use opiumo.Spot.Records.{
  ExitReason, ExitSignal, SpotPosition, TakeProfitStep, TradingConfig, ladder_tier,
}
use opiumo.Spot.Retry.{should_attempt_sell}
use opiumo.Spot.Rules.{candles_from_prices, check_ladder_tier, compute_atr}
use opiumo.Spot.Sizing.{SizingResult, compute_spot_position_size_sol}

-- A position that a cycle has listed, one whose balance or quote is awaited, a sale with its price,
-- amount, reason and ladder tier, and a buy whose probe or whose swap is awaited.
pub data Task (R : Type 0) : Type 0 where
  listed reconciling quoting : SpotPosition R → Task R
  selling : SpotPosition R → R → ℕ → ExitReason → Option R → Task R
  probing : PassEvent → Task R
  swapping : PassEvent → R → Task R

-- What a step leaves: the files, and the task if it waits again.
abbrev pub Step : Type 0 → Type 0
Step R = Bot R × Option (Task R)

module _ {R : Type 0} ⦃n : Number R⦄ (c : TradingConfig R) where
  open n use {of_nat, div, le, max}

  -- `onFilterPass` up to its first await.
  unfoldable pub begin_pass : Bot R → PassEvent → Step R
  begin_pass b e =
      if not e.is_pass
      then (b, none)
      else (if not c.enabled
          then (log_trade b (rejected_buy e.mint trading_disabled), none)
          else (if has_key e.mint b.positions
              then (b, none)
              else (if leb c.max_open_positions (length b.positions)
                  then (log_trade b (rejected_buy e.mint (at_max_open c.max_open_positions)), none)
                  else (b, some (probing e)))))

  abbrev pub begin_buy : Bot R → PassEvent → Option (SizingResult R) → Step R
  begin_buy b e none = (log_trade b (failed_buy e.mint), none)
  begin_buy b e (some s) =
      if le s.position_size_sol nought
      then (log_trade b (rejected_buy e.mint no_size), none)
      else (b, some (swapping e s.position_size_sol))

  abbrev pub after_probe : Bot R → PassEvent → Option ℕ → Step R
  after_probe b e none = (log_trade b (failed_buy e.mint), none)
  after_probe b e (some out) =
      let indicative = div (probe_sol c) (of_nat (or_one out)) in
      begin_buy b e (
        compute_spot_position_size_sol c.total_capital_sol c.risk_percent_per_trade indicative
          (fallback_stop c indicative))

  abbrev pub begin_check : Bot R → SpotPosition R → Step R
  begin_check b p =
      if p.abandoned
      then (b, none)
      else (if c.paper_trading then (b, some (quoting p)) else (b, some (reconciling p)))

  abbrev pub after_balance : Bot R × Option (SpotPosition R) → Step R
  after_balance (b, none) = (b, none)
  after_balance (b, some p) = (b, some (quoting p))

  abbrev pub mark_after : Bot R → Text → Option R → Bot R
  mark_after b mint none = b
  mark_after b mint (some tier) = mark_tier b tier (lookup mint b.positions)

  module _ (w : Cycle R) where
    -- `executeExit` up to its await; nothing is awaited for an amount of nought.
    abbrev pub begin_exit : Bot R → SpotPosition R → R → R → ExitReason → Option R → Step R
    begin_exit b p price percent why tier =
        let amount = w.share p.remaining_size_tokens percent in
        if amount == 0
        then (mark_after b p.mint tier, none)
        else (b, some (selling p price amount why tier))

    abbrev pub begin_ladder :
        Bot R → SpotPosition R → R → Result Unit (Option (TakeProfitStep R)) → Step R
    begin_ladder b p price (err e) = (b, none)
    begin_ladder b p price (ok none) = (save b p, none)
    begin_ladder b p price (ok (some tier)) =
        begin_exit b p price tier.sell_percent_of_remaining ladder_tier
          (some tier.at_multiple_of_entry)

    abbrev pub begin_act : Bot R → SpotPosition R → R → Option (ExitSignal R) → Step R
    begin_act b p price (some s) = begin_exit b p price (of_nat 100) s.reason none
    begin_act b p price none =
        begin_ladder b p price (check_ladder_tier price p c.take_profit_ladder)

    abbrev pub begin_judge : Bot R → SpotPosition R → R → Result Unit (Option R) → Step R
    begin_judge b p price (err e) = (b, none)
    begin_judge b p price (ok atr) =
        let q = tightened c (record p { highest_price_sol = max p.highest_price_sol price }) atr in
        if not (
          should_attempt_sell q.sell_failure_count q.last_sell_failure_at w.now
            c.sell_failure_backoff_base_ms c.sell_failure_backoff_max_ms)
        then (save b q, none)
        else begin_act b q price (full_exit_signal c w.now q price)

    abbrev pub after_quote : Bot R → SpotPosition R → Option ℕ → Step R
    after_quote b p none = (b, none)
    after_quote b p (some out) =
        let price = div (div (of_nat out) lamports_per_sol) (of_nat p.remaining_size_tokens) in
        let b' = append_sample b p.mint (record { observed_at = w.now; price_sol = price }) in
        begin_judge b' p price (
          compute_atr (candles_from_prices (map (λ x. x.price_sol) (get_samples b' p.mint)))
            c.atr_period)

    -- A task goes on with the answer that it has waited for, and the files as they are now.
    unfoldable pub resume : Buy R → Bot R → Task R → Step R
    unfolding full_exit_signal check_ladder_tier compute_atr append_sample reconcile_position
        should_attempt_sell save compute_spot_position_size_sol
    resume v b (listed p) = begin_check b p
    resume v b (reconciling p) = after_balance (reconcile_position b p w.balance)
    resume v b (quoting p) = after_quote b p w.quote
    resume v b (selling p price amount why tier) =
        (mark_after (record_swap c b p price amount why w.failed_at w.swap) p.mint tier, none)
    resume v b (probing e) = after_probe b e v.probe
    resume v b (swapping e size) = (record_buy c b e v.now size (v.swap size), none)

    -- A call that runs alone, with the answers that it meets: every wait is over before anything
    -- else runs. The fuel counts the waits.
    unfoldable pub run_alone : Buy R → ℕ → Step R → Bot R
    unfolding resume
    run_alone v fuel (b, none) = b
    run_alone v zero (b, some t) = b
    run_alone v (suc fuel) (b, some t) = run_alone v fuel (resume v b t)

-- The bot with the calls that wait.
pub record Live (R : Type 0) : Type 0 where
  pub bot : Bot R
  pub tasks : List (Task R)

-- A token that passed the filters, a tick of the timer, and the answer to the task at a place in the
-- list.
pub data BotEvent (R : Type 0) : Type 0 where
  arrived : PassEvent → BotEvent R
  ticked : BotEvent R
  answered : ℕ → Cycle R → Buy R → BotEvent R

module _ {R : Type 0} where
  abbrev pub waiting : Option (Task R) → List (Task R) → List (Task R)
  waiting none ts = ts
  waiting (some t) ts = t ∷ ts

  abbrev pub left_over : Task R → Option (Task R × List (Task R)) → Option (Task R × List (Task R))
  left_over t none = none
  left_over t (some (u, ts)) = some (u, t ∷ ts)

  abbrev pub task_at : ℕ → List (Task R) → Option (Task R × List (Task R))
  task_at i [] = none
  task_at zero (t ∷ ts) = some (t, ts)
  task_at (suc i) (t ∷ ts) = left_over t (task_at i ts)

  abbrev pub after_step : Step R → List (Task R) → Live R
  after_step (b, t) ts = record { bot = b; tasks = waiting t ts }

  abbrev pub list_all : List (Text × SpotPosition R) → List (Task R)
  list_all [] = []
  list_all ((k, p) ∷ rest) = listed p ∷ list_all rest

module _ {R : Type 0} ⦃n : Number R⦄ (c : TradingConfig R) where
  abbrev pub answer : Cycle R → Buy R → Live R → Option (Task R × List (Task R)) → Live R
  answer w v l none = l
  answer w v l (some (t, ts)) = after_step (resume c w v l.bot t) ts

  unfoldable pub apply_event : Live R → BotEvent R → Live R
  unfolding begin_pass resume
  apply_event l (arrived e) = after_step (begin_pass c l.bot e) l.tasks
  apply_event l ticked = record l { tasks = l.tasks ++ list_all l.bot.positions }
  apply_event l (answered i w v) = answer w v l (task_at i l.tasks)

  unfoldable pub run_bot : Live R → List (BotEvent R) → Live R
  unfolding apply_event
  run_bot l [] = l
  run_bot l (e ∷ es) = run_bot (apply_event l e) es
