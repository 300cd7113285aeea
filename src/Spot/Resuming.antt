-- ===== src/Spot/Resuming.antt =====
-- What each step of the spot bot (src/trading/engine.ts) keeps of its position file.
use opiumo.Base.{
  List, Option, Result, Text, ℕ, [], arith, err, has_key, if_cases, leb, length, map, ltb, none,
  not, ok, refl, some, ◌==◌, ◌∷◌,
}
use opiumo.Number.{Number, nought}
use opiumo.Spot.Buying.{Buy, PassEvent, record_buy}
use opiumo.Spot.Cycles.{
  IsFitBot, IsManaged, forget-IsFit, mark_tier-IsFit, record_swap-IsFit, save-IsFit,
  tightened-IsManaged,
}
use opiumo.Spot.Engine.{
  Bot, Cycle, append_sample, corrected, full_exit_signal, get_samples, lamports_per_sol, log_trade,
  reconcile_position, removed, save, tightened, record_swap,
}
use opiumo.Spot.Keeping.{IsHeld, set-IsFit}
use opiumo.Spot.Records.{
  ExitReason, ExitSignal, SpotPosition, TakeProfitStep, ladder_tier, TradingConfig,
}
use opiumo.Spot.Rules.{candles_from_prices, check_ladder_tier, compute_atr}
use opiumo.Spot.Retry.{should_attempt_sell}
use opiumo.Spot.Sizing.{SizingResult}
use opiumo.Spot.Steps.{
  Step, Task, after_balance, after_probe, after_quote, begin_act, begin_buy, begin_check,
  begin_exit, begin_judge, begin_ladder, begin_pass, listed, mark_after, probing, quoting,
  reconciling, resume, selling, swapping,
}

module _ {R : Type 0} ⦃n : Number R⦄ (c : TradingConfig R) where
  open n use {of_nat, div, le, max}

  -- What holds of the position that a task goes on with, however old it is.
  abbrev pub IsFitTask : Task R → Type 0
  IsFitTask (listed p) = IsHeld c p.mint p
  IsFitTask (reconciling p) = IsManaged c p
  IsFitTask (quoting p) = IsManaged c p
  IsFitTask (selling p price amount why tier) = IsManaged c p
  IsFitTask (probing e) = Unit
  IsFitTask (swapping e size) = Unit

  abbrev pub AreFitTasks : List (Task R) → Type 0
  AreFitTasks [] = Unit
  AreFitTasks (t ∷ ts) = IsFitTask t × AreFitTasks ts

  abbrev pub IsFitNext : Option (Task R) → Type 0
  IsFitNext none = Unit
  IsFitNext (some t) = IsFitTask t

  abbrev pub IsFitStep : Step R → Type 0
  IsFitStep (b, t) = IsFitBot c b × IsFitNext t

  mark_after-IsFit :
      (b : Bot R) (k : Text) (tier : Option R) → IsFitBot c b → IsFitBot c (mark_after c b k tier)
  mark_after-IsFit b k none fit = fit
  mark_after-IsFit b k (some tier) fit = mark_tier-IsFit c b k tier fit

  begin_exit-IsFit :
      (w : Cycle R) (b : Bot R) (p : SpotPosition R) (price percent : R) (why : ExitReason)
      (tier : Option R)
      → IsManaged c p
      → IsFitBot c b
      → IsFitStep (begin_exit c w b p price percent why tier)
  begin_exit-IsFit w b p price percent why tier managed fit =
      if_cases IsFitStep (w.share p.remaining_size_tokens percent == 0)
        (λ _. (mark_after-IsFit b p.mint tier fit, tt)) (λ _. (fit, managed))

  begin_ladder-IsFit :
      (w : Cycle R) (b : Bot R) (p : SpotPosition R) (price : R)
      (fired : Result Unit (Option (TakeProfitStep R)))
      → IsManaged c p
      → IsFitBot c b
      → IsFitStep (begin_ladder c w b p price fired)
  begin_ladder-IsFit w b p price (err e) managed fit = (fit, tt)
  begin_ladder-IsFit w b p price (ok none) managed fit = (save-IsFit c b p managed fit, tt)
  begin_ladder-IsFit w b p price (ok (some tier)) managed fit =
      begin_exit-IsFit w b p price tier.sell_percent_of_remaining ladder_tier
        (some tier.at_multiple_of_entry) managed fit

  begin_act-IsFit :
      (w : Cycle R) (b : Bot R) (p : SpotPosition R) (price : R) (signal : Option (ExitSignal R))
      → IsManaged c p
      → IsFitBot c b
      → IsFitStep (begin_act c w b p price signal)
  begin_act-IsFit w b p price (some s) managed fit =
      begin_exit-IsFit w b p price (of_nat 100) s.reason none managed fit
  begin_act-IsFit w b p price none managed fit =
      begin_ladder-IsFit w b p price (check_ladder_tier price p c.take_profit_ladder) managed fit

  begin_judge-IsFit :
      (w : Cycle R) (b : Bot R) (p : SpotPosition R) (price : R) (atr : Result Unit (Option R))
      → IsManaged c p
      → IsFitBot c b
      → IsFitStep (begin_judge c w b p price atr)
  begin_judge-IsFit w b p price (err e) managed fit = (fit, tt)
  begin_judge-IsFit w b p price (ok atr) managed fit =
      let q = tightened c (record p { highest_price_sol = max p.highest_price_sol price }) atr in
      let still =
        tightened-IsManaged c (record p { highest_price_sol = max p.highest_price_sol price }) atr
          managed in
      if_cases IsFitStep
        (not (
          should_attempt_sell q.sell_failure_count q.last_sell_failure_at w.now
            c.sell_failure_backoff_base_ms c.sell_failure_backoff_max_ms))
        (λ _. (save-IsFit c b q still fit, tt))
        (λ _. begin_act-IsFit w b q price (full_exit_signal c w.now q price) still fit)

  after_quote-IsFit :
      (w : Cycle R) (b : Bot R) (p : SpotPosition R) (quote : Option ℕ)
      → IsManaged c p
      → IsFitBot c b
      → IsFitStep (after_quote c w b p quote)
  unfolding append_sample
  after_quote-IsFit w b p none managed fit = (fit, tt)
  after_quote-IsFit w b p (some out) managed fit =
      let price = div (div (of_nat out) lamports_per_sol) (of_nat p.remaining_size_tokens) in
      let b' = append_sample b p.mint (record { observed_at = w.now; price_sol = price }) in
      begin_judge-IsFit w b' p price
        (compute_atr (candles_from_prices (map (λ x. x.price_sol) (get_samples b' p.mint)))
          c.atr_period)
        managed fit

  after_balance-IsFit :
      (b : Bot R) (p : SpotPosition R) (balance : Option ℕ)
      → IsManaged c p
      → IsFitBot c b
      → IsFitStep (after_balance c (reconcile_position b p balance))
  unfolding reconcile_position save
  after_balance-IsFit b p none managed fit = (fit, managed)
  after_balance-IsFit b p (some actual) (parts, active) fit =
      let P : Bot R × Option (SpotPosition R) → Type 0 = λ x. IsFitStep (after_balance c x) in
      let noted = log_trade b (corrected p.mint p.remaining_size_tokens actual) in
      if_cases P (actual == p.remaining_size_tokens) (λ _. (fit, (parts, active)))
        (λ _.
          if_cases P (actual == 0)
            (λ _. (
              forget-IsFit c (log_trade b (removed p.mint p.remaining_size_tokens actual)) p.mint
                  fit,
              tt,
            ))
            (λ _.
              if_cases P (ltb actual p.remaining_size_tokens)
                (λ less.
                  let q = record p { remaining_size_tokens = actual } in
                  let fewer : IsManaged c q = (ground (arith, less, parts), active) in
                  (save-IsFit c noted q fewer fit, fewer))
                (λ _. (fit, (parts, active)))))

  begin_check-IsFit :
      (b : Bot R) (p : SpotPosition R)
      → IsHeld c p.mint p
      → IsFitBot c b
      → IsFitStep (begin_check c b p)
  begin_check-IsFit b p (_, parts, given_up) fit =
      if_cases IsFitStep p.abandoned (λ _. (fit, tt))
        (λ active.
          if_cases IsFitStep c.paper_trading (λ _. (fit, (parts, active)))
            (λ _. (fit, (parts, active))))

  after_probe-IsFit :
      (b : Bot R) (e : PassEvent) (probe : Option ℕ)
      → IsFitBot c b
      → IsFitStep (after_probe c b e probe)
  after_probe-IsFit b e none fit = (fit, tt)
  after_probe-IsFit b e (some out) fit = by_size _
    where
      by_size : (o : Option (SizingResult R)) → IsFitStep (begin_buy c b e o)
      by_size none = (fit, tt)
      by_size (some s) =
          if_cases IsFitStep (le s.position_size_sol nought) (λ _. (fit, tt)) (λ _. (fit, tt))

  record_buy-IsFit :
      (b : Bot R) (e : PassEvent) (now : ℕ) (size : R) (swap : Option (ℕ × ℕ))
      → IsFitBot c b
      → IsFitBot c (record_buy c b e now size swap)
  unfolding save append_sample
  record_buy-IsFit b e now size none fit = fit
  record_buy-IsFit b e now size (some (paid, out)) fit =
      set-IsFit c b.positions e.mint _ (refl, omega arith, λ q. absurd (ground (arith, q))) fit

  pub resume-IsFit :
      (w : Cycle R) (v : Buy R) (b : Bot R) (t : Task R)
      → IsFitTask t
      → IsFitBot c b
      → IsFitStep (resume c w v b t)
  unfolding resume
  resume-IsFit w v b (listed p) held fit = begin_check-IsFit b p held fit
  resume-IsFit w v b (reconciling p) managed fit = after_balance-IsFit b p w.balance managed fit
  resume-IsFit w v b (quoting p) managed fit = after_quote-IsFit w b p w.quote managed fit
  resume-IsFit w v b (selling p price amount why tier) managed fit = (
    mark_after-IsFit (record_swap c b p price amount why w.failed_at w.swap) p.mint tier
        (record_swap-IsFit c b p price amount why w.failed_at w.swap managed fit),
    tt,
  )
  resume-IsFit w v b (probing e) known fit = after_probe-IsFit b e v.probe fit
  resume-IsFit w v b (swapping e size) known fit =
      (record_buy-IsFit b e v.now size (v.swap size) fit, tt)

  pub begin_pass-IsFit : (b : Bot R) (e : PassEvent) → IsFitBot c b → IsFitStep (begin_pass c b e)
  unfolding begin_pass
  begin_pass-IsFit b e fit =
      if_cases IsFitStep (not e.is_pass) (λ _. (fit, tt))
        (λ _.
          if_cases IsFitStep (not c.enabled) (λ _. (fit, tt))
            (λ _.
              if_cases IsFitStep (has_key e.mint b.positions) (λ _. (fit, tt))
                (λ _.
                  if_cases IsFitStep (leb c.max_open_positions (length b.positions))
                    (λ _. (fit, tt)) (λ _. (fit, tt)))))
