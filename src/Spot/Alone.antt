-- ===== src/Spot/Alone.antt =====
-- src/trading/engine.ts: a call that nothing interrupts is its steps put together.
use opiumo.Base.{
  Bool, false, true, Option, Result, ℕ, err, has_key, leb, length, map, none, not, ok, refl, some,
  suc, ◌==◌, ◌≡◌, if◌then◌else◌,
}
use opiumo.Number.{Number, nought}
use opiumo.Spot.Buying.{Buy, PassEvent, buy_probed, buy_size, on_filter_pass}
use opiumo.Spot.Engine.{
  Bot, Cycle, append_sample, get_samples, lamports_per_sol, act_on, act_on_ladder, check_position,
  execute_exit, judge_position, reconcile_position, save, watch_price, watch_reconciled, tightened,
  full_exit_signal,
}
use opiumo.Spot.Records.{
  ExitReason, ladder_tier, ExitSignal, SpotPosition, TakeProfitStep, TradingConfig,
}
use opiumo.Spot.Rules.{candles_from_prices, check_ladder_tier, compute_atr}
use opiumo.Spot.Retry.{should_attempt_sell}
use opiumo.Spot.Sizing.{SizingResult}
use opiumo.Spot.Steps.{
  after_balance, after_probe, after_quote, begin_act, begin_buy, begin_exit, begin_judge,
  begin_ladder, begin_pass, listed, mark_after, resume, run_alone,
}

-- Two functions that agree on each branch of a test agree on the test.
both_branches {ℓ κ μ} :
    {A : Type ℓ} {B : Type κ} {C : Type μ} (f : A → C) (g : B → C) (b : Bool) (x y : A) (x' y' : B)
    → f x ≡ g x'
    → f y ≡ g y'
    → f (if b then x else y) ≡ g (if b then x' else y')
both_branches f g true x y x' y' h k = h
both_branches f g false x y x' y' h k = k

module _ {R : Type 0} ⦃n : Number R⦄ (c : TradingConfig R) (w : Cycle R) (v : Buy R) where
  open n use {of_nat, div, le, max}

  end_exit :
      (k : ℕ) (b : Bot R) (p : SpotPosition R) (price percent : R) (why : ExitReason)
      (tier : Option R)
      → run_alone c w v (suc k) (begin_exit c w b p price percent why tier)
        ≡ mark_after c (execute_exit c w b p price percent why) p.mint tier
  unfolding run_alone resume execute_exit
  end_exit k b p price percent why tier =
      both_branches (run_alone c w v (suc k)) (λ x. mark_after c x p.mint tier)
        (w.share p.remaining_size_tokens percent == 0) _ _ _ _ refl refl

  end_ladder :
      (k : ℕ) (b : Bot R) (p : SpotPosition R) (price : R)
      (fired : Result Unit (Option (TakeProfitStep R)))
      → run_alone c w v (suc k) (begin_ladder c w b p price fired)
        ≡ act_on_ladder c w b p price fired
  unfolding run_alone
  end_ladder k b p price (err e) = refl
  end_ladder k b p price (ok none) = refl
  end_ladder k b p price (ok (some tier)) =
      end_exit k b p price tier.sell_percent_of_remaining ladder_tier
        (some tier.at_multiple_of_entry)

  end_act :
      (k : ℕ) (b : Bot R) (p : SpotPosition R) (price : R) (signal : Option (ExitSignal R))
      → run_alone c w v (suc k) (begin_act c w b p price signal) ≡ act_on c w b p price signal
  end_act k b p price (some s) = end_exit k b p price (of_nat 100) s.reason none
  end_act k b p price none = end_ladder k b p price (check_ladder_tier price p c.take_profit_ladder)

  end_judge :
      (k : ℕ) (b : Bot R) (p : SpotPosition R) (price : R) (atr : Result Unit (Option R))
      → run_alone c w v (suc k) (begin_judge c w b p price atr) ≡ judge_position c w b p price atr
  unfolding run_alone
  end_judge k b p price (err e) = refl
  end_judge k b p price (ok atr) =
      let q = tightened c (record p { highest_price_sol = max p.highest_price_sol price }) atr in
      both_branches (run_alone c w v (suc k)) (λ x. x)
        (not (
          should_attempt_sell q.sell_failure_count q.last_sell_failure_at w.now
            c.sell_failure_backoff_base_ms c.sell_failure_backoff_max_ms))
        (save b q, none) (begin_act c w b q price (full_exit_signal c w.now q price)) (save b q)
        (act_on c w b q price (full_exit_signal c w.now q price)) refl
        (end_act k b q price (full_exit_signal c w.now q price))

  end_quote :
      (k : ℕ) (b : Bot R) (p : SpotPosition R) (quote : Option ℕ)
      → run_alone c w v (suc k) (after_quote c w b p quote) ≡ watch_price c w b p quote
  unfolding run_alone
  end_quote k b p none = refl
  end_quote k b p (some out) =
      let price = div (div (of_nat out) lamports_per_sol) (of_nat p.remaining_size_tokens) in
      let b' = append_sample b p.mint (record { observed_at = w.now; price_sol = price }) in
      end_judge k b' p price (
        compute_atr (candles_from_prices (map (λ x. x.price_sol) (get_samples b' p.mint)))
          c.atr_period)

  end_balance :
      (k : ℕ) (x : Bot R × Option (SpotPosition R))
      → run_alone c w v (suc (suc k)) (after_balance c x) ≡ watch_reconciled c w x
  unfolding run_alone resume
  end_balance k (b, none) = refl
  end_balance k (b, some p) = end_quote k b p w.quote

  end_check :
      (b : Bot R) (p : SpotPosition R)
      → run_alone c w v 4 (b, some (listed p)) ≡ check_position c w b p
  unfolding run_alone resume check_position
  end_check b p =
      both_branches (run_alone c w v 3) (λ x. x) p.abandoned _ _ _ _ refl
        (both_branches (run_alone c w v 3) (watch_reconciled c w) c.paper_trading _ _ _ _
          (end_quote 1 b p w.quote) (end_balance 0 (reconcile_position b p w.balance)))

  end_probe :
      (b : Bot R) (e : PassEvent) (probe : Option ℕ)
      → run_alone c w v 1 (after_probe c b e probe) ≡ buy_probed c v b e probe
  unfolding run_alone resume
  end_probe b e none = refl
  end_probe b e (some out) = by_size _
    where
      by_size :
          (o : Option (SizingResult R)) → run_alone c w v 1 (begin_buy c b e o) ≡ buy_size c v b e o
      by_size none = refl
      by_size (some s) =
          both_branches (run_alone c w v 1) (λ x. x) (le s.position_size_sol nought) _ _ _ _ refl
            refl

  end_pass :
      (b : Bot R) (e : PassEvent) → run_alone c w v 2 (begin_pass c b e) ≡ on_filter_pass c v b e
  unfolding run_alone resume begin_pass on_filter_pass
  end_pass b e =
      both_branches (run_alone c w v 2) (λ x. x) (not e.is_pass) _ _ _ _ refl
        (both_branches (run_alone c w v 2) (λ x. x) (not c.enabled) _ _ _ _ refl
          (both_branches (run_alone c w v 2) (λ x. x) (has_key e.mint b.positions) _ _ _ _ refl
            (both_branches (run_alone c w v 2) (λ x. x)
              (leb c.max_open_positions (length b.positions)) _ _ _ _ refl
              (end_probe b e v.probe))))

  -- With nothing else running, a cycle for a position ends after at most four waits with what
  -- `check_position` gives, and a token that passes ends after at most two with what
  -- `on_filter_pass` gives.
  pub run_alone_ends :
      (b : Bot R) (p : SpotPosition R) (e : PassEvent)
      → (run_alone c w v 4 (b, some (listed p)) ≡ check_position c w b p)
        × (run_alone c w v 2 (begin_pass c b e) ≡ on_filter_pass c v b e)
  run_alone_ends b p e = (end_check b p, end_pass b e)
