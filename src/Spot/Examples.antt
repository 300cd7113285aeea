-- ===== src/Spot/Examples.antt =====
-- The spot bot's theorems at concrete files and cycles over the integers, and test runs.
use mathlib.Core.Option.{some-injective}
use opiumo.Number.Integers.{div_ℤ, ℤ_number, ℤ-IsOrdered}
use opiumo.Int.{pos, negsuc, ℤ, ◌+ℤ◌, ◌-ℤ◌, ◌*ℤ◌}
use opiumo.Base.{
  ◌⊎◌, Text, inl, inr, subst, sym, text_eq-cases, List, Option, [], arith, codes, false, lookup,
  none, ok, refl, set, some, text_eq, true, ℕ, ◌&&◌, ◌*◌, ◌+◌, ◌/◌, ◌↔◌, ◌∷◌, ◌≡◌, ◌≤◌,
}
use opiumo.Number.{IsOrdered, Number}
use opiumo.Spot.Averages.{compute_atr-none_iff}
use opiumo.Spot.Buying.{Buy, PassEvent}
use opiumo.Spot.Engine.{Bot, Cycle, act_on_ladder, check_position}
use opiumo.Spot.Keeping.{IsHeld, IsFit}
use opiumo.Spot.Losing.{IsUnsold, failed_tier_is_lost}
use opiumo.Spot.Records.{SpotPosition, TakeProfitStep, TradingConfig}
use opiumo.Spot.Retry.{next_attempt_in_ms, next_attempt_in_ms_iff, should_attempt_sell}
use opiumo.Spot.Rules.{candles_from_prices, compute_atr, next_tier}
use opiumo.Spot.Runs.{run_bot-IsFit}
use opiumo.Spot.Steps.{BotEvent, Live, answered, arrived, run_bot, ticked}
use opiumo.Spot.Sizing.{
  compute_position_size_for_risk, compute_spot_position_size_sol,
  compute_spot_position_size_sol-capped,
}

abbrev whole_share : ℕ → ℤ → ℕ
whole_share tokens (pos percent) = tokens * percent / 100
whole_share tokens (negsuc k) = 0

-- A quarter at twice the entry and the rest at five times; given up after two failures.
abbrev settings : TradingConfig ℤ
settings = record {
  enabled = true;
  paper_trading = false;
  total_capital_sol = pos 10000;
  risk_percent_per_trade = pos 100;
  max_open_positions = 2;
  take_profit_ladder =
      record { at_multiple_of_entry = pos 5; sell_percent_of_remaining = pos 100 }
      ∷ record { at_multiple_of_entry = pos 2; sell_percent_of_remaining = pos 25 }
      ∷ [];
  atr_period = 3;
  atr_stop_multiplier = pos 2;
  fallback_stop_loss_percent = negsuc 99;
  trailing_stop_activate_multiple = pos 9;
  trailing_stop_percent = pos 100;
  time_stop_hours = pos 24;
  max_consecutive_sell_failures = 2;
  sell_failure_backoff_base_ms = 1000;
  sell_failure_backoff_max_ms = 60000;
}

abbrev bought : SpotPosition ℤ
bought = record {
  mint = codes "A";
  decimals = some 6;
  entry_price_sol = pos 10;
  entry_size_tokens = 1000;
  remaining_size_tokens = 1000;
  entry_at = 0;
  highest_price_sol = pos 10;
  executed_ladder_tiers = [];
  stop_loss_price_sol = pos 2;
  sell_failure_count = 0;
  last_sell_failure_at = none;
  abandoned = false;
}

abbrev holding : Bot ℤ
holding = record { positions = (codes "A", bought) ∷ []; price_history = []; trades = [] }

-- A cycle at a price of 20 or more: the first tier is reached.
abbrev cycle : ℕ → Option ℕ → Option ℕ → Cycle ℤ
cycle now balance swap = record {
  now = now;
  balance = balance;
  quote = some (25000 * 1000000000);
  swap = swap;
  failed_at = now + 5;
  share = whole_share;
}

-- The sale of a quarter lands, of the 800 that the wallet still holds.
sold_quarter :
    (check_position settings (cycle 100 (some 800) (some 9)) holding bought).positions
    ≡ (
      codes "A",
      record bought {
        remaining_size_tokens = 600;
        highest_price_sol = pos 31;
        executed_ladder_tiers = pos 2 ∷ [];
      },
    )
      ∷ []
unfolding check_position text_eq set ◌*ℤ◌ ◌+ℤ◌ ◌-ℤ◌
sold_quarter = refl

abbrev second_tier : TakeProfitStep ℤ
second_tier = record { at_multiple_of_entry = pos 2; sell_percent_of_remaining = pos 25 }

failed_tier_is_lost_example :
    let b =
      act_on_ladder settings
        (cycle 100 none none)
        holding
        bought
        (pos 25)
        (ok (some second_tier)) in
    (q : SpotPosition ℤ) × (lookup (codes "A") b.positions ≡ some q)
    × IsUnsold q bought
    × ((multiple : ℤ) (ladder : List (TakeProfitStep ℤ)) (t : TakeProfitStep ℤ)
        → next_tier multiple q.executed_ladder_tiers ladder ≡ some t
        → (ℤ_number.le (pos 2) t.at_multiple_of_entry && ℤ_number.le t.at_multiple_of_entry (pos 2))
          ≡ false)
unfolding text_eq
failed_tier_is_lost_example =
    failed_tier_is_lost settings (cycle 100 none none) holding bought bought (pos 25) second_tier
      refl refl refl refl

next_attempt_in_ms_iff_example :
    (next_attempt_in_ms 3 (some 100) 4200 1000 60000 ≡ 0)
    ↔ (should_attempt_sell 3 (some 100) 4200 1000 60000 ≡ true)
next_attempt_in_ms_iff_example = next_attempt_in_ms_iff 3 (some 100) 4200 1000 60000

compute_atr-none_iff_example :
    (atr : Option ℤ) × (compute_atr (candles_from_prices (pos 10 ∷ pos 14 ∷ pos 11 ∷ pos 11 ∷ [])) 3
      ≡ ok atr)
    × ((atr ≡ none) ↔ (4 ≤ 3))
compute_atr-none_iff_example =
    compute_atr-none_iff (candles_from_prices (pos 10 ∷ pos 14 ∷ pos 11 ∷ pos 11 ∷ [])) 3
      (omega arith)

-- Hundredths: two places after the point.
abbrev hundredths : Number ℤ
hundredths = record ℤ_number {
  of_nat = λ k. pos (k * 100);
  mul = λ a b. div_ℤ (a *ℤ b) (pos 100);
  div = λ a b. div_ℤ (a *ℤ pos 100) b;
}

hundredths-IsOrdered : IsOrdered ℤ ⦃n = hundredths⦄
hundredths-IsOrdered = record {
  numeric_of_le = ℤ-IsOrdered.numeric_of_le;
  le_trans = ℤ-IsOrdered.le_trans;
  le_total = ℤ-IsOrdered.le_total;
  lt-eq-not-le = ℤ-IsOrdered.lt-eq-not-le;
  le-max_left = ℤ-IsOrdered.le-max_left;
  le-max_right = ℤ-IsOrdered.le-max_right;
  min-le_left = ℤ-IsOrdered.min-le_left;
  min-le_right = ℤ-IsOrdered.min-le_right;
  min_either = ℤ-IsOrdered.min_either;
}

abbrev hundredth : ℤ
hundredth =
    hundredths.mul (pos 1000000) (hundredths.div (hundredths.of_nat 1) (hundredths.of_nat 100))

abbrev risked : ℤ
risked =
    hundredths.div
      (hundredths.mul (pos 1000000) (hundredths.div (pos 10000) (hundredths.of_nat 100)))
      (hundredths.div (hundredths.abs (hundredths.sub (pos 10000) (pos 100))) (pos 10000))

-- Everything at risk with a stop almost at nought: the cap of 100 on a capital of 10,000 holds.
compute_spot_position_size_sol-capped_example :
    (hundredths.le (pos 10000) (pos 10000) ≡ true
      → (hundredths.le (pos 10000) hundredth ≡ true) × (hundredths.le (pos 10000) risked ≡ true))
    × ((pos 10000 ≡ hundredth) ⊎ (pos 10000 ≡ risked))
    × (true ≡ hundredths.lt (pos 10000) risked)
    × ¬ (hundredths.le (pos 1000000) (hundredths.of_nat 0) ≡ true)
    × ¬ (hundredths.le (pos 10000) (hundredths.of_nat 0) ≡ true)
    × ¬ (hundredths.le (pos 10000) (hundredths.of_nat 0) ≡ true)
unfolding compute_spot_position_size_sol compute_position_size_for_risk ◌-ℤ◌ ◌*ℤ◌
compute_spot_position_size_sol-capped_example =
    compute_spot_position_size_sol-capped ⦃n = hundredths⦄ ⦃o = hundredths-IsOrdered⦄ (pos 1000000)
      (pos 10000) (pos 10000) (pos 100)
      (record { position_size_sol = pos 10000; capped_by_hard_limit = true }) refl

abbrev token : PassEvent
token = record { mint = codes "B"; decimals = some 6; is_pass = true }

abbrev market : Buy ℤ
market = record { now = 50; probe = some 1; swap = λ size. some (1000, 10) }

-- A buy and two ticks of the timer whose checks of the same position overlap.
abbrev week : List (BotEvent ℤ)
week =
    arrived token
    ∷ ticked
    ∷ answered 1 (cycle 100 none none) market
    ∷ ticked
    ∷ answered 0 (cycle 110 (some 800) none) market
    ∷ answered 0 (cycle 120 none none) market
    ∷ answered 2 (cycle 130 none none) market
    ∷ answered 1 (cycle 140 none (some 9)) market
    ∷ answered 0 (cycle 150 (some 600) none) market
    ∷ []

abbrev idle : Live ℤ
idle = record { bot = holding; tasks = [] }

at_a :
    {k : Text} {p : SpotPosition ℤ}
    → k ≡ codes "A"
    → lookup k holding.positions ≡ some p
    → some bought ≡ some p
unfolding text_eq
at_a {p = p} here e = subst (λ x. lookup x holding.positions ≡ some p) here e

holding-IsFit : IsFit settings holding.positions
holding-IsFit = record {
  distinct = (refl, tt);
  held = λ k p e. elim (text_eq-cases k (codes "A")) [
    | inl here ↦
        subst (λ x. IsHeld settings k x) (some-injective bought p (at_a here e))
          (sym here, omega arith, λ q. absurd (ground (arith, q)))
    | inr (off, _) ↦ absurd (ground (arith, off, e))
  ];
}

run_bot-IsFit_example : IsFit settings (run_bot settings idle week).bot.positions
run_bot-IsFit_example = run_bot-IsFit settings idle week refl holding-IsFit

-- Six places after the point.
abbrev millionths : Number ℤ
millionths = record ℤ_number {
  of_nat = λ k. pos (k * 1000000);
  mul = λ a b. div_ℤ (a *ℤ b) (pos 1000000);
  div = λ a b. div_ℤ (a *ℤ pos 1000000) b;
}

-- A hundred SOL, one in a hundred at risk, and the stop ten in a hundred below the entry.
abbrev hundred_sol : TradingConfig ℤ
hundred_sol = record settings {
  total_capital_sol = pos 100000000;
  risk_percent_per_trade = pos 1000000;
  fallback_stop_loss_percent = negsuc 9999999;
}

abbrev other_token : PassEvent
other_token = record token { mint = codes "C" }
