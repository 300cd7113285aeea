-- ===== src/Spot/Rules.antt =====
-- src/trading/exitLogic.ts and src/trading/atr.ts: the exit rules. A rule answers its signal, or none
-- where it is not triggered; an exception is `err`.
use opiumo.Base.{
  drop, Result, [], any, err, false, if◌then◌else◌, length, ltb, map, none, not, ok, some, ℕ, ◌&&◌,
  ◌+◌, ◌-◌, ◌==◌, ◌∷◌, Bool, List, Option,
}
use opiumo.Number.{Number, nought}
use opiumo.Spot.Records.{
  ExitReason, ExitSignal, SpotPosition, TakeProfitStep, TradingConfig, atr_stop_loss, time_stop,
  trailing_stop,
}

pub record Candle (R : Type 0) : Type 0 where
  pub high : R
  pub low : R
  pub close : R

-- `slice(-count)`, for a count that is not nought.
abbrev pub last_of {ℓ} : {A : Type ℓ} → ℕ → List A → List A
last_of count xs = drop (length xs - count) xs

module _ {R : Type 0} ⦃n : Number R⦄ where
  open n use {of_nat, add, sub, mul, div, le, lt, max, min, abs}

  abbrev pub candles_from_prices : List R → List (Candle R)
  candles_from_prices prices = map (λ p. record { high = p; low = p; close = p }) prices

  abbrev pub true_range : Candle R → Candle R → R
  true_range prev curr =
      max (max (sub curr.high curr.low) (abs (sub curr.high prev.close)))
        (abs (sub curr.low prev.close))

  unfoldable pub true_ranges : List (Candle R) → List R
  true_ranges [] = []
  true_ranges (c ∷ []) = []
  true_ranges (c ∷ d ∷ ds) = true_range c d ∷ true_ranges (d ∷ ds)

  abbrev pub sum_from : R → List R → R
  sum_from total [] = total
  sum_from total (x ∷ xs) = sum_from (add total x) xs

  -- `err` is the exception of a period of nought.
  unfoldable pub compute_atr : List (Candle R) → ℕ → Result Unit (Option R)
  unfolding true_ranges
  compute_atr candles period =
      if period == 0
      then err tt
      else (if ltb (length candles) (period + 1)
          then ok none
          else (let relevant = last_of period (true_ranges candles) in
              if ltb (length relevant) period
              then ok none
              else ok (some (div (sum_from nought relevant) (of_nat period)))))

  unfoldable pub compute_multiple : R → R → Result Unit R
  compute_multiple current_price entry_price =
      if le entry_price nought then err tt else ok (div current_price entry_price)

  abbrev pub compute_atr_stop_price : R → R → R → R
  compute_atr_stop_price entry_price atr multiplier = sub entry_price (mul multiplier atr)

  abbrev pub full_exit : ExitReason → ExitSignal R
  full_exit why = record { reason = why; sell_percent_of_remaining = of_nat 100 }

  unfoldable pub check_atr_stop_loss : R → SpotPosition R → Option (ExitSignal R)
  check_atr_stop_loss price p =
      if le price p.stop_loss_price_sol then some (full_exit atr_stop_loss) else none

  unfoldable pub check_trailing_stop : R → SpotPosition R → TradingConfig R → Option (ExitSignal R)
  check_trailing_stop price p c =
      if not (le c.trailing_stop_activate_multiple (div p.highest_price_sol p.entry_price_sol))
      then none
      else (if le price
            (mul p.highest_price_sol (sub (of_nat 1) (div c.trailing_stop_percent (of_nat 100))))
          then some (full_exit trailing_stop)
          else none)

  -- `Math.min` of the multiples; `none` is the infinity that it gives of no arguments.
  abbrev pub first_tier_multiple : List (TakeProfitStep R) → Option R
  first_tier_multiple [] = none
  first_tier_multiple (t ∷ ts) = some (elim (first_tier_multiple ts) [
    | none ↦ t.at_multiple_of_entry
    | some x ↦ min t.at_multiple_of_entry x
  ])

  abbrev pub reached : R → Option R → Bool
  reached multiple none = false
  reached multiple (some x) = le x multiple

  unfoldable pub check_time_stop :
      ℕ → SpotPosition R → List (TakeProfitStep R) → R → Option (ExitSignal R)
  check_time_stop now p ladder time_stop_hours =
      if lt (div (sub (of_nat now) (of_nat p.entry_at)) (of_nat 3600000)) time_stop_hours
      then none
      else (if reached (div p.highest_price_sol p.entry_price_sol) (first_tier_multiple ladder)
          then none
          else some (full_exit time_stop))

  -- The stable order of `sort`.
  abbrev pub insert_tier : TakeProfitStep R → List (TakeProfitStep R) → List (TakeProfitStep R)
  insert_tier t [] = t ∷ []
  insert_tier t (u ∷ us) =
      if lt u.at_multiple_of_entry t.at_multiple_of_entry then u ∷ insert_tier t us else t ∷ u ∷ us

  unfoldable pub sort_ladder : List (TakeProfitStep R) → List (TakeProfitStep R)
  sort_ladder [] = []
  sort_ladder (t ∷ ts) = insert_tier t (sort_ladder ts)

  -- `includes` on numbers.
  abbrev pub is_executed : List R → R → Bool
  is_executed tiers x = any (λ y. le x y && le y x) tiers

  -- The first tier that is not executed and that the multiple has reached.
  abbrev pub next_tier : R → List R → List (TakeProfitStep R) → Option (TakeProfitStep R)
  next_tier multiple executed [] = none
  next_tier multiple executed (t ∷ ts) =
      if not (is_executed executed t.at_multiple_of_entry) && le t.at_multiple_of_entry multiple
      then some t
      else next_tier multiple executed ts

  -- The tier that fires with its signal's share; `err` is the exception of `computeMultiple`.
  unfoldable pub check_ladder_tier :
      R → SpotPosition R → List (TakeProfitStep R) → Result Unit (Option (TakeProfitStep R))
  unfolding compute_multiple sort_ladder
  check_ladder_tier price p ladder = elim (compute_multiple price p.entry_price_sol) [
    | err e ↦ err e
    | ok multiple ↦ ok (next_tier multiple p.executed_ladder_tiers (sort_ladder ladder))
  ]
