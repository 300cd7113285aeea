-- ===== src/Spot/Averages.antt =====
-- When `computeATR` (src/trading/atr.ts) has an average to give.
use opiumo.Base.{
  length-drop, Result, if_cases, ltb, some, ◌+◌, ◌==◌, Option, [], arith, length, none, ok, refl,
  ◌-◌, ◌<◌, ◌↔◌, ◌∷◌, ◌≡◌, ◌≤◌, List, ℕ,
}
use opiumo.Number.{Number}
use opiumo.Spot.Rules.{last_of, Candle, compute_atr, true_ranges}

module _ {R : Type 0} ⦃n : Number R⦄ where
  length-true_ranges : (cs : List (Candle R)) → length (true_ranges cs) ≡ length cs - 1
  unfolding true_ranges
  length-true_ranges [] = refl
  length-true_ranges (c ∷ []) = refl
  length-true_ranges (c ∷ d ∷ ds) = omega (arith, length-true_ranges (d ∷ ds))

  -- For a period that is not nought the average never throws, and it is missing exactly where there
  -- are not more candles than the period: the second test of the code, on the ranges that are left,
  -- never fires.
  pub compute_atr-none_iff :
      (candles : List (Candle R)) (period : ℕ)
      → 0 < period
      → (atr : Option R) × (compute_atr candles period ≡ ok atr)
        × ((atr ≡ none) ↔ (length candles ≤ period))
  unfolding compute_atr
  compute_atr-none_iff candles period some_period =
      if_cases P (period == 0) (λ z. absurd (ground (arith, z, some_period)))
        (λ _.
          if_cases P (ltb (length candles) (period + 1))
            (λ few. (none, refl, (λ _. ground (arith, few), λ _. refl)))
            (λ many.
              let ranges = true_ranges candles in
              if_cases P (ltb (length (last_of period ranges)) period)
                (λ short. absurd (
                  ground (
                    arith,
                    short,
                    many,
                    some_period,
                    length-true_ranges candles,
                    length-drop (length ranges - period) ranges,
                  )))
                (λ _. (
                  some _,
                  refl,
                  (λ e. absurd (ground (arith, e)), λ h. absurd (ground (arith, h, many))),
                ))))
    where
      P : Result Unit (Option R) → Type 0
      P x = (atr : Option R) × (x ≡ ok atr) × ((atr ≡ none) ↔ (length candles ≤ period))
