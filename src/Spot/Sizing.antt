-- ===== src/Spot/Sizing.antt =====
-- src/trading/sizing.ts and src/util/riskSizing.ts: the size of a position. `none` is an exception.
use mathlib.Core.Option.{some-injective}
use opiumo.Base.{
  inl, inr, ◌⊎◌, refl, arith, subst, if◌then◌else◌, none, some, ◌&&◌, ◌≡◌, Bool, Option,
}
use opiumo.Number.{IsNumeric, IsOrdered, Number, nought, ◌≼◌}

pub record SizingResult (R : Type 0) : Type 0 where
  pub position_size_sol : R
  pub capped_by_hard_limit : Bool

module _ {R : Type 0} ⦃n : Number R⦄ where
  open n use {of_nat, sub, mul, div, le, lt, min, abs}

  abbrev pub hard_cap_percent_of_capital : R
  hard_cap_percent_of_capital = of_nat 1

  -- Whether a number is `=== 0`.
  abbrev pub is_nought : R → Bool
  is_nought x = le x nought && le nought x

  unfoldable pub compute_position_size_for_risk : R → R → R → R → Option R
  compute_position_size_for_risk account_value risk_percent entry_price stop_price =
      if le account_value nought
      then none
      else (if le risk_percent nought
          then none
          else (if le entry_price nought
              then none
              else (let fraction = div (abs (sub entry_price stop_price)) entry_price in
                  if is_nought fraction
                  then none
                  else some (div (mul account_value (div risk_percent (of_nat 100))) fraction))))

  abbrev pub hard_cap_sol : R → R
  hard_cap_sol total_capital_sol =
      mul total_capital_sol (div hard_cap_percent_of_capital (of_nat 100))

  abbrev pub capped : R → Option R → Option (SizingResult R)
  capped total_capital_sol none = none
  capped total_capital_sol (some risk_based) =
      let size = min risk_based (hard_cap_sol total_capital_sol) in
      some (record { position_size_sol = size; capped_by_hard_limit = lt size risk_based })

  unfoldable pub compute_spot_position_size_sol : R → R → R → R → Option (SizingResult R)
  unfolding compute_position_size_for_risk
  compute_spot_position_size_sol total_capital_sol risk_percent entry_price stop_price =
      if le total_capital_sol nought
      then none
      else capped total_capital_sol
          (compute_position_size_for_risk total_capital_sol risk_percent entry_price stop_price)

  -- The size at which the stop loses the given percentage of the capital.
  abbrev pub risk_sol : R → R → R → R → R
  risk_sol capital risk entry stop =
      div (mul capital (div risk (of_nat 100))) (div (abs (sub entry stop)) entry)

  -- The hundredth of the capital, written out.
  abbrev pub IsSized : R → R → SizingResult R → Type 0
  IsSized capital risk_based s =
      let size = s.position_size_sol in
      let hundredth = mul capital (div (of_nat 1) (of_nat 100)) in
      (IsNumeric size → (size ≼ hundredth) × (size ≼ risk_based))
      × ((size ≡ hundredth) ⊎ (size ≡ risk_based))
      × (s.capped_by_hard_limit ≡ lt size risk_based)

  capped_size :
      ⦃o : IsOrdered R⦄ (capital x : R) (s : SizingResult R)
      → capped capital (some x) ≡ some s
      → IsSized capital x s
  capped_size ⦃o⦄ capital x s e = subst (IsSized capital x) (some-injective _ s e) (
    λ h. (o.min-le_right x (hard_cap_sol capital) h, o.min-le_left x (hard_cap_sol capital) h),
    elim (o.min_either x (hard_cap_sol capital)) [ inl it ↦ inr it | inr it ↦ inl it ],
    refl,
  )

  -- Whatever the settings say, a position that is sized is the size that the risk allows or one
  -- hundredth of the capital, and if it is a number then it is at most each of these; it is marked
  -- as capped exactly if it is below what the risk allows. The capital, the risk and the entry are
  -- then not at or below nought.
  pub compute_spot_position_size_sol-capped :
      ⦃o : IsOrdered R⦄ (capital risk entry stop : R) (s : SizingResult R)
      → compute_spot_position_size_sol capital risk entry stop ≡ some s
      → (IsNumeric s.position_size_sol
          → (s.position_size_sol ≼ mul capital (div (of_nat 1) (of_nat 100)))
            × (s.position_size_sol
                ≼ div (mul capital (div risk (of_nat 100))) (div (abs (sub entry stop)) entry)))
        × ((s.position_size_sol ≡ mul capital (div (of_nat 1) (of_nat 100)))
            ⊎ (s.position_size_sol
                ≡ div (mul capital (div risk (of_nat 100))) (div (abs (sub entry stop)) entry)))
        × (s.capped_by_hard_limit
            ≡ lt s.position_size_sol
                (div (mul capital (div risk (of_nat 100))) (div (abs (sub entry stop)) entry)))
        × ¬ (capital ≼ nought)
        × ¬ (risk ≼ nought)
        × ¬ (entry ≼ nought)
  unfolding compute_spot_position_size_sol compute_position_size_for_risk
  compute_spot_position_size_sol-capped capital risk entry stop s e =
      let sized : capped capital (some (risk_sol capital risk entry stop)) ≡ some s =
        ground (arith, e) in
      let (below, either, flag) = capped_size capital (risk_sol capital risk entry stop) s sized in
      (below, either, flag, ground (arith, e), ground (arith, e), ground (arith, e))
