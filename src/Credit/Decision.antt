-- ===== src/Credit/Decision.antt =====
-- src/rpc/creditBudget.ts, the settings and "the decision". The prose of `detail` is left out.
use opiumo.Base.{
  ◌>>=◌, Result, err, ok, ℕ, Bool, true, false, ◌&&◌, ◌||◌, not, Option, none, some, Text, leb,
  ◌==◌, is_some, if◌then◌else◌,
}
use opiumo.Platform.{Runtime, Value, number, next_day_start}
use opiumo.Number.{Number, nought}
use opiumo.Credit.Ledger.{LedgerState}

pub data Setting : Type 0 where
  daily_credits monthly_credits : Setting

pub data ConfigError : Type 0 where
  not_finite_positive : Setting → ConfigError
  warn_fraction_out_of_range : ConfigError
  daily_exceeds_monthly : ConfigError

-- A budget as the configuration file gives it.
pub record RawBudget (R : Type 0) : Type 0 where
  pub enabled : Bool
  pub daily_credits : Value
  pub monthly_credits : Value
  -- `none` where it is not a number
  pub warn_fraction : Option R

-- A budget that passed `validateCreditBudget`, with the types that the checks establish.
pub record CreditBudgetConfig (R : Type 0) : Type 0 where
  pub enabled : Bool
  pub daily_credits : ℕ
  pub monthly_credits : ℕ
  pub warn_fraction : R

-- `ok` is the settings as checked, `err` the exception.
abbrev pub Checked : Type 0 → Type 0
Checked A = Result ConfigError A

unfoldable pub finite_positive : Value → Setting → Checked ℕ
finite_positive (number n) name = if n == 0 then err (not_finite_positive name) else ok n
finite_positive _ name = err (not_finite_positive name)

pub data BudgetReason : Type 0 where
  breaker_disabled within_budget warn_threshold : BudgetReason
  daily_limit_reached monthly_limit_reached manual_override : BudgetReason

pub record BudgetDecision (R : Type 0) : Type 0 where
  pub allowed : Bool
  pub reason : BudgetReason
  pub warning : Bool
  pub day_credits : ℕ
  pub month_credits : ℕ
  pub day_fraction : R
  pub month_fraction : R
  pub resumes_at : Option Text

-- `nextUtcMidnight` and `nextUtcMonthStart`.
abbrev pub next_utc_midnight : Runtime → ℕ → Text
next_utc_midnight r at = r.iso (next_day_start at)

abbrev pub next_utc_month_start : Runtime → ℕ → Text
next_utc_month_start r at = r.iso (r.next_month_start at)

module _ {R : Type 0} ⦃n : Number R⦄ where
  open n use {of_nat, div, le, lt}

  abbrev checked_fraction : Option R → Checked R
  checked_fraction none = err warn_fraction_out_of_range
  checked_fraction (some w) =
      if not (lt nought w) || lt (of_nat 1) w then err warn_fraction_out_of_range else ok w

  abbrev in_order : CreditBudgetConfig R → Checked (CreditBudgetConfig R)
  in_order c = if leb c.daily_credits c.monthly_credits then ok c else err daily_exceeds_monthly

  unfoldable pub validate_credit_budget : RawBudget R → Checked (CreditBudgetConfig R)
  unfolding finite_positive
  validate_credit_budget c = do
    daily ← finite_positive c.daily_credits daily_credits
    monthly ← finite_positive c.monthly_credits monthly_credits
    warn ← checked_fraction c.warn_fraction
    in_order (record {
      enabled = c.enabled;
      daily_credits = daily;
      monthly_credits = monthly;
      warn_fraction = warn;
    })

  unfoldable pub evaluate_budget :
      Runtime → CreditBudgetConfig R → LedgerState → ℕ → BudgetDecision R
  evaluate_budget r config state at =
      if not config.enabled
      then decided true breaker_disabled false none
      else (if over_limit && is_some state.override
          then decided true manual_override true none
          else (if leb config.monthly_credits month_spent
              then decided false monthly_limit_reached true (some (next_utc_month_start r at))
              else (if leb config.daily_credits day_spent
                  then decided false daily_limit_reached true (some (next_utc_midnight r at))
                  else (if le config.warn_fraction day_part || le config.warn_fraction month_part
                      then decided true warn_threshold true none
                      else decided true within_budget false none))))
    where
      day_spent : ℕ
      day_spent = state.day.credits

      month_spent : ℕ
      month_spent = state.month.credits

      day_part : R
      day_part = div (of_nat day_spent) (of_nat config.daily_credits)

      month_part : R
      month_part = div (of_nat month_spent) (of_nat config.monthly_credits)

      over_limit : Bool
      over_limit = leb config.monthly_credits month_spent || leb config.daily_credits day_spent

      decided : Bool → BudgetReason → Bool → Option Text → BudgetDecision R
      decided allowed reason warning resumes = record {
        allowed = allowed;
        reason = reason;
        warning = warning;
        day_credits = day_spent;
        month_credits = month_spent;
        day_fraction = day_part;
        month_fraction = month_part;
        resumes_at = resumes;
      }
