-- ===== src/Credit/Limits.antt =====
-- When the breaker stops detection, and what it says then.
use opiumo.Base.{ok, ℕ, ◌≤◌, ◌<◌, ◌≡◌, ◌↔◌, ◌⊎◌, true, false, some, none, arith}
use opiumo.Platform.{Runtime, number}
use opiumo.Number.{Number, nought}
use opiumo.Credit.Ledger.{LedgerState}
use opiumo.Credit.Decision.{
  CreditBudgetConfig, RawBudget, evaluate_budget, validate_credit_budget, monthly_limit_reached,
  daily_limit_reached, next_utc_midnight, next_utc_month_start,
}

module _ {R : Type 0} ⦃n : Number R⦄ (r : Runtime) (c : CreditBudgetConfig R) (s : LedgerState)
    (at : ℕ) where
  -- Detection is refused exactly when the breaker is on, the ledger holds no override, and the
  -- month's credits or the day's credits have reached their limit.
  pub evaluate_budget-refuses_iff : ((evaluate_budget r c s at).allowed ≡ false) ↔ (
      (c.enabled ≡ true)
      × (s.override ≡ none)
      × ((c.monthly_credits ≤ s.month.credits) ⊎ (c.daily_credits ≤ s.day.credits)))
  unfolding evaluate_budget
  evaluate_budget-refuses_iff = (ground arith, ground arith)

  -- A refusal names the month's limit and the start of the next month whenever the month is spent,
  -- and only otherwise the day's limit and the next midnight. A decision that allows detection
  -- names no time to resume at.
  pub evaluate_budget-resumes_at :
      let d = evaluate_budget r c s at in
      (d.allowed ≡ false
        → c.monthly_credits ≤ s.month.credits
        → (d.reason ≡ monthly_limit_reached) × (d.resumes_at ≡ some (next_utc_month_start r at)))
      × (d.allowed ≡ false
          → s.month.credits < c.monthly_credits
          → (d.reason ≡ daily_limit_reached) × (d.resumes_at ≡ some (next_utc_midnight r at)))
      × (d.allowed ≡ true → d.resumes_at ≡ none)
  unfolding evaluate_budget
  evaluate_budget-resumes_at = (ground arith, ground arith, ground arith)

module _ {R : Type 0} ⦃n : Number R⦄ where
  -- A budget that passes validation has limits above zero, a daily limit within the monthly one,
  -- and the settings that the file gave, so that neither limit can be reached by an empty ledger.
  pub validate_credit_budget_sound :
      (raw : RawBudget R) {c : CreditBudgetConfig R}
      → validate_credit_budget raw ≡ ok c
      → (0 < c.daily_credits)
        × (c.daily_credits ≤ c.monthly_credits)
        × (raw.daily_credits ≡ number c.daily_credits)
        × (raw.monthly_credits ≡ number c.monthly_credits)
        × (raw.warn_fraction ≡ some c.warn_fraction)
        × (n.lt nought c.warn_fraction ≡ true)
        × (n.lt (n.of_nat 1) c.warn_fraction ≡ false)
        × (raw.enabled ≡ c.enabled)
  unfolding validate_credit_budget
  validate_credit_budget_sound raw e = ground arith
