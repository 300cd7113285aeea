-- ===== src/Credit/Breaker.antt =====
-- src/rpc/creditBudget.ts, `class CreditBreaker`. The object's fields and the ledger file are the
-- state; a method that throws leaves the state as it was and returns `none`.
use opiumo.Base.{
  ℕ, ◌+◌, ◌-◌, Bool, true, false, ◌||◌, not, Option, none, some, List, [], ◌∷◌, Text, trim, ltb,
  leb, is_some, if◌then◌else◌,
}
use opiumo.Platform.{Runtime, Value}
use opiumo.Number.{Number}
use opiumo.Credit.Ledger.{
  LedgerState, LedgerPeriod, LedgerFile, ManualOverride, utc_day_key, roll_to, load_ledger, stored,
}
use opiumo.Credit.Decision.{CreditBudgetConfig, BudgetDecision, evaluate_budget}
use opiumo.Credit.Pricing.{credits_for_batch}

pub record CreditBreaker (R : Type 0) : Type 0 where
  pub config : CreditBudgetConfig R
  pub state : LedgerState
  pub dirty : Bool
  pub last_meter_credits : ℕ
  pub last_persist_ms : ℕ
  -- the ledger file, as the disk holds it
  pub file : LedgerFile

abbrev add_credits : LedgerPeriod → ℕ → LedgerPeriod
add_credits p c = record p { credits = p.credits + c }

-- The credits since the meter was last read; a lower total is a new process.
unfoldable pub meter_delta : ℕ → ℕ → ℕ
meter_delta last total = if leb last total then total - last else total

module _ {R : Type 0} (r : Runtime) where
  -- The constructor, for a budget that `validate_credit_budget` let through.
  unfoldable pub start : (Value → Text) → CreditBudgetConfig R → LedgerFile → ℕ → CreditBreaker R
  start print config file now = record {
    config = config;
    state = roll_to r (load_ledger r print file now) now;
    dirty = false;
    last_meter_credits = 0;
    last_persist_ms = 0;
    file = file;
  }

  unfoldable pub charge : CreditBreaker R → ℕ → ℕ → CreditBreaker R
  charge b credits at =
      if ltb 0 credits
      then (let rolled = roll_to r b.state at in
          record b {
            state = record rolled {
              day = add_credits rolled.day credits;
              month = add_credits rolled.month credits;
            };
            dirty = true;
          })
      else b

  unfoldable pub charge_batch : CreditBreaker R → List Text → ℕ → CreditBreaker R × ℕ
  unfolding charge
  charge_batch b methods at =
      let credits = credits_for_batch methods in (charge b credits at, credits)

  -- `none` is a total that is not finite or is negative.
  unfoldable pub charge_from_meter : CreditBreaker R → Option ℕ → ℕ → CreditBreaker R × ℕ
  unfolding charge meter_delta
  charge_from_meter b none at = (b, 0)
  charge_from_meter b (some total) at =
      let delta = meter_delta b.last_meter_credits total in
      (charge (record b { last_meter_credits = total }) delta at, delta)

  unfoldable pub decide : ⦃n : Number R⦄ → CreditBreaker R → ℕ → CreditBreaker R × BudgetDecision R
  decide b at =
      let rolled = roll_to r b.state at in
      (record b { state = rolled }, evaluate_budget r b.config rolled at)

  -- Writes the temporary file and renames it over the ledger.
  unfoldable pub persist : CreditBreaker R → CreditBreaker R
  persist b = if b.dirty then record b { dirty = false; file = stored b.state } else b

  unfoldable pub persist_throttled : CreditBreaker R → ℕ → ℕ → CreditBreaker R × Bool
  persist_throttled b now_ms min_interval_ms =
      if not b.dirty || ltb now_ms (b.last_persist_ms + min_interval_ms)
      then (b, false)
      else (persist (record b { last_persist_ms = now_ms }), true)

  -- The override itself, for a reason that has been trimmed: none is the exception on a blank one.
  unfoldable pub grant_trimmed : CreditBreaker R → Text → ℕ → Option (CreditBreaker R)
  grant_trimmed b [] at = none
  grant_trimmed b (c ∷ rest) at =
      let rolled = roll_to r b.state at in
      let granted : ManualOverride = record {
        day = utc_day_key r at;
        reason = c ∷ rest;
        granted_at = r.iso at;
      } in
      some (persist (record b { state = record rolled { override = some granted }; dirty = true }))

  unfoldable pub grant_override : CreditBreaker R → Text → ℕ → Option (CreditBreaker R)
  unfolding grant_trimmed trim
  grant_override b reason at = grant_trimmed b (trim reason) at

  unfoldable pub clear_override : CreditBreaker R → CreditBreaker R
  clear_override b =
      if is_some b.state.override
      then persist (record b { state = record (b.state) { override = none }; dirty = true })
      else b
