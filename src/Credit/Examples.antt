-- ===== src/Credit/Examples.antt =====
-- The breaker's theorems at concrete ledgers, and test runs.
use opiumo.Number.Integers.{ℤ_number}
use opiumo.Base.{
  List, text_eq, ℕ, Text, [], arith, false, none, refl, some, take, true, ◌*◌, ◌+◌, ◌/◌, ◌↔◌, ◌∷◌,
  ◌≡◌, ◌≤◌, ◌⊎◌,
}
use opiumo.Credit.Breaker.{
  charge_from_meter, clear_override, decide, persist_throttled, CreditBreaker, charge, persist,
  start,
}
use opiumo.Credit.Decision.{RawBudget, CreditBudgetConfig, evaluate_budget}
use opiumo.Credit.Ledger.{load_ledger, parsed, roll_to, stored, utc_day_key, LedgerState, missing}
use opiumo.Credit.Limits.{evaluate_budget-refuses_iff}
use opiumo.Int.{pos, ℤ}
use opiumo.Platform.{number, text, Runtime, Value, ms_per_day}
use opiumo.Credit.Balance.{IsBalanced}
use opiumo.Credit.Halts.{IsHalted, IsSpent, decide_stays_refused}
use opiumo.Credit.History.{
  Event, IsSound, apply, charges, clears, meters, restarts, run, run-start-IsSound, throttles,
}
use opiumo.Credit.Metering.{charge_readings, charge_readings-total}
use opiumo.Credit.Restart.{start-persist}

abbrev days : Runtime
days = record {
  iso = λ t.
      let day = t / ms_per_day in
      let m = day / 31 in m ∷ m ∷ m ∷ m ∷ m ∷ m ∷ m ∷ day ∷ day ∷ day ∷ t ∷ [];
  next_month_start = λ t. (t / ms_per_day / 31 + 1) * 31 * ms_per_day;
}

abbrev budget : CreditBudgetConfig ℤ
budget = record {
  enabled = true;
  daily_credits = 100;
  monthly_credits = 1000;
  warn_fraction = pos 1;
}

abbrev quiet : Value → Text
quiet v = []

abbrev day_zero : Text
day_zero = 0 ∷ 0 ∷ 0 ∷ 0 ∷ 0 ∷ 0 ∷ 0 ∷ 0 ∷ 0 ∷ 0 ∷ []

abbrev tally : ℕ → LedgerState
tally c = record {
  version = 1;
  day = record { key = day_zero; credits = c };
  month = record { key = take 7 day_zero; credits = c };
  override = none;
}

-- A breaker that has charged `c` credits and written them to its file.
abbrev settled : ℕ → CreditBreaker ℤ
settled c = record {
  config = budget;
  state = tally c;
  dirty = false;
  last_meter_credits = 20;
  last_persist_ms = 0;
  file = parsed (record {
    version = number 1;
    day_key = text day_zero;
    day_credits = number c;
    month_key = text (take 7 day_zero);
    month_credits = number c;
    override = none;
  });
}

abbrev afternoon : List Event
afternoon = charges 3 6 ∷ restarts 8 ∷ clears ∷ meters (some 40) 9 ∷ throttles 100_000 60_000 ∷ []

charges_and_restarts : (run days quiet (settled 130) afternoon).state.day.credits ≡ 170
unfolding run apply charge charge_from_meter persist_throttled persist clear_override start
    load_ledger roll_to stored text_eq
charges_and_restarts = refl

tally-IsBalanced : (c : ℕ) → IsBalanced (tally c)
tally-IsBalanced c = record { within = omega arith; same_month = refl; version_one = refl }

settled-IsHalted : IsHalted days quiet budget day_zero (settled 130)
unfolding load_ledger
settled-IsHalted = record { same_config = refl; memory = spent; disk = λ now. spent }
  where
    spent : IsSpent days quiet budget day_zero (tally 130)
    spent = record { dated = refl; no_override = refl; reached = omega arith; version_one = refl }

evaluate_budget-refuses_iff_example :
    ((evaluate_budget days budget (tally 130) 7).allowed ≡ false)
    ↔ ((true ≡ true) × ((tally 130).override ≡ none) × ((1000 ≤ 130) ⊎ (100 ≤ 130)))
evaluate_budget-refuses_iff_example = evaluate_budget-refuses_iff days budget (tally 130) 7

abbrev raw_budget : RawBudget ℤ
raw_budget = record {
  enabled = true;
  daily_credits = number 100;
  monthly_credits = number 1000;
  warn_fraction = some (pos 1);
}

run-start-IsSound_example :
    IsSound days quiet (run days quiet (start days quiet budget missing 5) afternoon)
run-start-IsSound_example = run-start-IsSound days quiet budget 5 afternoon

decide_stays_refused_example :
    (decide days (run days quiet (settled 130) afternoon) 10).1.allowed ≡ false
decide_stays_refused_example =
    decide_stays_refused days quiet budget day_zero (settled 130) afternoon 10 refl settled-IsHalted
      (refl, (refl, (tt, (refl, (tt, tt))))) refl

charge_readings-total_example :
    let s = (charge_readings days (settled 130) ((25, 3) ∷ (45, 4) ∷ [])).state in
    (s.day.credits + 20 ≡ 130 + 45) × (s.month.credits + 20 ≡ 130 + 45)
charge_readings-total_example =
    charge_readings-total days day_zero (settled 130) ((25, 3) ∷ (45, 4) ∷ [])
      (tally-IsBalanced 130) refl (refl, (refl, tt)) (omega arith)

start-persist_example :
    let b = record (settled 130) { dirty = true } in
    let s = (start days quiet budget (persist days b).file 7).state in
    (s ≡ roll_to days (tally 130) 7)
    × (day_zero ≡ utc_day_key days 7 → (s.day ≡ (tally 130).day) × (s.month ≡ (tally 130).month))
start-persist_example =
    start-persist days quiet (record (settled 130) { dirty = true }) 7 refl (tally-IsBalanced 130)
