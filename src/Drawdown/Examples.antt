-- ===== src/Drawdown/Examples.antt =====
-- The guard's theorems at concrete ledgers, and test runs.
use opiumo.Number.Integers.{ℤ_number}
use opiumo.Base.{
  ne_of_text_eq, List, [], codes, is_some, none, refl, some, text_eq, true, ℕ, ◌*◌, ◌+◌, ◌/◌, ◌↔◌,
  ◌∷◌, ◌≡◌, ◌⊎◌,
}
use opiumo.Drawdown.Guard.{
  DrawdownConfig, DrawdownState, Halt, already_halted, apply_realised, daily_loss_limit,
  evaluate_drawdown, fits, grant_override, roll_to,
}
use opiumo.Drawdown.Halts.{Event, checks, grants, realises, restarts, run, run_stays_halted}
use opiumo.Drawdown.Verdicts.{
  IsBreached, IsOverridden, evaluate_drawdown-halts_iff, grant_override-lost,
}
use opiumo.Int.{negsuc, pos, ℤ, ◌+ℤ◌, ◌-ℤ◌}
use opiumo.Platform.{Runtime, ms_per_day}

abbrev clock : Runtime
clock = record {
  iso = λ t.
      let d = t / ms_per_day in
      b'2' ∷ b'0' ∷ b'2' ∷ b'6' ∷ b'-' ∷ b'0' ∷ b'9' ∷ b'-' ∷ b'1' ∷ (b'0' + d) ∷ t ∷ [];
  next_month_start = λ t. t + 31 * ms_per_day;
}

abbrev limits : DrawdownConfig ℤ
limits = record {
  enabled = true;
  max_daily_loss = pos 10;
  max_total_loss = pos 50;
  max_peak_drawdown = pos 30;
  unit = codes "SOL";
}

abbrev opened : DrawdownState ℤ
opened = record {
  version = 1;
  day = codes "2026-09-10";
  day_pnl = pos 0;
  total_pnl = pos 0;
  peak_pnl = pos 0;
  halted = none;
  override = none;
  trades = 0;
}

abbrev stop : Halt
stop = record { at = codes "2026-09-10T12"; reason = daily_loss_limit }

abbrev stopped : DrawdownState ℤ
stopped = record opened { halted = some stop; day_pnl = negsuc 11; total_pnl = negsuc 11 }

abbrev week : List (Event ℤ)
week =
    checks 5
    ∷ restarts 9
    ∷ realises (pos 40) (2 * ms_per_day)
    ∷ checks (3 * ms_per_day)
    ∷ grants (codes "2026-09-14") (codes "ops") (codes "test") (4 * ms_per_day)
    ∷ []

a_loss_halts :
    (evaluate_drawdown clock (apply_realised clock opened (negsuc 9) 5) limits 6).reason
    ≡ daily_loss_limit
unfolding evaluate_drawdown apply_realised roll_to text_eq ◌+ℤ◌ ◌-ℤ◌
a_loss_halts = refl

evaluate_drawdown-halts_iff_example : ((evaluate_drawdown clock stopped limits 7).halted ≡ true) ↔ (
    (true ≡ true)
    × ¬ IsOverridden clock (roll_to clock stopped 7) 7
    × ((is_some (roll_to clock stopped 7).halted ≡ true)
        ⊎ IsBreached clock limits (roll_to clock stopped 7)))
evaluate_drawdown-halts_iff_example = evaluate_drawdown-halts_iff clock stopped limits 7

run_stays_halted_example :
    (s' : DrawdownState ℤ) × (run clock limits stopped week ≡ some s')
    × (s'.halted ≡ some stop)
    × ((at : ℕ)
        → limits.enabled ≡ true
        → ¬ IsOverridden clock (roll_to clock s' at) at
        → let d = evaluate_drawdown clock s' limits at in
          (d.halted ≡ true) × (d.reason ≡ already_halted))
run_stays_halted_example =
    run_stays_halted clock limits stop stopped week (tt, (tt, (tt, (tt, (tt, tt))))) refl refl

grant_override-lost_example :
    (roll_to clock
      (roll_to clock
        (record opened {
          override = some (record {
            day = codes "2026-09-13";
            by = codes "ops";
            note = codes "launch";
            at = clock.iso 5;
          });
        })
        ms_per_day)
      (3 * ms_per_day)).override
    ≡ none
unfolding grant_override fits text_eq
grant_override-lost_example =
    grant_override-lost clock opened _ (codes "2026-09-13") (codes "ops") (codes "launch") 5
      ms_per_day (3 * ms_per_day) refl (ne_of_text_eq _ _ refl) (ne_of_text_eq _ _ refl)
