-- ===== src/Exits/Examples.antt =====
-- The exit rules at concrete positions over the integers, and test runs.
use opiumo.Number.Integers.{ℤ_number}
use opiumo.Int.{pos, ℤ, ◌+ℤ◌, ◌-ℤ◌, ◌*ℤ◌}
use opiumo.Base.{List, [], codes, refl, some, true, ℕ, ◌+◌, ◌↔◌, ◌∷◌, ◌≡◌, ◌≤◌, ◌⊎◌}
use opiumo.Exits.Decisions.{
  PoolObservation, ProceedsFn, exit, hard_stop, naive_proceeds, raised_stop, take_profit, trail,
}
use opiumo.Exits.Outcomes.{Reports, first_close, run_series-Reports}
use opiumo.Exits.Persistence.{breaches_at, holds, leading, starts, step-exit_streak}
use opiumo.Exits.Raised.{RaisedTakeProfitConfig, init_raised_state, step_raised}
use opiumo.Exits.Series.{exit_has_failed, exited, run_series, start_walk, walk_from, walk_one}
use opiumo.Exits.Trailing.{Position, TrailState, TrailingStopConfig, breached, init_state, step}
use opiumo.Exits.Verdicts.{
  IsDrained, IsHardStop, IsTarget, IsTrailed, step-exit_iff, step_raised-exit_iff,
}

-- Three breaches in a row sell, ten seconds after the entry at the earliest. Percentages are whole
-- multiples here, so the floor is at twice the entry.
abbrev rule : TrailingStopConfig ℤ
rule = record {
  hard_stop_percent = pos 0;
  activation_percent = pos 200;
  trail_percent = pos 0;
  persistence_observations = 3;
  min_hold_ms = 10000;
}

abbrev bought : Position ℤ
bought = record {
  mint = codes "MINT";
  entry_ts = 1000;
  pool_fraction = pos 1;
  entry_proceeds_sol = pos 100;
}

abbrev all_of_it : ProceedsFn ℤ
all_of_it = naive_proceeds

abbrev seen_at : ℕ → ℕ → PoolObservation ℤ
seen_at t l = record { ts = t; liquidity_sol = pos l }

-- A wick, and then a fall of three observations.
abbrev recorded : List (PoolObservation ℤ)
recorded =
    seen_at 2000 250
    ∷ seen_at 9000 150
    ∷ seen_at 10000 250
    ∷ seen_at 11000 150
    ∷ seen_at 12000 140
    ∷ seen_at 13000 130
    ∷ seen_at 14000 900
    ∷ []

abbrev fallen : TrailState ℤ
fallen = record (init_state bought) {
  high_water_proceeds_sol = pos 300;
  armed = true;
  consecutive_breaches = 2;
}

abbrev raised_rule : RaisedTakeProfitConfig ℤ
raised_rule = record {
  venues = codes "raydium" ∷ [];
  raised_drop_percent = pos 50;
  take_profit_percent = pos 100;
  persistence_observations = 2;
  min_hold_ms = 10000;
}

recorded_sells :
    let r = run_series bought rule all_of_it recorded in
    (r.result ≡ exited) × (r.exit_index ≡ some 5) × (r.trigger ≡ some hard_stop)
unfolding run_series start_walk walk_from walk_one step init_state naive_proceeds ◌+ℤ◌ ◌-ℤ◌ ◌*ℤ◌
recorded_sells = (refl, refl, refl)

rugged_fails :
    (run_series bought rule all_of_it (seen_at 2000 100 ∷ seen_at 3000 0 ∷ [])).result
    ≡ exit_has_failed
unfolding run_series start_walk walk_from walk_one step init_state naive_proceeds ◌+ℤ◌ ◌-ℤ◌ ◌*ℤ◌
rugged_fails = refl

run_series-Reports_example :
    let r = run_series bought rule all_of_it recorded in
    Reports bought rule all_of_it r.result r.trigger r.exit_proceeds_sol r.exit_index
      (first_close bought rule all_of_it (init_state bought) 0 recorded)
run_series-Reports_example = run_series-Reports bought rule all_of_it recorded

step-exit_iff_example :
    ((step rule fallen (seen_at 14000 250) all_of_it (pos 1)).1 ≡ exit trail (pos 250)) ↔ (
      (all_of_it (pos 250) (pos 1) ≡ some (pos 250))
      × (((trail ≡ hard_stop)
            × IsHardStop all_of_it (pos 1) rule fallen (seen_at 14000 250) (pos 250))
          ⊎ ((trail ≡ trail)
              × ¬ (IsHardStop all_of_it (pos 1) rule fallen (seen_at 14000 250) (pos 250))
              × IsTrailed all_of_it (pos 1) rule fallen (seen_at 14000 250) (pos 250)))
      × (3 ≤ 2 + 1)
      × (1000 + 10000 ≤ 14000))
unfolding init_state
step-exit_iff_example =
    step-exit_iff all_of_it (pos 1) rule fallen (seen_at 14000 250) trail (pos 250) refl

step_raised-exit_iff_example :
    let s = init_raised_state (pos 100) (pos 100) 1000 in
    let seen = seen_at 2000 250 in
    ((step_raised raised_rule s seen all_of_it (pos 1)).1 ≡ exit take_profit (pos 250)) ↔ (
      (all_of_it (pos 250) (pos 1) ≡ some (pos 250))
      × (((take_profit ≡ take_profit) × IsTarget all_of_it (pos 1) raised_rule s seen (pos 250))
          ⊎ ((take_profit ≡ raised_stop)
              × ¬ (IsTarget all_of_it (pos 1) raised_rule s seen (pos 250))
              × IsDrained all_of_it (pos 1) raised_rule s seen
              × (2 ≤ 0 + 1)
              × (1000 + 10000 ≤ 2000))))
unfolding init_raised_state
step_raised-exit_iff_example =
    step_raised-exit_iff all_of_it (pos 1) raised_rule (init_raised_state (pos 100) (pos 100) 1000)
      (seen_at 2000 250) take_profit (pos 250) refl

-- The position of `bought` that the rule holds over two observations that breach.
abbrev risen : TrailState ℤ
risen = record fallen { consecutive_breaches = 0 }

step-exit_streak_example :
    (all_of_it (pos 250) (pos 1) ≡ some (pos 250))
    × (3
        ≤ leading (
            breached rule
              (step rule
                (step rule risen (seen_at 12000 250) all_of_it (pos 1)).0
                (seen_at 13000 250)
                all_of_it
                (pos 1)).0
              (pos 250)
            ∷ breaches_at rule all_of_it
                (pos 1)
                (step rule risen (seen_at 12000 250) all_of_it (pos 1)).0
                (all_of_it (pos 250) (pos 1))
            ∷ breaches_at rule all_of_it (pos 1) risen (all_of_it (pos 250) (pos 1))
            ∷ []))
unfolding step init_state naive_proceeds ◌+ℤ◌ ◌-ℤ◌ ◌*ℤ◌
step-exit_streak_example =
    step-exit_streak rule all_of_it (pos 1) {s = risen} (seen_at 14000 250) trail (pos 250)
      (holds (seen_at 13000 250) (holds (seen_at 12000 250) (starts refl) refl) refl) refl
