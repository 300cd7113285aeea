-- ===== src/Exits/Series.antt =====
-- src/trading/trailingStop.ts, `runSeries`.
use opiumo.Base.{
  Bool, List, Option, Text, [], false, if◌then◌else◌, length, none, some, true, ℕ, ◌+◌, ◌∷◌,
}
use opiumo.Exits.Decisions.{
  Decision, ExitTrigger, PoolObservation, ProceedsFn, exit, exit_failed, hold,
}
use opiumo.Exits.Trailing.{Position, TrailState, TrailingStopConfig, init_state, step}
use opiumo.Int.{pos, sub_ℕ, ℤ}
use opiumo.Number.{Number}

pub data RunResult : Type 0 where
  exited exit_has_failed held_to_end : RunResult

-- A difference of two times may be negative.
pub record RunOutcome (R : Type 0) : Type 0 where
  pub mint : Text
  pub result : RunResult
  pub trigger : Option ExitTrigger
  pub entry_proceeds_sol : R
  pub exit_proceeds_sol : Option R
  pub peak_proceeds_sol : R
  pub final_proceeds_sol : Option R
  pub observations : ℕ
  pub exit_index : Option ℕ
  pub held_ms : ℤ

-- The variables of the loop.
pub record Walk (R : Type 0) : Type 0 where
  pub state : TrailState R
  pub exit_proceeds : Option R
  pub exit_index : Option ℕ
  pub trigger : Option ExitTrigger
  pub result : RunResult
  pub peak : R
  pub held_ms : ℤ

abbrev pub last? {ℓ} : {A : Type ℓ} → List A → Option A
last? [] = none
last? (x ∷ []) = some x
last? (x ∷ y ∷ xs) = last? (y ∷ xs)

abbrev is_held : RunResult → Bool
is_held held_to_end = true
is_held _ = false

module _ {R : Type 0} ⦃n : Number R⦄ (position : Position R) (config : TrailingStopConfig R)
    (proceeds : ProceedsFn R) where
  open n use {max}

  unfoldable pub start_walk : Walk R
  start_walk = record {
    state = init_state position;
    exit_proceeds = none;
    exit_index = none;
    trigger = none;
    result = held_to_end;
    peak = position.entry_proceeds_sol;
    held_ms = pos 0;
  }

  abbrev pub raise_peak : R → Option R → R
  raise_peak peak none = peak
  raise_peak peak (some realizable) = max peak realizable

  -- What the body does with the decision of a step.
  abbrev pub record_decision : Walk R → ℕ → PoolObservation R → Decision R → Walk R
  record_decision w i obs (hold why) = w
  record_decision w i obs (exit t p) = record w {
    exit_proceeds = some p;
    exit_index = some i;
    trigger = some t;
    result = exited;
    held_ms = sub_ℕ obs.ts position.entry_ts;
  }
  record_decision w i obs exit_failed = record w {
    exit_index = some i;
    result = exit_has_failed;
    held_ms = sub_ℕ obs.ts position.entry_ts;
  }

  unfoldable pub walk_one : Walk R → ℕ → PoolObservation R → Walk R
  walk_one w i obs =
      let peak = raise_peak w.peak (proceeds obs.liquidity_sol position.pool_fraction) in
      if w.state.closed
      then record w { peak = peak }
      else (let out = step config w.state obs proceeds position.pool_fraction in
          record_decision (record w { peak = peak; state = out.0 }) i obs out.1)

  -- The loop from index `i` on.
  unfoldable pub walk_from : Walk R → ℕ → List (PoolObservation R) → Walk R
  walk_from w i [] = w
  walk_from w i (obs ∷ series) = walk_from (walk_one w i obs) (i + 1) series

  abbrev final_proceeds : Option (PoolObservation R) → Option R
  final_proceeds none = none
  final_proceeds (some last) = proceeds last.liquidity_sol position.pool_fraction

  abbrev final_held : Walk R → Option (PoolObservation R) → ℤ
  final_held w none = w.held_ms
  final_held w (some last) = if is_held w.result then sub_ℕ last.ts position.entry_ts else w.held_ms

  unfoldable pub run_series : List (PoolObservation R) → RunOutcome R
  run_series series =
      let w = walk_from start_walk 0 series in
      record {
        mint = position.mint;
        result = w.result;
        trigger = w.trigger;
        entry_proceeds_sol = position.entry_proceeds_sol;
        exit_proceeds_sol = w.exit_proceeds;
        peak_proceeds_sol = w.peak;
        final_proceeds_sol = final_proceeds (last? series);
        observations = length series;
        exit_index = w.exit_index;
        held_ms = final_held w (last? series);
      }
