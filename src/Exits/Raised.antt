-- ===== src/Exits/Raised.antt =====
-- src/trading/raisedExit.ts: the raised stop or take-profit rule of the paper book.
use opiumo.Base.{
  Bool, List, Option, Text, [], any, false, if◌then◌else◌, ltb, none, not, some, true, ℕ, ◌&&◌,
  ◌++◌, ◌+◌, ◌∷◌,
}
use opiumo.Exits.Decisions.{
  Decision, PoolObservation, ProceedsFn, above_stop, already_closed, exit, exit_failed, hold,
  inside_hold, raised_stop, take_profit, wick,
}
use opiumo.Number.{Number, nought}

pub record RaisedTakeProfitConfig (R : Type 0) : Type 0 where
  pub venues : List Text
  pub raised_drop_percent : R
  pub take_profit_percent : R
  pub persistence_observations : ℕ
  pub min_hold_ms : ℕ

pub record RaisedState (R : Type 0) : Type 0 where
  pub entry_liquidity_sol : R
  pub entry_proceeds_sol : R
  pub entry_ts_ms : ℕ
  pub consecutive_breaches : ℕ
  pub closed : Bool

pub data RaisedProblem : Type 0 where
  unnamed_venue drop_out_of_range profit_not_positive persistence_below_one : RaisedProblem

abbrev is_blank : Text → Bool
is_blank [] = true
is_blank (c ∷ cs) = false

abbrev problem_if : Bool → RaisedProblem → List RaisedProblem
problem_if b p = if b then p ∷ [] else []

module _ {R : Type 0} ⦃n : Number R⦄ where
  open n use {of_nat, add, sub, mul, div, le, lt}

  unfoldable pub init_raised_state : R → R → ℕ → RaisedState R
  init_raised_state liquidity proceeds at = record {
    entry_liquidity_sol = liquidity;
    entry_proceeds_sol = proceeds;
    entry_ts_ms = at;
    consecutive_breaches = 0;
    closed = false;
  }

  -- For a configuration whose fields have their types: `minHoldMs` is then never below zero.
  unfoldable pub validate_raised_take_profit : RaisedTakeProfitConfig R → List RaisedProblem
  validate_raised_take_profit c =
      problem_if (any is_blank c.venues) unnamed_venue
      ++ (problem_if
            (not (lt nought c.raised_drop_percent && lt c.raised_drop_percent (of_nat 100)))
            drop_out_of_range
          ++ (problem_if (not (lt nought c.take_profit_percent)) profit_not_positive
              ++ problem_if (ltb c.persistence_observations 1) persistence_below_one))

  module _ (config : RaisedTakeProfitConfig R) where
    abbrev pub target : RaisedState R → R
    target s =
        mul s.entry_proceeds_sol (add (of_nat 1) (div config.take_profit_percent (of_nat 100)))

    abbrev pub floor : RaisedState R → R
    floor s =
        mul s.entry_liquidity_sol (sub (of_nat 1) (div config.raised_drop_percent (of_nat 100)))

    abbrev pub drained : RaisedState R → PoolObservation R → Bool
    drained s obs = le obs.liquidity_sol (floor s)

    abbrev pub streak_after : RaisedState R → PoolObservation R → ℕ
    streak_after s obs = if drained s obs then s.consecutive_breaches + 1 else 0

    abbrev step_raised_open :
        RaisedState R → PoolObservation R → Option R → RaisedState R × Decision R
    step_raised_open s obs none = (record s { closed = true }, exit_failed)
    step_raised_open s obs (some realizable) =
        let next = record s { consecutive_breaches = streak_after s obs } in
        if le (target s) realizable
        then (record s { closed = true }, exit take_profit realizable)
        else (if ltb obs.ts (s.entry_ts_ms + config.min_hold_ms)
            then (s, hold inside_hold)
            else (if not (drained s obs)
                then (next, hold above_stop)
                else (if ltb (streak_after s obs) config.persistence_observations
                    then (next, hold wick)
                    else (record next { closed = true }, exit raised_stop realizable))))

    unfoldable pub step_raised :
        RaisedState R → PoolObservation R → ProceedsFn R → R → RaisedState R × Decision R
    step_raised s obs proceeds fraction =
        if s.closed
        then (s, hold already_closed)
        else step_raised_open s obs (proceeds obs.liquidity_sol fraction)
