-- ===== src/Exits/Trailing.antt =====
-- src/trading/trailingStop.ts, `initState` and `step`.
use opiumo.Base.{
  Bool, Option, Text, false, if◌then◌else◌, ltb, none, not, some, true, ℕ, ◌&&◌, ◌+◌, ◌||◌,
}
use opiumo.Exits.Decisions.{
  Decision, PoolObservation, ProceedsFn, already_closed, armed_above, exit, exit_failed, hard_stop,
  hold, inside_hold, not_armed, trail, wick,
}
use opiumo.Number.{Number}

pub record Position (R : Type 0) : Type 0 where
  pub mint : Text
  pub entry_ts : ℕ
  pub pool_fraction : R
  pub entry_proceeds_sol : R

pub record TrailingStopConfig (R : Type 0) : Type 0 where
  pub hard_stop_percent : R
  pub activation_percent : R
  pub trail_percent : R
  pub persistence_observations : ℕ
  pub min_hold_ms : ℕ

pub record TrailState (R : Type 0) : Type 0 where
  pub entry_proceeds_sol : R
  pub entry_ts_ms : ℕ
  pub high_water_proceeds_sol : R
  pub armed : Bool
  pub consecutive_breaches : ℕ
  pub closed : Bool

module _ {R : Type 0} ⦃n : Number R⦄ where
  open n use {of_nat, sub, neg, mul, div, le, max}

  unfoldable pub init_state : Position R → TrailState R
  init_state p = record {
    entry_proceeds_sol = p.entry_proceeds_sol;
    entry_ts_ms = p.entry_ts;
    high_water_proceeds_sol = p.entry_proceeds_sol;
    armed = false;
    consecutive_breaches = 0;
    closed = false;
  }

  abbrev pub pct : R → R → R
  pct from to = mul (div (sub to from) from) (of_nat 100)

  module _ (config : TrailingStopConfig R) where
    -- The tests of a step whose realizable proceeds are a number.
    abbrev pub high_after : TrailState R → R → R
    high_after s realizable = max s.high_water_proceeds_sol realizable

    abbrev pub armed_after : TrailState R → R → Bool
    armed_after s realizable =
        s.armed || le config.activation_percent (pct s.entry_proceeds_sol realizable)

    abbrev pub hard_stop_breached : TrailState R → R → Bool
    hard_stop_breached s realizable =
        le (pct s.entry_proceeds_sol realizable) config.hard_stop_percent

    abbrev pub trail_breached : TrailState R → R → Bool
    trail_breached s realizable =
        armed_after s realizable
        && le (pct (high_after s realizable) realizable) (neg config.trail_percent)

    abbrev pub breached : TrailState R → R → Bool
    breached s realizable = hard_stop_breached s realizable || trail_breached s realizable

    abbrev pub breaches_after : TrailState R → R → ℕ
    breaches_after s realizable = if breached s realizable then s.consecutive_breaches + 1 else 0

    abbrev pub next_state : TrailState R → R → TrailState R
    next_state s realizable = record s {
      high_water_proceeds_sol = high_after s realizable;
      armed = armed_after s realizable;
      consecutive_breaches = breaches_after s realizable;
    }

    abbrev step_open : TrailState R → PoolObservation R → Option R → TrailState R × Decision R
    step_open s obs none = (record s { closed = true }, exit_failed)
    step_open s obs (some realizable) =
        let next = next_state s realizable in
        if not (breached s realizable)
        then (next, hold (if armed_after s realizable then armed_above else not_armed))
        else (if ltb (breaches_after s realizable) config.persistence_observations
            then (next, hold wick)
            else (if ltb obs.ts (s.entry_ts_ms + config.min_hold_ms)
                then (next, hold inside_hold)
                else (
                  record next { closed = true },
                  exit (if hard_stop_breached s realizable then hard_stop else trail) realizable,
                )))

    unfoldable pub step :
        TrailState R → PoolObservation R → ProceedsFn R → R → TrailState R × Decision R
    step s obs proceeds fraction =
        if s.closed
        then (s, hold already_closed)
        else step_open s obs (proceeds obs.liquidity_sol fraction)
