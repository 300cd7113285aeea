-- ===== src/Exits/Verdicts.antt =====
-- When the rules sell, and when they report that nothing can be sold.
use opiumo.Base.{arith, false, none, some, true, ◌+◌, ◌↔◌, ◌≡◌, ◌≤◌, ◌⊎◌}
use opiumo.Exits.Decisions.{
  ExitTrigger, PoolObservation, ProceedsFn, already_closed, exit, exit_failed, hard_stop, hold,
  is_exit, raised_stop, take_profit, trail,
}
use opiumo.Exits.Raised.{RaisedState, RaisedTakeProfitConfig, step_raised}
use opiumo.Exits.Trailing.{TrailState, TrailingStopConfig, step}
use opiumo.Number.{IsNumeric, IsOrdered, Number, ◌≼◌}

module _ {R : Type 0} ⦃n : Number R⦄ (proceeds : ProceedsFn R) (fraction : R) where
  module _ (c : TrailingStopConfig R) (s : TrailState R) (obs : PoolObservation R) where
    -- The proceeds have changed since the entry by at most the percentage of the hard stop.
    abbrev pub IsHardStop : R → Type 0
    IsHardStop p =
        n.mul (n.div (n.sub p s.entry_proceeds_sol) s.entry_proceeds_sol) (n.of_nat 100)
        ≼ c.hard_stop_percent

    -- The stop was armed before, or the proceeds have gained the activation percentage; and they
    -- are below the highest proceeds seen by the percentage of the trail.
    abbrev pub IsTrailed : R → Type 0
    IsTrailed p =
        let high = n.max s.high_water_proceeds_sol p in
        ((s.armed ≡ true)
          ⊎ (c.activation_percent
              ≼ n.mul (n.div (n.sub p s.entry_proceeds_sol) s.entry_proceeds_sol) (n.of_nat 100)))
        × (n.mul (n.div (n.sub p high) high) (n.of_nat 100) ≼ n.neg c.trail_percent)

    -- An open position is sold exactly when the pool yields proceeds, these are at the hard stop, or
    -- else at the armed trail, it is at least the required breach in a row, and the minimum hold has
    -- passed; the trigger is the hard stop at the hard stop, and else the trail.
    pub step-exit_iff :
        (t : ExitTrigger) (p : R)
        → s.closed ≡ false
        → ((step c s obs proceeds fraction).1 ≡ exit t p) ↔ (
            (proceeds obs.liquidity_sol fraction ≡ some p)
            × (((t ≡ hard_stop) × IsHardStop p) ⊎ ((t ≡ trail) × ¬ IsHardStop p × IsTrailed p))
            × (c.persistence_observations ≤ s.consecutive_breaches + 1)
            × (s.entry_ts_ms + c.min_hold_ms ≤ obs.ts))
    unfolding step
    step-exit_iff t p live = (ground arith, ground arith)

    -- A step reports a failed exit exactly for an open position whose pool yields nothing; it closes
    -- an open position exactly when it sells or reports that, and it leaves a closed one as it is.
    pub step_closes :
        (((step c s obs proceeds fraction).1 ≡ exit_failed)
          ↔ ((s.closed ≡ false) × (proceeds obs.liquidity_sol fraction ≡ none)))
        × (((step c s obs proceeds fraction).0.closed ≡ true) ↔ (
            (s.closed ≡ true)
            ⊎ (((step c s obs proceeds fraction).1 ≡ exit_failed)
                ⊎ (is_exit (step c s obs proceeds fraction).1 ≡ true))))
        × (s.closed ≡ true → step c s obs proceeds fraction ≡ (s, hold already_closed))
    unfolding step
    step_closes = ((ground arith, ground arith), (ground arith, ground arith), ground arith)

    -- The high-water mark of a step is at least the mark before and at least what the pool yields,
    -- as long as both are numbers.
    pub step-high_water :
        (p : R)
        → IsOrdered R
        → s.closed ≡ false
        → proceeds obs.liquidity_sol fraction ≡ some p
        → IsNumeric s.high_water_proceeds_sol
        → IsNumeric p
        → let high = (step c s obs proceeds fraction).0.high_water_proceeds_sol in
          (s.high_water_proceeds_sol ≼ high) × (p ≼ high)
    unfolding step
    step-high_water p laws live e h k = ground (
      arith,
      laws.le-max_left s.high_water_proceeds_sol p h k,
      laws.le-max_right s.high_water_proceeds_sol p h k,
    )

  module _ (c : RaisedTakeProfitConfig R) (s : RaisedState R) (obs : PoolObservation R) where
    -- The proceeds have reached those of the entry and the profit on top.
    abbrev pub IsTarget : R → Type 0
    IsTarget p =
        n.mul s.entry_proceeds_sol (n.add (n.of_nat 1) (n.div c.take_profit_percent (n.of_nat 100)))
        ≼ p

    -- The pool's own liquidity is down from that of the entry by the percentage of the drop.
    abbrev pub IsDrained : Type 0
    IsDrained =
        obs.liquidity_sol
        ≼ n.mul s.entry_liquidity_sol
            (n.sub (n.of_nat 1) (n.div c.raised_drop_percent (n.of_nat 100)))

    -- The raised rule sells an open position exactly when the pool yields proceeds and either these
    -- reach the target, at once, or after the minimum hold the pool is drained for at least the
    -- required time in a row; the target comes first.
    pub step_raised-exit_iff :
        (t : ExitTrigger) (p : R)
        → s.closed ≡ false
        → ((step_raised c s obs proceeds fraction).1 ≡ exit t p) ↔ (
            (proceeds obs.liquidity_sol fraction ≡ some p)
            × (((t ≡ take_profit) × IsTarget p)
                ⊎ ((t ≡ raised_stop)
                    × ¬ IsTarget p
                    × IsDrained
                    × (c.persistence_observations ≤ s.consecutive_breaches + 1)
                    × (s.entry_ts_ms + c.min_hold_ms ≤ obs.ts))))
    unfolding step_raised
    step_raised-exit_iff t p live = (ground arith, ground arith)
