-- ===== src/Paper/Observing.antt =====
-- src/trading/paperExecution.ts: `PaperBook.observe` and `PaperBook.abandon`, with the guard's
-- `applyToDrawdown`.
use opiumo.Base.{Option, Text, lookup, none, set, some, ℕ, ◌+◌}
use opiumo.Drawdown.Guard.{
  DrawdownConfig, DrawdownState, apply_realised, evaluate_drawdown, mark_halted,
}
use opiumo.Exits.Decisions.{
  Decision, ExitTrigger, PoolObservation, ProceedsFn, exit, exit_failed, hold,
}
use opiumo.Exits.Raised.{RaisedState, step_raised}
use opiumo.Exits.Trailing.{step}
use opiumo.Number.{Number}
use opiumo.Paper.Records.{
  ExitRuleName, PaperBook, PaperConfig, PaperPosition, RaisedSetting, cannot_be_sold, closed_out,
  could_not_exit, given_up, observations_stopped, raised_stop_or_take_profit, rule_fired, trailing,
}
use opiumo.Platform.{Runtime}
use opiumo.Paper.Book.{active_guard, retire}

-- What `observe` answers; without a pricing function its call throws.
pub data Observed (R : Type 0) : Type 0 where
  not_held : Observed R
  followed : PaperPosition R → Observed R
  no_pricing : Observed R

module _ {R : Type 0} ⦃n : Number R⦄ where
  open n use {sub, max}

  abbrev pub valued : PaperPosition R → Option R → PaperPosition R
  valued p none = p
  valued p (some realizable) = record p {
    peak_proceeds_sol = max p.peak_proceeds_sol realizable;
    last_proceeds_sol = some realizable;
  }

  abbrev pub step_trailing :
      PaperConfig R
      → PoolObservation R
      → ProceedsFn R
      → PaperPosition R
      → PaperPosition R × Decision R
  step_trailing c obs fn p =
      let t = step c.trailing_stop p.state obs fn p.pool_fraction in (record p { state = t.0 }, t.1)

  -- The rule that the position is under, which takes its own state and setting to be there.
  abbrev pub step_rule :
      PaperConfig R
      → PoolObservation R
      → ProceedsFn R
      → PaperPosition R
      → ExitRuleName
      → Option (RaisedState R)
      → Option (RaisedSetting R)
      → PaperPosition R × Decision R
  step_rule c obs fn p raised_stop_or_take_profit (some s) (some setting) =
      let t = step_raised setting.rule s obs fn p.pool_fraction in
      (record p { raised_state = some t.0 }, t.1)
  step_rule c obs fn p raised_stop_or_take_profit (some s) none = step_trailing c obs fn p
  step_rule c obs fn p raised_stop_or_take_profit none setting = step_trailing c obs fn p
  step_rule c obs fn p trailing s setting = step_trailing c obs fn p

  unfoldable pub step_position :
      PaperConfig R
      → PoolObservation R
      → ProceedsFn R
      → PaperPosition R
      → PaperPosition R × Decision R
  step_position c obs fn p = step_rule c obs fn p p.exit_rule p.raised_state c.raised_take_profit

  abbrev pub sold : PaperPosition R → ExitTrigger → R → ℕ → PaperPosition R
  sold p t proceeds at = record p {
    outcome = closed_out;
    closed_at = some at;
    exit_proceeds_sol = some proceeds;
    exit_reason = some (rule_fired t);
  }

  abbrev pub unsold : PaperPosition R → ℕ → PaperPosition R
  unsold p at = record p {
    outcome = could_not_exit;
    closed_at = some at;
    exit_reason = some cannot_be_sold;
  }

  abbrev pub seen : PaperPosition R → ℕ → PaperPosition R
  seen p at = record p { observations = p.observations + 1; last_observed_at = some at }

  module _ (r : Runtime) where
    abbrev pub realise :
        PaperBook R → R → ℕ → Option (DrawdownState R × DrawdownConfig R) → PaperBook R
    realise b pnl at none = b
    realise b pnl at (some (s, limits)) =
        let applied = apply_realised r s pnl at in
        let d = evaluate_drawdown r applied limits at in
        record b { drawdown = some (mark_halted r applied d at); last_drawdown_decision = some d }

    unfoldable pub apply_to_drawdown : PaperBook R → PaperPosition R → R → ℕ → PaperBook R
    apply_to_drawdown b p exit_proceeds at =
        realise b (sub exit_proceeds p.entry_proceeds_sol) at (active_guard b)

    abbrev pub settle :
        PaperBook R → Text → ℕ → PaperPosition R × Decision R → PaperBook R × Observed R
    settle b mint at (p, hold why) = (record b { positions = set mint p b.positions }, followed p)
    settle b mint at (p, exit t proceeds) =
        let q = sold p t proceeds at in
        (apply_to_drawdown (retire b mint q) q proceeds at, followed q)
    settle b mint at (p, exit_failed) = let q = unsold p at in (retire b mint q, followed q)

    abbrev pub observe_priced :
        PaperBook R
        → Text
        → PoolObservation R
        → PaperPosition R
        → Option (ProceedsFn R)
        → PaperBook R × Observed R
    observe_priced b mint obs p none =
        (record b { positions = set mint (seen p obs.ts) b.positions }, no_pricing)
    observe_priced b mint obs p (some fn) = settle b mint obs.ts (
        step_position b.config obs fn
          (valued (seen p obs.ts) (fn obs.liquidity_sol p.pool_fraction)))

    abbrev pub observe_held :
        PaperBook R → Text → PoolObservation R → Option (PaperPosition R) → PaperBook R × Observed R
    observe_held b mint obs none = (b, not_held)
    observe_held b mint obs (some p) = observe_priced b mint obs p (lookup mint b.pricing)

    unfoldable pub observe : PaperBook R → Text → PoolObservation R → PaperBook R × Observed R
    unfolding step_position apply_to_drawdown retire
    observe b mint obs = observe_held b mint obs (lookup mint b.positions)

  abbrev pub given_up_at : PaperPosition R → ℕ → Text → PaperPosition R
  given_up_at p at reason = record p {
    outcome = given_up;
    closed_at = some at;
    exit_reason = some (observations_stopped reason);
  }

  abbrev pub abandon_held :
      PaperBook R
      → Text
      → ℕ
      → Text
      → Option (PaperPosition R)
      → PaperBook R × Option (PaperPosition R)
  abandon_held b mint at reason none = (b, none)
  abandon_held b mint at reason (some p) =
      let q = given_up_at p at reason in (retire b mint q, some q)

  unfoldable pub abandon : PaperBook R → Text → ℕ → Text → PaperBook R × Option (PaperPosition R)
  unfolding retire
  abandon b mint at reason = abandon_held b mint at reason (lookup mint b.positions)
