-- ===== src/Paper/Book.antt =====
-- src/trading/paperExecution.ts: the class `PaperBook`, its constructor and `open`. A call answers the new book and its result.
use opiumo.Base.{
  Bool, List, Option, Text, [], any, delete, false, has_key, if◌then◌else◌, leb, length, none, not,
  set, some, text_eq, true, ℕ, ◌&&◌, ◌++◌, ◌∷◌,
}
use opiumo.Drawdown.Guard.{DrawdownConfig, DrawdownState, empty_state, evaluate_drawdown}
use opiumo.Exits.Decisions.{ProceedsFn}
use opiumo.Exits.Raised.{RaisedState, init_raised_state}
use opiumo.Exits.Trailing.{TrailState, init_state}
use opiumo.Number.{Number, nought}
use opiumo.Paper.Records.{
  DrawdownSetting, ExitRuleName, LiveVerdict, OpenParams, OpenRefusal, PaperBook, PaperConfig,
  PaperPosition, Priced, Pricing, RaisedSetting, RefusalReason, already_open, cap_reached,
  drawdown_halt, liquidity_unknown, live_pass, live_rejected, pricing_factory,
  raised_stop_or_take_profit, realises_nothing, rejected_not_included, still_open, trailing,
}
use opiumo.Platform.{Runtime}

-- What `open` answers.
pub data Opening (R : Type 0) : Type 0 where
  opened : PaperPosition R → Opening R
  refused : OpenRefusal → Opening R

abbrev pub includes : List Text → Text → Bool
includes venues v = any (λ w. text_eq w v) venues

abbrev pub is_rejected : LiveVerdict → Bool
is_rejected live_pass = false
is_rejected live_rejected = true

module _ {R : Type 0} where
  abbrev pub guard_setting : PaperConfig R → Option (DrawdownConfig R)
  guard_setting c = elim c.drawdown [
    | none ↦ none
    | some d ↦ if d.limits.enabled then some d.limits else none
  ]

  -- The state and the limits of a guard that is on.
  abbrev pub guard_of :
      Option (DrawdownState R)
      → Option (DrawdownConfig R)
      → Option (DrawdownState R × DrawdownConfig R)
  guard_of none limits = none
  guard_of (some s) none = none
  guard_of (some s) (some limits) = some (s, limits)

  abbrev pub active_guard : PaperBook R → Option (DrawdownState R × DrawdownConfig R)
  active_guard b = guard_of b.drawdown (guard_setting b.config)

  abbrev pub open_count : PaperBook R → ℕ
  open_count b = length b.positions

  -- The rule for a venue under the setting `raisedTakeProfit`.
  abbrev pub rule_under : Option (RaisedSetting R) → Option Text → ExitRuleName
  rule_under none venue = trailing
  rule_under (some s) none = trailing
  rule_under (some s) (some v) =
      if s.enabled && includes s.rule.venues v then raised_stop_or_take_profit else trailing

  unfoldable pub exit_rule_for : PaperConfig R → Option Text → ExitRuleName
  exit_rule_for c venue = rule_under c.raised_take_profit venue

  abbrev pub refuse : PaperBook R → Text → RefusalReason → PaperBook R × Opening R
  refuse b mint reason =
      let r : OpenRefusal = record { mint = mint; reason = reason } in
      (record b { refusals = b.refusals ++ (r ∷ []) }, refused r)

  -- `positions.set` and `pricing.set` for a position that is taken in.
  unfoldable pub hold_position : PaperBook R → Text → PaperPosition R → ProceedsFn R → PaperBook R
  hold_position b mint p fn = record b {
    positions = set mint p b.positions;
    pricing = set mint fn b.pricing;
  }

  -- `positions.delete`, `pricing.delete` and `closed.push`.
  unfoldable pub retire : PaperBook R → Text → PaperPosition R → PaperBook R
  retire b mint p = record b {
    positions = delete mint b.positions;
    pricing = delete mint b.pricing;
    closed = b.closed ++ (p ∷ []);
  }

module _ {R : Type 0} ⦃n : Number R⦄ where
  open n use {sub, lt, max}

  abbrev pub raised_state_for : ExitRuleName → R → R → ℕ → Option (RaisedState R)
  raised_state_for trailing liquidity proceeds at = none
  raised_state_for raised_stop_or_take_profit liquidity proceeds at =
      some (init_raised_state liquidity proceeds at)

  abbrev pub trail_state : Text → ℕ → R → R → TrailState R
  trail_state mint at fraction proceeds = init_state (record {
    mint = mint;
    entry_ts = at;
    pool_fraction = fraction;
    entry_proceeds_sol = proceeds;
  })

  abbrev pub fresh_position : PaperConfig R → OpenParams R → R → Priced R → R → PaperPosition R
  fresh_position c params liquidity priced proceeds =
      let rule = exit_rule_for c params.source in
      record {
        mint = params.mint;
        opened_at = params.at;
        live_verdict = params.live_verdict;
        venue = params.source;
        pricing_model = priced.model;
        exit_rule = rule;
        entry_liquidity_sol = liquidity;
        entry_proceeds_sol = proceeds;
        pool_fraction = c.pool_fraction;
        outcome = still_open;
        observations = 0;
        closed_at = none;
        exit_proceeds_sol = none;
        exit_reason = none;
        peak_proceeds_sol = proceeds;
        last_proceeds_sol = some proceeds;
        last_observed_at = none;
        forced_exit = none;
        state = trail_state params.mint params.at c.pool_fraction proceeds;
        raised_state = raised_state_for rule liquidity proceeds params.at;
        restored = none;
      }

  abbrev pub open_at_price :
      PaperBook R → OpenParams R → R → Priced R → Option R → PaperBook R × Opening R
  open_at_price b params liquidity priced none =
      refuse b params.mint (realises_nothing priced.model)
  open_at_price b params liquidity priced (some proceeds) =
      let p = fresh_position b.config params liquidity priced proceeds in
      if lt nought proceeds
      then (hold_position b params.mint p priced.fn, opened p)
      else refuse b params.mint (realises_nothing priced.model)

  abbrev pub open_with_liquidity : PaperBook R → OpenParams R → Option R → PaperBook R × Opening R
  open_with_liquidity b params none = refuse b params.mint liquidity_unknown
  open_with_liquidity b params (some liquidity) =
      let priced = b.factory params.source liquidity b.config.pool_fraction in
      open_at_price b params liquidity priced (priced.fn liquidity b.config.pool_fraction)

  -- The tests after the guard's.
  unfoldable pub open_unhalted : PaperBook R → OpenParams R → PaperBook R × Opening R
  unfolding exit_rule_for hold_position
  open_unhalted b params =
      if is_rejected params.live_verdict && not b.config.include_rejected
      then refuse b params.mint rejected_not_included
      else (if has_key params.mint b.positions
          then refuse b params.mint already_open
          else (if leb b.config.max_open_positions (open_count b)
              then refuse b params.mint (cap_reached b.config.max_open_positions)
              else open_with_liquidity b params params.liquidity_sol))

  module _ (r : Runtime) where
    abbrev pub starting_guard : Option (DrawdownSetting R) → ℕ → Option (DrawdownState R)
    starting_guard none now = none
    starting_guard (some d) now =
        if d.limits.enabled
        then some (elim d.state [ none ↦ empty_state r now | some s ↦ s ])
        else none

    -- The constructor, at the instant `now`.
    unfoldable pub new_book : PaperConfig R → Pricing R → ℕ → PaperBook R
    new_book c proceeds now = record {
      config = c;
      factory = pricing_factory proceeds;
      positions = [];
      pricing = [];
      closed = [];
      refusals = [];
      drawdown = starting_guard c.drawdown now;
      last_drawdown_decision = none;
    }

    abbrev pub open_guarded :
        PaperBook R
        → OpenParams R
        → Option (DrawdownState R × DrawdownConfig R)
        → PaperBook R × Opening R
    open_guarded b params none = open_unhalted b params
    open_guarded b params (some (s, limits)) =
        let d = evaluate_drawdown r s limits params.at in
        if d.halted then refuse b params.mint (drawdown_halt d.reason) else open_unhalted b params

    unfoldable pub open_position : PaperBook R → OpenParams R → PaperBook R × Opening R
    unfolding open_unhalted
    open_position b params = open_guarded b params (active_guard b)
