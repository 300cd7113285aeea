-- ===== src/Paper/Records.antt =====
-- src/trading/paperExecution.ts, its types. A time is what `Date.parse` gives of a valid one; of the
-- reasons, which are prose, the kind is kept.
use opiumo.Base.{false, true, Bool, List, Option, Text, codes, ℕ}
use opiumo.Drawdown.Guard.{DrawdownConfig, DrawdownDecision, DrawdownReason, DrawdownState}
use opiumo.Exits.Decisions.{ExitTrigger, ProceedsFn}
use opiumo.Exits.Raised.{RaisedState, RaisedTakeProfitConfig}
use opiumo.Exits.Trailing.{TrailState, TrailingStopConfig}
use opiumo.Int.{ℤ}

pub data LiveVerdict : Type 0 where
  live_pass live_rejected : LiveVerdict

pub data ExitRuleName : Type 0 where
  trailing raised_stop_or_take_profit : ExitRuleName

pub data PaperOutcome : Type 0 where
  still_open closed_out could_not_exit given_up : PaperOutcome

abbrev pub is_still_open : PaperOutcome → Bool
is_still_open still_open = true
is_still_open _ = false

-- `PaperConfig.raisedTakeProfit`
pub record RaisedSetting (R : Type 0) : Type 0 where
  pub rule : RaisedTakeProfitConfig R
  pub enabled : Bool

-- `PaperConfig.drawdown`: the limits, and the state that the caller loaded.
pub record DrawdownSetting (R : Type 0) : Type 0 where
  pub limits : DrawdownConfig R
  pub state : Option (DrawdownState R)

pub record PaperConfig (R : Type 0) : Type 0 where
  pub pool_fraction : R
  pub max_open_positions : ℕ
  pub include_rejected : Bool
  pub trailing_stop : TrailingStopConfig R
  pub raised_take_profit : Option (RaisedSetting R)
  pub drawdown : Option (DrawdownSetting R)

-- A pricing function and the name of its model.
pub record Priced (R : Type 0) : Type 0 where
  pub fn : ProceedsFn R
  pub model : Text

-- The venue, the liquidity at entry and the fraction of the pool.
abbrev pub PricingFactory : Type 0 → Type 0
PricingFactory R = Option Text → R → R → Priced R

-- What the constructor takes: one model for every venue, or a branded factory.
pub data Pricing (R : Type 0) : Type 0 where
  plain : ProceedsFn R → Pricing R
  branded : PricingFactory R → Pricing R

abbrev pub pricing_factory : {R : Type 0} → Pricing R → PricingFactory R
pricing_factory (plain proceeds) venue liquidity fraction = record {
  fn = proceeds;
  model = codes "single model for every venue";
}
pricing_factory (branded f) venue liquidity fraction = f venue liquidity fraction

pub data ForcedExitRule : Type 0 where
  stale_observation max_hold : ForcedExitRule

pub data PriceSource : Type 0 where
  no_reading entry_valuation : PriceSource
  observed_at : ℕ → PriceSource

pub record ForcedExitRecord : Type 0 where
  pub rule : ForcedExitRule
  pub held_ms : ℤ
  pub silent_ms : ℤ
  pub price_source : PriceSource

pub record ForcedExitConfig : Type 0 where
  pub enabled : Bool
  pub max_hold_ms : ℕ
  pub stale_observation_ms : ℕ

pub data CloseReason : Type 0 where
  rule_fired : ExitTrigger → CloseReason
  cannot_be_sold : CloseReason
  rule_never_fired : ForcedExitRule → PriceSource → CloseReason
  observations_stopped : Text → CloseReason

-- What a restore could not carry over.
pub data RestoreNote : Type 0 where
  counters_restart : RestoreNote
  rule_derived : ExitRuleName → RestoreNote
  model_changed : Text → Text → RestoreNote
  seeded_from : ℕ → RestoreNote

pub record Restored : Type 0 where
  pub at : ℕ
  pub notes : List RestoreNote

pub record PaperPosition (R : Type 0) : Type 0 where
  pub mint : Text
  pub opened_at : ℕ
  pub live_verdict : LiveVerdict
  pub venue : Option Text
  pub pricing_model : Text
  pub exit_rule : ExitRuleName
  pub entry_liquidity_sol : R
  pub entry_proceeds_sol : R
  pub pool_fraction : R
  pub outcome : PaperOutcome
  pub observations : ℕ
  pub closed_at : Option ℕ
  pub exit_proceeds_sol : Option R
  pub exit_reason : Option CloseReason
  pub peak_proceeds_sol : R
  pub last_proceeds_sol : Option R
  pub last_observed_at : Option ℕ
  pub forced_exit : Option ForcedExitRecord
  pub state : TrailState R
  pub raised_state : Option (RaisedState R)
  pub restored : Option Restored

pub data RefusalReason : Type 0 where
  drawdown_halt : DrawdownReason → RefusalReason
  rejected_not_included already_open liquidity_unknown : RefusalReason
  cap_reached : ℕ → RefusalReason
  realises_nothing : Text → RefusalReason

pub record OpenRefusal : Type 0 where
  pub mint : Text
  pub reason : RefusalReason

pub record PaperBook (R : Type 0) : Type 0 where
  pub config : PaperConfig R
  pub factory : PricingFactory R
  pub positions : List (Text × PaperPosition R)
  pub pricing : List (Text × ProceedsFn R)
  pub closed : List (PaperPosition R)
  pub refusals : List OpenRefusal
  pub drawdown : Option (DrawdownState R)
  pub last_drawdown_decision : Option (DrawdownDecision R)

pub record OpenParams (R : Type 0) : Type 0 where
  pub mint : Text
  pub at : ℕ
  pub liquidity_sol : Option R
  pub live_verdict : LiveVerdict
  pub source : Option Text
