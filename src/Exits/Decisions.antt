-- ===== src/Exits/Decisions.antt =====
-- src/trading/trailingStop.ts, the types that its rules share with raisedExit.ts. A time is what
-- `Date.parse` gives of a valid one; of the reasons to hold, which is prose, the kind is kept.
use opiumo.Base.{Bool, Option, false, if◌then◌else◌, none, some, true, ℕ, ◌&&◌}
use opiumo.Number.{Number, nought}

pub record PoolObservation (R : Type 0) : Type 0 where
  pub ts : ℕ
  pub liquidity_sol : R

pub data ExitTrigger : Type 0 where
  hard_stop trail raised_stop take_profit : ExitTrigger

pub data HoldReason : Type 0 where
  already_closed armed_above not_armed wick inside_hold above_stop : HoldReason

pub data Decision (R : Type 0) : Type 0 where
  hold : HoldReason → Decision R
  exit : ExitTrigger → R → Decision R
  exit_failed : Decision R

-- Realizable proceeds from a pool's liquidity and the position's fraction; `none` is `null`.
abbrev pub ProceedsFn : Type 0 → Type 0
ProceedsFn R = R → R → Option R

abbrev pub is_exit : {R : Type 0} → Decision R → Bool
is_exit (exit t p) = true
is_exit _ = false

abbrev pub is_hold : {R : Type 0} → Decision R → Bool
is_hold (hold why) = true
is_hold _ = false

module _ {R : Type 0} ⦃n : Number R⦄ where
  open n use {of_nat, add, mul, div, lt}

  abbrev sellable : R → R → Bool
  sellable liquidity fraction = lt nought liquidity && lt nought fraction

  unfoldable pub naive_proceeds : ProceedsFn R
  naive_proceeds liquidity fraction =
      if sellable liquidity fraction then some (mul liquidity fraction) else none

  unfoldable pub constant_product_proceeds : ProceedsFn R
  constant_product_proceeds liquidity fraction =
      if sellable liquidity fraction
      then some (div (mul liquidity fraction) (add (of_nat 1) fraction))
      else none

  unfoldable pub unsellable : ProceedsFn R
  unsellable liquidity fraction = none
