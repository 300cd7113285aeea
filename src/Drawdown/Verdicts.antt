-- ===== src/Drawdown/Verdicts.antt =====
-- When the guard halts, and what moves the numbers that it judges by.
use opiumo.Base.{Text, none, some, text_eq→eq, arith, is_some, true, ℕ, ◌↔◌, ◌≡◌, ◌⊎◌}
use opiumo.Drawdown.Guard.{
  apply_realised, grant_override, is_for_day, roll_to, DrawdownConfig, DrawdownState,
  evaluate_drawdown, utc_day,
}
use opiumo.Number.{IsNumeric, IsOrdered, ◌≼◌, Number}
use opiumo.Platform.{Runtime}

module _ {R : Type 0} ⦃n : Number R⦄ (r : Runtime) where
  open n use {sub, neg, to_fixed}

  -- An override that names the day of `at`.
  abbrev pub IsOverridden : DrawdownState R → ℕ → Type 0
  IsOverridden s at = is_for_day (utc_day r at) s.override ≡ true

  -- One of the three limits is reached by the ledger as it stands on the day.
  abbrev pub IsBreached : DrawdownConfig R → DrawdownState R → Type 0
  IsBreached c s =
      (c.max_daily_loss ≼ neg s.day_pnl)
      ⊎ (c.max_total_loss ≼ neg s.total_pnl)
      ⊎ (c.max_peak_drawdown ≼ to_fixed (sub s.peak_pnl s.total_pnl))

  -- The guard halts exactly when it is enabled, no override names the day, and an earlier halt
  -- stands or one of the three limits is reached by the ledger rolled to that day.
  pub evaluate_drawdown-halts_iff :
      (s : DrawdownState R) (c : DrawdownConfig R) (at : ℕ)
      → ((evaluate_drawdown r s c at).halted ≡ true) ↔ (
          (c.enabled ≡ true)
          × ¬ IsOverridden (roll_to r s at) at
          × ((is_some (roll_to r s at).halted ≡ true) ⊎ IsBreached c (roll_to r s at)))
  unfolding evaluate_drawdown
  evaluate_drawdown-halts_iff s c at = (ground arith, ground arith)

  roll_to-peak : (s : DrawdownState R) (at : ℕ) → (roll_to r s at).peak_pnl ≡ s.peak_pnl
  unfolding roll_to
  roll_to-peak s at = ground arith

  -- The high-water mark: while the new total and the old mark are numbers, realising a result
  -- leaves a mark that is at least the new total and at least the old mark.
  pub apply_realised-peak :
      IsOrdered R
      → (s : DrawdownState R) (pnl : R) (at : ℕ) → IsNumeric s.peak_pnl
      → IsNumeric (apply_realised r s pnl at).total_pnl
      → let s' = apply_realised r s pnl at in
        (s'.total_pnl ≼ s'.peak_pnl) × (s.peak_pnl ≼ s'.peak_pnl)
  unfolding apply_realised
  apply_realised-peak laws s pnl at p t =
      let kept : (roll_to r s at).peak_pnl ≡ s.peak_pnl = roll_to-peak s at in
      let p' : IsNumeric (roll_to r s at).peak_pnl = rw kept p in
      (laws.le-max_right _ _ p' t, simp (← kept) (laws.le-max_left _ _ p' t))

  -- An override granted for a later day is lost at the first rollover to any other day, and does
  -- not come back on the day that it names.
  pub grant_override-lost :
      (s t : DrawdownState R) (day by note : Text) (at between on : ℕ)
      → grant_override r s day by note at ≡ some t
      → ¬ (s.day ≡ utc_day r between)
      → ¬ (day ≡ utc_day r between)
      → (roll_to r (roll_to r t between) on).override ≡ none
  unfolding roll_to grant_override
  grant_override-lost s t day by note at between on e moved elsewhere =
      ground (arith, text_eq→eq s.day (utc_day r between), text_eq→eq day (utc_day r between))
