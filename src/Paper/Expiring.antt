-- ===== src/Paper/Expiring.antt =====
-- src/trading/paperExecution.ts: `expire`, which closes what the exit rule can no longer reach.
use opiumo.Base.{
  Bool, List, Option, [], if◌then◌else◌, is_some, leb, none, not, some, values, ℕ, ◌&&◌, ◌++◌, ◌+◌,
  ◌∷◌,
}
use opiumo.Int.{sub_ℕ}
use opiumo.Number.{Number}
use opiumo.Paper.Book.{retire}
use opiumo.Paper.Records.{
  ForcedExitConfig, ForcedExitRule, PaperBook, PaperPosition, PriceSource, closed_out,
  entry_valuation, max_hold, no_reading, observed_at, rule_never_fired, stale_observation,
}
use opiumo.Platform.{Runtime}
use opiumo.Paper.Observing.{apply_to_drawdown}

module _ {R : Type 0} where
  -- The time of the last observation, or of the entry.
  abbrev pub last_ms : PaperPosition R → ℕ
  last_ms p = elim p.last_observed_at [ none ↦ p.opened_at | some t ↦ t ]

  abbrev pub expiry_rule : ForcedExitConfig → PaperPosition R → ℕ → Option ForcedExitRule
  expiry_rule c p now =
      if leb (last_ms p + c.stale_observation_ms) now
      then some stale_observation
      else (if leb (p.opened_at + c.max_hold_ms) now then some max_hold else none)

  abbrev pub never_read : PaperPosition R → Bool
  never_read p = is_some p.restored && not (is_some p.last_observed_at)

  abbrev pub price_source : PaperPosition R → PriceSource
  price_source p =
      if never_read p
      then no_reading
      else (elim p.last_observed_at [ none ↦ entry_valuation | some t ↦ observed_at t ])

  abbrev pub exit_price : PaperPosition R → Option R
  exit_price p = if never_read p then none else p.last_proceeds_sol

  abbrev pub expired : PaperPosition R → ForcedExitRule → ℕ → PaperPosition R
  expired p rule now = record p {
    outcome = closed_out;
    closed_at = some now;
    exit_proceeds_sol = exit_price p;
    exit_reason = some (rule_never_fired rule (price_source p));
    forced_exit = some (record {
      rule = rule;
      held_ms = sub_ℕ now p.opened_at;
      silent_ms = sub_ℕ now (last_ms p);
      price_source = price_source p;
    });
  }

module _ {R : Type 0} ⦃n : Number R⦄ (r : Runtime) where
  abbrev pub apply_exit : PaperBook R → PaperPosition R → Option R → ℕ → PaperBook R
  apply_exit b p none now = b
  apply_exit b p (some price) now = apply_to_drawdown r b p price now

  -- The body of the loop, for a position to which a rule applies or none.
  abbrev pub expire_under :
      PaperBook R
      → PaperPosition R
      → ℕ
      → Option ForcedExitRule
      → PaperBook R × List (PaperPosition R)
  expire_under b p now none = (b, [])
  expire_under b p now (some rule) =
      let q = expired p rule now in (apply_exit (retire b p.mint q) q (exit_price p) now, q ∷ [])

  unfoldable pub expire_one :
      ForcedExitConfig → ℕ → PaperBook R → PaperPosition R → PaperBook R × List (PaperPosition R)
  unfolding retire apply_to_drawdown
  expire_one c now b p = expire_under b p now (expiry_rule c p now)

  -- The loop over the positions as they were when it began.
  unfoldable pub expire_each :
      ForcedExitConfig
      → ℕ
      → PaperBook R
      → List (PaperPosition R)
      → PaperBook R × List (PaperPosition R)
  unfolding expire_one
  expire_each c now b [] = (b, [])
  expire_each c now b (p ∷ ps) =
      let first = expire_one c now b p in
      let rest = expire_each c now first.0 ps in (rest.0, first.1 ++ rest.1)

  unfoldable pub expire : PaperBook R → ℕ → ForcedExitConfig → PaperBook R × List (PaperPosition R)
  unfolding expire_each
  expire b now c = if not c.enabled then (b, []) else expire_each c now b (values b.positions)
