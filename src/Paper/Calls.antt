-- ===== src/Paper/Calls.antt =====
-- The ways in which a call of the book can end: rules by cases, which every later proof uses.
use opiumo.Base.{
  subst, Text, lookup, set, ℕ, ◌∙◌, Option, arith, false, has_key, if_cases, leb, length, none, not,
  refl, some, true, ◌&&◌, ◌<◌, ◌≡◌,
}
use opiumo.Drawdown.Guard.{DrawdownConfig, DrawdownState, evaluate_drawdown}
use opiumo.Number.{Number, nought}
use opiumo.Paper.Book.{
  retire, Opening, active_guard, fresh_position, hold_position, is_rejected, open_at_price,
  open_count, open_guarded, open_position, open_unhalted, open_with_liquidity, opened, refuse,
}
use opiumo.Paper.Records.{
  ExitRuleName, PaperConfig, PaperPosition, RaisedSetting, raised_stop_or_take_profit, trailing,
  OpenParams, PaperBook, RefusalReason, already_open, cap_reached, drawdown_halt, liquidity_unknown,
  realises_nothing, rejected_not_included,
}
use opiumo.Paper.Restoring.{paper_open_row}
use opiumo.Platform.{Runtime}
use opiumo.Exits.Decisions.{
  ExitTrigger, Decision, PoolObservation, ProceedsFn, exit, exit_failed, hold,
}
use opiumo.Exits.Raised.{RaisedState}
use opiumo.Paper.Expiring.{apply_exit}
use opiumo.Paper.Keeping.{IsEnded, IsValid}
use opiumo.Paper.Observing.{
  apply_to_drawdown, realise, unsold, Observed, followed, not_held, observe, observe_held,
  observe_priced, seen, settle, sold, step_position, step_rule, valued,
}

module _ {R : Type 0} ⦃n : Number R⦄ (r : Runtime) (b : PaperBook R) where
  open n use {lt}

  -- `open` refuses, or takes in a position for a mint that it does not hold, below the cap.
  module _ (params : OpenParams R) (P : PaperBook R × Opening R → Type 0)
      (refuses : (why : RefusalReason) → P (refuse b params.mint why))
      (takes : (liquidity proceeds : R)
        → params.liquidity_sol ≡ some liquidity
        → has_key params.mint b.positions ≡ false
        → length b.positions < b.config.max_open_positions
        → let priced = b.factory params.source liquidity b.config.pool_fraction in
          priced.fn liquidity b.config.pool_fraction ≡ some proceeds
          → lt nought proceeds ≡ true
          → P (
            hold_position b params.mint
                (fresh_position b.config params liquidity priced proceeds)
                priced.fn,
            opened (fresh_position b.config params liquidity priced proceeds),
          )) where
    open_unhalted-cases : P (open_unhalted b params)
    unfolding open_unhalted
    open_unhalted-cases =
        if_cases P (is_rejected params.live_verdict && not b.config.include_rejected)
          (λ _. refuses rejected_not_included)
          (λ _.
            if_cases P (has_key params.mint b.positions) (λ _. refuses already_open)
              (λ new.
                if_cases P (leb b.config.max_open_positions (open_count b))
                  (λ _. refuses (cap_reached b.config.max_open_positions))
                  (λ room. with_liquidity params.liquidity_sol refl new (ground (arith, room)))))
      where
        at_price :
            (liquidity : R) (o : Option R)
            → params.liquidity_sol ≡ some liquidity
            → has_key params.mint b.positions ≡ false
            → length b.positions < b.config.max_open_positions
            → (b.factory params.source liquidity b.config.pool_fraction).fn liquidity
                b.config.pool_fraction
              ≡ o
            → P (
                open_at_price b params liquidity
                  (b.factory params.source liquidity b.config.pool_fraction)
                  o)
        at_price liquidity none e new room k =
            refuses
              (realises_nothing (b.factory params.source liquidity b.config.pool_fraction).model)
        at_price liquidity (some proceeds) e new room k =
            if_cases P (lt nought proceeds)
              (λ positive. takes liquidity proceeds e new room k positive)
              (λ _.
                refuses (
                  realises_nothing
                    (b.factory params.source liquidity b.config.pool_fraction).model))

        with_liquidity :
            (o : Option R)
            → params.liquidity_sol ≡ o
            → has_key params.mint b.positions ≡ false
            → length b.positions < b.config.max_open_positions
            → P (open_with_liquidity b params o)
        with_liquidity none e new room = refuses liquidity_unknown
        with_liquidity (some liquidity) e new room = at_price liquidity _ e new room refl

    pub open_position-cases : P (open_position r b params)
    unfolding open_position
    open_position-cases = by_guard (active_guard b)
      where
        by_guard : (g : Option (DrawdownState R × DrawdownConfig R)) → P (open_guarded r b params g)
        by_guard none = open_unhalted-cases
        by_guard (some (s, limits)) =
            if_cases P (evaluate_drawdown r s limits params.at).halted
              (λ _. refuses (drawdown_halt (evaluate_drawdown r s limits params.at).reason))
              (λ _. open_unhalted-cases)

module _ {R : Type 0} where
  -- The same position, at another point of its life: the same entry, and the same outcome.
  abbrev pub IsKin : PaperPosition R → PaperPosition R → Type 0
  IsKin q p =
      (paper_open_row q ≡ paper_open_row p)
      × (q.mint ≡ p.mint)
      × (q.outcome ≡ p.outcome)
      × (q.exit_proceeds_sol ≡ p.exit_proceeds_sol)

  -- A position that has ended, with its entry.
  abbrev pub IsEndOf : PaperPosition R → PaperPosition R → Type 0
  IsEndOf q p = (paper_open_row q ≡ paper_open_row p) × (q.mint ≡ p.mint) × IsEnded q

  IsKin-trans : (o q p : PaperPosition R) → IsKin o q → IsKin q p → IsKin o p
  IsKin-trans o q p (a, c, d, e) (a', c', d', e') = (a ∙ a', c ∙ c', d ∙ d', e ∙ e')

module _ {R : Type 0} ⦃n : Number R⦄ where
  step_position-IsKin :
      (c : PaperConfig R) (obs : PoolObservation R) (fn : ProceedsFn R) (p : PaperPosition R)
      → IsKin (step_position c obs fn p).0 p
  unfolding step_position paper_open_row
  step_position-IsKin c obs fn p = by_rule p.exit_rule p.raised_state c.raised_take_profit
    where
      by_rule :
          (rule : ExitRuleName) (s : Option (RaisedState R)) (setting : Option (RaisedSetting R))
          → IsKin (step_rule c obs fn p rule s setting).0 p
      by_rule trailing s setting = (refl, refl, refl, refl)
      by_rule raised_stop_or_take_profit none setting = (refl, refl, refl, refl)
      by_rule raised_stop_or_take_profit (some s) none = (refl, refl, refl, refl)
      by_rule raised_stop_or_take_profit (some s) (some setting) = (refl, refl, refl, refl)

  sold_row :
      (q : PaperPosition R) (t : ExitTrigger) (proceeds : R) (at : ℕ)
      → paper_open_row (sold q t proceeds at) ≡ paper_open_row q
  unfolding paper_open_row
  sold_row q t proceeds at = refl

  unsold_row : (q : PaperPosition R) (at : ℕ) → paper_open_row (unsold q at) ≡ paper_open_row q
  unfolding paper_open_row
  unsold_row q at = refl

  valued-IsKin : (p : PaperPosition R) (at : ℕ) (v : Option R) → IsKin (valued (seen p at) v) p
  unfolding paper_open_row
  valued-IsKin p at none = (refl, refl, refl, refl)
  valued-IsKin p at (some x) = (refl, refl, refl, refl)

module _ {R : Type 0} ⦃n : Number R⦄ (r : Runtime) (b : PaperBook R) where
  open n use {sub}

  -- What only the guard's ledger changes.
  pub apply_exit-IsValid :
      (p : PaperPosition R) (price : Option R) (at : ℕ)
      → IsValid b
      → IsValid (apply_exit r b p price at)
  unfolding apply_to_drawdown
  apply_exit-IsValid p none at h = h
  apply_exit-IsValid p (some x) at h = by_guard (active_guard b)
    where
      by_guard :
          (g : Option (DrawdownState R × DrawdownConfig R))
          → IsValid (realise r b (sub x p.entry_proceeds_sol) at g)
      by_guard none = h
      by_guard (some (s, limits)) = h

  -- `observe` finds no position, or moves one on in its place, or ends it with or without a price.
  module _ (mint : Text) (obs : PoolObservation R) (P : PaperBook R × Observed R → Type 0)
      (misses : P (b, not_held))
      (follows : (p q : PaperPosition R)
        → lookup mint b.positions ≡ some p
        → IsKin q p
        → P (record b { positions = set mint q b.positions }, followed q))
      (ends : (p q : PaperPosition R)
        → lookup mint b.positions ≡ some p
        → IsEndOf q p
        → P (apply_exit r (retire b mint q) q q.exit_proceeds_sol obs.ts, followed q)) where
    pub observe-cases : IsValid b → P (observe r b mint obs)
    unfolding observe
    observe-cases v = by_held (lookup mint b.positions) refl
      where
        by_decision :
            (p q : PaperPosition R) (d : Decision R)
            → lookup mint b.positions ≡ some p
            → IsKin q p
            → P (settle r b mint obs.ts (q, d))
        by_decision p q (hold why) e kin = follows p q e kin
        by_decision p q (exit t proceeds) e kin =
            ends p (sold q t proceeds obs.ts) e (sold_row q t proceeds obs.ts ∙ kin.0, kin.1, refl)
        by_decision p q exit_failed e kin =
            let u = unsold q obs.ts in
            subst (λ x. P (apply_exit r (retire b mint u) u x obs.ts, followed u))
              (kin.3 ∙ (v.open_at mint p e).2)
              (ends p u e (unsold_row q obs.ts ∙ kin.0, kin.1, refl))

        by_pricing :
            (p : PaperPosition R) (o : Option (ProceedsFn R))
            → lookup mint b.positions ≡ some p
            → lookup mint b.pricing ≡ o
            → P (observe_priced r b mint obs p o)
        by_pricing p none e k = absurd (ground (arith, v.paired mint, e, k))
        by_pricing p (some fn) e k =
            let seen_now = valued (seen p obs.ts) (fn obs.liquidity_sol p.pool_fraction) in
            let q = step_position b.config obs fn seen_now in
            by_decision p q.0 q.1 e (
              IsKin-trans q.0 seen_now p (step_position-IsKin b.config obs fn seen_now)
                (valued-IsKin p obs.ts (fn obs.liquidity_sol p.pool_fraction)))

        by_held :
            (o : Option (PaperPosition R))
            → lookup mint b.positions ≡ o
            → P (observe_held r b mint obs o)
        by_held none e = misses
        by_held (some p) e = by_pricing p (lookup mint b.pricing) e refl
