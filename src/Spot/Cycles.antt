-- ===== src/Spot/Cycles.antt =====
-- What the sales of the spot bot (src/trading/engine.ts) keep of its position file.
use opiumo.Base.{
  arith, false, if_cases, if◌then◌else◌, leb, lookup, none, refl, set, some, subst, sym, ◌+◌, ◌≡◌,
  ◌≤◌, Option, Text, ℕ,
}
use opiumo.Number.{Number}
use opiumo.Spot.Engine.{
  Bot, abandoned_row, failed_once_more, forget, log_trade, mark_tier, record_failed, record_sold,
  record_swap, sale_of, save, sell, tightened,
}
use opiumo.Spot.Keeping.{IsFit, IsHeld, delete-IsFit, set-IsFit}
use opiumo.Spot.Records.{ExitReason, SpotPosition, TradingConfig}
use opiumo.Spot.Retry.{should_abandon_position}

module _ {R : Type 0} ⦃n : Number R⦄ (c : TradingConfig R) where
  open n use {of_nat, max}

  abbrev pub IsFitBot : Bot R → Type 0
  IsFitBot b = IsFit c b.positions

  -- The position that a cycle goes on with: not given up, with no more than was bought. It may have
  -- been changed or removed in the file since it was read.
  abbrev pub IsManaged : SpotPosition R → Type 0
  IsManaged p = (p.remaining_size_tokens ≤ p.entry_size_tokens) × (p.abandoned ≡ false)

  pub managed-IsHeld : (p : SpotPosition R) → IsManaged p → IsHeld c p.mint p
  managed-IsHeld p (parts, active) = (refl, parts, λ e. absurd (ground (arith, active, e)))

  pub save-IsFit : (b : Bot R) (p : SpotPosition R) → IsManaged p → IsFitBot b → IsFitBot (save b p)
  unfolding save
  save-IsFit b p managed fit = set-IsFit c b.positions p.mint p (managed-IsHeld p managed) fit

  pub forget-IsFit : (b : Bot R) (k : Text) → IsFitBot b → IsFitBot (forget b k)
  unfolding forget
  forget-IsFit b k fit = delete-IsFit c b.positions k fit

  record_sold-IsFit :
      (b : Bot R) (p : SpotPosition R) (amount : ℕ)
      → IsManaged p
      → IsFitBot b
      → IsFitBot (record_sold b p amount)
  record_sold-IsFit b p amount (parts, active) fit =
      if_cases IsFitBot (leb p.remaining_size_tokens amount) (λ _. forget-IsFit b p.mint fit)
        (λ _. save-IsFit b _ (omega (arith, parts), active) fit)

  record_failed-IsFit :
      (b : Bot R) (k : Text) (at : ℕ)
      → IsFitBot b
      → IsFitBot (record_failed c b k at (lookup k b.positions))
  unfolding save should_abandon_position
  record_failed-IsFit b k at fit = by_fresh (lookup k b.positions) refl
    where
      noted : (fresh : SpotPosition R) → Bot R
      noted fresh =
          if should_abandon_position (fresh.sell_failure_count + 1) c.max_consecutive_sell_failures
          then log_trade b (abandoned_row k (fresh.sell_failure_count + 1))
          else b

      noted_positions : (fresh : SpotPosition R) → (noted fresh).positions ≡ b.positions
      noted_positions fresh =
          if_cases (λ (x : Bot R). x.positions ≡ b.positions)
            (should_abandon_position (fresh.sell_failure_count + 1) c.max_consecutive_sell_failures)
            (λ _. refl) (λ _. refl)

      by_fresh :
          (o : Option (SpotPosition R))
          → lookup k b.positions ≡ o
          → IsFitBot (record_failed c b k at o)
      by_fresh none e = fit
      by_fresh (some fresh) e =
          let (own, parts, given_up) = fit.held k fresh e in
          subst (λ m. IsFit c (set fresh.mint (failed_once_more c fresh at) m))
            (sym (noted_positions fresh))
            (set-IsFit c b.positions fresh.mint (failed_once_more c fresh at)
              (refl, parts, λ q. ground (arith, given_up, q)) fit)

  pub record_swap-IsFit :
      (b : Bot R) (p : SpotPosition R) (price : R) (amount : ℕ) (why : ExitReason) (at : ℕ)
      (swap : Option ℕ)
      → IsManaged p
      → IsFitBot b
      → IsFitBot (record_swap c b p price amount why at swap)
  record_swap-IsFit b p price amount why at none managed fit = record_failed-IsFit b p.mint at fit
  record_swap-IsFit b p price amount why at (some out) managed fit =
      record_sold-IsFit (log_trade b (sell (sale_of p price amount why out))) p amount managed fit

  pub mark_tier-IsFit :
      (b : Bot R) (k : Text) (tier : R)
      → IsFitBot b
      → IsFitBot (mark_tier b tier (lookup k b.positions))
  unfolding save
  mark_tier-IsFit b k tier fit = by_fresh (lookup k b.positions) refl
    where
      by_fresh :
          (o : Option (SpotPosition R)) → lookup k b.positions ≡ o → IsFitBot (mark_tier b tier o)
      by_fresh none e = fit
      by_fresh (some fresh) e =
          let (own, parts, given_up) = fit.held k fresh e in
          set-IsFit c b.positions fresh.mint _ (refl, parts, given_up) fit

  pub tightened-IsManaged :
      (p : SpotPosition R) (atr : Option R) → IsManaged p → IsManaged (tightened c p atr)
  tightened-IsManaged p none managed = managed
  tightened-IsManaged p (some x) managed = managed
