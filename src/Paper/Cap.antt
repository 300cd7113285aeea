-- ===== src/Paper/Cap.antt =====
-- The cap on open positions, over whole sessions (src/trading/paperExecution.ts, src/index.ts).
use mathlib.Core.Option
use opiumo.Base.{
  has_key, length-le, lookup, true, [], arith, if_cases, length, length-delete-le, length-set, none,
  not, some, values, ◌∷◌, ◌≡◌, ◌≤◌, List, Option, Text, ℕ,
}
use opiumo.Drawdown.Guard.{DrawdownConfig, DrawdownState}
use opiumo.Exits.Decisions.{PoolObservation}
use opiumo.Number.{nought, Number}
use opiumo.Paper.Book.{
  new_book, open_count, active_guard, fresh_position, hold_position, open_position, retire,
}
use opiumo.Paper.Calls.{observe-cases, open_position-cases}
use opiumo.Paper.Expiring.{
  apply_exit, exit_price, expire, expire_each, expire_one, expire_under, expired, expiry_rule,
}
use opiumo.Paper.Keeping.{IsValid}
use opiumo.Paper.Live.{IsLogged}
use opiumo.Paper.Observing.{apply_to_drawdown, observe, realise}
use opiumo.Paper.Records.{
  pricing_factory, DrawdownSetting, ForcedExitConfig, ForcedExitRule, OpenParams, PaperBook,
  PaperConfig, PaperPosition, Pricing,
}
use opiumo.Paper.Restoring.{
  open_rows_from_log, paper_open_row, restore, restore_from, Reading, open_rows_from,
}
use opiumo.Paper.Session.{
  SessionEvent, decided, read_pool, restarted, run_session, step_session, swept, Session,
  record_observed, record_open, record_swept, start_session,
}
use opiumo.Platform.{Runtime}
use opiumo.Paper.InStep.{IsSound}
use opiumo.Paper.Sessions.{restarted_rows, first_start, restarted-IsLogged, step_session-IsLogged}

module _ {R : Type 0} where
  held_of_row :
      (k : Text) (m m' : List (Text × PaperPosition R))
      → Option.map paper_open_row (lookup k m) ≡ Option.map paper_open_row (lookup k m')
      → has_key k m ≡ true
      → has_key k m' ≡ true
  held_of_row k m m' e h = ground (arith, e, h)

module _ {R : Type 0} ⦃n : Number R⦄ (r : Runtime) (c : PaperConfig R) (pricing : Pricing R) where
  open n use {lt, sub}

  abbrev IsWithin : PaperBook R → Type 0
  IsWithin b = length b.positions ≤ c.max_open_positions

  apply_exit-IsWithin :
      (b : PaperBook R) (p : PaperPosition R) (price : Option R) (at : ℕ)
      → IsWithin b
      → IsWithin (apply_exit r b p price at)
  unfolding apply_to_drawdown
  apply_exit-IsWithin b p none at h = h
  apply_exit-IsWithin b p (some x) at h = by_guard (active_guard b)
    where
      by_guard :
          (g : Option (DrawdownState R × DrawdownConfig R))
          → IsWithin (realise r b (sub x p.entry_proceeds_sol) at g)
      by_guard none = h
      by_guard (some (s, limits)) = h

  retire-IsWithin :
      (b : PaperBook R) (k : Text) (q : PaperPosition R) → IsWithin b → IsWithin (retire b k q)
  unfolding retire
  retire-IsWithin b k q h = omega (arith, h, length-delete-le k b.positions)

  decided-IsWithin :
      (s : Session R) (params : OpenParams R)
      → s.book.config.max_open_positions ≡ c.max_open_positions
      → IsWithin s.book
      → IsWithin (record_open s.log (open_position r s.book params)).book
  unfolding hold_position
  decided-IsWithin s params cap h =
      open_position-cases r s.book params (λ x. IsWithin (record_open s.log x).book) (λ why. h)
        (λ liquidity proceeds e new room price gain. ground (
          arith,
          length-set params.mint
              (fresh_position s.book.config params liquidity
                (s.book.factory params.source liquidity s.book.config.pool_fraction) proceeds)
              s.book.positions,
          new,
          room,
          cap,
        ))

  observed-IsWithin :
      (s : Session R) (mint : Text) (obs : PoolObservation R)
      → IsValid s.book
      → IsWithin s.book
      → IsWithin (record_observed s.log (observe r s.book mint obs)).book
  observed-IsWithin s mint obs v h =
      observe-cases r s.book mint obs (λ x. IsWithin (record_observed s.log x).book) h
        (λ p q e kin. ground (arith, length-set mint q s.book.positions, e, h))
        (λ p q e over.
          apply_exit-IsWithin (retire s.book mint q) q q.exit_proceeds_sol obs.ts
            (retire-IsWithin s.book mint q h))
        v

  expire_each-IsWithin :
      (forced : ForcedExitConfig) (now : ℕ) (ps : List (PaperPosition R)) (b : PaperBook R)
      → IsWithin b
      → IsWithin (expire_each r forced now b ps).0
  unfolding expire_each expire_one
  expire_each-IsWithin forced now [] b h = h
  expire_each-IsWithin forced now (p ∷ ps) b h =
      expire_each-IsWithin forced now ps (expire_one r forced now b p).0
        (under (expiry_rule forced p now))
    where
      under : (o : Option ForcedExitRule) → IsWithin (expire_under r b p now o).0
      under none = h
      under (some rule) =
          apply_exit-IsWithin (retire b p.mint (expired p rule now)) (expired p rule now)
            (exit_price p) now (retire-IsWithin b p.mint (expired p rule now) h)

  swept-IsWithin :
      (s : Session R) (now : ℕ) (forced : ForcedExitConfig)
      → IsWithin s.book
      → IsWithin (record_swept s.log (expire r s.book now forced)).book
  unfolding expire
  swept-IsWithin s now forced h =
      if_cases (λ x. IsWithin (record_swept s.log x).book) (not forced.enabled) (λ _. h)
        (λ _. expire_each-IsWithin forced now (values s.book.positions) s.book h)

  -- A restart holds no more positions than the log has open rows, which are those held before.
  restarted-IsWithin :
      (guard : Option (DrawdownSetting R)) (at : ℕ) (readings : List (Text × Reading R))
      (s : Session R)
      → IsLogged r c pricing s
      → IsWithin s.book
      → IsWithin (start_session r c pricing guard at readings s.log).book
  restarted-IsWithin guard at readings s h within =
      let s' = start_session r c pricing guard at readings s.log in
      let back = restarted-IsLogged r c pricing guard at readings s h in
      omega (
        arith,
        length-le s'.book.positions s.book.positions back.0.distinct h.0.distinct (λ k e.
            held_of_row k s'.book.positions s.book.positions
              (restarted_rows r c pricing guard at readings s k h) e),
        within,
      )

  first_start-IsWithin :
      (guard : Option (DrawdownSetting R)) (at : ℕ)
      → IsWithin (start_session r c pricing guard at [] []).book
  unfolding start_session restore new_book restore_from open_rows_from_log open_rows_from
  first_start-IsWithin guard at = omega arith

  step_session-IsWithin :
      (s : Session R) (e : SessionEvent R)
      → IsLogged r c pricing s
      → IsWithin s.book
      → IsWithin (step_session r c pricing s e).book
  unfolding step_session
  step_session-IsWithin s (decided params) h within = decided-IsWithin s params h.4 within
  step_session-IsWithin s (read_pool mint obs) h within = observed-IsWithin s mint obs h.0 within
  step_session-IsWithin s (swept now forced) h within = swept-IsWithin s now forced within
  step_session-IsWithin s (restarted guard at readings) h within =
      restarted-IsWithin guard at readings s h within

  run_session-IsWithin :
      (s : Session R) (es : List (SessionEvent R))
      → IsSound (pricing_factory pricing)
      → lt nought c.pool_fraction ≡ true
      → IsLogged r c pricing s
      → IsWithin s.book
      → IsWithin (run_session r c pricing s es).book
  unfolding run_session
  run_session-IsWithin s [] sound share h within = within
  run_session-IsWithin s (e ∷ es) sound share h within =
      run_session-IsWithin (step_session r c pricing s e) es sound share
        (step_session-IsLogged r c pricing s e sound share h) (step_session-IsWithin s e h within)

  -- From an empty log, no run of decisions, observations, sweeps and restarts ever holds more than
  -- `maxOpenPositions` positions, although a restore does not look at the cap.
  pub run_session_within_cap :
      (guard : Option (DrawdownSetting R)) (at : ℕ) (es : List (SessionEvent R))
      → IsSound (pricing_factory pricing)
      → lt nought c.pool_fraction ≡ true
      → open_count (run_session r c pricing (start_session r c pricing guard at [] []) es).book
        ≤ c.max_open_positions
  run_session_within_cap guard at es sound share =
      run_session-IsWithin (start_session r c pricing guard at [] []) es sound share
        (first_start r c pricing guard at) (first_start-IsWithin guard at)
