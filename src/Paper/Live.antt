-- ===== src/Paper/Live.antt =====
-- The paper book and its log, in step through an open and an observation: src/index.ts,
-- src/graph/pipelineGraph.ts and src/trading/paperExecution.ts together.
use opiumo.Base.{
  ap, arith, is_some, set, ◌∙◌, [], delete, none, refl, some, subst, sym, true, ◌++◌, ◌∷◌, ◌≡◌,
  List, Option, Text, ℕ,
}
use opiumo.Drawdown.Guard.{DrawdownConfig, DrawdownState}
use opiumo.Number.{Number, nought}
use opiumo.Paper.Book.{refuse, active_guard, fresh_position, hold_position, open_position, retire}
use opiumo.Paper.Calls.{observe-cases, open_position-cases}
use opiumo.Paper.Expiring.{apply_exit}
use opiumo.Paper.InStep.{
  move-IsInStep, IsInStepWith, IsSound, drop-IsInStep, open_rows_from-++, take-IsInStep,
}
use opiumo.Paper.Keeping.{
  IsOpenAt, replace-IsKept, IsEnded, IsValid, hold_position-IsValid, retire-IsValid,
}
use opiumo.Paper.Observing.{observe, apply_to_drawdown, realise}
use opiumo.Paper.Records.{
  is_still_open, still_open, OpenParams, PaperBook, PaperConfig, PaperPosition, Pricing,
  pricing_factory,
}
use opiumo.Paper.Restoring.{
  paper_close, LogRow, PaperOpenRow, open_rows_from, paper_open, paper_open_row, unrelated,
}
use opiumo.Paper.Session.{record_paper_close, record_observed, Session, record_open}
use opiumo.Platform.{Runtime}
use opiumo.Exits.Decisions.{PoolObservation}

module _ {R : Type 0} ⦃n : Number R⦄ (r : Runtime) (c : PaperConfig R) (pricing : Pricing R) where
  open n use {lt, sub}

  -- A book of this program, in step with the open rows of its log.
  abbrev pub IsLive : PaperBook R → List (Text × PaperOpenRow R) → Type 0
  IsLive b m =
      IsValid b
      × IsInStepWith b.factory b.positions m
      × (b.factory ≡ pricing_factory pricing)
      × (b.config.pool_fraction ≡ c.pool_fraction)
      × (b.config.max_open_positions ≡ c.max_open_positions)

  abbrev pub IsLogged : Session R → Type 0
  IsLogged s = IsLive s.book (open_rows_from [] s.log)

  pub appended-IsLive :
      (b : PaperBook R) (log rows : List (LogRow R))
      → IsLive b (open_rows_from (open_rows_from [] log) rows)
      → IsLive b (open_rows_from [] (log ++ rows))
  appended-IsLive b log rows h = subst (λ m. IsLive b m) (sym (open_rows_from-++ [] log rows)) h

  pub apply_exit-IsLive :
      (b : PaperBook R) (m : List (Text × PaperOpenRow R)) (p : PaperPosition R) (price : Option R)
      (at : ℕ)
      → IsLive b m
      → IsLive (apply_exit r b p price at) m
  unfolding apply_to_drawdown
  apply_exit-IsLive b m p none at h = h
  apply_exit-IsLive b m p (some x) at h = by_guard (active_guard b)
    where
      by_guard :
          (g : Option (DrawdownState R × DrawdownConfig R))
          → IsLive (realise r b (sub x p.entry_proceeds_sol) at g) m
      by_guard none = h
      by_guard (some (s, limits)) = h

  pub retire-IsLive :
      (b : PaperBook R) (m : List (Text × PaperOpenRow R)) (k : Text) (q : PaperPosition R)
      → IsEnded q
      → IsLive b m
      → IsLive (retire b k q) (delete k m)
  unfolding retire
  retire-IsLive b m k q over (v, together, f, fraction, cap) = (
    retire-IsValid b k q over v,
    drop-IsInStep b.factory b.positions m together k,
    f,
    fraction,
    cap,
  )

  pub decided-IsLogged :
      (s : Session R) (params : OpenParams R)
      → IsSound (pricing_factory pricing)
      → lt nought c.pool_fraction ≡ true
      → IsLogged s
      → IsLogged (record_open s.log (open_position r s.book params))
  unfolding open_rows_from hold_position paper_open_row
  decided-IsLogged s params sound some_of_pool (v, together, f, fraction, cap) =
      open_position-cases r s.book params (λ x. IsLogged (record_open s.log x))
        (λ why.
          appended-IsLive (refuse s.book params.mint why).0 s.log (unrelated ∷ [])
            (v, together, f, fraction, cap))
        (λ liquidity proceeds e new room price gain.
          let priced = s.book.factory params.source liquidity s.book.config.pool_fraction in
          let p = fresh_position s.book.config params liquidity priced proceeds in
          appended-IsLive (hold_position s.book params.mint p priced.fn) s.log
            (paper_open (paper_open_row p) ∷ [])
            (
              hold_position-IsValid s.book params.mint p priced.fn (refl, refl, refl) v,
              take-IsInStep s.book.factory s.book.positions (open_rows_from [] s.log) together p (
                gain,
                subst IsSound (sym f) sound params.source liquidity _ proceeds price
                    (subst (λ x. lt nought x ≡ true) (sym fraction) some_of_pool) gain,
                subst (λ x. lt nought x ≡ true) (sym fraction) some_of_pool,
                refl,
              ),
              f,
              fraction,
              cap,
            ))

  still_open_rows : (q : PaperPosition R) → q.outcome ≡ still_open → record_paper_close q ≡ []
  still_open_rows q o = ground (arith, ap is_still_open o)

  ended_rows :
      (k : Text) (q : PaperPosition R)
      → IsEnded q
      → q.mint ≡ k
      → record_paper_close q ≡ paper_close k ∷ []
  ended_rows k q over e =
      subst (λ x. record_paper_close q ≡ paper_close x ∷ []) e (ground (arith, over))

  pub observed-IsLogged :
      (s : Session R) (mint : Text) (obs : PoolObservation R)
      → IsLogged s
      → IsLogged (record_observed s.log (observe r s.book mint obs))
  unfolding open_rows_from
  observed-IsLogged s mint obs (v, together, f, fraction, cap) =
      observe-cases r s.book mint obs (λ x. IsLogged (record_observed s.log x))
        (v, together, f, fraction, cap)
        (λ p q e kin.
          let o = v.open_at mint p e in
          let at_mint : IsOpenAt mint q = (kin.1 ∙ o.0, kin.2 ∙ o.1, kin.3 ∙ o.2) in
          appended-IsLive (record s.book { positions = set mint q s.book.positions }) s.log
            (record_paper_close q)
            (subst
              (λ rows.
                IsLive (record s.book { positions = set mint q s.book.positions })
                  (open_rows_from (open_rows_from [] s.log) rows))
              (sym (still_open_rows q at_mint.1))
              (
                replace-IsKept s.book mint q (ap is_some e) at_mint v,
                move-IsInStep s.book.factory s.book.positions (open_rows_from [] s.log) together
                    mint p q e kin.0,
                f,
                fraction,
                cap,
              )))
        (λ p q e end.
          let b = apply_exit r (retire s.book mint q) q q.exit_proceeds_sol obs.ts in
          appended-IsLive b s.log (record_paper_close q) (
            subst (λ rows. IsLive b (open_rows_from (open_rows_from [] s.log) rows))
              (sym (ended_rows mint q end.2 (end.1 ∙ (v.open_at mint p e).0)))
              (apply_exit-IsLive (retire s.book mint q) (delete mint (open_rows_from [] s.log)) q
                q.exit_proceeds_sol obs.ts
                (retire-IsLive s.book (open_rows_from [] s.log) mint q end.2
                  (v, together, f, fraction, cap)))))
        v
