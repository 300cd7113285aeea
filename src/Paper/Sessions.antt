-- ===== src/Paper/Sessions.antt =====
-- The paper book and its log over a whole session with restarts: src/index.ts,
-- src/graph/pipelineGraph.ts and src/trading/paperExecution.ts together.
use mathlib.Core.Option
use opiumo.Base.{
  All, has_key, List, Option, Text, [], ap, arith, delete, if_cases, lookup, none, not, refl, some,
  subst, sym, true, values, ℕ, ◌++◌, ◌∙◌, ◌∷◌, ◌≡◌,
}
use opiumo.Number.{Number, nought}
use opiumo.Paper.Book.{new_book, retire}
use opiumo.Paper.Expiring.{
  exit_price, expire, expire_each, expire_one, expire_under, expired, expiry_rule,
}
use opiumo.Paper.InStep.{IsRestorable, IsSound, open_rows_from-++}
use opiumo.Paper.Live.{
  IsLive, IsLogged, appended-IsLive, apply_exit-IsLive, decided-IsLogged, observed-IsLogged,
  retire-IsLive,
}
use opiumo.Paper.Records.{
  still_open, DrawdownSetting, ForcedExitConfig, ForcedExitRule, PaperBook, PaperConfig,
  PaperPosition, Pricing, pricing_factory,
}
use opiumo.Paper.Restarts.{restore_from-IsRestoredFrom}
use opiumo.Paper.Restoring.{
  paper_open_row, PaperOpenRow, Reading, no_restores, open_rows_from, open_rows_from_log,
  paper_close, restore, restore_from, unrelated,
}
use opiumo.Paper.Session.{
  Session, SessionEvent, close_rows, decided, read_pool, record_swept, restarted, run_session,
  start_session, step_session, swept,
}
use opiumo.Platform.{Runtime}
use opiumo.Paper.Keeping.{IsEnded}

module _ {R : Type 0} ⦃n : Number R⦄ (r : Runtime) (c : PaperConfig R) (pricing : Pricing R) where
  open n use {lt}

  expire_one-IsLive :
      (forced : ForcedExitConfig) (now : ℕ) (p : PaperPosition R) (b : PaperBook R)
      (m : List (Text × PaperOpenRow R))
      → IsLive r c pricing b m
      → let x = expire_one r forced now b p in
        IsLive r c pricing x.0 (open_rows_from m (close_rows x.1))
  unfolding expire_one open_rows_from
  expire_one-IsLive forced now p b m h = under (expiry_rule forced p now)
    where
      under :
          (o : Option ForcedExitRule)
          → let x = expire_under r b p now o in
            IsLive r c pricing x.0 (open_rows_from m (close_rows x.1))
      under none = h
      under (some rule) =
          let q = expired p rule now in
          apply_exit-IsLive r c pricing (retire b p.mint q) (delete p.mint m) q (exit_price p) now
            (retire-IsLive r c pricing b m p.mint q refl h)

  close_rows-++ :
      (ps qs : List (PaperPosition R)) → close_rows (ps ++ qs) ≡ close_rows ps ++ close_rows qs
  close_rows-++ [] qs = refl
  close_rows-++ (p ∷ ps) qs = ap (λ x. paper_close p.mint ∷ x) (close_rows-++ ps qs)

  -- The loop of the sweep, with the open rows that its closes leave.
  expire_each-IsLive :
      (forced : ForcedExitConfig) (now : ℕ) (ps : List (PaperPosition R)) (b : PaperBook R)
      (m : List (Text × PaperOpenRow R))
      → IsLive r c pricing b m
      → let x = expire_each r forced now b ps in
        IsLive r c pricing x.0 (open_rows_from m (close_rows x.1))
  unfolding expire_each open_rows_from
  expire_each-IsLive forced now [] b m h = h
  expire_each-IsLive forced now (p ∷ ps) b m h =
      let one = expire_one r forced now b p in
      let rest = expire_each r forced now one.0 ps in
      subst (λ rows. IsLive r c pricing rest.0 (open_rows_from m rows))
        (sym (close_rows-++ one.1 rest.1))
        (subst (λ x. IsLive r c pricing rest.0 x)
          (sym (open_rows_from-++ m (close_rows one.1) (close_rows rest.1)))
          (expire_each-IsLive forced now ps one.0 (open_rows_from m (close_rows one.1))
            (expire_one-IsLive forced now p b m h)))

  swept-IsLogged :
      (s : Session R) (now : ℕ) (forced : ForcedExitConfig)
      → IsLogged r c pricing s
      → IsLogged r c pricing (record_swept s.log (expire r s.book now forced))
  unfolding expire open_rows_from
  swept-IsLogged s now forced h =
      if_cases (λ x. IsLogged r c pricing (record_swept s.log x)) (not forced.enabled)
        (λ _. appended-IsLive r c pricing s.book s.log [] h)
        (λ _.
          appended-IsLive r c pricing (expire_each r forced now s.book (values s.book.positions)).0
            s.log (close_rows (expire_each r forced now s.book (values s.book.positions)).1)
            (expire_each-IsLive forced now (values s.book.positions) s.book
              (open_rows_from [] s.log) h))

  pub restarted-IsLogged :
      (guard : Option (DrawdownSetting R)) (at : ℕ) (readings : List (Text × Reading R))
      (s : Session R)
      → IsLogged r c pricing s
      → IsLogged r c pricing (start_session r c pricing guard at readings s.log)
  unfolding start_session restore new_book open_rows_from_log open_rows_from
  restarted-IsLogged guard at readings s (v, together, f, fraction, cap) =
      let m = open_rows_from [] s.log in
      let fresh = new_book r (record c { drawdown = guard }) pricing at in
      let back =
        restore_from-IsRestoredFrom readings at m fresh no_restores together.distinct
          (subst
            (λ x. (k : Text) (row : PaperOpenRow R) → lookup k m ≡ some row → IsRestorable x k row)
            f together.restorable)
          (λ k e. refl)
          (record {
            distinct = tt;
            paired = λ k. refl;
            open_at = λ k p e. absurd (ground (arith, e));
            ended = tt;
          }) in
      let b = (restore_from readings at (fresh, no_restores) (values m)).0 in
      appended-IsLive r c pricing b s.log (unrelated ∷ []) (
        back.valid,
        record {
          distinct = together.distinct;
          same = λ k. ground (arith, back.rows k);
          restorable =
              subst
                (λ x.
                  (k : Text) (row : PaperOpenRow R) → lookup k m ≡ some row → IsRestorable x k row)
                (f ∙ sym back.factory) together.restorable;
        },
        back.factory,
        ap (λ x. x.pool_fraction) back.config,
        ap (λ x. x.max_open_positions) back.config,
      )

  pub step_session-IsLogged :
      (s : Session R) (e : SessionEvent R)
      → IsSound (pricing_factory pricing)
      → lt nought c.pool_fraction ≡ true
      → IsLogged r c pricing s
      → IsLogged r c pricing (step_session r c pricing s e)
  unfolding step_session
  step_session-IsLogged s (decided params) sound share h =
      decided-IsLogged r c pricing s params sound share h
  step_session-IsLogged s (read_pool mint obs) sound share h =
      observed-IsLogged r c pricing s mint obs h
  step_session-IsLogged s (swept now forced) sound share h = swept-IsLogged s now forced h
  step_session-IsLogged s (restarted guard at readings) sound share h =
      restarted-IsLogged guard at readings s h

  pub run_session-IsLogged :
      (s : Session R) (es : List (SessionEvent R))
      → IsSound (pricing_factory pricing)
      → lt nought c.pool_fraction ≡ true
      → IsLogged r c pricing s
      → IsLogged r c pricing (run_session r c pricing s es)
  unfolding run_session
  run_session-IsLogged s [] sound share h = h
  run_session-IsLogged s (e ∷ es) sound share h =
      run_session-IsLogged (step_session r c pricing s e) es sound share
        (step_session-IsLogged s e sound share h)

  pub restarted_rows :
      (guard : Option (DrawdownSetting R)) (at : ℕ) (readings : List (Text × Reading R))
      (s : Session R) (k : Text)
      → IsLogged r c pricing s
      → Option.map paper_open_row
          (lookup k (start_session r c pricing guard at readings s.log).book.positions)
        ≡ Option.map paper_open_row (lookup k s.book.positions)
  unfolding start_session open_rows_from
  restarted_rows guard at readings s k logged =
      sym ((restarted-IsLogged guard at readings s logged).1.same k)
      ∙ (ap (lookup k) (open_rows_from-++ [] s.log (unrelated ∷ [])) ∙ logged.1.same k)

  pub first_start :
      (guard : Option (DrawdownSetting R)) (at : ℕ)
      → IsLogged r c pricing (start_session r c pricing guard at [] [])
  unfolding start_session restore new_book restore_from open_rows_from_log open_rows_from
  first_start guard at = (
    record {
      distinct = tt;
      paired = λ k. refl;
      open_at = λ k p e. absurd (ground (arith, e));
      ended = tt;
    },
    record { distinct = tt; same = λ k. refl; restorable = λ k row e. absurd (ground (arith, e)) },
    refl,
    refl,
    refl,
  )

  -- A program that starts on an empty log and runs through any events, restarts included, keeps its
  -- book and its log in step: the rows of the log that are open are, mint by mint, those of the
  -- positions held, each under its own mint and with its pricing function, and none of the book's
  -- closes is still open. The pricing sells an empty pool for nothing, the share of it is positive.
  pub run_session_in_step :
      (guard : Option (DrawdownSetting R)) (at : ℕ) (es : List (SessionEvent R))
      → IsSound (pricing_factory pricing)
      → lt nought c.pool_fraction ≡ true
      → let s = run_session r c pricing (start_session r c pricing guard at [] []) es in
        ((k : Text)
          → lookup k (open_rows_from [] s.log)
            ≡ Option.map paper_open_row (lookup k s.book.positions))
        × ((k : Text) → has_key k s.book.pricing ≡ has_key k s.book.positions)
        × ((k : Text) (p : PaperPosition R)
            → lookup k s.book.positions ≡ some p
            → (p.mint ≡ k) × (p.outcome ≡ still_open))
        × All IsEnded s.book.closed
  run_session_in_step guard at es sound share =
      let (v, together, f, fraction, cap) =
        run_session-IsLogged (start_session r c pricing guard at [] []) es sound share
          (first_start guard at) in
      (together.same, v.paired, λ k p e. let o = v.open_at k p e in (o.0, o.1), v.ended)

  -- After any events, a restart brings back the very positions that were held: at every mint the
  -- entry that the new book holds, as its open row, is the one that the old book held, or both
  -- hold none.
  pub restart_keeps_positions :
      (guard later : Option (DrawdownSetting R)) (at then : ℕ) (es : List (SessionEvent R))
      (readings : List (Text × Reading R)) (k : Text)
      → IsSound (pricing_factory pricing)
      → lt nought c.pool_fraction ≡ true
      → let s = run_session r c pricing (start_session r c pricing guard at [] []) es in
        let s' = step_session r c pricing s (restarted later then readings) in
        Option.map paper_open_row (lookup k s'.book.positions)
        ≡ Option.map paper_open_row (lookup k s.book.positions)
  unfolding step_session
  restart_keeps_positions guard later at then es readings k sound share =
      restarted_rows later then readings
        (run_session r c pricing (start_session r c pricing guard at [] []) es) k
        (run_session-IsLogged (start_session r c pricing guard at [] []) es sound share
          (first_start guard at))
