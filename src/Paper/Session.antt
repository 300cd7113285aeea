-- ===== src/Paper/Session.antt =====
-- The paper book in the running program, with the log that it writes: src/index.ts (the restore,
-- `recordPaperClose`, `onObservation` and the sweep) and src/graph/pipelineGraph.ts (`paperOpen`).
use opiumo.Base.{if◌then◌else◌, List, ◌++◌, ◌∷◌, [], map, Text, ℕ, Option}
use opiumo.Number.{Number}
use opiumo.Paper.Book.{Opening, new_book, open_position, opened, refused}
use opiumo.Paper.Expiring.{expire}
use opiumo.Paper.Observing.{Observed, followed, no_pricing, not_held, observe}
use opiumo.Paper.Records.{
  is_still_open, DrawdownSetting, ForcedExitConfig, OpenParams, PaperBook, PaperConfig,
  PaperPosition, Pricing,
}
use opiumo.Paper.Restoring.{
  LogRow, Reading, open_rows_from_log, paper_close, paper_open, paper_open_row, restore, unrelated,
}
use opiumo.Platform.{Runtime}
use opiumo.Exits.Decisions.{PoolObservation}

-- What can happen to the program. A restart reads the guard's state from its file.
pub data SessionEvent (R : Type 0) : Type 0 where
  decided : OpenParams R → SessionEvent R
  read_pool : Text → PoolObservation R → SessionEvent R
  swept : ℕ → ForcedExitConfig → SessionEvent R
  restarted : Option (DrawdownSetting R) → ℕ → List (Text × Reading R) → SessionEvent R

pub record Session (R : Type 0) : Type 0 where
  pub book : PaperBook R
  pub log : List (LogRow R)

module _ {R : Type 0} where
  abbrev pub close_rows : List (PaperPosition R) → List (LogRow R)
  close_rows ps = map (λ p. paper_close p.mint) ps

  -- `paperOpen` logs an open or a refusal.
  abbrev pub record_open : List (LogRow R) → PaperBook R × Opening R → Session R
  record_open log (b, opened p) = record {
    book = b;
    log = log ++ (paper_open (paper_open_row p) ∷ []);
  }
  record_open log (b, refused why) = record { book = b; log = log ++ (unrelated ∷ []) }

  abbrev pub record_paper_close : PaperPosition R → List (LogRow R)
  record_paper_close p = if is_still_open p.outcome then [] else paper_close p.mint ∷ []

  abbrev pub record_observed : List (LogRow R) → PaperBook R × Observed R → Session R
  record_observed log (b, followed p) = record { book = b; log = log ++ record_paper_close p }
  record_observed log (b, not_held) = record { book = b; log = log }
  record_observed log (b, no_pricing) = record { book = b; log = log }

  abbrev pub record_swept : List (LogRow R) → PaperBook R × List (PaperPosition R) → Session R
  record_swept log (b, ps) = record { book = b; log = log ++ close_rows ps }

module _ {R : Type 0} ⦃n : Number R⦄ (r : Runtime) (c : PaperConfig R) (pricing : Pricing R) where
  -- The book that a start builds from the log that it finds.
  unfoldable pub start_session :
      Option (DrawdownSetting R) → ℕ → List (Text × Reading R) → List (LogRow R) → Session R
  unfolding restore new_book open_rows_from_log
  start_session guard at readings log = record {
    book =
        (restore (new_book r (record c { drawdown = guard }) pricing at) (open_rows_from_log log) at
          readings).0;
    log = log ++ (unrelated ∷ []);
  }

  unfoldable pub step_session : Session R → SessionEvent R → Session R
  unfolding open_position observe expire start_session paper_open_row
  step_session s (decided params) = record_open s.log (open_position r s.book params)
  step_session s (read_pool mint obs) = record_observed s.log (observe r s.book mint obs)
  step_session s (swept now forced) = record_swept s.log (expire r s.book now forced)
  step_session s (restarted guard at readings) = start_session guard at readings s.log

  unfoldable pub run_session : Session R → List (SessionEvent R) → Session R
  unfolding step_session
  run_session s [] = s
  run_session s (e ∷ es) = run_session (step_session s e) es
