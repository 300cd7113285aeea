-- ===== src/Spot/Runs.antt =====
-- The spot bot (src/trading/engine.ts) over any interleaving of its calls.
use opiumo.Base.{
  List, Option, Text, ℕ, [], arith, lookup, none, some, suc, zero, text_eq, text_eq→eq, Bool-cases,
  inl, inr, refl, ◌++◌, ◌∷◌, ◌≡◌, IsDistinct, text_eq_refl, sym, subst,
}
use opiumo.Number.{Number}
use opiumo.Spot.Buying.{Buy}
use opiumo.Spot.Cycles.{IsFitBot}
use opiumo.Spot.Engine.{Cycle}
use opiumo.Spot.Keeping.{IsFit, IsHeld}
use opiumo.Spot.Records.{SpotPosition, TradingConfig}
use opiumo.Spot.Resuming.{AreFitTasks, IsFitStep, IsFitTask, begin_pass-IsFit, resume-IsFit}
use opiumo.Spot.Steps.{
  BotEvent, Live, Step, Task, after_step, answer, answered, apply_event, arrived, begin_pass,
  left_over, list_all, resume, run_bot, task_at, ticked,
}

module _ {R : Type 0} ⦃n : Number R⦄ (c : TradingConfig R) where
  abbrev IsFitPick : Option (Task R × List (Task R)) → Type 0
  IsFitPick none = Unit
  IsFitPick (some (t, ts)) = IsFitTask c t × AreFitTasks c ts

  left_over-IsFit :
      (t : Task R) (o : Option (Task R × List (Task R)))
      → IsFitTask c t
      → IsFitPick o
      → IsFitPick (left_over t o)
  left_over-IsFit t none fit rest = tt
  left_over-IsFit t (some (u, ts)) fit (one, rest) = (one, (fit, rest))

  task_at-IsFit : (i : ℕ) (ts : List (Task R)) → AreFitTasks c ts → IsFitPick (task_at i ts)
  task_at-IsFit i [] fit = tt
  task_at-IsFit zero (t ∷ ts) (one, rest) = (one, rest)
  task_at-IsFit (suc i) (t ∷ ts) (one, rest) =
      left_over-IsFit t (task_at i ts) one (task_at-IsFit i ts rest)

  append-AreFitTasks :
      (ts us : List (Task R)) → AreFitTasks c ts → AreFitTasks c us → AreFitTasks c (ts ++ us)
  append-AreFitTasks [] us fit fit' = fit'
  append-AreFitTasks (t ∷ ts) us (one, rest) fit' = (one, append-AreFitTasks ts us rest fit')

  list_all-AreFitTasks :
      (m : List (Text × SpotPosition R))
      → IsDistinct m
      → ((k : Text) (p : SpotPosition R) → lookup k m ≡ some p → IsHeld c k p)
      → AreFitTasks c (list_all m)
  list_all-AreFitTasks [] distinct held = tt
  list_all-AreFitTasks ((k, p) ∷ rest) (new, distinct) held =
      let (own, parts, given_up) = held k p (ground (arith, text_eq_refl k)) in
      ((refl, parts, given_up), list_all-AreFitTasks rest distinct later)
    where
      later : (j : Text) (q : SpotPosition R) → lookup j rest ≡ some q → IsHeld c j q
      later j q e = elim (Bool-cases (text_eq j k)) [
        | inl same ↦ absurd (
            let there : lookup k rest ≡ some q = cc (text_eq→eq j k same, e) in
            ground (arith, there, new))
        | inr apart ↦ held j q (ground (arith, apart, e))
      ]

  -- The position file is fit, and so is every position that a waiting call goes on with.
  abbrev IsFitLive : Live R → Type 0
  IsFitLive l = IsFitBot c l.bot × AreFitTasks c l.tasks

  after_step-IsFit :
      (x : Step R) (ts : List (Task R))
      → IsFitStep c x
      → AreFitTasks c ts
      → IsFitLive (after_step x ts)
  after_step-IsFit (b, none) ts (fit, next) rest = (fit, rest)
  after_step-IsFit (b, some t) ts (fit, next) rest = (fit, (next, rest))

  answer-IsFit :
      (w : Cycle R) (v : Buy R) (l : Live R) (o : Option (Task R × List (Task R)))
      → IsFitPick o
      → IsFitLive l
      → IsFitLive (answer c w v l o)
  answer-IsFit w v l none pick fit = fit
  answer-IsFit w v l (some (t, ts)) (one, rest) (fit, tasks) =
      after_step-IsFit (resume c w v l.bot t) ts (resume-IsFit c w v l.bot t one fit) rest

  apply_event-IsFit : (l : Live R) (e : BotEvent R) → IsFitLive l → IsFitLive (apply_event c l e)
  unfolding apply_event
  apply_event-IsFit l (arrived e) (fit, tasks) =
      after_step-IsFit (begin_pass c l.bot e) l.tasks (begin_pass-IsFit c l.bot e fit) tasks
  apply_event-IsFit l ticked (fit, tasks) = (
    fit,
    append-AreFitTasks l.tasks (list_all l.bot.positions) tasks
        (list_all-AreFitTasks l.bot.positions fit.distinct fit.held),
  )
  apply_event-IsFit l (answered i w v) (fit, tasks) =
      answer-IsFit w v l (task_at i l.tasks) (task_at-IsFit i l.tasks tasks) (fit, tasks)

  run_bot-IsFitLive :
      (l : Live R) (es : List (BotEvent R)) → IsFitLive l → IsFitLive (run_bot c l es)
  unfolding run_bot
  run_bot-IsFitLive l [] fit = fit
  run_bot-IsFitLive l (e ∷ es) fit =
      run_bot-IsFitLive (apply_event c l e) es (apply_event-IsFit l e fit)

  -- From a fit position file and no waiting calls, however buys and cycles interleave at their
  -- awaits and whatever the network answers, the file stays fit: no mint stands twice, each position
  -- is under its own mint, none has more left than was bought, and none is given up before the
  -- failures that the settings ask for.
  pub run_bot-IsFit :
      (l : Live R) (es : List (BotEvent R))
      → l.tasks ≡ []
      → IsFit c l.bot.positions
      → IsFit c (run_bot c l es).bot.positions
  run_bot-IsFit l es idle fit =
      (run_bot-IsFitLive l es (fit, subst (AreFitTasks c) (sym idle) tt)).0
