-- ===== src/WorkQueue/Machine.antt =====
-- src/util/workQueue.ts, `class WorkQueue`. The workers run outside: a method returns what it does
-- to them and to `onDrop` as a list of effects, and a worker that settles calls `finish`. Workers do
-- not call `push` before their first `await`.
use opiumo.Base.{
  Bool, List, Option, [], if◌then◌else◌, leb, length, ltb, none, not, some, ℕ, ◌&&◌, ◌++◌, ◌+◌, ◌-◌,
  ◌<◌, ◌==◌, ◌||◌, ◌∷◌,
}

pub data Effect {ℓ} (A : Type ℓ) : Type ℓ where
  -- `void this.run(item)`
  starts : A → Effect A
  -- `onDrop(evicted, this.waiting.length)`
  drops : A → ℕ → Effect A

pub record WorkQueue {ℓ} (A : Type ℓ) : Type ℓ where
  pub max_concurrent : ℕ
  pub max_queued : ℕ
  pub waiting : List A
  pub running : ℕ
  pub total_accepted : ℕ
  pub total_dropped : ℕ
  pub total_completed : ℕ

-- What `stats` reports.
pub record Stats : Type 0 where
  pub running : ℕ
  pub queued : ℕ
  pub total_accepted : ℕ
  pub total_dropped : ℕ
  pub total_completed : ℕ

module _ {ℓ} {A : Type ℓ} where
  -- The constructor; `none` is its exception.
  unfoldable pub new : ℕ → ℕ → Option (WorkQueue A)
  new max_concurrent max_queued =
      if leb max_concurrent 0 || leb max_queued 0
      then none
      else some (record {
        max_concurrent = max_concurrent;
        max_queued = max_queued;
        waiting = [];
        running = 0;
        total_accepted = 0;
        total_dropped = 0;
        total_completed = 0;
      })

  -- The loop of `pump`: how many jobs run, what still waits, and the jobs that were started.
  unfoldable pub pump_from : ℕ → ℕ → List A → ℕ × List A × List (Effect A)
  pump_from max running [] = (running, [], [])
  pump_from max running (item ∷ waiting) =
      let next = pump_from max (running + 1) waiting in
      if ltb running max
      then (next.0, next.1, starts item ∷ next.2)
      else (running, item ∷ waiting, [])

  unfoldable pub pump : WorkQueue A → WorkQueue A × List (Effect A)
  unfolding pump_from
  pump q =
      let next = pump_from q.max_concurrent q.running q.waiting in
      (record q { running = next.0; waiting = next.1 }, next.2)

  -- `waiting.shift()` and the report of what it evicts.
  unfoldable pub evict : List A → List A × List (Effect A)
  evict [] = ([], [])
  evict (oldest ∷ rest) = (rest, drops oldest (length rest) ∷ [])

  -- The new queue, its effects in order, and the result: false where an item was displaced.
  unfoldable pub push : WorkQueue A → A → WorkQueue A × List (Effect A) × Bool
  unfolding evict pump
  push q item =
      let full = leb q.max_queued (length q.waiting) in
      let evicted : List A × List (Effect A) = if full then evict q.waiting else (q.waiting, []) in
      let pumped = pump (record q {
        total_accepted = q.total_accepted + 1;
        total_dropped = if full then q.total_dropped + 1 else q.total_dropped;
        waiting = evicted.0 ++ (item ∷ []);
      }) in
      (pumped.0, evicted.1 ++ pumped.1, not full)

  -- The `finally` of `run`, for a job that is running.
  unfoldable pub finish : WorkQueue A → WorkQueue A × List (Effect A)
  unfolding pump
  finish q = pump (record q { running = q.running - 1; total_completed = q.total_completed + 1 })

  unfoldable pub stats : WorkQueue A → Stats
  stats q = record {
    running = q.running;
    queued = length q.waiting;
    total_accepted = q.total_accepted;
    total_dropped = q.total_dropped;
    total_completed = q.total_completed;
  }

  -- The condition under which `drain` resolves.
  abbrev pub is_drained : WorkQueue A → Bool
  is_drained q = q.running == 0 && length q.waiting == 0

  -- What can happen next: an item is offered, or one of the running jobs settles.
  pub data Step (q : WorkQueue A) : WorkQueue A → Type ℓ where
    pushes : (item : A) → Step q (push q item).0
    settles : 0 < q.running → Step q (finish q).0

  pub data Reach (q : WorkQueue A) : WorkQueue A → Type ℓ where
    here : Reach q q
    next : {s t : WorkQueue A} → Reach q s → Step s t → Reach q t
