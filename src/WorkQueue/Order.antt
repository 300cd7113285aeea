-- ===== src/WorkQueue/Order.antt =====
-- Jobs start in the order in which they were offered, and an overload evicts the oldest.
use opiumo.Base.{List, [], arith, false, length, refl, true, ℕ, ◌++◌, ◌+◌, ◌-◌, ◌<◌, ◌∷◌, ◌≡◌, ◌≤◌}
use opiumo.WorkQueue.Machine.{Effect, WorkQueue, drops, finish, pump_from, push, starts}

module _ {ℓ} {A : Type ℓ} where
  abbrev pub started : List (Effect A) → List A
  started [] = []
  started (starts a ∷ es) = a ∷ started es
  started (drops a n ∷ es) = started es

  abbrev pub dropped : List (Effect A) → List A
  dropped [] = []
  dropped (starts a ∷ es) = dropped es
  dropped (drops a n ∷ es) = a ∷ dropped es

  pump_from-order :
      (max running : ℕ) (waiting : List A)
      → let next = pump_from max running waiting in
        (started next.2 ++ next.1 ≡ waiting)
        × (dropped next.2 ≡ [])
        × (next.0 ≡ running + length (started next.2))
  unfolding pump_from
  pump_from-order max running [] = (refl, refl, omega arith)
  pump_from-order max running (item ∷ waiting) =
      ground (arith, pump_from-order max (running + 1) waiting)

  -- Offering an item to a queue with room: nothing is dropped, the answer is `true`, and the jobs
  -- started followed by those that still wait are the ones that waited, then the item.
  pub push_with_room :
      (q : WorkQueue A) (item : A)
      → length q.waiting < q.max_queued
      → let (s, effects, accepted) = push q item in
        (accepted ≡ true)
        × (dropped effects ≡ [])
        × (started effects ++ s.waiting ≡ q.waiting ++ (item ∷ []))
        × (s.running ≡ q.running + length (started effects))
        × (s.total_dropped ≡ q.total_dropped)
  unfolding push
  push_with_room q item h =
      ground (arith, pump_from-order q.max_concurrent q.running (q.waiting ++ (item ∷ [])))

  -- Offering an item to a full queue: the job that has waited longest is dropped and counted, the
  -- answer is `false`, and the item takes its place behind all the others.
  pub push_when_full :
      (q : WorkQueue A) (item oldest : A) (rest : List A)
      → q.waiting ≡ oldest ∷ rest
      → q.max_queued ≤ length q.waiting
      → let (s, effects, accepted) = push q item in
        (accepted ≡ false)
        × (dropped effects ≡ oldest ∷ [])
        × (started effects ++ s.waiting ≡ rest ++ (item ∷ []))
        × (s.running ≡ q.running + length (started effects))
        × (s.total_dropped ≡ q.total_dropped + 1)
  unfolding push
  push_when_full q item oldest rest e h =
      ground (arith, pump_from-order q.max_concurrent q.running (rest ++ (item ∷ [])))

  -- When a job settles, the jobs that start are the ones that have waited longest, in order.
  pub finish-order :
      (q : WorkQueue A)
      → let (s, effects) = finish q in
        (started effects ++ s.waiting ≡ q.waiting)
        × (dropped effects ≡ [])
        × (s.running ≡ q.running - 1 + length (started effects))
  unfolding finish
  finish-order q = ground (arith, pump_from-order q.max_concurrent (q.running - 1) q.waiting)
