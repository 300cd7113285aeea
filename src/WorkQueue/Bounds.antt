-- ===== src/WorkQueue/Bounds.antt =====
-- The limits of the queue, its books, and that it drains.
use opiumo.Base.{
  Bool-cases, inl, inr, leb, leb→le, length-append, some, suc, tests, true, zero, ◌++◌, List, [],
  arith, length, ℕ, ◌+◌, ◌-◌, ◌<◌, ◌∷◌, ◌≡◌, ◌≤◌, ◌⊎◌,
}
use opiumo.WorkQueue.Machine.{
  Reach, Step, evict, here, is_drained, new, pushes, settles, WorkQueue, finish, next, pump_from,
  push,
}

module _ {ℓ} {A : Type ℓ} where
  pub record IsValid (q : WorkQueue A) : Type ℓ where
    pub can_run : 0 < q.max_concurrent
    pub can_wait : 0 < q.max_queued
    pub running_capped : q.running ≤ q.max_concurrent
    pub waiting_capped : length q.waiting ≤ q.max_queued
    -- nobody waits beside a free slot
    pub busy : (q.running ≡ q.max_concurrent) ⊎ (length q.waiting ≡ 0)
    -- every accepted item was dropped or completed, runs, or waits
    pub books :
        q.total_accepted ≡ q.total_dropped + q.total_completed + q.running + length q.waiting

  -- The loop keeps the number of jobs in hand and stops only for want of slots or of jobs.
  pub pump_from_lem :
      (max running : ℕ) (waiting : List A)
      → running ≤ max
      → let next = pump_from max running waiting in
        (next.0 ≤ max)
        × (next.0 + length next.1 ≡ running + length waiting)
        × ((next.0 ≡ max) ⊎ (length next.1 ≡ 0))
        × (running ≤ next.0)
  unfolding pump_from
  pump_from_lem max running [] h = ground arith
  pump_from_lem max running (item ∷ waiting) h =
      ground (arith, pump_from_lem max (running + 1) waiting)

  -- Putting an item behind waiting jobs that leave room for it, then pumping, keeps the limits.
  enqueue_lem :
      (max running cap : ℕ) (waiting : List A) (item : A)
      → running ≤ max
      → length waiting < cap
      → let next = pump_from max running (waiting ++ (item ∷ [])) in
        (next.0 ≤ max)
        × (length next.1 ≤ cap)
        × (next.0 + length next.1 ≡ running + length waiting + 1)
        × ((next.0 ≡ max) ⊎ (length next.1 ≡ 0))
  enqueue_lem max running cap waiting item h k = ground (
    arith,
    pump_from_lem max running (waiting ++ (item ∷ [])) h,
    length-append waiting (item ∷ []),
  )

  length-evict : (xs : List A) → 0 < length xs → length (evict xs).0 + 1 ≡ length xs
  unfolding evict
  length-evict [] h = elim h [ ]
  length-evict (x ∷ xs) h = omega arith

  push-IsValid : (q : WorkQueue A) (item : A) → IsValid q → IsValid (push q item).0
  unfolding push
  push-IsValid q item v = elim (Bool-cases (leb q.max_queued (length q.waiting))) [
    | inl full ↦
        let room = length-evict q.waiting (omega (tests, v.can_wait, leb→le _ _ full)) in
        simp full (
          ground (
            arith,
            room,
            leb→le _ _ full,
            enqueue_lem q.max_concurrent q.running q.max_queued (evict q.waiting).0 item,
          ))
    | inr free ↦
        simp free
          (ground (arith, enqueue_lem q.max_concurrent q.running q.max_queued q.waiting item))
  ]

  finish-IsValid : (q : WorkQueue A) → 0 < q.running → IsValid q → IsValid (finish q).0
  unfolding finish
  finish-IsValid q h v = ground (arith, pump_from_lem q.max_concurrent (q.running - 1) q.waiting)

  Step-IsValid : {q s : WorkQueue A} → Step q s → IsValid q → IsValid s
  Step-IsValid {q = q} (pushes item) v = push-IsValid q item v
  Step-IsValid {q = q} (settles h) v = finish-IsValid q h v

  Reach-IsValid : {q s : WorkQueue A} → Reach q s → IsValid q → IsValid s
  Reach-IsValid here v = v
  Reach-IsValid (next r st) v = Step-IsValid st (Reach-IsValid r v)

  new-IsValid : (c w : ℕ) {q : WorkQueue A} → new c w ≡ some q → IsValid q
  unfolding new
  new-IsValid c w e = ground arith

  -- Whatever is offered and in whatever order jobs settle, a queue that the constructor made never
  -- runs more jobs than its concurrency limit, never has more waiting than its cap, leaves no slot
  -- free while a job waits, and accounts for each accepted item once.
  pub Reach-new-IsValid : (c w : ℕ) {q s : WorkQueue A} → new c w ≡ some q → Reach q s → IsValid s
  Reach-new-IsValid c w e r = Reach-IsValid r (new-IsValid c w e)

  -- `k` jobs settle, one after the other.
  unfoldable pub settle : ℕ → WorkQueue A → WorkQueue A
  settle zero q = q
  settle (suc k) q = settle k (finish q).0

  finish-measure :
      (q : WorkQueue A)
      → 0 < q.running
      → IsValid q
      → (finish q).0.running + length (finish q).0.waiting + 1 ≡ q.running + length q.waiting
  unfolding finish
  finish-measure q h v = ground (arith, pump_from_lem q.max_concurrent (q.running - 1) q.waiting)

  Reach-after : {q s t : WorkQueue A} → Step q s → Reach s t → Reach q t
  Reach-after st here = next here st
  Reach-after st (next r st') = next (Reach-after st r) st'

  -- A queue that satisfies its invariant drains: if nothing more is offered, exactly as many jobs
  -- settle as were running or waiting, each of them a running one, and then `drain` resolves.
  pub settle-drains :
      (k : ℕ) (q : WorkQueue A)
      → IsValid q
      → q.running + length q.waiting ≡ k
      → (is_drained (settle k q) ≡ true) × Reach q (settle k q)
  unfolding settle
  settle-drains zero q v e = (ground arith, here)
  settle-drains (suc k) q v e =
      let running : 0 < q.running = omega (arith, v.busy, v.can_run) in
      let (done, path) =
        settle-drains k (finish q).0 (finish-IsValid q running v)
          (omega (arith, finish-measure q running v)) in
      (done, Reach-after (settles running) path)
