-- ===== src/WorkQueue/Examples.antt =====
-- The queue's theorems at a queue of two slots and two places, and a test run.
use opiumo.Base.{List, [], arith, false, length, refl, true, ℕ, ◌+◌, ◌∷◌, ◌≡◌}
use opiumo.WorkQueue.Bounds.{IsValid, Reach-new-IsValid, settle, settle-drains}
use opiumo.WorkQueue.Machine.{Reach, WorkQueue, drops, here, is_drained, new, next, push, pushes}

abbrev small : ℕ → List ℕ → WorkQueue ℕ
small running waiting = record {
  max_concurrent = 2;
  max_queued = 2;
  waiting = waiting;
  running = running;
  total_accepted = running + length waiting;
  total_dropped = 0;
  total_completed = 0;
}

overloaded : push (small 2 (7 ∷ 8 ∷ [])) 9 ≡ (
  record (small 2 (8 ∷ 9 ∷ [])) { total_accepted = 5; total_dropped = 1 },
  drops 7 1 ∷ [],
  false,
)
unfolding push
overloaded = refl

small-IsValid : IsValid (small 2 (7 ∷ 8 ∷ []))
small-IsValid = ground arith

Reach-new-IsValid_example : IsValid (push (small 0 []) 4).0
unfolding new
Reach-new-IsValid_example = Reach-new-IsValid 2 2 {q = small 0 []} refl (next here (pushes 4))

settle-drains_example :
    (is_drained (settle 4 (small 2 (7 ∷ 8 ∷ []))) ≡ true)
    × Reach (small 2 (7 ∷ 8 ∷ [])) (settle 4 (small 2 (7 ∷ 8 ∷ [])))
settle-drains_example = settle-drains 4 (small 2 (7 ∷ 8 ∷ [])) small-IsValid refl
