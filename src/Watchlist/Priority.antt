-- ===== src/Watchlist/Priority.antt =====
-- The order in which a round of checks is spent.
use opiumo.Int.{ltb_ℤ, sub_ℕ}
use opiumo.Base.{ap, arith, inl, inr, true, ℕ, ◌*◌, ◌+◌, ◌<◌, ◌≡◌, ◌⊎◌}
use opiumo.Watchlist.Policy.{WatchEntry, WatchStage, check_priority, overdue_ms, stage_rank}

lt_sub_ℕ : (a b c d : ℕ) → a + d < c + b → ltb_ℤ (sub_ℕ a b) (sub_ℕ c d) ≡ true
lt_sub_ℕ a b c d h = ground arith

-- A token of an earlier stage comes first, as long as the other is less than a thousand million
-- milliseconds overdue; within a stage the more overdue one does.
pub check_priority-order :
    {R : Type 0} (d e : WatchEntry R) (s t : WatchStage) (now_ms : ℕ)
    → ((stage_rank s < stage_rank t) × (overdue_ms e now_ms < 1_000_000_000)
        ⊎ ((s ≡ t) × (overdue_ms e now_ms < overdue_ms d now_ms)))
    → ltb_ℤ (check_priority d s now_ms) (check_priority e t now_ms) ≡ true
unfolding check_priority
check_priority-order d e s t now_ms (inl (rank, late)) =
    lt_sub_ℕ (stage_rank s * 1_000_000_000) (overdue_ms d now_ms) (stage_rank t * 1_000_000_000)
      (overdue_ms e now_ms) (omega (arith, rank, late))
check_priority-order d e s t now_ms (inr (same, late)) =
    lt_sub_ℕ (stage_rank s * 1_000_000_000) (overdue_ms d now_ms) (stage_rank t * 1_000_000_000)
      (overdue_ms e now_ms) (omega (arith, ap stage_rank same, late))
