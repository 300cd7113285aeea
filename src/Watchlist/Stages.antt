-- ===== src/Watchlist/Stages.antt =====
-- What decides a token's stage and its full evaluation.
use opiumo.Number.{Number}
use opiumo.Base.{
  Bool, List, [], arith, false, keep_if, refl, true, ℕ, ◌+◌, ◌<◌, ◌↔◌, ◌∷◌, ◌≡◌, ◌≤◌, ◌⊎◌,
}
use opiumo.Watchlist.Policy.{
  LiquidityReading, WatchEntry, WatchPolicyConfig, WatchStage, above, at_least, at_most,
  baseline_of, baseline_sol, classify_stage, dead, growth_multiple, is_flat, is_measured,
  is_migrating, is_raydium, latest_of, latest_sol, near_sol, should_run_full_check,
  successful_reads,
}

module _ {R : Type 0} ⦃n : Number R⦄ (policy : WatchPolicyConfig R) (e : WatchEntry R) where
  -- A token is given up exactly when it is on no real pool, its latest measured liquidity is neither
  -- at graduation nor near it, and it is past the age limit, or it has had as many successful reads
  -- as the patience asks for while the latest is at or below the floor and has not grown.
  pub classify_stage-dead_iff :
      (now_ms : ℕ)
      → (classify_stage e policy now_ms ≡ dead) ↔ (
          (is_raydium e ≡ false)
          × (at_least (latest_sol e) policy.graduation_sol ≡ false)
          × (at_least (latest_sol e) (near_sol policy) ≡ false)
          × ((e.detected_at_ms + policy.max_age_ms ≤ now_ms)
              ⊎ ((policy.patience_checks ≤ successful_reads e)
                  × (at_most (latest_sol e) policy.dead_below_sol ≡ true)
                  × (is_flat (growth_multiple e) ≡ true))))
  unfolding classify_stage
  classify_stage-dead_iff now_ms = (ground arith, ground arith)

  -- A full evaluation is run exactly for a token that is not given up, has some of its evaluations
  -- left, and is near migration or past it, or has reached the absolute liquidity, or has grown
  -- enough from a measured baseline and is above the floor.
  pub should_run_full_check_iff :
      (stage : WatchStage)
      → (should_run_full_check e policy stage ≡ true) ↔ (
          ¬ (stage ≡ dead)
          × (e.full_checks < policy.max_full_checks_per_token)
          × ((is_migrating stage ≡ true)
              ⊎ ((at_least (latest_sol e) policy.promote_on_absolute_sol ≡ true)
                  ⊎ ((at_least (growth_multiple e) policy.promote_on_multiple ≡ true)
                      × (above (latest_sol e) policy.dead_below_sol ≡ true)))))
  unfolding should_run_full_check
  should_run_full_check_iff stage = (ground arith, ground arith)

keep_if-keep_if {ℓ} :
    {A : Type ℓ} (p : A → Bool) (xs : List A) → keep_if p (keep_if p xs) ≡ keep_if p xs
keep_if-keep_if p [] = refl
keep_if-keep_if p (x ∷ xs) = ground (arith, keep_if-keep_if p xs)

-- A failed read is no reading.
module _ {R : Type 0} where
  latest_of-measured :
      (rs : List (LiquidityReading R)) → latest_of (keep_if is_measured rs) ≡ latest_of rs
  latest_of-measured [] = refl
  latest_of-measured (r ∷ rs) = ground (arith, latest_of-measured rs)

  baseline_of-measured :
      (rs : List (LiquidityReading R)) → baseline_of (keep_if is_measured rs) ≡ baseline_of rs
  baseline_of-measured [] = refl
  baseline_of-measured (r ∷ rs) = ground (arith, baseline_of-measured rs)

  -- The entry without its failed reads.
  abbrev pub measured : WatchEntry R → WatchEntry R
  measured e = record e { readings = keep_if is_measured e.readings }

module _ {R : Type 0} ⦃n : Number R⦄ where
  -- Failed reads decide nothing: without them a token has the same stage, at any time, and the same
  -- claim to a full evaluation.
  pub classify_stage-measured :
      (policy : WatchPolicyConfig R) (e : WatchEntry R) (now_ms : ℕ) (stage : WatchStage)
      → (classify_stage (measured e) policy now_ms ≡ classify_stage e policy now_ms)
        × (should_run_full_check (measured e) policy stage ≡ should_run_full_check e policy stage)
  unfolding classify_stage should_run_full_check latest_sol baseline_sol growth_multiple
      successful_reads
  classify_stage-measured policy e now_ms stage = (
    simp (
      latest_of-measured e.readings,
      baseline_of-measured e.readings,
      keep_if-keep_if is_measured e.readings,
    ),
    simp (latest_of-measured e.readings, baseline_of-measured e.readings),
  )
