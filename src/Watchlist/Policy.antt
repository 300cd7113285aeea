-- ===== src/Watchlist/Policy.antt =====
-- src/watchlist/policy.ts. Times are milliseconds; liquidity is a number of the runtime.
use opiumo.Int.{ℤ, sub_ℕ}
use opiumo.Number.{Number, nought}
use opiumo.Base.{
  Bool, List, Option, Text, [], codes, false, if◌then◌else◌, is_some, keep_if, leb, length, none,
  some, text_eq, true, ℕ, ◌&&◌, ◌*◌, ◌+◌, ◌-◌, ◌||◌, ◌∷◌,
}

pub data WatchStage : Type 0 where
  fresh warming near_migration migrated dead : WatchStage

-- `none` is a reading that failed.
pub record LiquidityReading (R : Type 0) : Type 0 where
  pub at_ms : ℕ
  pub sol : Option R

pub record WatchEntry (R : Type 0) : Type 0 where
  pub mint : Text
  pub source : Text
  pub signature : Text
  pub pool_address : Option Text
  pub detected_at_ms : ℕ
  pub readings : List (LiquidityReading R)
  pub stage : WatchStage
  pub next_check_at_ms : ℕ
  pub full_checks : ℕ
  pub consecutive_failures : ℕ

pub record WatchPolicyConfig (R : Type 0) : Type 0 where
  pub dead_below_sol : R
  pub patience_checks : ℕ
  pub max_age_ms : ℕ
  pub promote_on_multiple : R
  pub promote_on_absolute_sol : R
  pub max_full_checks_per_token : ℕ
  pub graduation_sol : R
  pub near_migration_fraction : R
  pub interval_fresh_ms : ℕ
  pub interval_warming_ms : ℕ
  pub interval_near_migration_ms : ℕ

abbrev pub is_migrating : WatchStage → Bool
is_migrating near_migration = true
is_migrating migrated = true
is_migrating _ = false

abbrev pub is_dead : WatchStage → Bool
is_dead dead = true
is_dead _ = false

-- `none` is infinity: no next reading.
abbrev pub next_check_delay_ms : {R : Type 0} → WatchStage → WatchPolicyConfig R → Option ℕ
next_check_delay_ms near_migration policy = some policy.interval_near_migration_ms
next_check_delay_ms warming policy = some policy.interval_warming_ms
next_check_delay_ms migrated policy = some policy.interval_fresh_ms
next_check_delay_ms fresh policy = some policy.interval_fresh_ms
next_check_delay_ms dead policy = none

abbrev pub stage_rank : WatchStage → ℕ
stage_rank near_migration = 0
stage_rank warming = 1
stage_rank migrated = 2
stage_rank fresh = 3
stage_rank dead = 4

-- `Math.max(0, nowMs - entry.nextCheckAtMs)`
abbrev pub overdue_ms : {R : Type 0} → WatchEntry R → ℕ → ℕ
overdue_ms e now_ms = now_ms - e.next_check_at_ms

unfoldable pub check_priority : {R : Type 0} → WatchEntry R → WatchStage → ℕ → ℤ
check_priority e stage now_ms = sub_ℕ (stage_rank stage * 1_000_000_000) (overdue_ms e now_ms)

module _ {R : Type 0} where
  abbrev pub or_before : Option R → Option R → Option R
  or_before (some x) before = some x
  or_before none before = before

  abbrev pub is_measured : LiquidityReading R → Bool
  is_measured r = is_some r.sol

  -- The loops of `latestSol` and `baselineSol`.
  abbrev pub latest_of : List (LiquidityReading R) → Option R
  latest_of [] = none
  latest_of (r ∷ rs) = or_before (latest_of rs) r.sol

  abbrev pub baseline_of : List (LiquidityReading R) → Option R
  baseline_of [] = none
  baseline_of (r ∷ rs) = or_before r.sol (baseline_of rs)

  unfoldable pub latest_sol : WatchEntry R → Option R
  latest_sol e = latest_of e.readings

  unfoldable pub baseline_sol : WatchEntry R → Option R
  baseline_sol e = baseline_of e.readings

  unfoldable pub successful_reads : WatchEntry R → ℕ
  successful_reads e = length (keep_if is_measured e.readings)

module _ {R : Type 0} ⦃n : Number R⦄ where
  open n use {of_nat, mul, div, le, lt}

  abbrev pub default_watch_policy : WatchPolicyConfig R
  default_watch_policy = record {
    dead_below_sol = div (of_nat 5) (of_nat 100);
    patience_checks = 5;
    max_age_ms = 6 * 60 * 60 * 1000;
    promote_on_multiple = div (of_nat 25) (of_nat 10);
    promote_on_absolute_sol = of_nat 3;
    max_full_checks_per_token = 4;
    graduation_sol = of_nat 85;
    near_migration_fraction = div (of_nat 7) (of_nat 10);
    interval_fresh_ms = 60_000;
    interval_warming_ms = 30_000;
    interval_near_migration_ms = 15_000;
  }

  abbrev pub growth_between : Option R → Option R → Option R
  growth_between none now = none
  growth_between (some base) none = none
  growth_between (some base) (some now) = if le base nought then none else some (div now base)

  unfoldable pub growth_multiple : WatchEntry R → Option R
  unfolding latest_sol baseline_sol
  growth_multiple e = growth_between (baseline_sol e) (latest_sol e)

  -- A measured value that is at least, at most, above or below a bound.
  abbrev pub at_least : Option R → R → Bool
  at_least none bound = false
  at_least (some x) bound = le bound x

  abbrev pub at_most : Option R → R → Bool
  at_most none bound = false
  at_most (some x) bound = le x bound

  abbrev pub above : Option R → R → Bool
  above none bound = false
  above (some x) bound = lt bound x

  -- `growth === null || growth < 1.2`
  abbrev pub is_flat : Option R → Bool
  is_flat none = true
  is_flat (some growth) = lt growth (div (of_nat 12) (of_nat 10))

  abbrev pub is_raydium : WatchEntry R → Bool
  is_raydium e = text_eq e.source (codes "raydium")

  abbrev pub near_sol : WatchPolicyConfig R → R
  near_sol policy = mul policy.graduation_sol policy.near_migration_fraction

  unfoldable pub classify_stage : WatchEntry R → WatchPolicyConfig R → ℕ → WatchStage
  unfolding latest_sol growth_multiple successful_reads
  classify_stage e policy now_ms =
      let now = latest_sol e in
      let growth = growth_multiple e in
      if is_raydium e
      then migrated
      else (if at_least now policy.graduation_sol
          then migrated
          else (if at_least now (near_sol policy)
              then near_migration
              else (if leb (e.detected_at_ms + policy.max_age_ms) now_ms
                  then dead
                  else (if leb policy.patience_checks (successful_reads e)
                        && (at_most now policy.dead_below_sol && is_flat growth)
                      then dead
                      else (if at_least growth (div (of_nat 15) (of_nat 10))
                          then warming
                          else (if at_least now policy.promote_on_absolute_sol
                              then warming
                              else fresh))))))

  unfoldable pub should_run_full_check : WatchEntry R → WatchPolicyConfig R → WatchStage → Bool
  unfolding latest_sol growth_multiple
  should_run_full_check e policy stage =
      let now = latest_sol e in
      let growth = growth_multiple e in
      if is_dead stage
      then false
      else (if leb policy.max_full_checks_per_token e.full_checks
          then false
          else (is_migrating stage
              || (at_least now policy.promote_on_absolute_sol
                  || at_least growth policy.promote_on_multiple
                    && above now policy.dead_below_sol)))
