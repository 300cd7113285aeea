-- ===== src/Watchlist/Runtime.antt =====
-- src/watchlist/watchlist.ts: the class `Watchlist`. What the network answers in a round comes in
-- with it; a round runs to its end before the next call.
use opiumo.Base.{
  drop, [], codes, delete, false, has_key, if◌then◌else◌, is_some, keep_if, leb, length, none, not,
  set, some, take, true, values, ◌&&◌, ◌++◌, ◌+◌, ◌-◌, ◌==◌, ◌||◌, ◌∷◌, Bool, List, Option, Text, ℕ,
}
use opiumo.Filters.Engine.{
  FiltersConfig, NewPoolEvent, PoolSource, TokenMetrics, Verdict, evaluate_filters, pass, pumpfun,
  raydium, skip,
}
use opiumo.Int.{ltb_ℤ, ℤ}
use opiumo.Number.{Number}
use opiumo.Watchlist.Policy.{
  LiquidityReading, WatchEntry, WatchPolicyConfig, check_priority, classify_stage, fresh, is_dead,
  next_check_delay_ms, should_run_full_check,
}

pub record WatchlistConfig : Type 0 where
  pub enabled : Bool
  pub max_checks_per_tick : ℕ
  pub max_watched : ℕ

-- An address that is no public key, a read that fails, and a reading.
pub data PoolRead (R : Type 0) : Type 0 where
  invalid_address read_failed : PoolRead R
  liquidity : R → PoolRead R

-- `collect` is `collectTokenMetrics`; `none` is an exception of it.
pub record Round (R : Type 0) : Type 0 where
  pub now_ms : ℕ
  pub now_iso : Text
  pub read_pool : Text → PoolRead R
  pub collect : Text → Option (TokenMetrics R)

-- `never_due` is a next check at infinity.
pub record Tracked (R : Type 0) : Type 0 where
  pub entry : WatchEntry R
  pub event : NewPoolEvent
  pub never_due : Bool

-- The map, the counters, and what the consumers were handed.
pub record Watch (R : Type 0) : Type 0 where
  pub tracked : List (Text × Tracked R)
  pub stopped : Bool
  pub added : ℕ
  pub cheap_checks : ℕ
  pub full_checks : ℕ
  pub passes : ℕ
  pub evicted : ℕ
  pub skipped_for_budget : ℕ
  pub observed : List (Text × R)
  pub passed_on : List Text

abbrev pub source_name : PoolSource → Text
source_name pumpfun = codes "pumpfun"
source_name raydium = codes "raydium"

abbrev pub max_readings : ℕ
max_readings = 40

abbrev pub as_failure : {R : Type 0} → Option R → ℕ → ℕ
as_failure none failures = failures + 1
as_failure (some x) failures = 0

module _ {R : Type 0} where
  unfoldable pub new_watch : Watch R
  new_watch = record {
    tracked = [];
    stopped = false;
    added = 0;
    cheap_checks = 0;
    full_checks = 0;
    passes = 0;
    evicted = 0;
    skipped_for_budget = 0;
    observed = [];
    passed_on = [];
  }

  abbrev pub first_readings : Option R → ℕ → List (LiquidityReading R)
  first_readings none now = []
  first_readings (some x) now = record { at_ms = now; sol = some x } ∷ []

  unfoldable pub add :
      WatchlistConfig → WatchPolicyConfig R → Watch R → NewPoolEvent → Option R → ℕ → Watch R
  add c policy w event baseline now =
      if not c.enabled || w.stopped
      then w
      else (if has_key event.mint w.tracked
          then w
          else (if leb c.max_watched (length w.tracked)
              then w
              else (let entry : WatchEntry R = record {
                mint = event.mint;
                source = source_name event.source;
                signature = event.signature;
                pool_address = event.pool_address;
                detected_at_ms = now;
                readings = first_readings baseline now;
                stage = fresh;
                next_check_at_ms = now + policy.interval_fresh_ms;
                full_checks = 0;
                consecutive_failures = 0;
              } in
                  record w {
                    tracked =
                        set event.mint (record { entry = entry; event = event; never_due = false })
                          w.tracked;
                    added = w.added + 1;
                  })))

  unfoldable pub stop_watch : Watch R → Watch R
  stop_watch w = record w { stopped = true }

  -- An object that the map holds is changed in place.
  unfoldable pub put : Watch R → Tracked R → Watch R
  put w t =
      if has_key t.entry.mint w.tracked
      then record w { tracked = set t.entry.mint t w.tracked }
      else w

  unfoldable pub evict : Watch R → Text → Watch R
  evict w mint =
      if has_key mint w.tracked
      then record w { tracked = delete mint w.tracked; evicted = w.evicted + 1 }
      else w

  abbrev pub is_due : ℕ → Tracked R → Bool
  is_due now t = not t.never_due && leb t.entry.next_check_at_ms now

  abbrev pub priority_of : ℕ → Tracked R → ℤ
  priority_of now t = check_priority t.entry t.entry.stage now

  -- The stable order of `sort`.
  abbrev pub insert_due : ℕ → Tracked R → List (Tracked R) → List (Tracked R)
  insert_due now t [] = t ∷ []
  insert_due now t (u ∷ us) =
      if ltb_ℤ (priority_of now u) (priority_of now t) then u ∷ insert_due now t us else t ∷ u ∷ us

  abbrev pub sort_due : ℕ → List (Tracked R) → List (Tracked R)
  sort_due now [] = []
  sort_due now (t ∷ ts) = insert_due now t (sort_due now ts)

  unfoldable pub due_of : Watch R → ℕ → List (Tracked R)
  unfolding check_priority
  due_of w now = sort_due now (keep_if (is_due now) (values w.tracked))

module _ {R : Type 0} ⦃n : Number R⦄ (c : WatchlistConfig) (policy : WatchPolicyConfig R)
    (f : FiltersConfig R) where
  -- The loop over the map as it is when the round begins.
  abbrev pub reclassify_one : ℕ → Watch R → Tracked R → Watch R
  reclassify_one now w t =
      let stage = classify_stage t.entry policy now in
      if is_dead stage
      then evict w t.entry.mint
      else put w (record t { entry = record t.entry { stage = stage } })

  unfoldable pub reclassify : ℕ → Watch R → List (Tracked R) → Watch R
  unfolding classify_stage put evict
  reclassify now w [] = w
  reclassify now w (t ∷ ts) = reclassify now (reclassify_one now w t) ts

  abbrev pub take_verdict : Watch R → NewPoolEvent → Verdict → Watch R
  take_verdict w event pass = record w {
    passes = w.passes + 1;
    passed_on = w.passed_on ++ (event.mint ∷ []);
  }
  take_verdict w event skip = w

  abbrev pub evaluate_late : Watch R → NewPoolEvent → Text → Option (TokenMetrics R) → Watch R
  evaluate_late w event now none = w
  evaluate_late w event now (some metrics) =
      take_verdict w event (evaluate_filters event metrics f now).verdict

  unfoldable pub run_full_check : Round R → Watch R → Tracked R → Watch R
  unfolding put evaluate_filters
  run_full_check r w t =
      let u = record t { entry = record t.entry { full_checks = t.entry.full_checks + 1 } } in
      evaluate_late (record (put w u) { full_checks = w.full_checks + 1 }) t.event r.now_iso
        (r.collect t.event.mint)

  abbrev pub bounded : List (LiquidityReading R) → List (LiquidityReading R)
  bounded rs = drop (length rs - max_readings) rs

  -- The entry after a reading; `none` is one that failed.
  abbrev pub after_reading : ℕ → Tracked R → Option R → Tracked R
  after_reading now t sol =
      let read : WatchEntry R = record t.entry {
        readings = bounded (t.entry.readings ++ (record { at_ms = now; sol = sol } ∷ []));
        consecutive_failures = as_failure sol t.entry.consecutive_failures;
      } in
      let stage = classify_stage read policy now in
      let delay = next_check_delay_ms stage policy in
      record t {
        entry = record read {
          stage = stage;
          next_check_at_ms = elim delay [ none ↦ read.next_check_at_ms | some d ↦ now + d ];
        };
        never_due = not (is_some delay);
      }

  abbrev pub note_observation : Watch R → Text → Option R → Watch R
  note_observation w mint none = w
  note_observation w mint (some x) = record w { observed = w.observed ++ ((mint, x) ∷ []) }

  abbrev pub check_read : Round R → Watch R → Tracked R → Option R → Watch R
  check_read r w t sol =
      let u = after_reading r.now_ms t sol in
      let noted =
        note_observation (record (put w u) { cheap_checks = w.cheap_checks + 1 }) t.entry.mint
          sol in
      if should_run_full_check u.entry policy u.entry.stage then run_full_check r noted u else noted

  abbrev pub check_pool : Round R → Watch R → Tracked R → PoolRead R → Watch R
  check_pool r w t invalid_address = evict w t.entry.mint
  check_pool r w t read_failed = check_read r w t none
  check_pool r w t (liquidity x) = check_read r w t (some x)

  abbrev pub check_address : Round R → Watch R → Tracked R → PoolSource → Option Text → Watch R
  check_address r w t pumpfun (some address) =
      if length address == 0 then check_read r w t none else check_pool r w t (r.read_pool address)
  check_address r w t pumpfun none = check_read r w t none
  check_address r w t raydium address = check_read r w t none

  unfoldable pub check_one : Round R → Watch R → Tracked R → Watch R
  unfolding put evict classify_stage should_run_full_check run_full_check
  check_one r w t = check_address r w t t.event.source t.event.pool_address

  -- The batch, by the place of each in the map when its turn comes.
  abbrev pub check_each : Round R → Watch R → List (Tracked R) → Watch R
  check_each r w [] = w
  check_each r w (t ∷ ts) = check_each r (check_one r w t) ts

  unfoldable pub tick : Watch R → Round R → Watch R
  unfolding reclassify check_one due_of
  tick w r =
      if w.stopped
      then w
      else (let sorted = reclassify r.now_ms w (values w.tracked) in
          let due = due_of sorted r.now_ms in
          let batch = take c.max_checks_per_tick due in
          check_each r
            (record sorted {
              skipped_for_budget = sorted.skipped_for_budget + (length due - length batch);
            })
            batch)
