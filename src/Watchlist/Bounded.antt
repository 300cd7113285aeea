-- ===== src/Watchlist/Bounded.antt =====
-- What every call of the watchlist (src/watchlist/watchlist.ts) keeps.
use opiumo.Base.{
  ◌==◌, false, length-drop, true, ◌++◌, ◌-◌, All, IsDistinct, [], arith, delete-IsDistinct, has_key,
  if_cases, inl, inr, leb, length, length-delete, length-set, lookup, lookup-delete,
  lookup-set-cases, none, not, set, set-IsDistinct, some, subst, ◌+◌, ◌<◌, ◌||◌, ◌∷◌, ◌≡◌, ◌≤◌,
  List, Option, Text, ℕ,
}
use opiumo.Filters.Engine.{
  PoolSource, pumpfun, raydium, FiltersConfig, NewPoolEvent, TokenMetrics, Verdict,
  evaluate_filters, pass, skip,
}
use opiumo.Number.{Number}
use opiumo.Watchlist.Policy.{
  LiquidityReading, WatchStage, should_run_full_check, WatchEntry, WatchPolicyConfig,
  classify_stage, is_dead,
}
use opiumo.Watchlist.Runtime.{
  PoolRead, check_address, check_one, check_pool, invalid_address, liquidity, note_observation,
  read_failed, after_reading, bounded, check_read, Round, Tracked, Watch, WatchlistConfig, add,
  evaluate_late, evict, first_readings, max_readings, put, reclassify, reclassify_one,
  run_full_check, stop_watch, take_verdict, tick,
}

-- A call: a token that was detected, a round, or the end.
pub data WatchCall (R : Type 0) : Type 0 where
  adds : NewPoolEvent → Option R → ℕ → WatchCall R
  ticks : Round R → WatchCall R
  stops : WatchCall R

module _ {R : Type 0} ⦃n : Number R⦄ (c : WatchlistConfig) (policy : WatchPolicyConfig R)
    (f : FiltersConfig R) where
  unfoldable pub apply_watch : Watch R → WatchCall R → Watch R
  unfolding add tick stop_watch
  apply_watch w (adds event baseline now) = add c policy w event baseline now
  apply_watch w (ticks r) = tick c policy f w r
  apply_watch w stops = stop_watch w

  unfoldable pub run_watch : Watch R → List (WatchCall R) → Watch R
  unfolding apply_watch
  run_watch w [] = w
  run_watch w (x ∷ xs) = run_watch (apply_watch w x) xs

  -- No more than the ceiling, each added one watched or evicted, and each with a bounded history
  -- and a bounded number of full checks.
  abbrev pub IsSmall : WatchEntry R → Type 0
  IsSmall e =
      (length e.readings ≤ max_readings) × (e.full_checks ≤ policy.max_full_checks_per_token)

  pub record IsBoundedWith (m : List (Text × Tracked R)) (added evicted : ℕ) : Type 0 where
    pub distinct : IsDistinct m
    pub within : length m ≤ c.max_watched
    pub balance : added ≡ length m + evicted
    pub small : (k : Text) (t : Tracked R) → lookup k m ≡ some t → IsSmall t.entry

  abbrev pub IsBounded : Watch R → Type 0
  IsBounded w = IsBoundedWith w.tracked w.added w.evicted

  set-small :
      (m : List (Text × Tracked R)) (k : Text) (u : Tracked R)
      → ((j : Text) (t : Tracked R) → lookup j m ≡ some t → IsSmall t.entry)
      → IsSmall u.entry
      → (j : Text) (t : Tracked R) → lookup j (set k u m) ≡ some t
      → IsSmall t.entry
  set-small m k u old new j t e = elim (lookup-set-cases j k u m t e) [
    | inl (same, it) ↦ subst (λ x. IsSmall x.entry) it new
    | inr below ↦ old j t below
  ]

  put-IsBounded :
      (w : Watch R) (u : Tracked R) → IsSmall u.entry → IsBounded w → IsBounded (put w u)
  unfolding put
  put-IsBounded w u new b =
      if_cases IsBounded (has_key u.entry.mint w.tracked)
        (λ there. record {
          distinct = set-IsDistinct u.entry.mint u w.tracked b.distinct;
          within = ground (arith, length-set u.entry.mint u w.tracked, there, b.within);
          balance = ground (arith, length-set u.entry.mint u w.tracked, there, b.balance);
          small = set-small w.tracked u.entry.mint u b.small new;
        })
        (λ _. b)

  evict-IsBounded : (w : Watch R) (k : Text) → IsBounded w → IsBounded (evict w k)
  unfolding evict
  evict-IsBounded w k b =
      if_cases IsBounded (has_key k w.tracked)
        (λ there.
          let less = length-delete k w.tracked b.distinct there in
          record {
            distinct = delete-IsDistinct k w.tracked b.distinct;
            within = omega (arith, less, b.within);
            balance = omega (arith, less, b.balance);
            small = λ j t e. b.small j t (ground (arith, lookup-delete j k w.tracked, e));
          })
        (λ _. b)

  grow-IsBounded :
      (m : List (Text × Tracked R)) (k : Text) (u : Tracked R) (added evicted : ℕ)
      → has_key k m ≡ false
      → length m < c.max_watched
      → IsSmall u.entry
      → IsBoundedWith m added evicted
      → IsBoundedWith (set k u m) (added + 1) evicted
  grow-IsBounded m k u added evicted new room small b = record {
    distinct = set-IsDistinct k u m b.distinct;
    within = ground (arith, length-set k u m, new, room);
    balance = ground (arith, length-set k u m, new, b.balance);
    small = set-small m k u b.small small;
  }

  pub add-IsBounded :
      (w : Watch R) (event : NewPoolEvent) (baseline : Option R) (now : ℕ)
      → IsBounded w
      → IsBounded (add c policy w event baseline now)
  unfolding add
  add-IsBounded w event baseline now b =
      if_cases IsBounded (not c.enabled || w.stopped) (λ _. b)
        (λ _.
          if_cases IsBounded (has_key event.mint w.tracked) (λ _. b)
            (λ new.
              if_cases IsBounded (leb c.max_watched (length w.tracked)) (λ _. b)
                (λ room.
                  grow-IsBounded w.tracked event.mint _ w.added w.evicted new (ground (arith, room))
                    (first baseline, omega arith) b)))
    where
      first : (o : Option R) → length (first_readings o now) ≤ max_readings
      first none = omega arith
      first (some x) = omega arith

  pub reclassify-IsBounded :
      (now : ℕ) (w : Watch R) (ts : List (Tracked R))
      → All (λ t. IsSmall t.entry) ts
      → IsBounded w
      → IsBounded (reclassify c policy f now w ts)
  unfolding reclassify
  reclassify-IsBounded now w [] small b = b
  reclassify-IsBounded now w (t ∷ ts) (s, ss) b =
      reclassify-IsBounded now (reclassify_one c policy f now w t) ts ss (
        if_cases IsBounded (is_dead (classify_stage t.entry policy now))
          (λ _. evict-IsBounded w t.entry.mint b) (λ _. put-IsBounded w _ s b))

  run_full_check-IsBounded :
      (r : Round R) (w : Watch R) (t : Tracked R)
      → length t.entry.readings ≤ max_readings
      → t.entry.full_checks < policy.max_full_checks_per_token
      → IsBounded w
      → IsBounded (run_full_check c policy f r w t)
  unfolding run_full_check
  run_full_check-IsBounded r w t short more b = by_metrics (r.collect t.event.mint)
    where
      u : Tracked R
      u = record t { entry = record t.entry { full_checks = t.entry.full_checks + 1 } }

      counted : IsBounded (put w u)
      counted = put-IsBounded w u (short, omega (arith, more)) b

      by_verdict :
          (v : Verdict)
          → IsBounded (
              take_verdict c policy f
                (record (put w u) { full_checks = w.full_checks + 1 })
                t.event
                v)
      by_verdict pass = counted
      by_verdict skip = counted

      by_metrics :
          (o : Option (TokenMetrics R))
          → IsBounded (
              evaluate_late c policy f
                (record (put w u) { full_checks = w.full_checks + 1 })
                t.event
                r.now_iso
                o)
      by_metrics none = counted
      by_metrics (some m) = by_verdict (evaluate_filters t.event m f r.now_iso).verdict

  length-bounded : (rs : List (LiquidityReading R)) → length (bounded c policy f rs) ≤ max_readings
  length-bounded rs = omega (arith, length-drop (length rs - max_readings) rs)

  full_checks_left :
      (e : WatchEntry R) (stage : WatchStage)
      → should_run_full_check e policy stage ≡ true
      → e.full_checks < policy.max_full_checks_per_token
  unfolding should_run_full_check
  full_checks_left e stage h = ground (arith, h)

  noted-IsBounded :
      (w : Watch R) (k : Text) (sol : Option R)
      → IsBounded w
      → IsBounded (note_observation c policy f w k sol)
  noted-IsBounded w k none b = b
  noted-IsBounded w k (some x) b = b

  check_read-IsBounded :
      (r : Round R) (w : Watch R) (t : Tracked R) (sol : Option R)
      → IsSmall t.entry
      → IsBounded w
      → IsBounded (check_read c policy f r w t sol)
  check_read-IsBounded r w t sol small b =
      let u = after_reading c policy f r.now_ms t sol in
      let short =
        length-bounded (t.entry.readings ++ (record { at_ms = r.now_ms; sol = sol } ∷ [])) in
      let counted : Watch R = record (put w u) { cheap_checks = w.cheap_checks + 1 } in
      let noted = noted-IsBounded counted t.entry.mint sol (put-IsBounded w u (short, small.1) b) in
      if_cases IsBounded (should_run_full_check u.entry policy u.entry.stage)
        (λ run.
          run_full_check-IsBounded r (note_observation c policy f counted t.entry.mint sol) u short
            (full_checks_left u.entry u.entry.stage run) noted)
        (λ _. noted)

  pub check_one-IsBounded :
      (r : Round R) (w : Watch R) (t : Tracked R)
      → IsSmall t.entry
      → IsBounded w
      → IsBounded (check_one c policy f r w t)
  unfolding check_one
  check_one-IsBounded r w t small b = by_source t.event.source t.event.pool_address
    where
      by_read : (x : PoolRead R) → IsBounded (check_pool c policy f r w t x)
      by_read invalid_address = evict-IsBounded w t.entry.mint b
      by_read read_failed = check_read-IsBounded r w t none small b
      by_read (liquidity x) = check_read-IsBounded r w t (some x) small b

      by_source :
          (source : PoolSource) (address : Option Text)
          → IsBounded (check_address c policy f r w t source address)
      by_source pumpfun none = check_read-IsBounded r w t none small b
      by_source pumpfun (some address) =
          if_cases IsBounded (length address == 0) (λ _. check_read-IsBounded r w t none small b)
            (λ _. by_read (r.read_pool address))
      by_source raydium address = check_read-IsBounded r w t none small b
