-- ===== src/Credit/Halts.antt =====
-- A halt lasts: until midnight nothing but an override lifts it.
use opiumo.Platform.{Value, Runtime}
use opiumo.Number.{Number}
use opiumo.Base.{
  All, Bool, List, [], arith, false, if_cases, inr, ltb, none, not, some, text_eq_refl, true, ◌+◌,
  ◌||◌, ◌∷◌, ◌≡◌, ◌≤◌, Text, ℕ,
}
use opiumo.Credit.Balance.{load_ledger-stored}
use opiumo.Credit.Breaker.{
  CreditBreaker, charge, charge_batch, charge_from_meter, clear_override, decide, meter_delta,
  persist, persist_throttled, start,
}
use opiumo.Credit.Decision.{CreditBudgetConfig}
use opiumo.Credit.History.{
  Event, apply, batches, charges, clears, decides, grants, meters, persists, restarts, run,
  throttles,
}
use opiumo.Credit.Ledger.{LedgerState, load_ledger, roll_to, utc_day_key}
use opiumo.Credit.Limits.{evaluate_budget-refuses_iff}
use opiumo.Credit.Pricing.{credits_for_batch}

-- What may happen on the day, at any time and in any order: all but a granted override.
abbrev pub OnDay : Runtime → Text → Event → Type 0
OnDay r today (charges credits at) = utc_day_key r at ≡ today
OnDay r today (batches methods at) = utc_day_key r at ≡ today
OnDay r today (meters total at) = utc_day_key r at ≡ today
OnDay r today (decides at) = utc_day_key r at ≡ today
OnDay r today persists = Unit
OnDay r today (throttles now_ms interval) = Unit
OnDay r today (grants reason at) = ⊥
OnDay r today clears = Unit
OnDay r today (restarts now) = utc_day_key r now ≡ today

module _ {R : Type 0} ⦃n : Number R⦄ (r : Runtime) (print : Value → Text) where
  -- A ledger of the day `today`, with no override, that has spent the day's limit.
  pub record IsSpent (c : CreditBudgetConfig R) (today : Text) (s : LedgerState) : Type 0 where
    pub dated : s.day.key ≡ today
    pub no_override : s.override ≡ none
    pub reached : c.daily_credits ≤ s.day.credits
    pub version_one : s.version ≡ 1

  -- The breaker is on, its ledger is spent, and so is the one that the file gives a new process.
  pub record IsHalted (c : CreditBudgetConfig R) (today : Text) (b : CreditBreaker R) : Type 0 where
    pub same_config : b.config ≡ c
    pub memory : IsSpent c today b.state
    pub disk : (now : ℕ) → IsSpent c today (load_ledger r print b.file now)

  module _ (c : CreditBudgetConfig R) (today : Text) where
    roll_to-IsSpent :
        (s : LedgerState) (at : ℕ)
        → utc_day_key r at ≡ today
        → IsSpent c today s
        → IsSpent c today (roll_to r s at)
    unfolding roll_to
    roll_to-IsSpent s at e v = ground (arith, text_eq_refl today)

    charge-IsHalted :
        (b : CreditBreaker R) (k at : ℕ)
        → utc_day_key r at ≡ today
        → IsHalted c today b
        → IsHalted c today (charge r b k at)
    unfolding charge
    charge-IsHalted b k at e v =
        if_cases (IsHalted c today) (ltb 0 k)
          (λ _. record {
            same_config = v.same_config;
            memory = ground (arith, roll_to-IsSpent b.state at e v.memory);
            disk = v.disk;
          })
          (λ _. v)

    persist-IsHalted : (b : CreditBreaker R) → IsHalted c today b → IsHalted c today (persist r b)
    unfolding persist
    persist-IsHalted b v =
        if_cases (IsHalted c today) b.dirty
          (λ _. record {
            same_config = v.same_config;
            memory = v.memory;
            disk = λ now. rw (load_ledger-stored r print b.state now v.memory.version_one) v.memory;
          })
          (λ _. v)

    throttled-IsHalted :
        (b : CreditBreaker R) (now_ms interval : ℕ)
        → IsHalted c today b
        → IsHalted c today (persist_throttled r b now_ms interval).0
    unfolding persist_throttled
    throttled-IsHalted b now_ms interval v =
        if_cases (λ (p : CreditBreaker R × Bool). IsHalted c today p.0)
          (not b.dirty || ltb now_ms (b.last_persist_ms + interval)) (λ _. v)
          (λ _.
            persist-IsHalted _
              (record { same_config = v.same_config; memory = v.memory; disk = v.disk }))

    clear-IsHalted :
        (b : CreditBreaker R) → IsHalted c today b → IsHalted c today (clear_override r b)
    unfolding clear_override
    clear-IsHalted b v = simp (v.memory.no_override) v

    apply-IsHalted :
        (b : CreditBreaker R) (e : Event)
        → OnDay r today e
        → IsHalted c today b
        → IsHalted c today (apply r print b e)
    unfolding apply charge_batch charge_from_meter decide start
    apply-IsHalted b (charges credits at) h v = charge-IsHalted b credits at h v
    apply-IsHalted b (batches methods at) h v = charge-IsHalted b (credits_for_batch methods) at h v
    apply-IsHalted b (meters none at) h v = v
    apply-IsHalted b (meters (some total) at) h v =
        charge-IsHalted _ (meter_delta b.last_meter_credits total) at h
          (record { same_config = v.same_config; memory = v.memory; disk = v.disk })
    apply-IsHalted b (decides at) h v = record {
      same_config = v.same_config;
      memory = roll_to-IsSpent b.state at h v.memory;
      disk = v.disk;
    }
    apply-IsHalted b persists h v = persist-IsHalted b v
    apply-IsHalted b (throttles now_ms interval) h v = throttled-IsHalted b now_ms interval v
    apply-IsHalted b (grants reason at) h v = absurd h
    apply-IsHalted b clears h v = clear-IsHalted b v
    apply-IsHalted b (restarts now) h v = record {
      same_config = v.same_config;
      memory = roll_to-IsSpent _ now h (v.disk now);
      disk = v.disk;
    }

    run-IsHalted :
        (b : CreditBreaker R) (es : List Event)
        → All (OnDay r today) es
        → IsHalted c today b
        → IsHalted c today (run r print b es)
    unfolding run
    run-IsHalted b [] h v = v
    run-IsHalted b (e ∷ es) (h, hs) v =
        run-IsHalted (apply r print b e) es hs (apply-IsHalted b e h v)

    -- Once the day's limit is spent and that is on disk, no sequence of charges, meter readings,
    -- decisions, writes, cleared overrides and restarts on that day makes the breaker allow
    -- detection again, as long as nobody grants an override.
    pub decide_stays_refused :
        (b : CreditBreaker R) (es : List Event) (at : ℕ)
        → c.enabled ≡ true
        → IsHalted c today b
        → All (OnDay r today) es
        → utc_day_key r at ≡ today
        → (decide r (run r print b es) at).1.allowed ≡ false
    unfolding decide
    decide_stays_refused b es at on v hs e =
        let w = run-IsHalted b es hs v in
        let s = roll_to-IsSpent (run r print b es).state at e w.memory in
        rw (w.same_config)
          ((evaluate_budget-refuses_iff r c _ at).1 (on, s.no_override, inr s.reached))
