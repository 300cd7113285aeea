-- ===== src/Credit/History.antt =====
-- Histories of a breaker: what can happen to it, in any order, restarts included.
use opiumo.Credit.Decision.{CreditBudgetConfig}
use opiumo.Base.{
  Bool, trim, ℕ, ◌+◌, Option, none, some, List, [], ◌∷◌, Text, arith, if_cases, is_some, not, ◌||◌,
  ltb,
}
use opiumo.Platform.{Runtime, Value}
use opiumo.Number.{Number}
use opiumo.Credit.Ledger.{missing, LedgerFile, load_ledger}
use opiumo.Credit.Balance.{
  empty_ledger-IsBalanced, IsBalanced, override-IsBalanced, roll_to-IsBalanced, load_ledger-stored,
}
use opiumo.Credit.Pricing.{credits_for_batch}
use opiumo.Credit.Breaker.{
  CreditBreaker, start, charge, charge_batch, charge_from_meter, decide, persist, persist_throttled,
  meter_delta, grant_trimmed, grant_override, clear_override,
}

pub data Event : Type 0 where
  charges : ℕ → ℕ → Event
  batches : List Text → ℕ → Event
  meters : Option ℕ → ℕ → Event
  decides : ℕ → Event
  persists : Event
  throttles : ℕ → ℕ → Event
  grants : Text → ℕ → Event
  clears : Event
  -- the process ends, and a new one reads the ledger file
  restarts : ℕ → Event

module _ {R : Type 0} ⦃n : Number R⦄ (r : Runtime) (print : Value → Text) where
  abbrev or_same : CreditBreaker R → Option (CreditBreaker R) → CreditBreaker R
  or_same b none = b
  or_same b (some b') = b'

  unfoldable pub apply : CreditBreaker R → Event → CreditBreaker R
  apply b (charges credits at) = charge r b credits at
  apply b (batches methods at) = (charge_batch r b methods at).0
  apply b (meters total at) = (charge_from_meter r b total at).0
  apply b (decides at) = (decide r b at).0
  apply b persists = persist r b
  apply b (throttles now_ms interval) = (persist_throttled r b now_ms interval).0
  apply b (grants reason at) = or_same b (grant_override r b reason at)
  apply b clears = clear_override r b
  apply b (restarts now) = start r print b.config b.file now

  unfoldable pub run : CreditBreaker R → List Event → CreditBreaker R
  run b [] = b
  run b (e ∷ es) = run (apply b e) es

  -- The state in memory is well formed, and so is what a new process would make of the file.
  pub record IsSound (b : CreditBreaker R) : Type 0 where
    pub memory : IsBalanced b.state
    pub disk : (now : ℕ) → IsBalanced (load_ledger r print b.file now)

  charge-IsSound : (b : CreditBreaker R) (c at : ℕ) → IsSound b → IsSound (charge r b c at)
  unfolding charge
  charge-IsSound b c at v =
      if_cases IsSound (ltb 0 c)
        (λ _. record {
          memory = ground (arith, roll_to-IsBalanced r b.state at v.memory);
          disk = v.disk;
        })
        (λ _. v)

  persist-IsSound : (b : CreditBreaker R) → IsSound b → IsSound (persist r b)
  unfolding persist
  persist-IsSound b v =
      if_cases IsSound b.dirty
        (λ _. record {
          memory = v.memory;
          disk = λ now. rw (load_ledger-stored r print b.state now v.memory.version_one) v.memory;
        })
        (λ _. v)

  throttled-IsSound :
      (b : CreditBreaker R) (now_ms interval : ℕ)
      → IsSound b
      → IsSound (persist_throttled r b now_ms interval).0
  unfolding persist_throttled
  throttled-IsSound b now_ms interval v =
      if_cases (λ (p : CreditBreaker R × Bool). IsSound p.0)
        (not b.dirty || ltb now_ms (b.last_persist_ms + interval)) (λ _. v)
        (λ _. persist-IsSound _ (record { memory = v.memory; disk = v.disk }))

  grant-IsSound :
      (b : CreditBreaker R) (why : Text) (at : ℕ)
      → IsSound b
      → IsSound (or_same b (grant_trimmed r b why at))
  unfolding grant_trimmed
  grant-IsSound b [] at v = v
  grant-IsSound b (c ∷ rest) at v = persist-IsSound _ (record {
    memory = override-IsBalanced _ _ (roll_to-IsBalanced r b.state at v.memory);
    disk = v.disk;
  })

  clear-IsSound : (b : CreditBreaker R) → IsSound b → IsSound (clear_override r b)
  unfolding clear_override
  clear-IsSound b v =
      if_cases IsSound (is_some b.state.override)
        (λ _.
          persist-IsSound _ (record { memory = override-IsBalanced _ _ v.memory; disk = v.disk }))
        (λ _. v)

  start-IsSound :
      (c : CreditBudgetConfig R) (file : LedgerFile) (now : ℕ)
      → ((t : ℕ) → IsBalanced (load_ledger r print file t))
      → IsSound (start r print c file now)
  unfolding start
  start-IsSound c file now h = record { memory = roll_to-IsBalanced r _ now (h now); disk = h }

  apply-IsSound : (b : CreditBreaker R) (e : Event) → IsSound b → IsSound (apply b e)
  unfolding apply charge_batch charge_from_meter decide grant_override
  apply-IsSound b (charges credits at) v = charge-IsSound b credits at v
  apply-IsSound b (batches methods at) v = charge-IsSound b (credits_for_batch methods) at v
  apply-IsSound b (meters none at) v = v
  apply-IsSound b (meters (some total) at) v =
      charge-IsSound _ (meter_delta b.last_meter_credits total) at
        (record { memory = v.memory; disk = v.disk })
  apply-IsSound b (decides at) v = record {
    memory = roll_to-IsBalanced r b.state at v.memory;
    disk = v.disk;
  }
  apply-IsSound b persists v = persist-IsSound b v
  apply-IsSound b (throttles now_ms interval) v = throttled-IsSound b now_ms interval v
  apply-IsSound b (grants reason at) v = grant-IsSound b (trim reason) at v
  apply-IsSound b clears v = clear-IsSound b v
  apply-IsSound b (restarts now) v = start-IsSound b.config b.file now v.disk

  run-IsSound : (b : CreditBreaker R) (es : List Event) → IsSound b → IsSound (run b es)
  unfolding run
  run-IsSound b [] v = v
  run-IsSound b (e ∷ es) v = run-IsSound (apply b e) es (apply-IsSound b e v)

  -- From a missing ledger file, whatever then happens in whatever order, restarts included, the
  -- ledger's day lies in its month and the day's credits are among the month's, both in memory and
  -- in what a new process would load.
  pub run-start-IsSound :
      (c : CreditBudgetConfig R) (now : ℕ) (es : List Event)
      → IsSound (run (start r print c missing now) es)
  unfolding load_ledger
  run-start-IsSound c now es =
      run-IsSound _ es (start-IsSound c missing now (λ t. empty_ledger-IsBalanced r t))
