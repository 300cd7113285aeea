-- ===== src/Exits/Persistence.antt =====
-- A stop fires only on a streak: the counters count consecutive breaches and nothing else.
use opiumo.Base.{Bool, List, Option, [], arith, false, none, some, suc, true, ℕ, ◌∷◌, ◌≡◌, ◌≤◌}
use opiumo.Exits.Decisions.{ExitTrigger, PoolObservation, ProceedsFn, exit}
use opiumo.Exits.Trailing.{TrailState, TrailingStopConfig, breached, step}
use opiumo.Number.{Number}

-- How many of the newest observations breach, one after the other; the newest comes first.
abbrev pub leading : List Bool → ℕ
leading [] = 0
leading (true ∷ bs) = suc (leading bs)
leading (false ∷ bs) = 0

module _ {R : Type 0} ⦃n : Number R⦄ (c : TrailingStopConfig R) (proceeds : ProceedsFn R)
    (fraction : R) where
  -- Whether an observation breaches, judged at the state that it meets.
  abbrev pub breaches_at : TrailState R → Option R → Bool
  breaches_at s none = false
  breaches_at s (some p) = breached c s p

  -- The states of a position that the rule holds open, with the breaches seen, the newest first.
  pub data Held (s : TrailState R) : TrailState R → List Bool → Type 0 where
    starts : s.consecutive_breaches ≡ 0 → Held s s []
    holds :
        {t : TrailState R} {bs : List Bool} (obs : PoolObservation R)
        → Held s t bs
        → (step c t obs proceeds fraction).0.closed ≡ false
        → Held s
            (step c t obs proceeds fraction).0
            (breaches_at t (proceeds obs.liquidity_sol fraction) ∷ bs)

  -- While a position is held open its counter is the length of the newest run of breaches.
  counter-leading :
      {s t : TrailState R} {bs : List Bool} → Held s t bs → t.consecutive_breaches ≡ leading bs
  unfolding step
  counter-leading (starts e) = e
  counter-leading (holds {t = t} {bs = bs} obs h live) =
      ground (arith, counter-leading h, proceeds obs.liquidity_sol fraction)

  -- A sale of a position that was held open since it had no breaches: this observation breaches, and
  -- so did each of the ones before it, as many as the configured persistence less one.
  pub step-exit_streak :
      {s t : TrailState R} {bs : List Bool} (obs : PoolObservation R) (trigger : ExitTrigger)
      (p : R)
      → Held s t bs
      → (step c t obs proceeds fraction).1 ≡ exit trigger p
      → (proceeds obs.liquidity_sol fraction ≡ some p)
        × (c.persistence_observations ≤ leading (breached c t p ∷ bs))
  unfolding step
  step-exit_streak obs trigger p h e = ground (arith, counter-leading h)
