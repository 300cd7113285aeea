-- ===== src/Exits/Outcomes.antt =====
-- What `runSeries` reports of a recorded series.
use opiumo.Base.{
  subst, sym, not, List, Option, [], arith, false, none, refl, some, true, ℕ, ◌+◌, ◌∷◌, ◌≡◌,
}
use opiumo.Exits.Decisions.{
  is_hold, Decision, ExitTrigger, PoolObservation, ProceedsFn, exit, exit_failed, hold,
}
use opiumo.Exits.Series.{
  raise_peak, record_decision, RunResult, Walk, exit_has_failed, exited, held_to_end, run_series,
  start_walk, walk_from, walk_one,
}
use opiumo.Exits.Trailing.{Position, TrailState, TrailingStopConfig, init_state, step}
use opiumo.Number.{Number}

module _ {R : Type 0} ⦃n : Number R⦄ (position : Position R) (c : TrailingStopConfig R)
    (proceeds : ProceedsFn R) where
  abbrev out_of : TrailState R → PoolObservation R → TrailState R × Decision R
  out_of s obs = step c s obs proceeds position.pool_fraction

  abbrev first_found : Option (ℕ × Decision R) → ℕ → Decision R → Option (ℕ × Decision R)
  first_found rest i (hold why) = rest
  first_found rest i (exit t p) = some (i, exit t p)
  first_found rest i exit_failed = some (i, exit_failed)

  -- The first observation, counted from `i`, at which the rule does not hold, and its decision.
  pub first_close : TrailState R → ℕ → List (PoolObservation R) → Option (ℕ × Decision R)
  first_close s i [] = none
  first_close s i (obs ∷ series) =
      first_found (first_close (out_of s obs).0 (i + 1) series) i (out_of s obs).1

  -- The report of a walk that ended by that observation, or was held to the end.
  abbrev pub Reports :
      RunResult → Option ExitTrigger → Option R → Option ℕ → Option (ℕ × Decision R) → Type 0
  Reports result trigger sold index none =
      (result ≡ held_to_end) × (trigger ≡ none) × (sold ≡ none) × (index ≡ none)
  Reports result trigger sold index (some (i, exit t p)) =
      (result ≡ exited) × (trigger ≡ some t) × (sold ≡ some p) × (index ≡ some i)
  Reports result trigger sold index (some (i, exit_failed)) =
      (result ≡ exit_has_failed) × (trigger ≡ none) × (sold ≡ none) × (index ≡ some i)
  Reports result trigger sold index (some (i, hold why)) = ⊥

  abbrev Of : Walk R → Option (ℕ × Decision R) → Type 0
  Of w found = Reports w.result w.trigger w.exit_proceeds w.exit_index found

  -- A walk whose position is closed keeps its report.
  closed_walk :
      (w : Walk R) (i : ℕ) (series : List (PoolObservation R)) (found : Option (ℕ × Decision R))
      → w.state.closed ≡ true
      → Of w found
      → Of (walk_from position c proceeds w i series) found
  unfolding walk_from walk_one
  closed_walk w i [] found shut h = h
  closed_walk w i (obs ∷ series) found shut h =
      closed_walk (walk_one position c proceeds w i obs) (i + 1) series found (ground (arith, shut))
        (simp shut h)

  -- A step of an open position leaves it open exactly when it holds.
  step_holds :
      (s s' : TrailState R) (obs : PoolObservation R) (d : Decision R)
      → s.closed ≡ false
      → out_of s obs ≡ (s', d)
      → (not (s'.closed) ≡ is_hold d)
  unfolding step
  step_holds s s' obs d live e = ground arith

  walk_one_open :
      (w : Walk R) (i : ℕ) (obs : PoolObservation R) (s' : TrailState R) (d : Decision R)
      → w.state.closed ≡ false
      → out_of w.state obs ≡ (s', d)
      → walk_one position c proceeds w i obs
        ≡ record_decision position c proceeds
            (record w {
              peak =
                  raise_peak position c proceeds w.peak
                    (proceeds obs.liquidity_sol position.pool_fraction);
              state = s';
            })
            i
            obs
            d
  unfolding walk_one
  walk_one_open w i obs s' d live e = simp (live, e)

  -- The walk from a recorded decision on.
  decided_walk :
      (w : Walk R) (i : ℕ) (obs : PoolObservation R) (series : List (PoolObservation R))
      (d : Decision R)
      → (not (w.state.closed) ≡ is_hold d)
      → Of w none
      → (w.state.closed ≡ false
          → Of
              (walk_from position c proceeds w (i + 1) series)
              (first_close w.state (i + 1) series))
      → Of
          (walk_from position c proceeds
            (record_decision position c proceeds w i obs d)
            (i + 1)
            series)
          (first_found (first_close w.state (i + 1) series) i d)
  decided_walk w i obs series (hold why) e h rest = rest (ground (arith, e))
  decided_walk w i obs series (exit t p) e h rest =
      closed_walk (record_decision position c proceeds w i obs (exit t p)) (i + 1) series
        (some (i, exit t p)) (ground (arith, e)) (refl, refl, refl, refl)
  decided_walk w i obs series exit_failed e (r, t, p, k) rest =
      closed_walk (record_decision position c proceeds w i obs exit_failed) (i + 1) series
        (some (i, exit_failed)) (ground (arith, e)) (refl, t, p, refl)

  abbrev stepped : Walk R → PoolObservation R → Walk R
  stepped w obs = record w {
    peak =
        raise_peak position c proceeds w.peak (proceeds obs.liquidity_sol position.pool_fraction);
    state = (out_of w.state obs).0;
  }

  open_walk :
      (w : Walk R) (i : ℕ) (series : List (PoolObservation R))
      → w.state.closed ≡ false
      → Of w none
      → Of (walk_from position c proceeds w i series) (first_close w.state i series)
  unfolding walk_from first_close
  open_walk w i [] live h = h
  open_walk w i (obs ∷ series) live h =
      subst
        (λ w₁.
          Of (walk_from position c proceeds w₁ (i + 1) series)
            (first_close w.state i (obs ∷ series)))
        (sym (walk_one_open w i obs _ _ live refl))
        (decided_walk (stepped w obs) i obs series (out_of w.state obs).1
          (step_holds w.state _ obs _ live refl) h
          (λ live₁. open_walk (stepped w obs) (i + 1) series live₁ h))

  -- The report of a whole series is that of the first observation at which the rule does not hold:
  -- its index, trigger and proceeds, or a failed exit; and held to the end if there is none.
  pub run_series-Reports :
      (series : List (PoolObservation R))
      → let r = run_series position c proceeds series in
        Reports r.result r.trigger r.exit_proceeds_sol r.exit_index
          (first_close (init_state position) 0 series)
  unfolding run_series start_walk init_state
  run_series-Reports series =
      open_walk (start_walk position c proceeds) 0 series refl (refl, refl, refl, refl)
