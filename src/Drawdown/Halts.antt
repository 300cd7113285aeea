-- ===== src/Drawdown/Halts.antt =====
-- A halt outlives midnights and restarts until a human clears it.
-- What can happen to the ledger of a running book, and the process that ends and starts again.
use opiumo.Base.{true, All, List, Option, Text, [], ap, arith, false, none, refl, some, ℕ, ◌∷◌, ◌≡◌}
use opiumo.Drawdown.Guard.{
  already_halted, DrawdownConfig, DrawdownState, Halt, apply_realised, clear_halt,
  evaluate_drawdown, grant_override, mark_halted, roll_to,
}
use opiumo.Drawdown.Store.{LoadResult, load_drawdown_state, loaded, refused, save_drawdown_state}
use opiumo.Number.{Number}
use opiumo.Platform.{Runtime}
use opiumo.Drawdown.Verdicts.{IsOverridden}

pub data Event (R : Type 0) : Type 0 where
  realises : R → ℕ → Event R
  -- evaluates the guard at an instant and marks the ledger with what it decides
  checks : ℕ → Event R
  grants : Text → Text → Text → ℕ → Event R
  -- saves the ledger, and a new process loads it
  restarts : ℕ → Event R
  clears : Text → Text → Event R

module _ {R : Type 0} ⦃n : Number R⦄ (r : Runtime) (c : DrawdownConfig R) where
  abbrev or_same : DrawdownState R → Option (DrawdownState R) → DrawdownState R
  or_same s none = s
  or_same s (some s') = s'

  -- The state that a new process starts with: none if it refuses to start.
  abbrev started : LoadResult R → Option (DrawdownState R)
  started (loaded s fresh) = some s
  started (refused why) = none

  unfoldable pub apply : DrawdownState R → Event R → Option (DrawdownState R)
  apply s (realises pnl at) = some (apply_realised r s pnl at)
  apply s (checks at) = some (mark_halted r s (evaluate_drawdown r s c at) at)
  apply s (grants day by note at) = some (or_same s (grant_override r s day by note at))
  apply s (restarts at) = started (load_drawdown_state r (save_drawdown_state s) at)
  apply s (clears by note) = some (or_same s (clear_halt s by note))

  unfoldable pub run : DrawdownState R → List (Event R) → Option (DrawdownState R)
  run s [] = some s
  run s (e ∷ es) = elim (apply s e) [ none ↦ none | some s' ↦ run s' es ]

  -- Every event but a cleared halt.
  abbrev pub IsNoClear : Event R → Type 0
  IsNoClear (clears by note) = ⊥
  IsNoClear _ = Unit

  -- What a version 1 ledger is saved as loads again, halt and override included.
  pub load-save :
      (s : DrawdownState R) (at : ℕ)
      → s.version ≡ 1
      → load_drawdown_state r (save_drawdown_state s) at ≡ loaded s false
  unfolding load_drawdown_state save_drawdown_state
  load-save s at v = ground arith

  abbrev pub IsHaltedBy : Halt → DrawdownState R → Type 0
  IsHaltedBy h s = (s.halted ≡ some h) × (s.version ≡ 1)

  apply-IsHaltedBy :
      (h : Halt) (s : DrawdownState R) (e : Event R)
      → IsNoClear e
      → IsHaltedBy h s
      → (s' : DrawdownState R) × (apply s e ≡ some s') × IsHaltedBy h s'
  unfolding apply apply_realised roll_to mark_halted grant_override
  apply-IsHaltedBy h s (realises pnl at) k v = (apply_realised r s pnl at, refl, ground arith)
  apply-IsHaltedBy h s (checks at) k v =
      (mark_halted r s (evaluate_drawdown r s c at) at, refl, ground arith)
  apply-IsHaltedBy h s (grants day by note at) k v =
      (or_same s (grant_override r s day by note at), refl, ground arith)
  apply-IsHaltedBy h s (restarts at) k v = (s, ap started (load-save s at v.1), v)
  apply-IsHaltedBy h s (clears by note) k v = absurd k

  run-IsHaltedBy :
      (h : Halt) (s : DrawdownState R) (es : List (Event R))
      → All IsNoClear es
      → IsHaltedBy h s
      → (s' : DrawdownState R) × (run s es ≡ some s') × IsHaltedBy h s'
  unfolding run
  run-IsHaltedBy h s [] k v = (s, refl, v)
  run-IsHaltedBy h s (e ∷ es) (k, ks) v =
      let (s', p, v') = apply-IsHaltedBy h s e k v in
      let (s'', q, v'') = run-IsHaltedBy h s' es ks v' in (s'', rw (p, run) q, v'')

  -- Whatever then happens short of a cleared halt, restarts and midnights included, a halted ledger
  -- keeps the very halt that it was marked with, the process can always start again from the file,
  -- and at every instant whose day has no override the enabled guard answers `already_halted`.
  pub run_stays_halted :
      (h : Halt) (s : DrawdownState R) (es : List (Event R))
      → All IsNoClear es
      → s.halted ≡ some h
      → s.version ≡ 1
      → (s' : DrawdownState R) × (run s es ≡ some s')
        × (s'.halted ≡ some h)
        × ((at : ℕ)
            → c.enabled ≡ true
            → ¬ IsOverridden r (roll_to r s' at) at
            → let d = evaluate_drawdown r s' c at in
              (d.halted ≡ true) × (d.reason ≡ already_halted))
  unfolding evaluate_drawdown roll_to
  run_stays_halted h s es k halt v =
      let (s', e, kept) = run-IsHaltedBy h s es k (halt, v) in
      (s', e, kept.0, λ at on no_override. ground arith)

  -- A check at an instant when the guard halts writes the halt into the ledger, under the reason
  -- that was decided, and a check of a ledger that is halted already changes nothing at all.
  pub checks-mark :
      (s : DrawdownState R) (at : ℕ)
      → let d = evaluate_drawdown r s c at in
        let s' = mark_halted r s d at in
        (d.halted ≡ true
          → s.halted ≡ none
          → s'.halted ≡ some (record { at = r.iso at; reason = d.reason }))
        × (d.halted ≡ false → s' ≡ s)
        × ((h : Halt) → s.halted ≡ some h → s' ≡ s)
  unfolding mark_halted
  checks-mark s at = (ground arith, ground arith, λ h. ground arith)
