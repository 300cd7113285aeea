-- ===== src/Paper/Halted.antt =====
-- A halted drawdown guard and the paper book (src/trading/paperExecution.ts with
-- src/risk/drawdownGuard.ts).
use opiumo.Base.{
  if_cases, lookup, not, values, ap, ◌∙◌, arith, refl, subst, sym, Option, Text, [], is_some, none,
  some, true, ℕ, ◌∷◌, ◌≡◌, List,
}
use opiumo.Drawdown.Guard.{
  already_halted, apply_realised, evaluate_drawdown, mark_halted, roll_to, DrawdownConfig,
  DrawdownState,
}
use opiumo.Exits.Decisions.{PoolObservation}
use opiumo.Number.{Number}
use opiumo.Paper.Book.{
  retire, guard_of, open_guarded, active_guard, refuse, guard_setting, open_position,
}
use opiumo.Paper.Expiring.{
  exit_price, expire_each, expire_one, expire_under, expired, expiry_rule, apply_exit, expire,
}
use opiumo.Paper.Observing.{abandon_held, given_up_at, apply_to_drawdown, realise, abandon, observe}
use opiumo.Paper.Records.{
  ForcedExitRule, PaperConfig, PaperPosition, drawdown_halt, ForcedExitConfig, OpenParams,
  PaperBook,
}
use opiumo.Platform.{Runtime}
use opiumo.Paper.Calls.{apply_exit-IsValid, observe-cases}
use opiumo.Paper.Keeping.{IsEnded, IsValid, replace-IsKept, retire-IsValid}

-- What the program asks of a book between two starts.
pub data BookCall (R : Type 0) : Type 0 where
  opens : OpenParams R → BookCall R
  observes : Text → PoolObservation R → BookCall R
  expires : ℕ → ForcedExitConfig → BookCall R
  abandons : Text → ℕ → Text → BookCall R

module _ {R : Type 0} ⦃n : Number R⦄ (r : Runtime) where
  open n use {sub}

  unfoldable pub apply_call : PaperBook R → BookCall R → PaperBook R
  unfolding open_position observe expire abandon
  apply_call b (opens params) = (open_position r b params).0
  apply_call b (observes mint obs) = (observe r b mint obs).0
  apply_call b (expires now c) = (expire r b now c).0
  apply_call b (abandons mint at why) = (abandon b mint at why).0

  unfoldable pub apply_calls : PaperBook R → List (BookCall R) → PaperBook R
  unfolding apply_call
  apply_calls b [] = b
  apply_calls b (x ∷ xs) = apply_calls (apply_call b x) xs

  guard_is :
      (b : PaperBook R) (s : DrawdownState R) (limits : DrawdownConfig R)
      → guard_setting b.config ≡ some limits
      → b.drawdown ≡ some s
      → active_guard b ≡ some (s, limits)
  guard_is b s limits on ledger =
      ap (λ o. guard_of o (guard_setting b.config)) ledger ∙ ap (guard_of (some s)) on

  -- The guard is on, and its ledger is halted with no override.
  abbrev IsBlocked : DrawdownConfig R → PaperBook R → Type 0
  IsBlocked limits b =
      (guard_setting b.config ≡ some limits)
      × ((s : DrawdownState R) × (b.drawdown ≡ some s)
          × (is_some s.halted ≡ true)
          × (s.override ≡ none))

  realise-IsBlocked :
      (limits : DrawdownConfig R) (b : PaperBook R) (pnl : R) (at : ℕ)
      → IsBlocked limits b
      → IsBlocked limits (realise r b pnl at (active_guard b))
  unfolding apply_realised roll_to mark_halted
  realise-IsBlocked limits b pnl at (on, (s, ledger, halt, free)) =
      subst (λ g. IsBlocked limits (realise r b pnl at g)) (sym (guard_is b s limits on ledger))
        (on, (marked, refl, ground (arith, halt), ground (arith, free)))
    where
      marked : DrawdownState R
      marked =
          let applied = apply_realised r s pnl at in
          mark_halted r applied (evaluate_drawdown r applied limits at) at

  apply_exit-IsBlocked :
      (limits : DrawdownConfig R) (b : PaperBook R) (p : PaperPosition R) (price : Option R)
      (at : ℕ)
      → IsBlocked limits b
      → IsBlocked limits (apply_exit r b p price at)
  unfolding apply_to_drawdown
  apply_exit-IsBlocked limits b p none at h = h
  apply_exit-IsBlocked limits b p (some x) at h =
      realise-IsBlocked limits b (sub x p.entry_proceeds_sol) at h

  halted_verdict :
      (limits : DrawdownConfig R) (s : DrawdownState R) (at : ℕ)
      → limits.enabled ≡ true
      → is_some s.halted ≡ true
      → s.override ≡ none
      → let d = evaluate_drawdown r s limits at in (d.halted ≡ true) × (d.reason ≡ already_halted)
  unfolding evaluate_drawdown roll_to
  halted_verdict limits s at on halt free =
      (ground (arith, on, halt, free), ground (arith, on, halt, free))

  setting_on :
      (c : PaperConfig R) (limits : DrawdownConfig R)
      → guard_setting c ≡ some limits
      → limits.enabled ≡ true
  setting_on c limits e = ground (arith, e)

  -- A blocked book refuses whatever it is asked to open.
  open_position_blocked :
      (limits : DrawdownConfig R) (b : PaperBook R) (params : OpenParams R)
      → IsBlocked limits b
      → open_position r b params ≡ refuse b params.mint (drawdown_halt already_halted)
  unfolding open_position
  open_position_blocked limits b params (on, (s, ledger, halt, free)) =
      let verdict = halted_verdict limits s params.at (setting_on b.config limits on) halt free in
      subst (λ g. open_guarded r b params g ≡ refuse b params.mint (drawdown_halt already_halted))
        (sym (guard_is b s limits on ledger)) (ground (arith, verdict.0, verdict.1))

  abbrev IsShut : DrawdownConfig R → PaperBook R → Type 0
  IsShut limits b = IsValid b × IsBlocked limits b

  apply_exit-IsShut :
      (limits : DrawdownConfig R) (b : PaperBook R) (p : PaperPosition R) (price : Option R)
      (at : ℕ)
      → IsShut limits b
      → IsShut limits (apply_exit r b p price at)
  apply_exit-IsShut limits b p price at (v, h) =
      (apply_exit-IsValid r b p price at v, apply_exit-IsBlocked limits b p price at h)

  retire-IsShut :
      (limits : DrawdownConfig R) (b : PaperBook R) (k : Text) (q : PaperPosition R)
      → IsEnded q
      → IsShut limits b
      → IsShut limits (retire b k q)
  unfolding retire
  retire-IsShut limits b k q over (v, h) = (retire-IsValid b k q over v, h)

  expire_each-IsShut :
      (limits : DrawdownConfig R) (forced : ForcedExitConfig) (now : ℕ)
      (ps : List (PaperPosition R)) (b : PaperBook R)
      → IsShut limits b
      → IsShut limits (expire_each r forced now b ps).0
  unfolding expire_each expire_one
  expire_each-IsShut limits forced now [] b h = h
  expire_each-IsShut limits forced now (p ∷ ps) b h =
      expire_each-IsShut limits forced now ps (expire_one r forced now b p).0
        (under (expiry_rule forced p now))
    where
      under : (o : Option ForcedExitRule) → IsShut limits (expire_under r b p now o).0
      under none = h
      under (some rule) =
          let q = expired p rule now in
          apply_exit-IsShut limits (retire b p.mint q) q (exit_price p) now
            (retire-IsShut limits b p.mint q refl h)

  apply_call-IsShut :
      (limits : DrawdownConfig R) (b : PaperBook R) (x : BookCall R)
      → IsShut limits b
      → IsShut limits (apply_call b x)
  unfolding apply_call expire abandon
  apply_call-IsShut limits b (opens params) h =
      subst (λ x. IsShut limits x.0) (sym (open_position_blocked limits b params h.1)) h
  apply_call-IsShut limits b (observes mint obs) h =
      observe-cases r b mint obs (λ x. IsShut limits x.0) h
        (λ p q e kin.
          let o = h.0.open_at mint p e in
          (replace-IsKept b mint q (ap is_some e) (kin.1 ∙ o.0, kin.2 ∙ o.1, kin.3 ∙ o.2) h.0, h.1))
        (λ p q e over.
          apply_exit-IsShut limits (retire b mint q) q q.exit_proceeds_sol obs.ts
            (retire-IsShut limits b mint q over.2 h))
        h.0
  apply_call-IsShut limits b (expires now c) h =
      if_cases (λ (x : PaperBook R × List (PaperPosition R)). IsShut limits x.0) (not c.enabled)
        (λ _. h) (λ _. expire_each-IsShut limits c now (values b.positions) b h)
  apply_call-IsShut limits b (abandons mint at why) h = by_held (lookup mint b.positions)
    where
      by_held : (o : Option (PaperPosition R)) → IsShut limits (abandon_held b mint at why o).0
      by_held none = h
      by_held (some p) = retire-IsShut limits b mint (given_up_at p at why) refl h

  apply_calls-IsShut :
      (limits : DrawdownConfig R) (b : PaperBook R) (xs : List (BookCall R))
      → IsShut limits b
      → IsShut limits (apply_calls b xs)
  unfolding apply_calls
  apply_calls-IsShut limits b [] h = h
  apply_calls-IsShut limits b (x ∷ xs) h =
      apply_calls-IsShut limits (apply_call b x) xs (apply_call-IsShut limits b x h)

  -- A valid book whose guard is on and halted, with no override, opens nothing whatever is asked of
  -- it: after any calls, closes of its positions with a profit included, and at any later instant,
  -- the answer to an open is the refusal that the guard is halted already, which alone is recorded.
  pub apply_calls_refuses :
      (limits : DrawdownConfig R) (b : PaperBook R) (s : DrawdownState R) (xs : List (BookCall R))
      (params : OpenParams R)
      → guard_setting b.config ≡ some limits
      → b.drawdown ≡ some s
      → is_some s.halted ≡ true
      → s.override ≡ none
      → IsValid b
      → let b' = apply_calls b xs in
        open_position r b' params ≡ refuse b' params.mint (drawdown_halt already_halted)
  apply_calls_refuses limits b s xs params on ledger halt free v =
      open_position_blocked limits (apply_calls b xs) params
        (apply_calls-IsShut limits b xs (v, (on, (s, ledger, halt, free)))).1
