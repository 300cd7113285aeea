-- ===== src/Paper/Sweeping.antt =====
-- What `expire` leaves open (src/trading/paperExecution.ts).
use opiumo.Base.{
  leb, ◌+◌, ◌||◌, ap, inl, inr, lookup-delete, text_eq-cases, text_eq_refl, true, ◌∙◌, Bool,
  IsDistinct, Option, Text, [], any, arith, false, if◌then◌else◌, is_some, lookup, none, refl, some,
  text_eq, values, ℕ, ◌&&◌, ◌∷◌, ◌≡◌, List,
}
use opiumo.Number.{Number}
use opiumo.Paper.Book.{active_guard, retire}
use opiumo.Paper.Expiring.{
  apply_exit, exit_price, expire, expired, expire_each, expire_one, expire_under, expiry_rule,
}
use opiumo.Paper.Records.{ForcedExitConfig, ForcedExitRule, PaperBook, PaperPosition}
use opiumo.Platform.{Runtime}
use opiumo.Drawdown.Guard.{DrawdownConfig, DrawdownState}
use opiumo.Paper.Keeping.{IsValid}
use opiumo.Paper.Observing.{apply_to_drawdown, realise}

module _ {R : Type 0} where
  -- The position has had no reading for the time of the one limit, or it is open for that of the
  -- other.
  abbrev pub is_due : ForcedExitConfig → ℕ → PaperPosition R → Bool
  is_due c now p =
      leb ((elim p.last_observed_at [ none ↦ p.opened_at | some t ↦ t ]) + c.stale_observation_ms)
        now
      || leb (p.opened_at + c.max_hold_ms) now

  expiry_rule-due :
      (c : ForcedExitConfig) (now : ℕ) (p : PaperPosition R)
      → is_some (expiry_rule c p now) ≡ is_due c now p
  expiry_rule-due c now p = ground arith

  -- Some of these positions is due and has this mint.
  abbrev due_at : ForcedExitConfig → ℕ → Text → List (PaperPosition R) → Bool
  due_at c now k ps = any (λ p. text_eq k p.mint && is_due c now p) ps

  abbrev pub due_in : ForcedExitConfig → ℕ → Option (PaperPosition R) → Bool
  due_in c now none = false
  due_in c now (some p) = is_due c now p

  due_at-values :
      (c : ForcedExitConfig) (now : ℕ) (k : Text) (m : List (Text × PaperPosition R))
      → IsDistinct m
      → ((j : Text) (p : PaperPosition R) → lookup j m ≡ some p → p.mint ≡ j)
      → due_at c now k (values m) ≡ due_in c now (lookup k m)
  due_at-values c now k [] d own = refl
  due_at-values c now k ((j, p) ∷ m) (new, d) own =
      let mint = own j p (ground (arith, text_eq_refl j)) in
      let rest = due_at-values c now k m d (λ i q e. own i q (below i q e)) in
      elim (text_eq-cases k j) [
        | inl here ↦ ground (
          arith,
          rest,
          new,
          text_eq_refl j,
          ap (text_eq k) mint,
          ap (λ x. text_eq x j) here,
          ap (λ x. lookup x m) here,
        )
        | inr (off, _) ↦ ground (arith, rest, off, ap (text_eq k) mint)
      ]
    where
      below :
          (i : Text) (q : PaperPosition R) → lookup i m ≡ some q → lookup i ((j, p) ∷ m) ≡ some q
      below i q e = elim (text_eq-cases i j) [
        | inl here ↦ absurd (ground (arith, new, e, ap (λ x. lookup x m) here))
        | inr (off, _) ↦ ground (arith, off, e)
      ]

module _ {R : Type 0} ⦃n : Number R⦄ (r : Runtime) where
  open n use {sub}

  apply_exit_positions :
      (b : PaperBook R) (p : PaperPosition R) (price : Option R) (at : ℕ)
      → (apply_exit r b p price at).positions ≡ b.positions
  unfolding apply_to_drawdown
  apply_exit_positions b p none at = refl
  apply_exit_positions b p (some x) at = by_guard (active_guard b)
    where
      by_guard :
          (g : Option (DrawdownState R × DrawdownConfig R))
          → (realise r b (sub x p.entry_proceeds_sol) at g).positions ≡ b.positions
      by_guard none = refl
      by_guard (some (s, limits)) = refl

  expire_one_positions :
      (c : ForcedExitConfig) (now : ℕ) (b : PaperBook R) (p : PaperPosition R) (k : Text)
      → lookup k (expire_one r c now b p).0.positions
        ≡ (if text_eq k p.mint && is_due c now p then none else lookup k b.positions)
  unfolding expire_one retire
  expire_one_positions c now b p k =
      under (expiry_rule c p now)
      ∙ ap (λ due. if text_eq k p.mint && due then none else lookup k b.positions)
          (expiry_rule-due c now p)
    where
      under :
          (o : Option ForcedExitRule)
          → lookup k (expire_under r b p now o).0.positions
            ≡ (if text_eq k p.mint && is_some o then none else lookup k b.positions)
      under none = ground arith
      under (some rule) =
          let q = expired p rule now in
          ap (lookup k) (apply_exit_positions (retire b p.mint q) q (exit_price p) now)
          ∙ ground (arith, lookup-delete k p.mint b.positions)

  expire_each_positions :
      (c : ForcedExitConfig) (now : ℕ) (b : PaperBook R) (ps : List (PaperPosition R)) (k : Text)
      → lookup k (expire_each r c now b ps).0.positions
        ≡ (if due_at c now k ps then none else lookup k b.positions)
  unfolding expire_each
  expire_each_positions c now b [] k = refl
  expire_each_positions c now b (p ∷ ps) k = ground (
    arith,
    expire_one_positions c now b p k,
    expire_each_positions c now (expire_one r c now b p).0 ps k,
  )

  -- A sweep that is enabled leaves open exactly the positions to which neither limit applies, each
  -- as it was: what a mint holds after it is what it held before, where that is not due, and
  -- nothing where it is.
  pub expire_leaves_undue :
      (b : PaperBook R) (now : ℕ) (c : ForcedExitConfig) (k : Text)
      → c.enabled ≡ true
      → IsValid b
      → lookup k (expire r b now c).0.positions
        ≡ (if due_in c now (lookup k b.positions) then none else lookup k b.positions)
  unfolding expire
  expire_leaves_undue b now c k on v = ground (
    arith,
    on,
    expire_each_positions c now b (values b.positions) k,
    due_at-values c now k b.positions v.distinct (λ j p e. (v.open_at j p e).0),
  )
