-- ===== src/Spot/Keeping.antt =====
-- What holds of the position file of the spot bot (src/trading/engine.ts) between steps.
use opiumo.Base.{
  IsDistinct, arith, delete, delete-IsDistinct, inl, inr, lookup, lookup-delete, lookup-set-cases,
  set, set-IsDistinct, some, subst, sym, true, ◌≡◌, ◌≤◌, List, Text,
}
use opiumo.Spot.Records.{SpotPosition, TradingConfig}

module _ {R : Type 0} (c : TradingConfig R) where
  -- A position under its own mint, sold by parts of what was bought, and given up only after the
  -- failures that the settings ask for.
  abbrev pub IsHeld : Text → SpotPosition R → Type 0
  IsHeld k p =
      (p.mint ≡ k)
      × (p.remaining_size_tokens ≤ p.entry_size_tokens)
      × (p.abandoned ≡ true → c.max_consecutive_sell_failures ≤ p.sell_failure_count)

  pub record IsFit (m : List (Text × SpotPosition R)) : Type 0 where
    pub distinct : IsDistinct m
    pub held : (k : Text) (p : SpotPosition R) → lookup k m ≡ some p → IsHeld k p

  set-held :
      (m : List (Text × SpotPosition R)) (k : Text) (q : SpotPosition R)
      → IsFit m
      → IsHeld k q
      → (j : Text) (p : SpotPosition R) → lookup j (set k q m) ≡ some p
      → IsHeld j p
  set-held m k q fit new j p e = elim (lookup-set-cases j k q m p e) [
    | inl (same, it) ↦ subst (λ x. IsHeld j x) it (subst (λ x. IsHeld x q) (sym same) new)
    | inr below ↦ fit.held j p below
  ]

  pub set-IsFit :
      (m : List (Text × SpotPosition R)) (k : Text) (q : SpotPosition R)
      → IsHeld k q
      → IsFit m
      → IsFit (set k q m)
  set-IsFit m k q new fit = record {
    distinct = set-IsDistinct k q m fit.distinct;
    held = set-held m k q fit new;
  }

  pub delete-IsFit : (m : List (Text × SpotPosition R)) (k : Text) → IsFit m → IsFit (delete k m)
  delete-IsFit m k fit = record {
    distinct = delete-IsDistinct k m fit.distinct;
    held = λ j p e. fit.held j p (ground (arith, lookup-delete j k m, e));
  }
