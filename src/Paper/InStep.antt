-- ===== src/Paper/InStep.antt =====
-- The paper log and the book in step: the rows of the log that are open are those of the positions
-- that the book holds (src/trading/paperExecution.ts and its calls).
use mathlib.Core.Option
use opiumo.Base.{
  ap, lookup-set_self, ◌∙◌, IsDistinct, [], arith, delete, delete-IsDistinct, inl, inr, lookup,
  lookup-delete, lookup-set, lookup-set-cases, refl, set, set-IsDistinct, some, subst, sym,
  text_eq-cases, true, ◌++◌, ◌∷◌, ◌≡◌, List, Option, Text,
}
use opiumo.Number.{Number, nought}
use opiumo.Paper.Records.{PaperPosition, PricingFactory}
use opiumo.Paper.Restoring.{LogRow, PaperOpenRow, open_rows_from, paper_open_row, read_row}

-- What the pricing of a book has: a sale out of an empty pool brings nothing.
module _ {R : Type 0} ⦃n : Number R⦄ where
  open n use {lt}

  abbrev pub IsSound : PricingFactory R → Type 0
  IsSound f =
      (venue : Option Text) (liquidity fraction v : R)
      → (f venue liquidity fraction).fn liquidity fraction ≡ some v
      → lt nought fraction ≡ true
      → lt nought v ≡ true
      → lt nought liquidity ≡ true

  -- A position that a restore takes in again from its row.
  abbrev pub IsPriced : PricingFactory R → PaperPosition R → Type 0
  IsPriced f p =
      (lt nought p.entry_proceeds_sol ≡ true)
      × (lt nought p.entry_liquidity_sol ≡ true)
      × (lt nought p.pool_fraction ≡ true)
      × ((f p.venue p.entry_liquidity_sol p.pool_fraction).model ≡ p.pricing_model)

  abbrev pub IsRestorable : PricingFactory R → Text → PaperOpenRow R → Type 0
  IsRestorable f k row =
      (p : PaperPosition R) × (paper_open_row p ≡ row) × (p.mint ≡ k) × IsPriced f p

  pub record IsInStepWith (f : PricingFactory R) (positions : List (Text × PaperPosition R))
      (open_rows : List (Text × PaperOpenRow R)) : Type 0 where
    pub distinct : IsDistinct open_rows
    pub same : (k : Text) → lookup k open_rows ≡ Option.map paper_open_row (lookup k positions)
    pub restorable :
        (k : Text) (row : PaperOpenRow R) → lookup k open_rows ≡ some row → IsRestorable f k row

  pub open_rows_from-++ :
      (m : List (Text × PaperOpenRow R)) (xs ys : List (LogRow R))
      → open_rows_from m (xs ++ ys) ≡ open_rows_from (open_rows_from m xs) ys
  unfolding open_rows_from
  open_rows_from-++ m [] ys = refl
  open_rows_from-++ m (x ∷ xs) ys = open_rows_from-++ (read_row m x) xs ys

  module _ (f : PricingFactory R) (positions : List (Text × PaperPosition R))
      (m : List (Text × PaperOpenRow R)) (step : IsInStepWith f positions m) where
    pub take-IsInStep :
        (p : PaperPosition R)
        → IsPriced f p
        → IsInStepWith f (set p.mint p positions) (set p.mint (paper_open_row p) m)
    take-IsInStep p priced = record {
      distinct = set-IsDistinct p.mint (paper_open_row p) m step.distinct;
      same = λ k. ground (
        arith,
        lookup-set k p.mint p positions,
        lookup-set k p.mint (paper_open_row p) m,
        step.same k,
      );
      restorable = λ k row e. elim (lookup-set-cases k p.mint (paper_open_row p) m row e) [
        | inl (here, it) ↦ (p, it, sym here, priced)
        | inr below ↦ step.restorable k row below
      ];
    }

    pub move-IsInStep :
        (k : Text) (p q : PaperPosition R)
        → lookup k positions ≡ some p
        → paper_open_row q ≡ paper_open_row p
        → IsInStepWith f (set k q positions) m
    move-IsInStep k p q e row = record {
      distinct = step.distinct;
      same = λ j. elim (text_eq-cases j k) [
        | inl here ↦
            subst (λ x. lookup x m ≡ Option.map paper_open_row (lookup x (set k q positions)))
              (sym here) at_k
        | inr (apart, _) ↦ ground (arith, lookup-set j k q positions, apart, step.same j)
      ];
      restorable = step.restorable;
    }
      where
        at_k : lookup k m ≡ Option.map paper_open_row (lookup k (set k q positions))
        at_k =
            step.same k
            ∙ ap (Option.map paper_open_row) e
            ∙ sym (ap some row)
            ∙ sym (ap (Option.map paper_open_row) (lookup-set_self k q positions))

    pub drop-IsInStep : (k : Text) → IsInStepWith f (delete k positions) (delete k m)
    drop-IsInStep k = record {
      distinct = delete-IsDistinct k m step.distinct;
      same = λ j. ground (arith, lookup-delete j k positions, lookup-delete j k m, step.same j);
      restorable = λ j row e. step.restorable j row (ground (arith, lookup-delete j k m, e));
    }
