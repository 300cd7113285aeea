-- ===== src/Number.antt =====
-- The program's floating-point `number`s: a type with the operations that the code applies to it.
-- Counts, credits and milliseconds are natural numbers; prices, proceeds, fractions and profits,
-- which the code divides and rounds, are such numbers.
pub mod Integers
use opiumo.Base.{
  ℕ, ◌+◌, ◌≤◌, ◌≡◌, refl, ◌⊎◌, Bool, true, false, not, Option, none, some, arith, ltb, leb,
  if◌then◌else◌,
}
use opiumo.Int.{ℤ, pos, negsuc, pos_part, neg_part, ◌+ℤ◌, ◌-ℤ◌, ◌*ℤ◌, sub_ℕ}

pub record Number {ℓ} (R : Type ℓ) : Type ℓ where
  pub of_nat : ℕ → R
  pub add : R → R → R
  pub sub : R → R → R
  pub neg : R → R
  pub mul : R → R → R
  pub div : R → R → R
  pub le : R → R → Bool
  pub lt : R → R → Bool
  pub max : R → R → R
  pub min : R → R → R
  pub abs : R → R
  -- `Number(x.toFixed(10))`
  pub to_fixed : R → R

module _ {ℓ} {R : Type ℓ} ⦃n : Number R⦄ where
  open n use {of_nat, le}

  abbrev pub nought : R
  nought = of_nat 0

  infix 4 ◌≼◌
  abbrev pub ◌≼◌ : R → R → Type 0
  x ≼ y = le x y ≡ true

  -- Not NaN, the value that no comparison holds of.
  abbrev pub IsNumeric : R → Type 0
  IsNumeric x = x ≼ x

-- What IEEE 754 and ECMAScript say of comparisons and of `Math.max` and `Math.min`, NaN included.
pub record IsOrdered {ℓ} (R : Type ℓ) ⦃n : Number R⦄ : Type ℓ where
  pub numeric_of_le : (x y : R) → x ≼ y → IsNumeric x × IsNumeric y
  pub le_trans : (x y z : R) → x ≼ y → y ≼ z → x ≼ z
  pub le_total : (x y : R) → IsNumeric x → IsNumeric y → (x ≼ y) ⊎ (y ≼ x)
  pub lt-eq-not-le : (x y : R) → IsNumeric x → IsNumeric y → n.lt x y ≡ not (n.le y x)
  pub le-max_left : (x y : R) → IsNumeric x → IsNumeric y → x ≼ n.max x y
  pub le-max_right : (x y : R) → IsNumeric x → IsNumeric y → y ≼ n.max x y
  pub min-le_left : (x y : R) → IsNumeric (n.min x y) → n.min x y ≼ x
  pub min-le_right : (x y : R) → IsNumeric (n.min x y) → n.min x y ≼ y
  pub min_either : (x y : R) → (n.min x y ≡ x) ⊎ (n.min x y ≡ y)
