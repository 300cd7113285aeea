-- ===== src/Base/Lists.antt =====
-- Lists measured by native numbers, and the searches that the program makes over arrays.
use Prim.Native.Nat.{ℕ, zero, suc, ◌+◌, ◌-◌, ◌≤◌}
use mathlib.Core.Path.{◌≡◌}
use mathlib.Core.Bool.{Bool, false, ◌||◌}
use mathlib.Core.List.{List, [], ◌∷◌, ◌++◌}
use mathlib.Core.Option.{Option, none, some}
use native.Mathlib.Omega.{arith}
use opiumo.Base.Tests.{if◌then◌else◌, ◌==◌}

module _ {ℓ} {A : Type ℓ} where
  abbrev pub length : List A → ℕ
  length [] = 0
  length (x ∷ xs) = suc (length xs)

  abbrev pub take : ℕ → List A → List A
  take zero xs = []
  take (suc n) [] = []
  take (suc n) (x ∷ xs) = x ∷ take n xs

  abbrev pub any : (A → Bool) → List A → Bool
  any p [] = false
  any p (x ∷ xs) = p x || any p xs

  -- The elements that pass a test, as `Array.prototype.filter` keeps them.
  abbrev pub keep_if : (A → Bool) → List A → List A
  keep_if p [] = []
  keep_if p (x ∷ xs) = if p x then x ∷ keep_if p xs else keep_if p xs

  abbrev pub find : (A → Bool) → List A → Option A
  find p [] = none
  find p (x ∷ xs) = if p x then some x else find p xs

  abbrev pub All {κ} : (A → Type κ) → List A → Type κ
  All P [] = Unit
  All P (x ∷ xs) = P x × All P xs

  pub length-append : (xs ys : List A) → length (xs ++ ys) ≡ length xs + length ys
  length-append [] ys = omega arith
  length-append (x ∷ xs) ys = omega (arith, length-append xs ys)

  pub length-keep_if-append :
      (p : A → Bool) (xs ys : List A)
      → length (keep_if p (xs ++ ys)) ≡ length (keep_if p xs) + length (keep_if p ys)
  length-keep_if-append p [] ys = omega arith
  length-keep_if-append p (x ∷ xs) ys = ground (arith, length-keep_if-append p xs ys)

  pub length-keep_if-le : (p : A → Bool) (xs : List A) → length (keep_if p xs) ≤ length xs
  length-keep_if-le p [] = omega arith
  length-keep_if-le p (x ∷ xs) = ground (arith, length-keep_if-le p xs)

-- The list without its first elements.
abbrev pub drop {ℓ} : {A : Type ℓ} → ℕ → List A → List A
drop count [] = []
drop count (x ∷ xs) = if count == 0 then x ∷ xs else drop (count - 1) xs

pub length-drop {ℓ} :
    {A : Type ℓ} (count : ℕ) (xs : List A) → length (drop count xs) ≡ length xs - count
length-drop count [] = omega arith
length-drop count (x ∷ xs) = ground (arith, length-drop (count - 1) xs)
