-- ===== src/Base/Maps.antt =====
-- A JavaScript `Map` with text keys: its entries in the order in which the keys were added.
use Prim.Native.Nat.{suc, ◌≤◌}
use mathlib.Core.Path.{◌≡◌, refl, sym, subst, ap, ◌∙◌}
use mathlib.Core.Logic.{◌⊎◌, inl, inr}
use mathlib.Core.Bool.{Bool, true, false}
use mathlib.Core.List.{List, [], ◌∷◌}
use mathlib.Core.Option.{Option, none, some, some-injective}
use native.Mathlib.Omega.{arith}
use opiumo.Base.Tests.{if◌then◌else◌, Bool-cases, is_some}
use opiumo.Base.Lists.{length, any}
use opiumo.Base.Strings.{Text, text_eq, text_eq→eq, text_eq_refl, ne_of_text_eq}

abbrev pub contains : List Text → Text → Bool
contains names n = any (text_eq n) names

pub text_eq_sym : (s t : Text) → text_eq s t ≡ false → text_eq t s ≡ false
text_eq_sym s t h = elim (Bool-cases (text_eq t s)) [
  | inl same ↦ absurd (ne_of_text_eq s t h (sym (text_eq→eq t s same)))
  | inr apart ↦ apart
]

-- Two texts are one, or differ to the test in both orders.
pub text_eq-cases : (s t : Text) → (s ≡ t) ⊎ ((text_eq s t ≡ false) × (text_eq t s ≡ false))
text_eq-cases s t = elim (Bool-cases (text_eq s t)) [
  | inl same ↦ inl (text_eq→eq s t same)
  | inr apart ↦ inr (apart, text_eq_sym s t apart)
]

module _ {ℓ} {A : Type ℓ} where
  abbrev pub lookup : Text → List (Text × A) → Option A
  lookup k [] = none
  lookup k ((k', v) ∷ rest) = if text_eq k k' then some v else lookup k rest

  abbrev pub keys : List (Text × A) → List Text
  keys [] = []
  keys ((k, v) ∷ rest) = k ∷ keys rest

  abbrev pub values : List (Text × A) → List A
  values [] = []
  values ((k, v) ∷ rest) = v ∷ values rest

  abbrev pub has_key : Text → List (Text × A) → Bool
  has_key k m = is_some (lookup k m)

  -- A key that is there keeps its place.
  unfoldable pub set : Text → A → List (Text × A) → List (Text × A)
  set k v [] = (k, v) ∷ []
  set k v ((k', w) ∷ rest) = if text_eq k k' then (k', v) ∷ rest else (k', w) ∷ set k v rest

  unfoldable pub delete : Text → List (Text × A) → List (Text × A)
  delete k [] = []
  delete k ((k', w) ∷ rest) = if text_eq k k' then delete k rest else (k', w) ∷ delete k rest

  pub lookup-set :
      (j k : Text) (v : A) (m : List (Text × A))
      → lookup j (set k v m) ≡ (if text_eq j k then some v else lookup j m)
  unfolding set
  lookup-set j k v [] = refl
  lookup-set j k v ((k', w) ∷ rest) = elim (text_eq-cases k k') [
    | inl same ↦
        ground (arith, text_eq_refl k', same, ap (text_eq j) same, ap (λ x. text_eq x k') same)
    | inr (apart, back) ↦ elim (text_eq-cases j k') [
      | inl here ↦ ground (
        arith,
        apart,
        back,
        lookup-set j k v rest,
        text_eq_refl k',
        ap (λ x. text_eq x k) here,
        ap (λ x. text_eq x k') here,
      )
      | inr (off, _) ↦ ground (arith, apart, off, lookup-set j k v rest)
    ]
  ]

  pub lookup-delete :
      (j k : Text) (m : List (Text × A))
      → lookup j (delete k m) ≡ (if text_eq j k then none else lookup j m)
  unfolding delete
  lookup-delete j k [] = ground arith
  lookup-delete j k ((k', w) ∷ rest) = elim (text_eq-cases k k') [
    | inl same ↦ ground (
      arith,
      text_eq_refl k',
      same,
      ap (text_eq j) same,
      ap (λ x. text_eq x k') same,
      lookup-delete j k rest,
    )
    | inr (apart, back) ↦ elim (text_eq-cases j k') [
      | inl here ↦ ground (
        arith,
        apart,
        back,
        lookup-delete j k rest,
        text_eq_refl k',
        ap (λ x. text_eq x k) here,
        ap (λ x. text_eq x k') here,
      )
      | inr (off, _) ↦ ground (arith, apart, off, lookup-delete j k rest)
    ]
  ]

  pub lookup-set_self : (k : Text) (v : A) (m : List (Text × A)) → lookup k (set k v m) ≡ some v
  lookup-set_self k v m = ground (arith, lookup-set k k v m, text_eq_refl k)

  pub has_key-set :
      (j k : Text) (v : A) (m : List (Text × A))
      → has_key j (set k v m) ≡ (if text_eq j k then true else has_key j m)
  has_key-set j k v m = ground (arith, lookup-set j k v m)

  pub has_key-delete :
      (j k : Text) (m : List (Text × A))
      → has_key j (delete k m) ≡ (if text_eq j k then false else has_key j m)
  has_key-delete j k m = ground (arith, lookup-delete j k m)

  -- What is found after a `set` is the new value at its key, or was there before.
  pub lookup-set-cases :
      (j k : Text) (v : A) (m : List (Text × A)) (x : A)
      → lookup j (set k v m) ≡ some x
      → ((j ≡ k) × (v ≡ x)) ⊎ (lookup j m ≡ some x)
  lookup-set-cases j k v m x h = elim (text_eq-cases j k) [
    | inl same ↦ inl (same, some-injective v x (sym (lookup-set j k v m ∙ at_key same) ∙ h))
    | inr (apart, _) ↦ inr (ground (arith, lookup-set j k v m, apart, h))
  ]
    where
      at_key : j ≡ k → (if text_eq j k then some v else lookup j m) ≡ some v
      at_key same = ground (arith, text_eq_refl k, ap (λ x. text_eq x k) same)

  pub length-set :
      (k : Text) (v : A) (m : List (Text × A))
      → length (set k v m) ≡ (if has_key k m then length m else suc (length m))
  unfolding set
  length-set k v [] = refl
  length-set k v ((k', w) ∷ rest) = ground (arith, length-set k v rest)

  pub length-delete-le : (k : Text) (m : List (Text × A)) → length (delete k m) ≤ length m
  unfolding delete
  length-delete-le k [] = omega arith
  length-delete-le k ((k', w) ∷ rest) = ground (arith, length-delete-le k rest)

  -- No key stands twice.
  abbrev pub IsDistinct : List (Text × A) → Type 0
  IsDistinct [] = Unit
  IsDistinct ((k, v) ∷ rest) = (has_key k rest ≡ false) × IsDistinct rest

  pub set-IsDistinct :
      (k : Text) (v : A) (m : List (Text × A)) → IsDistinct m → IsDistinct (set k v m)
  unfolding set
  set-IsDistinct k v [] d = (refl, tt)
  set-IsDistinct k v ((k', w) ∷ rest) (new, d) = elim (Bool-cases (text_eq k k')) [
    | inl same ↦ ground (arith, same, new, d)
    | inr apart ↦ ground (
      arith,
      apart,
      text_eq_sym k k' apart,
      new,
      set-IsDistinct k v rest d,
      lookup-set k' k v rest,
    )
  ]

  pub delete-IsDistinct : (k : Text) (m : List (Text × A)) → IsDistinct m → IsDistinct (delete k m)
  unfolding delete
  delete-IsDistinct k [] d = tt
  delete-IsDistinct k ((k', w) ∷ rest) (new, d) = elim (Bool-cases (text_eq k k')) [
    | inl same ↦ ground (arith, same, delete-IsDistinct k rest d)
    | inr apart ↦ ground (
      arith,
      apart,
      text_eq_sym k k' apart,
      new,
      delete-IsDistinct k rest d,
      lookup-delete k' k rest,
    )
  ]

  delete_absent : (k : Text) (m : List (Text × A)) → has_key k m ≡ false → delete k m ≡ m
  unfolding delete
  delete_absent k [] h = refl
  delete_absent k ((k', w) ∷ rest) h = ground (arith, h, delete_absent k rest)

  pub length-delete :
      (k : Text) (m : List (Text × A))
      → IsDistinct m
      → has_key k m ≡ true
      → suc (length (delete k m)) ≡ length m
  unfolding delete
  length-delete k [] d h = cc
  length-delete k ((k', w) ∷ rest) (new, d) h = elim (text_eq-cases k k') [
    | inl same ↦ ground (
      arith,
      text_eq_refl k',
      ap (λ x. text_eq x k') same,
      ap length (delete_absent k rest (subst (λ x. has_key x rest ≡ false) (sym same) new)),
    )
    | inr (apart, _) ↦ ground (arith, apart, h, length-delete k rest d)
  ]

  -- A map whose keys are all keys of another is no longer than it.
  pub length-le :
      (m m' : List (Text × A))
      → IsDistinct m
      → IsDistinct m'
      → ((k : Text) → has_key k m ≡ true → has_key k m' ≡ true)
      → length m ≤ length m'
  length-le [] m' d d' sub = omega arith
  length-le ((k, v) ∷ m) m' (new, d) d' sub = omega (
    arith,
    length-le m (delete k m') d (delete-IsDistinct k m' d') (λ j e. elim (text_eq-cases j k) [
      | inl here ↦ absurd (ground (arith, new, e, ap (λ x. has_key x m) here))
      | inr (off, _) ↦ ground (arith, off, e, sub j, has_key-delete j k m')
    ]),
    length-delete k m' d' (sub k (ground (arith, text_eq_refl k))),
  )
