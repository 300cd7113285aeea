-- ===== src/Paper/Restarts.antt =====
-- What `restore` (src/trading/paperExecution.ts) makes of the open rows of a log.
use mathlib.Core.Option
use opiumo.Base.{
  has_key-set, lookup-set, text_eq, text_eq_refl, IsDistinct, [], if◌then◌else◌, inl, inr,
  text_eq-cases, true, values, ◌∷◌, ap, arith, false, has_key, lookup, none, ok, refl, some, subst,
  sym, ◌∙◌, ◌≡◌, List, Option, Text, ℕ,
}
use opiumo.Exits.Decisions.{ProceedsFn}
use opiumo.Number.{Number}
use opiumo.Paper.Book.{hold_position}
use opiumo.Paper.InStep.{IsRestorable, IsPriced}
use opiumo.Paper.Keeping.{hold_position-IsValid, IsValid, IsOpenAt}
use opiumo.Paper.Records.{PricingFactory, PaperBook, PaperPosition}
use opiumo.Paper.Restoring.{
  PaperOpenRow, restore_from, CheckedRow, Reading, RestoreResult, check_row, paper_open_row,
  restore_checked, restore_one, restored_position, seeded, usable_seed,
}

module _ {R : Type 0} ⦃n : Number R⦄ where
  -- The fields that the checks read off the row of a position.
  abbrev pub row_fields : PaperPosition R → CheckedRow R
  row_fields p = record {
    mint = p.mint;
    opened_at = p.opened_at;
    live_verdict = p.live_verdict;
    venue = p.venue;
    pricing_model = some p.pricing_model;
    exit_rule = some p.exit_rule;
    entry_liquidity_sol = p.entry_liquidity_sol;
    entry_proceeds_sol = p.entry_proceeds_sol;
    pool_fraction = p.pool_fraction;
  }

  check_row_of_position :
      (b : PaperBook R) (p : PaperPosition R)
      → has_key p.mint b.positions ≡ false
      → IsPriced b.factory p
      → check_row b (paper_open_row p) ≡ ok (row_fields p)
  unfolding check_row paper_open_row
  check_row_of_position b p new (proceeds, liquidity, fraction, model) =
      ground (arith, new, proceeds, liquidity, fraction)

  seeded_row :
      (p : PaperPosition R) (fn : ProceedsFn R) (seed : Option (Reading R))
      → paper_open_row (seeded p fn seed) ≡ paper_open_row p
  unfolding paper_open_row
  seeded_row p fn none = refl
  seeded_row p fn (some s) = refl

  seeded-IsOpenAt :
      (k : Text) (p : PaperPosition R) (fn : ProceedsFn R) (seed : Option (Reading R))
      → IsOpenAt k p
      → IsOpenAt k (seeded p fn seed)
  seeded-IsOpenAt k p fn none h = h
  seeded-IsOpenAt k p fn (some s) h = h

  restored_row :
      (b : PaperBook R) (p : PaperPosition R) (at : ℕ)
      → IsPriced b.factory p
      → paper_open_row (
          restored_position b
            (row_fields p)
            (b.factory p.venue p.entry_liquidity_sol p.pool_fraction)
            at)
        ≡ paper_open_row p
  unfolding paper_open_row
  restored_row b p at (proceeds, liquidity, fraction, model) =
      ap (λ x. record (paper_open_row p) { pricing_model = some x }) model

  -- A row of a position that is not in the book is taken in as that position.
  restore_one-takes :
      (readings : List (Text × Reading R)) (at : ℕ) (b : PaperBook R) (result : RestoreResult)
      (p : PaperPosition R) (P : PaperBook R → Type 0)
      → has_key p.mint b.positions ≡ false
      → IsPriced b.factory p
      → ((q : PaperPosition R) (fn : ProceedsFn R)
          → paper_open_row q ≡ paper_open_row p
          → IsOpenAt p.mint q
          → P (hold_position b p.mint q fn))
      → P (restore_one readings at (b, result) (paper_open_row p)).0
  unfolding restore_one paper_open_row
  restore_one-takes readings at b result p P new priced takes =
      let seed = lookup p.mint readings in
      let price = b.factory p.venue p.entry_liquidity_sol p.pool_fraction in
      let q = restored_position b (row_fields p) price at in
      let usable = usable_seed p.opened_at seed in
      subst (λ x. P (restore_checked b result at seed p.mint x).0)
        (sym (check_row_of_position b p new priced))
        (takes (seeded q price.fn usable) price.fn
          (seeded_row q price.fn usable ∙ restored_row b p at priced)
          (seeded-IsOpenAt p.mint q price.fn usable (refl, refl, refl)))

  -- What the loop over the rows of `m` leaves of a book that holds none of them.
  pub record IsRestoredFrom (b : PaperBook R) (m : List (Text × PaperOpenRow R)) (b' : PaperBook R)
      : Type 0 where
    pub valid : IsValid b'
    pub factory : b'.factory ≡ b.factory
    pub config : b'.config ≡ b.config
    pub rows :
        (k : Text)
        → Option.map paper_open_row (lookup k b'.positions)
          ≡ (if has_key k m then lookup k m else Option.map paper_open_row (lookup k b.positions))

  -- The head of a map of rows, and what its other keys are.
  tail_row :
      (f : PricingFactory R) (k : Text) (row : PaperOpenRow R) (m : List (Text × PaperOpenRow R))
      → IsDistinct ((k, row) ∷ m)
      → ((j : Text) (x : PaperOpenRow R) → lookup j ((k, row) ∷ m) ≡ some x → IsRestorable f j x)
      → (j : Text) (x : PaperOpenRow R) → lookup j m ≡ some x
      → IsRestorable f j x
  tail_row f k row m (new, d) all j x e = elim (text_eq-cases j k) [
    | inl here ↦ absurd (ground (arith, new, e, ap (λ y. lookup y m) here))
    | inr (apart, _) ↦ all j x (ground (arith, apart, e))
  ]

  -- The book with one more position, whose row is known.
  record IsBookWith (b : PaperBook R) (k : Text) (row : PaperOpenRow R) (b' : PaperBook R)
      : Type 0 where
    pub valid : IsValid b'
    pub factory : b'.factory ≡ b.factory
    pub config : b'.config ≡ b.config
    pub held :
        (j : Text) → has_key j b'.positions ≡ (if text_eq j k then true else has_key j b.positions)
    pub rows :
        (j : Text)
        → Option.map paper_open_row (lookup j b'.positions)
          ≡ (if text_eq j k then some row else Option.map paper_open_row (lookup j b.positions))

  hold_position-IsBookWith :
      (b : PaperBook R) (k : Text) (row : PaperOpenRow R) (q : PaperPosition R) (fn : ProceedsFn R)
      → paper_open_row q ≡ row
      → IsOpenAt k q
      → IsValid b
      → IsBookWith b k row (hold_position b k q fn)
  unfolding hold_position
  hold_position-IsBookWith b k row q fn e o v = record {
    valid = hold_position-IsValid b k q fn o v;
    factory = refl;
    config = refl;
    held = λ j. has_key-set j k q b.positions;
    rows = λ j. ground (arith, lookup-set j k q b.positions, e);
  }

  restore_one-IsBookWith :
      (readings : List (Text × Reading R)) (at : ℕ) (b : PaperBook R) (result : RestoreResult)
      (k : Text) (row : PaperOpenRow R)
      → has_key k b.positions ≡ false
      → IsRestorable b.factory k row
      → IsValid b
      → IsBookWith b k row (restore_one readings at (b, result) row).0
  restore_one-IsBookWith readings at b result k row new (p, it, here, priced) v =
      subst (λ x. IsBookWith b x row (restore_one readings at (b, result) row).0) here
        (subst (λ x. IsBookWith b p.mint x (restore_one readings at (b, result) x).0) it
          (restore_one-takes readings at b result p (IsBookWith b p.mint (paper_open_row p))
            (subst (λ x. has_key x b.positions ≡ false) (sym here) new) priced
            (λ q fn e o. hold_position-IsBookWith b p.mint (paper_open_row p) q fn e o v)))

  -- The other rows' mints are not in the book with one more position.
  others_apart :
      (b b' : PaperBook R) (k : Text) (row : PaperOpenRow R) (m : List (Text × PaperOpenRow R))
      → IsBookWith b k row b'
      → has_key k m ≡ false
      → ((j : Text) → has_key j ((k, row) ∷ m) ≡ true → has_key j b.positions ≡ false)
      → (j : Text) → has_key j m ≡ true
      → has_key j b'.positions ≡ false
  others_apart b b' k row m one new apart j e = elim (text_eq-cases j k) [
    | inl here ↦ absurd (ground (arith, new, e, ap (λ y. has_key y m) here))
    | inr (off, _) ↦ ground (arith, off, one.held j, e, apart j)
  ]

  -- One row, and then the others.
  IsRestoredFrom-cons :
      (b b1 b2 : PaperBook R) (k : Text) (row : PaperOpenRow R) (m : List (Text × PaperOpenRow R))
      → has_key k m ≡ false
      → IsBookWith b k row b1
      → IsRestoredFrom b1 m b2
      → IsRestoredFrom b ((k, row) ∷ m) b2
  IsRestoredFrom-cons b b1 b2 k row m new one rest = record {
    valid = rest.valid;
    factory = rest.factory ∙ one.factory;
    config = rest.config ∙ one.config;
    rows = λ j. elim (text_eq-cases j k) [
      | inl here ↦
          subst
            (λ x. Option.map paper_open_row (lookup x b2.positions) ≡ (
              if has_key x ((k, row) ∷ m)
              then lookup x ((k, row) ∷ m)
              else Option.map paper_open_row (lookup x b.positions)))
            (sym here) (ground (arith, text_eq_refl k, new, rest.rows k, one.rows k))
      | inr (off, _) ↦ ground (arith, off, rest.rows j, one.rows j)
    ];
  }

  pub restore_from-IsRestoredFrom :
      (readings : List (Text × Reading R)) (at : ℕ) (m : List (Text × PaperOpenRow R))
      (b : PaperBook R) (result : RestoreResult)
      → IsDistinct m
      → ((k : Text) (row : PaperOpenRow R) → lookup k m ≡ some row → IsRestorable b.factory k row)
      → ((k : Text) → has_key k m ≡ true → has_key k b.positions ≡ false)
      → IsValid b
      → IsRestoredFrom b m (restore_from readings at (b, result) (values m)).0
  unfolding restore_from
  restore_from-IsRestoredFrom readings at [] b result d all apart v = record {
    valid = v;
    factory = refl;
    config = refl;
    rows = λ k. refl;
  }
  restore_from-IsRestoredFrom readings at ((k, row) ∷ m) b result d all apart v =
      let one =
        restore_one-IsBookWith readings at b result k row (apart k (ground (arith, text_eq_refl k)))
          (all k row (ground (arith, text_eq_refl k))) v in
      let b1 = (restore_one readings at (b, result) row).0 in
      IsRestoredFrom-cons b b1 _ k row m d.0 one (
        restore_from-IsRestoredFrom readings at m b1 (restore_one readings at (b, result) row).1 d.1
          (subst (λ f. (j : Text) (x : PaperOpenRow R) → lookup j m ≡ some x → IsRestorable f j x)
            (sym one.factory) (tail_row b.factory k row m d all))
          (others_apart b b1 k row m one d.0 apart) one.valid)
