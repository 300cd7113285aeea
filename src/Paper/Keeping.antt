-- ===== src/Paper/Keeping.antt =====
-- What holds of a book between calls: one open position for a mint, priced, and only ended ones among
-- the closed.
use opiumo.Base.{
  none, has_key-delete, has_key-set, lookup-set-cases, All, IsDistinct, List, Text, [], ap, arith,
  delete, delete-IsDistinct, false, has_key, inl, inr, lookup, lookup-delete, set, set-IsDistinct,
  some, subst, sym, text_eq, text_eq-cases, text_eq_refl, true, ◌++◌, ◌∷◌, ◌≡◌,
}
use opiumo.Exits.Decisions.{ProceedsFn}
use opiumo.Paper.Book.{hold_position, retire}
use opiumo.Paper.Records.{PaperBook, PaperPosition, is_still_open, still_open}

module _ {R : Type 0} where
  -- An open position under its own mint, which has no exit price.
  abbrev pub IsOpenAt : Text → PaperPosition R → Type 0
  IsOpenAt k p = (p.mint ≡ k) × (p.outcome ≡ still_open) × (p.exit_proceeds_sol ≡ none)

  abbrev pub IsEnded : PaperPosition R → Type 0
  IsEnded p = is_still_open p.outcome ≡ false

  pub record IsKept (positions : List (Text × PaperPosition R))
      (pricing : List (Text × ProceedsFn R)) (closed : List (PaperPosition R)) : Type 0 where
    pub distinct : IsDistinct positions
    pub paired : (k : Text) → has_key k pricing ≡ has_key k positions
    pub open_at : (k : Text) (p : PaperPosition R) → lookup k positions ≡ some p → IsOpenAt k p
    pub ended : All IsEnded closed

  abbrev pub IsValid : PaperBook R → Type 0
  IsValid b = IsKept b.positions b.pricing b.closed

  All-snoc :
      (P : PaperPosition R → Type 0) (ps : List (PaperPosition R)) (p : PaperPosition R)
      → All P ps
      → P p
      → All P (ps ++ (p ∷ []))
  All-snoc P [] p h k = (k, tt)
  All-snoc P (q ∷ ps) p (h, hs) k = (h, All-snoc P ps p hs k)

  -- A lookup after `set`: the new value at the key, the old elsewhere.
  set-open_at :
      (m : List (Text × PaperPosition R)) (k : Text) (q : PaperPosition R)
      → ((j : Text) (p : PaperPosition R) → lookup j m ≡ some p → IsOpenAt j p)
      → IsOpenAt k q
      → (j : Text) (p : PaperPosition R) → lookup j (set k q m) ≡ some p
      → IsOpenAt j p
  set-open_at m k q old new j p e = elim (lookup-set-cases j k q m p e) [
    | inl (same, it) ↦ subst (λ x. IsOpenAt j x) it (subst (λ x. IsOpenAt x q) (sym same) new)
    | inr below ↦ old j p below
  ]

  delete-open_at :
      (m : List (Text × PaperPosition R)) (k : Text)
      → ((j : Text) (p : PaperPosition R) → lookup j m ≡ some p → IsOpenAt j p)
      → (j : Text) (p : PaperPosition R) → lookup j (delete k m) ≡ some p
      → IsOpenAt j p
  delete-open_at m k old j p e = old j p (ground (arith, lookup-delete j k m, e))

  pub hold_position-IsValid :
      (b : PaperBook R) (k : Text) (p : PaperPosition R) (fn : ProceedsFn R)
      → IsOpenAt k p
      → IsValid b
      → IsValid (hold_position b k p fn)
  unfolding hold_position
  hold_position-IsValid b k p fn new v = record {
    distinct = set-IsDistinct k p b.positions v.distinct;
    paired = λ j.
        ground (arith, has_key-set j k p b.positions, has_key-set j k fn b.pricing, v.paired j);
    open_at = set-open_at b.positions k p v.open_at new;
    ended = v.ended;
  }

  -- A position that is replaced by itself, one observation later.
  pub replace-IsKept :
      (b : PaperBook R) (k : Text) (p : PaperPosition R)
      → has_key k b.positions ≡ true
      → IsOpenAt k p
      → IsValid b
      → IsKept (set k p b.positions) b.pricing b.closed
  replace-IsKept b k p held new v = record {
    distinct = set-IsDistinct k p b.positions v.distinct;
    paired = λ j. elim (text_eq-cases j k) [
      | inl same ↦ ground (
        arith,
        has_key-set j k p b.positions,
        v.paired j,
        held,
        text_eq_refl k,
        ap (λ x. text_eq x k) same,
        ap (λ x. has_key x b.positions) same,
      )
      | inr (apart, _) ↦ ground (arith, has_key-set j k p b.positions, v.paired j, apart)
    ];
    open_at = set-open_at b.positions k p v.open_at new;
    ended = v.ended;
  }

  pub retire-IsValid :
      (b : PaperBook R) (k : Text) (p : PaperPosition R)
      → IsEnded p
      → IsValid b
      → IsValid (retire b k p)
  unfolding retire
  retire-IsValid b k p over v = record {
    distinct = delete-IsDistinct k b.positions v.distinct;
    paired = λ j.
        ground (arith, has_key-delete j k b.positions, has_key-delete j k b.pricing, v.paired j);
    open_at = delete-open_at b.positions k v.open_at;
    ended = All-snoc IsEnded b.closed p v.ended over;
  }
