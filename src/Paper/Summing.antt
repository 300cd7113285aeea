-- ===== src/Paper/Summing.antt =====
-- The counts of `summarise` (src/trading/paperExecution.ts).
use opiumo.Base.{All, [], ap, arith, length, refl, ◌+◌, ◌∷◌, ◌≡◌, List}
use opiumo.Number.{Number}
use opiumo.Paper.Keeping.{IsEnded, IsValid}
use opiumo.Paper.Records.{
  PaperBook, PaperOutcome, PaperPosition, closed_out, could_not_exit, given_up, is_still_open,
  still_open,
}
use opiumo.Paper.Summary.{count_closed, is_closed_out, is_could_not_exit, is_given_up, summarise}

module _ {R : Type 0} where
  abbrev IsAddedUp : List (PaperPosition R) → Type 0
  IsAddedUp ps =
      length ps
      ≡ count_closed is_closed_out ps
        + count_closed is_could_not_exit ps
        + count_closed is_given_up ps

  closes_add_up-∷ :
      (p : PaperPosition R) (ps : List (PaperPosition R)) (o : PaperOutcome)
      → p.outcome ≡ o
      → IsEnded p
      → IsAddedUp ps
      → IsAddedUp (p ∷ ps)
  closes_add_up-∷ p ps still_open e over h = absurd (ground (arith, over, ap is_still_open e))
  closes_add_up-∷ p ps closed_out e over h =
      ground (arith, ap is_closed_out e, ap is_could_not_exit e, ap is_given_up e, h)
  closes_add_up-∷ p ps could_not_exit e over h =
      ground (arith, ap is_closed_out e, ap is_could_not_exit e, ap is_given_up e, h)
  closes_add_up-∷ p ps given_up e over h =
      ground (arith, ap is_closed_out e, ap is_could_not_exit e, ap is_given_up e, h)

  pub closes_add_up : (ps : List (PaperPosition R)) → All IsEnded ps → IsAddedUp ps
  closes_add_up [] h = refl
  closes_add_up (p ∷ ps) (over, h) = closes_add_up-∷ p ps p.outcome refl over (closes_add_up ps h)

module _ {R : Type 0} ⦃n : Number R⦄ where
  -- Of a valid book the summary counts every position once: those opened are the open ones, the
  -- closed, those that could not exit and the abandoned.
  pub summarise_adds_up :
      (b : PaperBook R)
      → IsValid b
      → let s = summarise b in s.opened ≡ s.open_now + s.closed + s.exit_failed + s.abandoned
  unfolding summarise
  summarise_adds_up b v = omega (arith, closes_add_up b.closed v.ended)
