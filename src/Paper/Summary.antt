-- ===== src/Paper/Summary.antt =====
-- src/trading/paperExecution.ts: `summarise`.
use opiumo.Base.{
  Bool, List, Option, [], false, if◌then◌else◌, keep_if, length, none, some, true, ℕ, ◌+◌, ◌∷◌,
}
use opiumo.Number.{Number, nought}
use opiumo.Paper.Book.{open_count}
use opiumo.Paper.Records.{
  LiveVerdict, PaperBook, PaperOutcome, PaperPosition, RefusalReason, cap_reached, closed_out,
  could_not_exit, given_up, live_pass, live_rejected,
}

pub record VerdictTotal (R : Type 0) : Type 0 where
  pub closed : ℕ
  pub realised_pnl_sol : R

pub record PaperSummary (R : Type 0) : Type 0 where
  pub opened : ℕ
  pub open_now : ℕ
  pub closed : ℕ
  pub exit_failed : ℕ
  pub abandoned : ℕ
  pub refused : ℕ
  pub refused_by_cap : ℕ
  pub realised_pnl_sol : R
  pub of_pass : VerdictTotal R
  pub of_rejected : VerdictTotal R

abbrev pub is_closed_out : PaperOutcome → Bool
is_closed_out closed_out = true
is_closed_out _ = false

abbrev pub is_could_not_exit : PaperOutcome → Bool
is_could_not_exit could_not_exit = true
is_could_not_exit _ = false

abbrev pub is_given_up : PaperOutcome → Bool
is_given_up given_up = true
is_given_up _ = false

abbrev pub is_cap : RefusalReason → Bool
is_cap (cap_reached k) = true
is_cap _ = false

module _ {R : Type 0} where
  abbrev pub count_closed : (PaperOutcome → Bool) → List (PaperPosition R) → ℕ
  count_closed test ps = length (keep_if (λ p. test p.outcome) ps)

-- What the loop has summed: of all closes, of passes and of rejects.
pub record Totals (R : Type 0) : Type 0 where
  pub realised : R
  pub of_pass : VerdictTotal R
  pub of_rejected : VerdictTotal R

module _ {R : Type 0} ⦃n : Number R⦄ where
  open n use {add, sub}

  abbrev pub count_close : VerdictTotal R → R → VerdictTotal R
  count_close t pnl = record t {
    closed = t.closed + 1;
    realised_pnl_sol = add t.realised_pnl_sol pnl;
  }

  abbrev pub add_verdict : Totals R → LiveVerdict → R → Totals R
  add_verdict t live_pass pnl = record t {
    realised = add t.realised pnl;
    of_pass = count_close t.of_pass pnl;
  }
  add_verdict t live_rejected pnl = record t {
    realised = add t.realised pnl;
    of_rejected = count_close t.of_rejected pnl;
  }

  abbrev pub add_realised : Totals R → PaperPosition R → Option R → Totals R
  add_realised t p none = t
  add_realised t p (some price) =
      if is_closed_out p.outcome
      then add_verdict t p.live_verdict (sub price p.entry_proceeds_sol)
      else t

  unfoldable pub sum_closes : Totals R → List (PaperPosition R) → Totals R
  sum_closes t [] = t
  sum_closes t (p ∷ ps) = sum_closes (add_realised t p p.exit_proceeds_sol) ps

  abbrev pub no_total : VerdictTotal R
  no_total = record { closed = 0; realised_pnl_sol = nought }

  abbrev pub no_totals : Totals R
  no_totals = record { realised = nought; of_pass = no_total; of_rejected = no_total }

  unfoldable pub summarise : PaperBook R → PaperSummary R
  unfolding sum_closes
  summarise b =
      let t = sum_closes no_totals b.closed in
      record {
        opened = length b.closed + open_count b;
        open_now = open_count b;
        closed = count_closed is_closed_out b.closed;
        exit_failed = count_closed is_could_not_exit b.closed;
        abandoned = count_closed is_given_up b.closed;
        refused = length b.refusals;
        refused_by_cap = length (keep_if (λ r. is_cap r.reason) b.refusals);
        realised_pnl_sol = t.realised;
        of_pass = t.of_pass;
        of_rejected = t.of_rejected;
      }
