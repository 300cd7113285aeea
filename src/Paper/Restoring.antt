-- ===== src/Paper/Restoring.antt =====
-- src/trading/paperExecution.ts: `paperOpenRow`, `openRowsFromLog` and `restore`. Numbers
-- are finite here: JSON writes NaN and the infinities as null, and `restore` then skips the row.
use opiumo.Base.{
  Bool, List, Option, Result, Text, [], delete, err, has_key, if◌then◌else◌, is_some, leb, length,
  lookup, none, not, ok, set, some, text_eq, values, ℕ, ◌&&◌, ◌++◌, ◌+◌, ◌==◌, ◌∷◌,
}
use opiumo.Exits.Decisions.{ProceedsFn}
use opiumo.Number.{Number, nought}
use opiumo.Paper.Book.{exit_rule_for, hold_position, raised_state_for, trail_state}
use opiumo.Paper.Records.{
  ExitRuleName, LiveVerdict, PaperBook, PaperConfig, PaperPosition, Priced, RestoreNote, Restored,
  counters_restart, model_changed, rule_derived, seeded_from, still_open,
}

-- A row of the log that opened a position. `none` is a field that is absent or of another type;
-- `opened_at` is none where it does not parse.
pub record PaperOpenRow (R : Type 0) : Type 0 where
  pub mint : Text
  pub opened_at : Option ℕ
  pub live_verdict : Option LiveVerdict
  pub venue : Option Text
  pub pricing_model : Option Text
  pub exit_rule : Option ExitRuleName
  pub entry_liquidity_sol : Option R
  pub entry_proceeds_sol : Option R
  pub pool_fraction : Option R

-- A row of the log: an open, a close of a mint, or anything else. A row whose mint is no text is
-- one of the last.
pub data LogRow (R : Type 0) : Type 0 where
  paper_open : PaperOpenRow R → LogRow R
  paper_close : Text → LogRow R
  unrelated : LogRow R

pub data SkipReason : Type 0 where
  already_in_book opened_at_unreadable entry_not_positive verdict_missing : SkipReason

pub record RestoreResult : Type 0 where
  pub restored : ℕ
  pub skipped : List (Text × SkipReason)
  pub exit_rule_inferred : ℕ
  pub last_observation_seeded : ℕ

pub record Reading (R : Type 0) : Type 0 where
  pub ts : ℕ
  pub liquidity_sol : R

abbrev pub model_notes : Option Text → Text → List RestoreNote
model_notes none model = []
model_notes (some m) model =
    if not (length m == 0) && not (text_eq m model) then model_changed m model ∷ [] else []

abbrev pub inferred_notes : Bool → ExitRuleName → List RestoreNote
inferred_notes inferred rule = if inferred then rule_derived rule ∷ [] else []

abbrev pub skip : RestoreResult → Text → SkipReason → RestoreResult
skip result mint why = record result { skipped = result.skipped ++ ((mint, why) ∷ []) }

module _ {R : Type 0} where
  -- The row that the pipeline writes for a position that it opened, whose numbers are finite.
  unfoldable pub paper_open_row : PaperPosition R → PaperOpenRow R
  paper_open_row p = record {
    mint = p.mint;
    opened_at = some p.opened_at;
    live_verdict = some p.live_verdict;
    venue = p.venue;
    pricing_model = some p.pricing_model;
    exit_rule = some p.exit_rule;
    entry_liquidity_sol = some p.entry_liquidity_sol;
    entry_proceeds_sol = some p.entry_proceeds_sol;
    pool_fraction = some p.pool_fraction;
  }

  abbrev pub read_row : List (Text × PaperOpenRow R) → LogRow R → List (Text × PaperOpenRow R)
  read_row open_rows (paper_open row) = set row.mint row open_rows
  read_row open_rows (paper_close mint) = delete mint open_rows
  read_row open_rows unrelated = open_rows

  -- The loop of `openRowsFromLog`, with the map that it fills.
  unfoldable pub open_rows_from :
      List (Text × PaperOpenRow R) → List (LogRow R) → List (Text × PaperOpenRow R)
  open_rows_from open_rows [] = open_rows
  open_rows_from open_rows (row ∷ rows) = open_rows_from (read_row open_rows row) rows

  unfoldable pub open_rows_from_log : List (LogRow R) → List (PaperOpenRow R)
  unfolding open_rows_from
  open_rows_from_log rows = values (open_rows_from [] rows)

abbrev pub add_note : Option Restored → RestoreNote → Option Restored
add_note none note = none
add_note (some x) note = some (record x { notes = x.notes ++ (note ∷ []) })

abbrev pub no_restores : RestoreResult
no_restores = record {
  restored = 0;
  skipped = [];
  exit_rule_inferred = 0;
  last_observation_seeded = 0;
}

-- The fields of a row that passed the checks.
pub record CheckedRow (R : Type 0) : Type 0 where
  pub mint : Text
  pub opened_at : ℕ
  pub live_verdict : LiveVerdict
  pub venue : Option Text
  pub pricing_model : Option Text
  pub exit_rule : Option ExitRuleName
  pub entry_liquidity_sol : R
  pub entry_proceeds_sol : R
  pub pool_fraction : R

module _ {R : Type 0} ⦃n : Number R⦄ where
  open n use {lt, max}

  abbrev pub positive : Option R → Option R
  positive none = none
  positive (some x) = if lt nought x then some x else none

  abbrev pub checked_verdict :
      PaperOpenRow R → ℕ → R → R → R → Option LiveVerdict → Result SkipReason (CheckedRow R)
  checked_verdict row at proceeds liquidity fraction none = err verdict_missing
  checked_verdict row at proceeds liquidity fraction (some verdict) = ok (record {
    mint = row.mint;
    opened_at = at;
    live_verdict = verdict;
    venue = row.venue;
    pricing_model = row.pricing_model;
    exit_rule = row.exit_rule;
    entry_liquidity_sol = liquidity;
    entry_proceeds_sol = proceeds;
    pool_fraction = fraction;
  })

  abbrev pub checked_values :
      PaperOpenRow R → ℕ → Option R → Option R → Option R → Result SkipReason (CheckedRow R)
  checked_values row at (some proceeds) (some liquidity) (some fraction) =
      checked_verdict row at proceeds liquidity fraction row.live_verdict
  checked_values row at (some proceeds) (some liquidity) none = err entry_not_positive
  checked_values row at (some proceeds) none fraction = err entry_not_positive
  checked_values row at none liquidity fraction = err entry_not_positive

  abbrev pub checked_time : PaperOpenRow R → Option ℕ → Result SkipReason (CheckedRow R)
  checked_time row none = err opened_at_unreadable
  checked_time row (some at) =
      checked_values row at (positive row.entry_proceeds_sol) (positive row.entry_liquidity_sol)
        (positive row.pool_fraction)

  -- The checks at the head of the loop.
  unfoldable pub check_row : PaperBook R → PaperOpenRow R → Result SkipReason (CheckedRow R)
  check_row b row =
      if has_key row.mint b.positions then err already_in_book else checked_time row row.opened_at

  abbrev pub usable_seed : ℕ → Option (Reading R) → Option (Reading R)
  usable_seed opened_at none = none
  usable_seed opened_at (some s) = if leb opened_at s.ts then some s else none

  abbrev pub seeded : PaperPosition R → ProceedsFn R → Option (Reading R) → PaperPosition R
  seeded p fn none = p
  seeded p fn (some s) =
      let v = fn s.liquidity_sol p.pool_fraction in
      record p {
        last_observed_at = some s.ts;
        last_proceeds_sol = v;
        peak_proceeds_sol = elim v [
          | none ↦ p.peak_proceeds_sol
          | some x ↦ max p.peak_proceeds_sol x
        ];
        restored = add_note p.restored (seeded_from s.ts);
      }

  abbrev pub row_rule : PaperConfig R → CheckedRow R → ExitRuleName
  row_rule c row = elim row.exit_rule [ none ↦ exit_rule_for c row.venue | some rule ↦ rule ]

  abbrev pub restored_position : PaperBook R → CheckedRow R → Priced R → ℕ → PaperPosition R
  restored_position b row priced at =
      let rule = row_rule b.config row in
      record {
        mint = row.mint;
        opened_at = row.opened_at;
        live_verdict = row.live_verdict;
        venue = row.venue;
        pricing_model = priced.model;
        exit_rule = rule;
        entry_liquidity_sol = row.entry_liquidity_sol;
        entry_proceeds_sol = row.entry_proceeds_sol;
        pool_fraction = row.pool_fraction;
        outcome = still_open;
        observations = 0;
        closed_at = none;
        exit_proceeds_sol = none;
        exit_reason = none;
        peak_proceeds_sol = row.entry_proceeds_sol;
        last_proceeds_sol = some row.entry_proceeds_sol;
        last_observed_at = none;
        forced_exit = none;
        state = trail_state row.mint row.opened_at row.pool_fraction row.entry_proceeds_sol;
        raised_state =
            raised_state_for rule row.entry_liquidity_sol row.entry_proceeds_sol row.opened_at;
        restored = some (record {
          at = at;
          notes =
              counters_restart ∷ inferred_notes (not (is_some row.exit_rule)) rule
              ++ model_notes row.pricing_model priced.model;
        });
      }

  abbrev pub restore_checked :
      PaperBook R
      → RestoreResult
      → ℕ
      → Option (Reading R)
      → Text
      → Result SkipReason (CheckedRow R)
      → PaperBook R × RestoreResult
  restore_checked b result at seed mint (err why) = (b, skip result mint why)
  restore_checked b result at seed mint (ok row) =
      let priced = b.factory row.venue row.entry_liquidity_sol row.pool_fraction in
      let usable = usable_seed row.opened_at seed in
      (
        hold_position b row.mint (seeded (restored_position b row priced at) priced.fn usable)
            priced.fn,
        record result {
          restored = result.restored + 1;
          exit_rule_inferred =
              if is_some row.exit_rule
              then result.exit_rule_inferred
              else result.exit_rule_inferred + 1;
          last_observation_seeded =
              if is_some usable
              then result.last_observation_seeded + 1
              else result.last_observation_seeded;
        },
      )

  unfoldable pub restore_one :
      List (Text × Reading R)
      → ℕ
      → PaperBook R × RestoreResult
      → PaperOpenRow R
      → PaperBook R × RestoreResult
  unfolding check_row hold_position exit_rule_for
  restore_one readings at (b, result) row =
      restore_checked b result at (lookup row.mint readings) row.mint (check_row b row)

  unfoldable pub restore_from :
      List (Text × Reading R)
      → ℕ
      → PaperBook R × RestoreResult
      → List (PaperOpenRow R)
      → PaperBook R × RestoreResult
  unfolding restore_one
  restore_from readings at acc [] = acc
  restore_from readings at acc (row ∷ rows) =
      restore_from readings at (restore_one readings at acc row) rows

  unfoldable pub restore :
      PaperBook R
      → List (PaperOpenRow R)
      → ℕ
      → List (Text × Reading R)
      → PaperBook R × RestoreResult
  unfolding restore_from
  restore b rows at readings = restore_from readings at (b, no_restores) rows
