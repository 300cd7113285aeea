-- ===== src/Credit/Balance.antt =====
-- Well-formed ledgers: src/rpc/creditBudget.ts `emptyLedger`, `rollTo` and `loadLedger` keep them.
use opiumo.Base.{Option, ℕ, ◌≤◌, ◌≡◌, Text, take, text_eq→eq, text_eq_refl, take-take, arith}
use opiumo.Platform.{Runtime, Value}
use opiumo.Credit.Ledger.{
  LedgerState, ManualOverride, utc_day_key, utc_month_key, roll_to, empty_ledger, load_ledger,
  stored,
}

-- The day's credits are among the month's, and the day lies in the month.
pub record IsBalanced (s : LedgerState) : Type 0 where
  pub within : s.day.credits ≤ s.month.credits
  pub same_month : take 7 s.day.key ≡ s.month.key
  pub version_one : s.version ≡ 1

module _ (r : Runtime) where
  pub roll_to-IsBalanced : (s : LedgerState) (at : ℕ) → IsBalanced s → IsBalanced (roll_to r s at)
  unfolding roll_to
  roll_to-IsBalanced s at v = ground (
    arith,
    take-take 7 10 (r.iso at) (omega arith),
    text_eq→eq s.day.key (utc_day_key r at),
    text_eq→eq s.month.key (utc_month_key r at),
    text_eq_refl (utc_month_key r at),
  )

  pub empty_ledger-IsBalanced : (at : ℕ) → IsBalanced (empty_ledger r at)
  unfolding empty_ledger
  empty_ledger-IsBalanced at = record {
    within = omega arith;
    same_month = take-take 7 10 (r.iso at) (omega arith);
    version_one = omega arith;
  }

  -- What a version 1 ledger is stored as, a later process reads back.
  pub load_ledger-stored :
      (print : Value → Text) (s : LedgerState) (now : ℕ)
      → s.version ≡ 1
      → load_ledger r print (stored s) now ≡ s
  unfolding load_ledger stored
  load_ledger-stored print s now e = ground arith

  -- Rolling to an instant of the ledger's own day changes nothing.
  pub roll_to_same_day :
      (s : LedgerState) (at : ℕ)
      → IsBalanced s
      → s.day.key ≡ utc_day_key r at
      → ((roll_to r s at).day ≡ s.day) × ((roll_to r s at).month ≡ s.month)
  unfolding roll_to
  roll_to_same_day s at v e = ground (
    arith,
    take-take 7 10 (r.iso at) (omega arith),
    text_eq_refl (utc_day_key r at),
    text_eq_refl (utc_month_key r at),
  )

pub override-IsBalanced :
    (s : LedgerState) (o : Option ManualOverride)
    → IsBalanced s
    → IsBalanced (record s { override = o })
override-IsBalanced s o v = ground (arith, v)
