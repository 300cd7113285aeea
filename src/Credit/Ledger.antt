-- ===== src/Credit/Ledger.antt =====
-- src/rpc/creditBudget.ts, "the ledger": periods keyed by UTC day and month, and their rollover.
use opiumo.Base.{ℕ, Bool, false, Option, none, some, [], Text, text_eq, take, ◌==◌, if◌then◌else◌}
use opiumo.Platform.{Runtime, Value, nullish, text, number}

pub record LedgerPeriod : Type 0 where
  pub key : Text
  pub credits : ℕ

pub record ManualOverride : Type 0 where
  pub day : Text
  pub reason : Text
  pub granted_at : Text

pub record LedgerState : Type 0 where
  pub version : ℕ
  pub day : LedgerPeriod
  pub month : LedgerPeriod
  pub override : Option ManualOverride

-- A parsed ledger file: each field that `loadLedger` tests or reads, of unknown type.
pub record RawOverride : Type 0 where
  pub day : Value
  pub reason : Value
  pub granted_at : Value

pub record RawLedger : Type 0 where
  pub version : Value
  pub day_key : Value
  pub day_credits : Value
  pub month_key : Value
  pub month_credits : Value
  pub override : Option RawOverride

-- What the file system holds at the ledger's path.
pub data LedgerFile : Type 0 where
  missing : LedgerFile
  -- `readFileSync` or `JSON.parse` throws, or the JSON is no object
  unreadable : LedgerFile
  parsed : RawLedger → LedgerFile

-- An override for another day is dropped.
unfoldable pub keep_override : Text → Option ManualOverride → Option ManualOverride
keep_override today none = none
keep_override today (some o) = if text_eq o.day today then some o else none

unfoldable pub roll_period : LedgerPeriod → Text → LedgerPeriod
roll_period p k = if text_eq p.key k then p else record { key = k; credits = 0 }

-- `String(v ?? "")`; the text of a value that is neither text nor missing is the runtime's.
unfoldable pub granted_text : (Value → Text) → Value → Text
granted_text print nullish = []
granted_text print (text t) = t
granted_text print v = print v

unfoldable pub load_override : (Value → Text) → Option RawOverride → Option ManualOverride
unfolding granted_text
load_override print none = none
load_override print (some o) = elim o.day [
  | text d ↦ elim o.reason [
    | text why ↦
        some (record { day = d; reason = why; granted_at = granted_text print o.granted_at })
    | _ ↦ none
  ]
  | _ ↦ none
]

abbrev period_of : Value → Value → Option LedgerPeriod
period_of (text k) (number c) = some (record { key = k; credits = c })
period_of _ _ = none

abbrev is_one : Value → Bool
is_one (number n) = n == 1
is_one _ = false

-- What `JSON.parse` gives back of `JSON.stringify(state)`.
unfoldable pub stored : LedgerState → LedgerFile
stored s = parsed (record {
  version = number s.version;
  day_key = text s.day.key;
  day_credits = number s.day.credits;
  month_key = text s.month.key;
  month_credits = number s.month.credits;
  override = elim s.override [
    | none ↦ none
    | some o ↦
        some (record { day = text o.day; reason = text o.reason; granted_at = text o.granted_at })
  ];
})

module _ (r : Runtime) where
  abbrev pub utc_day_key : ℕ → Text
  utc_day_key at = take 10 (r.iso at)

  abbrev pub utc_month_key : ℕ → Text
  utc_month_key at = take 7 (r.iso at)

  unfoldable pub empty_ledger : ℕ → LedgerState
  empty_ledger at = record {
    version = 1;
    day = record { key = utc_day_key at; credits = 0 };
    month = record { key = utc_month_key at; credits = 0 };
    override = none;
  }

  unfoldable pub roll_to : LedgerState → ℕ → LedgerState
  unfolding keep_override roll_period
  roll_to s at = record {
    version = 1;
    day = roll_period s.day (utc_day_key at);
    month = roll_period s.month (utc_month_key at);
    override = keep_override (utc_day_key at) s.override;
  }

  unfoldable pub load_ledger : (Value → Text) → LedgerFile → ℕ → LedgerState
  unfolding load_override empty_ledger
  load_ledger print missing now = empty_ledger now
  load_ledger print unreadable now = empty_ledger now
  load_ledger print (parsed raw) now =
      if is_one raw.version
      then (elim (period_of raw.day_key raw.day_credits) [
        | none ↦ empty_ledger now
        | some d ↦ elim (period_of raw.month_key raw.month_credits) [
          | none ↦ empty_ledger now
          | some m ↦ record {
            version = 1;
            day = d;
            month = m;
            override = load_override print raw.override;
          }
        ]
      ])
      else empty_ledger now
