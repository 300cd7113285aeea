-- ===== src/Platform.antt =====
-- What the program takes from its JavaScript runtime: dates, and values read from JSON.
-- An instant is its number of milliseconds since 1970-01-01T00:00:00Z, as `Date` keeps it.
use opiumo.Base.{ℕ, ◌+◌, ◌*◌, ◌/◌, Text}

-- The runtime's own functions: parameters of the model.
pub record Runtime : Type 0 where
  -- `Date.prototype.toISOString`
  pub iso : ℕ → Text
  -- `Date.UTC(y, m + 1, 1)` for an instant in month `m` of year `y`
  pub next_month_start : ℕ → ℕ

abbrev pub ms_per_day : ℕ
ms_per_day = 86_400_000

-- `Date.UTC(y, m, d + 1)` for an instant on that day.
abbrev pub next_day_start : ℕ → ℕ
next_day_start at = (at / ms_per_day + 1) * ms_per_day

-- A value of unknown type, as `JSON.parse` returns it: `number` is a whole number that is not
-- negative, `infinite` is what an over-long literal parses to, `other` is anything else.
pub data Value : Type 0 where
  nullish : Value
  text : Text → Value
  number : ℕ → Value
  infinite : Value
  other : Value
