-- ===== src/Schedule/Parsing.antt =====
-- src/schedule/scheduler.ts, "parsing". A text that the code refuses is an error.
use opiumo.Base.{
  false, true, ◌>>=◌, Bool, List, Option, Result, Text, [], codes, err, if◌then◌else◌, leb, ltb,
  map, none, ok, some, suc, text_eq, trim, zero, ℕ, ◌%◌, ◌&&◌, ◌*◌, ◌++◌, ◌+◌, ◌-◌, ◌==◌, ◌||◌, ◌∷◌,
}

pub record ScheduleWindow : Type 0 where
  pub days : Text
  pub start : Text
  pub end : Text

pub data ScheduleError : Type 0 where
  not_hh_mm hour_out_of_range minute_out_of_range : ScheduleError
  unknown_day no_days : ScheduleError
  not_utc not_idle ambiguous_window no_windows : ScheduleError

abbrev pub minutes_per_day : ℕ
minutes_per_day = 1440

abbrev is_digit : ℕ → Bool
is_digit c = leb b'0' c && leb c b'9'

abbrev digit_value : ℕ → ℕ
digit_value c = c - b'0'

abbrev pub two_digits : ℕ → ℕ → ℕ
two_digits a b = digit_value a * 10 + digit_value b

abbrev pub in_range : ℕ → ℕ → Result ScheduleError ℕ
in_range hours minutes =
    if ltb 23 hours
    then err hour_out_of_range
    else (if ltb 59 minutes then err minute_out_of_range else ok (hours * 60 + minutes))

-- `/^(\d{2}):(\d{2})$/` and what follows a match.
unfoldable pub match_hh_mm : Text → Result ScheduleError ℕ
match_hh_mm (a ∷ b ∷ colon ∷ c ∷ d ∷ []) =
    if is_digit a && is_digit b && colon == b':' && is_digit c && is_digit d
    then in_range (two_digits a b) (two_digits c d)
    else err not_hh_mm
match_hh_mm _ = err not_hh_mm

unfoldable pub parse_hh_mm : Text → Result ScheduleError ℕ
unfolding match_hh_mm
parse_hh_mm value = match_hh_mm (trim value)

abbrev pub day_names : List Text
day_names =
    codes "sun"
    ∷ codes "mon"
    ∷ codes "tue"
    ∷ codes "wed"
    ∷ codes "thu"
    ∷ codes "fri"
    ∷ codes "sat"
    ∷ []

-- `DAY_NAMES.indexOf`, with the index of the head of the list.
unfoldable pub index_from : ℕ → List Text → Text → Result ScheduleError ℕ
index_from i [] name = err unknown_day
index_from i (d ∷ ds) name = if text_eq d name then ok i else index_from (i + 1) ds name

unfoldable pub day_index : Text → Result ScheduleError ℕ
unfolding index_from text_eq
day_index name = index_from 0 day_names name

-- The loop `while (i !== to)`: the days after `i` up to `to`, around the week.
unfoldable pub days_after : ℕ → ℕ → ℕ → List ℕ
days_after zero i to = []
days_after (suc fuel) i to =
    let rest = days_after fuel ((i + 1) % 7) to in if i == to then [] else ((i + 1) % 7) ∷ rest

-- `toLowerCase` on ASCII; no other letter lowers to one that a day name has.
abbrev pub lower : ℕ → ℕ
lower c = if leb b'A' c && leb c b'Z' then c + 32 else c

abbrev is_letter : ℕ → Bool
is_letter c = leb b'a' c && leb c b'z'

-- `/^([a-z]{3})-([a-z]{3})$/`: the two names of a range.
unfoldable pub match_range : Text → Option (Text × Text)
match_range (a ∷ b ∷ c ∷ dash ∷ x ∷ y ∷ z ∷ []) =
    if is_letter a
      && is_letter b
      && is_letter c
      && dash == b'-'
      && is_letter x
      && is_letter y
      && is_letter z
    then some (a ∷ b ∷ c ∷ [], x ∷ y ∷ z ∷ [])
    else none
match_range _ = none

-- One name, or the days of a range.
unfoldable pub piece_days : Option (Text × Text) → Text → Result ScheduleError (List ℕ)
piece_days none piece = do i ← day_index piece; ok (i ∷ [])
piece_days (some (from, to)) piece = do
  i ← day_index from
  j ← day_index to
  ok (i ∷ days_after 7 i j)

-- One piece between commas, already trimmed.
unfoldable pub parse_piece : Text → Result ScheduleError (List ℕ)
parse_piece [] = ok []
parse_piece (c ∷ cs) = piece_days (match_range (c ∷ cs)) (c ∷ cs)

-- `text.split(",")`, the first piece and the others.
unfoldable pub split_commas : Text → Text × List Text
split_commas [] = ([], [])
split_commas (c ∷ cs) =
    let rest = split_commas cs in if c == b',' then ([], rest.0 ∷ rest.1) else (c ∷ rest.0, rest.1)

unfoldable pub parse_pieces : List Text → Result ScheduleError (List ℕ)
parse_pieces [] = ok []
parse_pieces (p ∷ ps) = do ds ← parse_piece (trim p); es ← parse_pieces ps; ok (ds ++ es)

abbrev pub some_days : List ℕ → Result ScheduleError (List ℕ)
some_days [] = err no_days
some_days (d ∷ ds) = ok (d ∷ ds)

abbrev pub is_every_day : Text → Bool
is_every_day spec =
    text_eq spec (codes "all") || text_eq spec (codes "daily") || text_eq spec (codes "*")

abbrev pub every_day : List ℕ
every_day = 0 ∷ 1 ∷ 2 ∷ 3 ∷ 4 ∷ 5 ∷ 6 ∷ []

unfoldable pub listed_days : Text × List Text → Result ScheduleError (List ℕ)
listed_days pieces = do ds ← parse_pieces (pieces.0 ∷ pieces.1); some_days ds

-- What follows the test for every day.
unfoldable pub days_of : Bool → Text × List Text → Result ScheduleError (List ℕ)
days_of true pieces = ok every_day
days_of false pieces = listed_days pieces

-- The set of days as the list of its insertions.
unfoldable pub parse_days : Text → Result ScheduleError (List ℕ)
parse_days spec =
    let lowered = map lower (trim spec) in days_of (is_every_day lowered) (split_commas lowered)
