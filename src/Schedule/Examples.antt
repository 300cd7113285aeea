-- ===== src/Schedule/Examples.antt =====
-- The scheduler's theorems at a window that crosses midnight, and test runs.
use opiumo.Base.{
  [], any, arith, codes, false, ok, refl, some, text_eq, trim, true, ℕ, ◌*◌, ◌+◌, ◌/◌, ◌∷◌, ◌≡◌,
}
use opiumo.Schedule.Parsed.{parse_hh_mm-print, print_hh_mm}
use opiumo.Schedule.Parsing.{
  ScheduleWindow, day_index, days_after, days_of, listed_days, match_hh_mm, match_range,
  minutes_per_day, parse_days, parse_hh_mm, parse_piece, parse_pieces, piece_days, split_commas,
}
use opiumo.Schedule.Search.{Answers, Decides, evaluate_schedule-Decides, next_open_time-first}
use opiumo.Schedule.Weekly.{open_at-weekly, within_window}
use opiumo.Schedule.Windows.{
  ScheduleConfig, ScheduleDecision, duration, evaluate_schedule, is_window_open_at, ms_per_minute,
  next_open_time, open_at, search_span, validate_schedule, validate_window, validate_windows,
  week_start, window_duration_minutes,
}

abbrev night : ScheduleWindow
night = record { days = codes "mon-fri"; start = codes "12:00"; end = codes "02:00" }

abbrev nights : ScheduleConfig
nights = record {
  enabled = true;
  timezone = codes "utc";
  active_windows = night ∷ [];
  outside_window = codes "idle";
}

nights_are_valid : validate_schedule nights ≡ ok tt
unfolding validate_schedule validate_windows validate_window parse_hh_mm match_hh_mm parse_days
    listed_days days_of parse_pieces parse_piece piece_days match_range day_index days_after
    split_commas trim text_eq
nights_are_valid = refl

wrapping_range : parse_days (codes " Fri-mon, wed") ≡ ok (5 ∷ 6 ∷ 0 ∷ 1 ∷ 3 ∷ [])
unfolding parse_days listed_days days_of parse_pieces parse_piece piece_days match_range day_index
    days_after split_commas trim text_eq
wrapping_range = refl

fourteen_hours : window_duration_minutes night ≡ ok 840
unfolding window_duration_minutes parse_hh_mm match_hh_mm trim
fourteen_hours = refl

-- 01:00 on a Saturday is the tail of Friday's window; 01:00 on a Monday is outside.
tail_of_friday : is_window_open_at night (week_start + 6 * 86_400_000 + 3_600_000) ≡ ok true
unfolding is_window_open_at parse_hh_mm match_hh_mm parse_days listed_days days_of parse_pieces
    parse_piece piece_days match_range day_index days_after split_commas trim text_eq
tail_of_friday = refl

before_monday : is_window_open_at night (week_start + 86_400_000 + 3_600_000) ≡ ok false
unfolding is_window_open_at parse_hh_mm match_hh_mm parse_days listed_days days_of parse_pieces
    parse_piece piece_days match_range day_index days_after split_commas trim text_eq
before_monday = refl

open_at-weekly_example :
    open_at (1 ∷ 5 ∷ []) 720 120 6 60
    ≡ any (within_window 720 (duration 720 120) (6 * minutes_per_day + 60)) (1 ∷ 5 ∷ [])
open_at-weekly_example =
    open_at-weekly (1 ∷ 5 ∷ []) 720 120 6 60 (omega arith) (omega arith) (omega arith) (omega arith)
      (omega arith)

parse_hh_mm-print_example : parse_hh_mm (print_hh_mm 754) ≡ ok 754
parse_hh_mm-print_example = parse_hh_mm-print 754 (omega arith)

next_open_time-first_example :
    (t : ℕ) × (next_open_time nights 5 ≡ ok (some t))
    × Answers (night ∷ []) (5 / ms_per_minute * ms_per_minute) search_span (some t)
next_open_time-first_example = next_open_time-first nights 5 nights_are_valid refl

evaluate_schedule-Decides_example :
    (d : ScheduleDecision) × (evaluate_schedule nights 5 ≡ ok d) × Decides nights 5 d
evaluate_schedule-Decides_example = evaluate_schedule-Decides nights 5 nights_are_valid
