-- ===== src/Schedule/Windows.antt =====
-- src/schedule/scheduler.ts, durations, validation and evaluation. An exception is an error; the
-- prose of `detail` is left out, and `nextOpenUtc` is the instant that it prints.
use opiumo.Base.{
  Bool, List, Option, Result, Text, [], any, codes, err, false, if◌then◌else◌, is_some, leb, ltb,
  map, none, not, ok, some, suc, text_eq, true, zero, ℕ, ◌%◌, ◌&&◌, ◌*◌, ◌+◌, ◌-◌, ◌/◌, ◌==◌, ◌>>=◌,
  ◌||◌, ◌∷◌,
}
use opiumo.Credit.Breaker.{start}
use opiumo.Number.{Number}
use opiumo.Schedule.Parsing.{
  ScheduleError, ScheduleWindow, ambiguous_window, minutes_per_day, no_windows, not_idle, not_utc,
  parse_days, parse_hh_mm,
}

pub record ScheduleConfig : Type 0 where
  pub enabled : Bool
  pub timezone : Text
  pub active_windows : List ScheduleWindow
  pub outside_window : Text

pub data ScheduleReason : Type 0 where
  scheduler_disabled inside_window outside_window no_windows_configured : ScheduleReason

pub record ScheduleDecision : Type 0 where
  pub active : Bool
  pub reason : ScheduleReason
  pub window : Option ScheduleWindow
  pub next_open : Option ℕ

-- From the start to the end, past midnight if the end is not later.
unfoldable pub duration : ℕ → ℕ → ℕ
duration start end = if ltb start end then end - start else minutes_per_day - start + end

unfoldable pub window_duration_minutes : ScheduleWindow → Result ScheduleError ℕ
unfolding duration
window_duration_minutes w = do
  start ← parse_hh_mm w.start
  end ← parse_hh_mm w.end
  ok (duration start end)

abbrev upper : ℕ → ℕ
upper c = if leb b'a' c && leb c b'z' then c - 32 else c

abbrev distinct : ℕ → ℕ → Result ScheduleError (Unit {0})
distinct start end = if start == end then err ambiguous_window else ok tt

unfoldable pub validate_window : ScheduleWindow → Result ScheduleError (Unit {0})
validate_window w = do
  start ← parse_hh_mm w.start
  end ← parse_hh_mm w.end
  days ← parse_days w.days
  distinct start end

unfoldable pub validate_windows : List ScheduleWindow → Result ScheduleError (Unit {0})
validate_windows [] = ok tt
validate_windows (w ∷ ws) = do checked ← validate_window w; validate_windows ws

abbrev pub is_nil {ℓ} : {A : Type ℓ} → List A → Bool
is_nil [] = true
is_nil (x ∷ xs) = false

-- A check that throws where it fails.
abbrev pub require : Bool → ScheduleError → Result ScheduleError (Unit {0})
require b e = if b then ok tt else err e

abbrev pub is_utc : Text → Bool
is_utc timezone = text_eq (map upper timezone) (codes "UTC")

abbrev pub is_idle : Text → Bool
is_idle outside = text_eq outside (codes "idle")

unfoldable pub validate_schedule : ScheduleConfig → Result ScheduleError (Unit {0})
validate_schedule s = do
  in_utc ← require (is_utc s.timezone) not_utc
  idles ← require (is_idle s.outside_window) not_idle
  checked ← validate_windows s.active_windows
  require (not (s.enabled && is_nil s.active_windows)) no_windows

abbrev pub ms_per_minute : ℕ
ms_per_minute = 60_000

-- `getUTCDay`: the first day of 1970 was a Thursday.
abbrev pub utc_weekday : ℕ → ℕ
utc_weekday at = (at / 86_400_000 + 4) % 7

-- `getUTCHours() * 60 + getUTCMinutes()`
abbrev pub utc_minutes : ℕ → ℕ
utc_minutes at = at / 3_600_000 % 24 * 60 + at / 60_000 % 60

abbrev pub has : List ℕ → ℕ → Bool
has days d = any (λ x. x == d) days

-- The tests of `isWindowOpenAt` on a window that has been parsed.
unfoldable pub open_at : List ℕ → ℕ → ℕ → ℕ → ℕ → Bool
open_at days start end day minutes =
    if ltb start end
    then has days day && leb start minutes && ltb minutes end
    else has days day && leb start minutes || has days ((day + 6) % 7) && ltb minutes end

unfoldable pub is_window_open_at : ScheduleWindow → ℕ → Result ScheduleError Bool
unfolding open_at
is_window_open_at w at = do
  days ← parse_days w.days
  start ← parse_hh_mm w.start
  end ← parse_hh_mm w.end
  ok (open_at days start end (utc_weekday at) (utc_minutes at))

-- The first window that is open: the loop of `evaluateSchedule`, and `some` in the searches.
unfoldable pub first_open : List ScheduleWindow → ℕ → Result ScheduleError (Option ScheduleWindow)
first_open [] at = ok none
first_open (w ∷ ws) at =
    let rest = first_open ws at in
    do is_open ← is_window_open_at w at; if is_open then ok (some w) else rest

-- The loop of `nextOpenTime`: `left` more minutes after `cursor`.
unfoldable pub search_open : List ScheduleWindow → ℕ → ℕ → Result ScheduleError (Option ℕ)
search_open windows zero cursor = ok none
search_open windows (suc left) cursor = elim (first_open windows (cursor + ms_per_minute)) [
  | err e ↦ err e
  | ok (some w) ↦ ok (some (cursor + ms_per_minute))
  | ok none ↦ search_open windows left (cursor + ms_per_minute)
]

abbrev pub search_span : ℕ
search_span = minutes_per_day * 8

unfoldable pub next_open_time : ScheduleConfig → ℕ → Result ScheduleError (Option ℕ)
next_open_time s at = search_open s.active_windows search_span (at / ms_per_minute * ms_per_minute)

abbrev pub decided : Bool → ScheduleReason → Option ScheduleWindow → Option ℕ → ScheduleDecision
decided active reason window next = record {
  active = active;
  reason = reason;
  window = window;
  next_open = next;
}

abbrev pub closed_or_inside :
    ScheduleConfig → ℕ → Option ScheduleWindow → Result ScheduleError ScheduleDecision
closed_or_inside s at (some w) = ok (decided true inside_window (some w) none)
closed_or_inside s at none = do
  next ← next_open_time s at
  ok (decided false outside_window none next)

unfoldable pub evaluate_schedule : ScheduleConfig → ℕ → Result ScheduleError ScheduleDecision
evaluate_schedule s at =
    if not s.enabled
    then ok (decided true scheduler_disabled none none)
    else (if is_nil s.active_windows
        then ok (decided true no_windows_configured none none)
        else (do found ← first_open s.active_windows at; closed_or_inside s at found))

-- The loop of `weeklyOpenHours`: the open minutes among `left` from `cursor` on.
unfoldable pub count_open : List ScheduleWindow → ℕ → ℕ → ℕ → Result ScheduleError ℕ
count_open windows zero cursor count = ok count
count_open windows (suc left) cursor count = elim (first_open windows cursor) [
  | err e ↦ err e
  | ok found ↦
      count_open windows left (cursor + ms_per_minute) (if is_some found then count + 1 else count)
]

-- 2026-01-04T00:00:00Z, a Sunday.
abbrev pub week_start : ℕ
week_start = 1_767_484_800_000

unfoldable pub weekly_open_hours :
    {R : Type 0} ⦃n : Number R⦄ → ScheduleConfig → Result ScheduleError R
weekly_open_hours ⦃n⦄ s = do
  minutes ← count_open s.active_windows (minutes_per_day * 7) week_start 0
  ok (n.div (n.of_nat minutes) (n.of_nat 60))
