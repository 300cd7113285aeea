-- ===== src/Schedule/Opening.antt =====
-- The verdicts of a validated schedule, and the search for the next opening.
use opiumo.Base.{
  bind_ok, All, Bool, Bool-cases, List, Option, [], ap, arith, false, inl, inr, none, ok, refl,
  some, true, ℕ, ◌%◌, ◌*◌, ◌+◌, ◌-◌, ◌<◌, ◌∙◌, ◌∷◌, ◌≡◌, ◌≢◌, ◌≤◌,
}
use opiumo.Schedule.Parsing.{
  not_idle, not_utc, ScheduleWindow, minutes_per_day, parse_days, parse_hh_mm,
}
use opiumo.Schedule.Windows.{
  is_idle, is_utc, require, ScheduleConfig, first_open, is_window_open_at, ms_per_minute, open_at,
  utc_minutes, utc_weekday, validate_schedule, validate_window, validate_windows,
}

-- A window whose three texts parse, with a start that is not its end.
pub record IsParsed (w : ScheduleWindow) : Type 0 where
  pub days : List ℕ
  pub start : ℕ
  pub end : ℕ
  pub days_parse : parse_days w.days ≡ ok days
  pub start_parses : parse_hh_mm w.start ≡ ok start
  pub end_parses : parse_hh_mm w.end ≡ ok end
  pub proper : start ≢ end

validate_window-IsParsed :
    (w : ScheduleWindow) {u : Unit {0}} → validate_window w ≡ ok u → IsParsed w
unfolding validate_window
validate_window-IsParsed w h =
    let (s, hs, h1) = bind_ok (parse_hh_mm w.start) _ h in
    let (e, he, h2) = bind_ok (parse_hh_mm w.end) _ h1 in
    let (ds, hd, h3) = bind_ok (parse_days w.days) _ h2 in
    record {
      days = ds;
      start = s;
      end = e;
      days_parse = hd;
      start_parses = hs;
      end_parses = he;
      proper = λ same. ground (arith, h3);
    }

validate_windows-IsParsed :
    (ws : List ScheduleWindow) {u : Unit {0}} → validate_windows ws ≡ ok u → All IsParsed ws
unfolding validate_windows
validate_windows-IsParsed [] h = tt
validate_windows-IsParsed (w ∷ ws) h =
    let (u, hw, hws) = bind_ok (validate_window w) _ h in
    (validate_window-IsParsed w hw, validate_windows-IsParsed ws hws)

pub validate_schedule-IsParsed :
    (s : ScheduleConfig) {u : Unit {0}}
    → validate_schedule s ≡ ok u
    → All IsParsed s.active_windows × ((s.enabled ≡ true) → s.active_windows ≢ [])
unfolding validate_schedule
validate_schedule-IsParsed s h =
    let (u1, h1, k1) = bind_ok (require (is_utc s.timezone) not_utc) _ h in
    let (u2, h2, k2) = bind_ok (require (is_idle s.outside_window) not_idle) _ k1 in
    let (u3, all, rest) = bind_ok (validate_windows s.active_windows) _ k2 in
    (validate_windows-IsParsed s.active_windows all, λ on none_left. ground (arith, rest))

-- What the code's tests say of a window that parses.
abbrev pub opens : (w : ScheduleWindow) → IsParsed w → ℕ → Bool
opens w p at = open_at p.days p.start p.end (utc_weekday at) (utc_minutes at)

pub is_window_open_at-ok :
    (w : ScheduleWindow) (p : IsParsed w) (at : ℕ) → is_window_open_at w at ≡ ok (opens w p at)
unfolding is_window_open_at
is_window_open_at-ok w p at = simp (p.days_parse, p.start_parses, p.end_parses)

abbrev pub IsClosed : ℕ → ScheduleWindow → Type 0
IsClosed at w = is_window_open_at w at ≡ ok false

abbrev pub Found : List ScheduleWindow → ℕ → Option ScheduleWindow → Type 0
Found ws at none = All (IsClosed at) ws
Found ws at (some w) = is_window_open_at w at ≡ ok true

pub first_open-Found :
    (ws : List ScheduleWindow) (at : ℕ)
    → All IsParsed ws
    → (found : Option ScheduleWindow) × (first_open ws at ≡ ok found) × Found ws at found
unfolding first_open
first_open-Found [] at h = (none, refl, tt)
first_open-Found (w ∷ ws) at (p, ps) =
    let (found, e, good) = first_open-Found ws at ps in
    let q = is_window_open_at-ok w p at in
    elim (Bool-cases (opens w p at)) [
      | inl yes_open ↦ (some w, simp (q, yes_open), q ∙ ap ok yes_open)
      | inr closed ↦ (found, simp (q, closed) e, later found e good (q ∙ ap ok closed))
    ]
  where
    later :
        (found : Option ScheduleWindow)
        → first_open ws at ≡ ok found
        → Found ws at found
        → IsClosed at w
        → Found (w ∷ ws) at found
    later none e good c = (c, good)
    later (some v) e good c = good

-- The start of a window comes round within a week of any minute.
pub comes_round :
    (d s m : ℕ)
    → d < 7
    → s < minutes_per_day
    → let k = (d * 1440 + s + 10_080 - (m + 5_760) % 10_080 - 1) % 10_080 + 1 in
      (k ≤ 10_080)
      × (utc_weekday ((m + k) * ms_per_minute) ≡ d)
      × (utc_minutes ((m + k) * ms_per_minute) ≡ s)
comes_round d s m hd hs = (omega arith, omega arith, omega arith)
