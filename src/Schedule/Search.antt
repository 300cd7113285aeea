-- ===== src/Schedule/Search.antt =====
-- `evaluateSchedule` and `nextOpenTime` on schedules that passed validation.
use mathlib.Core.Option.{some-injective}
use opiumo.Base.{
  Bool-cases, inl, inr, [], ap, false, ◌%◌, ◌↔◌, ◌∷◌, ◌≢◌, subst, ◌/◌, All, List, Option, arith,
  none, ok, refl, some, suc, true, zero, ℕ, ◌*◌, ◌+◌, ◌-◌, ◌<◌, ◌∙◌, ◌≡◌, ◌≤◌,
}
use opiumo.Schedule.Opening.{
  comes_round, is_window_open_at-ok, opens, validate_schedule-IsParsed, Found, IsClosed, IsParsed,
  first_open-Found,
}
use opiumo.Schedule.Parsing.{ScheduleWindow}
use opiumo.Schedule.Windows.{
  closed_or_inside, decided, inside_window, is_nil, outside_window, scheduler_disabled,
  ScheduleConfig, ScheduleDecision, evaluate_schedule, has, next_open_time, open_at, search_span,
  validate_schedule, first_open, is_window_open_at, ms_per_minute, search_open,
}
use opiumo.Schedule.Parsed.{SomeDays, parse_days-SomeDays, parse_hh_mm-lt}

-- No window is open at any of the `left` minutes after `cursor`.
abbrev pub ClosedFor : List ScheduleWindow → ℕ → ℕ → Type 0
ClosedFor ws cursor left =
    (k : ℕ) → 0 < k → k ≤ left → All (IsClosed (cursor + k * ms_per_minute)) ws

-- What a search answers: the first minute at which some window is open, or none if all are closed.
abbrev pub Answers : List ScheduleWindow → ℕ → ℕ → Option ℕ → Type 0
Answers ws cursor left none = ClosedFor ws cursor left
Answers ws cursor left (some t) =
    (k : ℕ) × (w : ScheduleWindow) × (t ≡ cursor + k * ms_per_minute)
    × (0 < k)
    × (k ≤ left)
    × (is_window_open_at w t ≡ ok true)
    × ClosedFor ws cursor (k - 1)

ClosedFor-step :
    (ws : List ScheduleWindow) (cursor left : ℕ)
    → All (IsClosed (cursor + ms_per_minute)) ws
    → ClosedFor ws (cursor + ms_per_minute) left
    → ClosedFor ws cursor (suc left)
ClosedFor-step ws cursor left now later (suc zero) up le =
    subst (λ t. All (IsClosed t) ws) (omega arith) now
ClosedFor-step ws cursor left now later (suc (suc k)) up le =
    subst (λ t. All (IsClosed t) ws) (omega arith) (later (suc k) (omega arith) (omega arith))
ClosedFor-step ws cursor left now later zero up le = absurd (omega arith)

Answers-step :
    (ws : List ScheduleWindow) (cursor left : ℕ) (found : Option ℕ)
    → All (IsClosed (cursor + ms_per_minute)) ws
    → Answers ws (cursor + ms_per_minute) left found
    → Answers ws cursor (suc left) found
Answers-step ws cursor left none now a = ClosedFor-step ws cursor left now a
Answers-step ws cursor left (some t) now (k, w, e, up, le, good, closed) = (
  suc k,
  w,
  e ∙ omega arith,
  omega arith,
  omega arith,
  good,
  subst (ClosedFor ws cursor) (omega arith) (ClosedFor-step ws cursor (k - 1) now closed),
)

search_open-Answers :
    (ws : List ScheduleWindow) (left cursor : ℕ)
    → All IsParsed ws
    → (found : Option ℕ) × (search_open ws left cursor ≡ ok found) × Answers ws cursor left found
unfolding search_open
search_open-Answers ws zero cursor p = (none, refl, λ k up le. absurd (omega arith))
search_open-Answers ws (suc left) cursor p =
    let (first, e, good) = first_open-Found ws (cursor + ms_per_minute) p in
    go first e good (search_open-Answers ws left (cursor + ms_per_minute) p)
  where
    go :
        (first : Option ScheduleWindow)
        → first_open ws (cursor + ms_per_minute) ≡ ok first
        → Found ws (cursor + ms_per_minute) first
        → ((found : Option ℕ) × (search_open ws left (cursor + ms_per_minute) ≡ ok found)
            × Answers ws (cursor + ms_per_minute) left found)
        → (found : Option ℕ) × (search_open ws (suc left) cursor ≡ ok found)
          × Answers ws cursor (suc left) found
    go none e closed (found, e', a) =
        (found, rw (e, search_open) e', Answers-step ws cursor left found closed a)
    go (some w) e good rest = (
      some (cursor + ms_per_minute),
      rw (e, search_open) refl,
      (1, w, omega arith, omega arith, omega arith, good, λ k up le. absurd (omega arith)),
    )

some_day : (ds : List ℕ) → SomeDays ds → (d : ℕ) × (d < 7) × (has ds d ≡ true)
some_day [] h = absurd h
some_day (d ∷ ds) h = (d, h.0, ground arith)

not_nil : (ws : List ScheduleWindow) → ws ≢ [] → is_nil ws ≡ false
not_nil [] h = absurd (h refl)
not_nil (w ∷ ws) h = refl

open_at_start : (ds : List ℕ) (s e d : ℕ) → has ds d ≡ true → open_at ds s e d s ≡ true
unfolding open_at
open_at_start ds s e d h = ground arith

never : (w : ScheduleWindow) (t : ℕ) → IsClosed t w → is_window_open_at w t ≡ ok true → ⊥
never w t c o = cc

-- The window of a validated schedule is open at some minute of the next week.
opens_within_week :
    (w : ScheduleWindow) (p : IsParsed w) (cursor : ℕ)
    → (k : ℕ) × (0 < k)
      × (k ≤ 10_080)
      × (is_window_open_at w (cursor / ms_per_minute * ms_per_minute + k * ms_per_minute) ≡ ok true)
opens_within_week w p cursor =
    let (d, in_week, listed) = some_day p.days (parse_days-SomeDays w.days p.days_parse) in
    let m : ℕ = cursor / ms_per_minute in
    let k : ℕ = (d * 1440 + p.start + 10_080 - (m + 5_760) % 10_080 - 1) % 10_080 + 1 in
    let (le, day, minutes) =
      comes_round d p.start m in_week (parse_hh_mm-lt w.start p.start_parses) in
    let open_then : opens w p ((m + k) * ms_per_minute) ≡ true =
      rw (day, minutes) (open_at_start p.days p.start p.end d listed) in
    (
      k,
      omega arith,
      le,
      subst (λ t. is_window_open_at w t ≡ ok true) (omega arith)
          (is_window_open_at-ok w p ((m + k) * ms_per_minute) ∙ ap ok open_then),
    )

-- At every instant an enabled schedule that passed validation has a next opening, within the eight
-- days that are searched: the search answers the first whole minute after the instant at which some
-- window is open, with every window closed at each minute before it.
pub next_open_time-first :
    (s : ScheduleConfig) (at : ℕ) {u : Unit {0}}
    → validate_schedule s ≡ ok u
    → s.enabled ≡ true
    → (t : ℕ) × (next_open_time s at ≡ ok (some t))
      × Answers s.active_windows (at / ms_per_minute * ms_per_minute) search_span (some t)
unfolding next_open_time
next_open_time-first s at valid on =
    let (parsed, inhabited) = validate_schedule-IsParsed s valid in
    let start : ℕ = at / ms_per_minute * ms_per_minute in
    let (found, e, a) = search_open-Answers s.active_windows search_span start parsed in
    settled s.active_windows parsed (inhabited on) at found e a
  where
    settled :
        (ws : List ScheduleWindow)
        → All IsParsed ws
        → ws ≢ []
        → (at : ℕ) → (found : Option ℕ)
        → search_open ws search_span (at / ms_per_minute * ms_per_minute) ≡ ok found
        → Answers ws (at / ms_per_minute * ms_per_minute) search_span found
        → (t : ℕ) × (search_open ws search_span (at / ms_per_minute * ms_per_minute) ≡ ok (some t))
          × Answers ws (at / ms_per_minute * ms_per_minute) search_span (some t)
    settled [] parsed ne at found e a = absurd (ne refl)
    settled (w ∷ ws) parsed ne at (some t) e a = (t, e, a)
    settled (w ∷ ws) (p, ps) ne at none e closed =
        let (k, up, le, good) = opens_within_week w p at in
        absurd (never w _ (closed k up (omega arith)).0 good)

-- What a decision has to say of the windows.
abbrev pub Decides : ScheduleConfig → ℕ → ScheduleDecision → Type 0
Decides s at d =
    ((d.active ≡ false) ↔ ((s.enabled ≡ true) × All (IsClosed at) s.active_windows))
    × ((w : ScheduleWindow) → d.window ≡ some w → is_window_open_at w at ≡ ok true)

-- An open window that the search found is one of the windows, so not all are closed.
first_open-ne_closed :
    (ws : List ScheduleWindow) (at : ℕ) (w : ScheduleWindow)
    → first_open ws at ≡ ok (some w)
    → All (IsClosed at) ws
    → ⊥
unfolding first_open
first_open-ne_closed [] at w e c = cc
first_open-ne_closed (v ∷ ws) at w e (c, cs) = first_open-ne_closed ws at w (simp c at e) cs

Decides-open :
    (s : ScheduleConfig) (at : ℕ) (found : Option ScheduleWindow)
    → validate_schedule s ≡ ok tt
    → s.enabled ≡ true
    → first_open s.active_windows at ≡ ok found
    → Found s.active_windows at found
    → (d : ScheduleDecision) × (closed_or_inside s at found ≡ ok d) × Decides s at d
Decides-open s at (some w) valid on e good = (
  decided true inside_window (some w) none,
  refl,
  (
    (λ h. cc, λ h. absurd (first_open-ne_closed s.active_windows at w e h.1)),
    λ v same.
        subst (λ (x : ScheduleWindow). is_window_open_at x at ≡ ok true) (some-injective _ _ same)
          good,
  ),
)
Decides-open s at none valid on e closed =
    let (t, search, answers) = next_open_time-first s at valid on in
    (
      decided false outside_window none (some t),
      rw search,
      ((λ h. (on, closed), λ h. refl), λ w same. cc),
    )

-- A schedule that passed validation never makes the evaluation throw; the bot is told not to look
-- exactly when the schedule is enabled and every one of its windows is closed at the instant, and a
-- window that the decision names is open then.
pub evaluate_schedule-Decides :
    (s : ScheduleConfig) (at : ℕ)
    → validate_schedule s ≡ ok tt
    → (d : ScheduleDecision) × (evaluate_schedule s at ≡ ok d) × Decides s at d
unfolding evaluate_schedule
evaluate_schedule-Decides s at valid = elim (Bool-cases s.enabled) [
  | inr off ↦ (
    decided true scheduler_disabled none none,
    simp off,
    ((λ h. cc, λ h. cc (h.0)), λ w same. cc),
  )
  | inl on ↦
      let (parsed, inhabited) = validate_schedule-IsParsed s valid in
      let (found, e, good) = first_open-Found s.active_windows at parsed in
      let (d, same, decides) = Decides-open s at found valid on e good in
      let full : is_nil s.active_windows ≡ false = not_nil s.active_windows (inhabited on) in
      (d, simp (on, full, e) same, decides)
]
