-- ===== src/Schedule/Weekly.antt =====
-- A window in minutes of the week: what `isWindowOpenAt` decides.
use opiumo.Base.{
  All, Bool-cases, List, [], any, inl, inr, ltb→lt, sym, ◌∷◌, Bool, arith, leb, ltb, ℕ, ◌%◌, ◌&&◌,
  ◌*◌, ◌+◌, ◌-◌, ◌<◌, ◌==◌, ◌||◌, ◌≡◌, ◌≤◌,
}
use opiumo.Schedule.Parsing.{minutes_per_day}
use opiumo.Schedule.Windows.{has, open_at, duration}

-- Minutes since the Sunday before, and the same for a day's start.
abbrev pub minutes_per_week : ℕ
minutes_per_week = 10_080

-- `w` lies within `span` minutes of the window that starts on day `d`, around the week.
abbrev pub within_window : ℕ → ℕ → ℕ → ℕ → Bool
within_window start span w d =
    ltb ((w + minutes_per_week - (d * minutes_per_day + start)) % minutes_per_week) span

-- One start of the window, against the tests that the code makes of it.
same_day_lem :
    (start end d day minutes : ℕ)
    → start < end
    → end < minutes_per_day
    → d < 7
    → day < 7
    → minutes < minutes_per_day
    → within_window start (duration start end) (day * minutes_per_day + minutes) d
      ≡ ((d == day) && (leb start minutes && ltb minutes end))
unfolding duration
same_day_lem start end d day minutes h e hd hy hm = ground arith

wrapping_lem :
    (start end d day minutes : ℕ)
    → end ≤ start
    → start < minutes_per_day
    → d < 7
    → day < 7
    → minutes < minutes_per_day
    → within_window start (duration start end) (day * minutes_per_day + minutes) d
      ≡ ((d == day && leb start minutes) || (d == (day + 6) % 7 && ltb minutes end))
unfolding duration
wrapping_lem start end d day minutes h e hd hy hm = ground arith

same_day_any :
    (start end day minutes : ℕ) (days : List ℕ)
    → start < end
    → end < minutes_per_day
    → day < 7
    → minutes < minutes_per_day
    → All (λ d. d < 7) days
    → any (within_window start (duration start end) (day * minutes_per_day + minutes)) days
      ≡ (has days day && leb start minutes && ltb minutes end)
same_day_any start end day minutes [] h e hy hm hd = ground arith
same_day_any start end day minutes (d ∷ days) h e hy hm (hd, hds) = ground (
  arith,
  same_day_lem start end d day minutes h e hd hy hm,
  same_day_any start end day minutes days h e hy hm hds,
)

wrapping_any :
    (start end day minutes : ℕ) (days : List ℕ)
    → end ≤ start
    → start < minutes_per_day
    → day < 7
    → minutes < minutes_per_day
    → All (λ d. d < 7) days
    → any (within_window start (duration start end) (day * minutes_per_day + minutes)) days
      ≡ (has days day && leb start minutes || has days ((day + 6) % 7) && ltb minutes end)
wrapping_any start end day minutes [] h e hy hm hd = ground arith
wrapping_any start end day minutes (d ∷ days) h e hy hm (hd, hds) = ground (
  arith,
  wrapping_lem start end d day minutes h e hd hy hm,
  wrapping_any start end day minutes days h e hy hm hds,
)

-- A window with days of the week and times of day, as the parsers return them, is open at a minute
-- of a day exactly when the minute lies within the window's duration of the start on one of its
-- days, counted around the week: past midnight, and from Saturday into Sunday.
pub open_at-weekly :
    (days : List ℕ) (start end day minutes : ℕ)
    → All (λ d. d < 7) days
    → start < minutes_per_day
    → end < minutes_per_day
    → day < 7
    → minutes < minutes_per_day
    → open_at days start end day minutes
      ≡ any (within_window start (duration start end) (day * minutes_per_day + minutes)) days
unfolding open_at
open_at-weekly days start end day minutes hd hs he hy hm = elim (Bool-cases (ltb start end)) [
  | inl h ↦ simp h (sym (same_day_any start end day minutes days (ltb→lt _ _ h) he hy hm hd))
  | inr h ↦ simp h (sym (wrapping_any start end day minutes days (ground arith) hs hy hm hd))
]
