-- ===== src/Schedule/Parsed.antt =====
-- What the parsers return, and that they take back what is printed.
use opiumo.Base.{
  subst, map, Option, none, some, ◌>>=◌, Bool, Result, err, false, if_cases, if◌then◌else◌, refl,
  trim_kept, true, ◌==◌, All, List, Text, [], arith, length, ok, suc, trim, zero, ℕ, ◌%◌, ◌++◌, ◌+◌,
  ◌/◌, ◌<◌, ◌∷◌, ◌≡◌, ◌≤◌,
}
use opiumo.Schedule.Parsing.{
  days_of, is_every_day, lower, split_commas, every_day, listed_days, piece_days, in_range,
  match_range, parse_days, parse_pieces, some_days, two_digits, ScheduleError, parse_piece,
  day_index, day_names, days_after, index_from, match_hh_mm, minutes_per_day, parse_hh_mm,
}

in_range-lt : (hours minutes : ℕ) {t : ℕ} → in_range hours minutes ≡ ok t → t < minutes_per_day
in_range-lt hours minutes e = ground arith

pub guarded_ok :
    {A : Type 0} (b : Bool) (m : Result ScheduleError A) (e : ScheduleError) {a : A}
    → (if b then m else err e) ≡ ok a
    → m ≡ ok a
guarded_ok true m e h = h
guarded_ok false m e h = cc

match_hh_mm-lt : (s : Text) {t : ℕ} → match_hh_mm s ≡ ok t → t < minutes_per_day
unfolding match_hh_mm
match_hh_mm-lt (a ∷ b ∷ colon ∷ c ∷ d ∷ []) h =
    in_range-lt (two_digits a b) (two_digits c d) (guarded_ok _ _ _ h)
match_hh_mm-lt _ h = cc

-- A time that parses is a minute of the day.
pub parse_hh_mm-lt : (value : Text) {t : ℕ} → parse_hh_mm value ≡ ok t → t < minutes_per_day
unfolding parse_hh_mm
parse_hh_mm-lt value e = match_hh_mm-lt (trim value) e

abbrev digit : ℕ → ℕ
digit d = b'0' + d

-- "HH:MM" with two digits for each.
abbrev pub print_hh_mm : ℕ → Text
print_hh_mm t =
    digit (t / 600) ∷ digit (t / 60 % 10) ∷ b':' ∷ digit (t % 60 / 10) ∷ digit (t % 10) ∷ []

match_hh_mm-print : (t : ℕ) → t < minutes_per_day → match_hh_mm (print_hh_mm t) ≡ ok t
unfolding match_hh_mm
match_hh_mm-print t h = ground arith

-- Every minute of the day parses back from its printed form.
pub parse_hh_mm-print : (t : ℕ) → t < minutes_per_day → parse_hh_mm (print_hh_mm t) ≡ ok t
unfolding parse_hh_mm
parse_hh_mm-print t h =
    rw
      (trim_kept (digit (t / 600)) (digit (t % 10))
        (digit (t / 60 % 10) ∷ b':' ∷ digit (t % 60 / 10) ∷ []) (ground arith) (ground arith))
      (match_hh_mm-print t h)

index_from-lt :
    (i : ℕ) (ds : List Text) (name : Text) (k : ℕ)
    → index_from i ds name ≡ ok k
    → (i ≤ k) × (k < i + length ds)
unfolding index_from
index_from-lt i [] name k e = cc
index_from-lt i (d ∷ ds) name k e = ground (arith, index_from-lt (i + 1) ds name k)

day_index-lt : (name : Text) {k : ℕ} → day_index name ≡ ok k → k < 7
unfolding day_index
day_index-lt name e = (index_from-lt 0 day_names name _ e).1

days_after-lt : (fuel i to : ℕ) → All (λ d. d < 7) (days_after fuel i to)
unfolding days_after
days_after-lt zero i to = tt
days_after-lt (suc fuel) i to =
    if_cases (All (λ d. d < 7)) (i == to) (λ _. tt)
      (λ _. (omega arith, days_after-lt fuel ((i + 1) % 7) to))

All-append :
    (xs ys : List ℕ) → All (λ d. d < 7) xs → All (λ d. d < 7) ys → All (λ d. d < 7) (xs ++ ys)
All-append [] ys h k = k
All-append (x ∷ xs) ys (h, hs) k = (h, All-append xs ys hs k)

-- `a` returns a value of which `P` holds, if it returns.
abbrev Yields : {A : Type 0} → (A → Type 0) → Result ScheduleError A → Type 0
Yields P (ok a) = P a
Yields P (err e) = Unit

bind-Yields :
    {A B : Type 0} (P : A → Type 0) (Q : B → Type 0) (m : Result ScheduleError A)
    (f : A → Result ScheduleError B)
    → Yields P m
    → ((a : A) → P a → Yields Q (f a))
    → Yields Q (m >>= f)
bind-Yields P Q (ok a) f h k = k a h
bind-Yields P Q (err e) f h k = tt

day_index-Yields : (name : Text) → Yields (λ k. k < 7) (day_index name)
day_index-Yields name = of_eq (day_index name) refl
  where
    of_eq : (m : Result ScheduleError ℕ) → day_index name ≡ m → Yields (λ k. k < 7) m
    of_eq (ok k) e = day_index-lt name e
    of_eq (err x) e = tt

abbrev Days : List ℕ → Type 0
Days = All (λ d. d < 7)

piece_days-Yields : (m : Option (Text × Text)) (s : Text) → Yields Days (piece_days m s)
unfolding piece_days
piece_days-Yields none s =
    bind-Yields (λ k. k < 7) Days (day_index s) (λ i. ok (i ∷ [])) (day_index-Yields s)
      (λ i h. (h, tt))
piece_days-Yields (some (from, to)) s =
    bind-Yields (λ k. k < 7) Days (day_index from)
      (λ i. day_index to >>= λ j. ok (i ∷ days_after 7 i j)) (day_index-Yields from)
      (λ i h.
        bind-Yields (λ k. k < 7) Days (day_index to) (λ j. ok (i ∷ days_after 7 i j))
          (day_index-Yields to) (λ j k. (h, days_after-lt 7 i j)))

parse_piece-Yields : (s : Text) → Yields Days (parse_piece s)
unfolding parse_piece
parse_piece-Yields [] = tt
parse_piece-Yields (c ∷ cs) = piece_days-Yields (match_range (c ∷ cs)) (c ∷ cs)

parse_pieces-Yields : (ps : List Text) → Yields Days (parse_pieces ps)
unfolding parse_pieces
parse_pieces-Yields [] = tt
parse_pieces-Yields (p ∷ ps) =
    bind-Yields Days Days (parse_piece (trim p)) (λ ds. parse_pieces ps >>= λ es. ok (ds ++ es))
      (parse_piece-Yields (trim p))
      (λ ds h.
        bind-Yields Days Days (parse_pieces ps) (λ es. ok (ds ++ es)) (parse_pieces-Yields ps)
          (λ es k. All-append ds es h k))

-- Weekdays, and at least one of them.
abbrev pub SomeDays : List ℕ → Type 0
SomeDays [] = ⊥
SomeDays (d ∷ ds) = (d < 7) × Days ds

some_days-Yields : (ds : List ℕ) → Days ds → Yields SomeDays (some_days ds)
some_days-Yields [] h = tt
some_days-Yields (d ∷ ds) h = h

listed_days-Yields : (pieces : Text × List Text) → Yields SomeDays (listed_days pieces)
unfolding listed_days
listed_days-Yields (p, ps) =
    bind-Yields Days SomeDays (parse_pieces (p ∷ ps)) some_days (parse_pieces-Yields (p ∷ ps))
      some_days-Yields

every_day-SomeDays : SomeDays every_day
every_day-SomeDays = omega arith

days_of-Yields : (every : Bool) (pieces : Text × List Text) → Yields SomeDays (days_of every pieces)
unfolding days_of
days_of-Yields true pieces = every_day-SomeDays
days_of-Yields false pieces = listed_days-Yields pieces

parse_days-Yields : (spec : Text) → Yields SomeDays (parse_days spec)
unfolding parse_days
parse_days-Yields spec =
    let lowered = map lower (trim spec) in
    days_of-Yields (is_every_day lowered) (split_commas lowered)

-- A day specification that parses names at least one day of the week, and nothing else.
pub parse_days-SomeDays : (spec : Text) {ds : List ℕ} → parse_days spec ≡ ok ds → SomeDays ds
parse_days-SomeDays spec e = subst (Yields SomeDays) e (parse_days-Yields spec)
