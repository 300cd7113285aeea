-- ===== src/Paper/Examples.antt =====
-- The paper book's theorems at a concrete session over the integers, with the live book's pricing.
use opiumo.Number.Integers.{ℤ_number}
use opiumo.Int.{pos, negsuc, ℤ, ◌+ℤ◌, ◌-ℤ◌, ◌*ℤ◌}
use opiumo.Platform.{Runtime, ms_per_day}
use mathlib.Core.Option
use opiumo.Base.{
  if◌then◌else◌, All, arith, delete, has_key, length, lookup, set, suc, take, text_eq, zero, ◌≤◌,
  List, Option, Text, [], codes, none, refl, some, true, ℕ, ◌*◌, ◌+◌, ◌/◌, ◌∷◌, ◌≡◌,
}
use opiumo.Exits.Decisions.{PoolObservation}
use opiumo.Paper.Book.{refuse, new_book, open_count, open_position}
use opiumo.Paper.Expiring.{expire}
use opiumo.Paper.Observing.{observe}
use opiumo.Paper.Records.{
  drawdown_halt, PaperBook, PaperPosition, still_open, ForcedExitConfig, OpenParams, PaperConfig,
  branded, live_pass,
}
use opiumo.Paper.Restoring.{paper_open_row, positive, open_rows_from, open_rows_from_log, restore}
use opiumo.Paper.Session.{
  Session, SessionEvent, decided, read_pool, restarted, run_session, start_session, step_session,
  swept,
}
use opiumo.Paper.Venues.{venue_pricing}
use opiumo.Exits.Trailing.{init_state, step}
use opiumo.Paper.Cap.{run_session_within_cap}
use opiumo.Paper.InStep.{IsSound}
use opiumo.Paper.Keeping.{IsEnded, IsValid}
use opiumo.Paper.Sessions.{
  first_start, run_session-IsLogged, restart_keeps_positions, run_session_in_step,
}
use opiumo.Paper.Sound.{IsSigned, venue_pricing-IsSound}
use opiumo.Drawdown.Guard.{DrawdownConfig, DrawdownState, already_halted, daily_loss_limit}
use opiumo.Paper.Halted.{
  BookCall, abandons, apply_calls, apply_calls_refuses, expires, observes, opens,
}
use opiumo.Paper.Summary.{summarise}
use opiumo.Paper.Summing.{summarise_adds_up}
use opiumo.Paper.Sweeping.{due_in, expire_leaves_undue}

abbrev clock : Runtime
clock = record {
  iso = λ t.
      b'2'
      ∷ b'0'
      ∷ b'2'
      ∷ b'6'
      ∷ b'-'
      ∷ b'0'
      ∷ b'9'
      ∷ b'-'
      ∷ b'1'
      ∷ (b'0' + t / ms_per_day)
      ∷ t
      ∷ [];
  next_month_start = λ t. t + 31 * ms_per_day;
}

-- Percentages are whole multiples here: a stop at the entry, armed at twice of it.
abbrev settings : PaperConfig ℤ
settings = record {
  pool_fraction = pos 2;
  max_open_positions = 2;
  include_rejected = true;
  trailing_stop = record {
    hard_stop_percent = pos 0;
    activation_percent = pos 200;
    trail_percent = pos 0;
    persistence_observations = 1;
    min_hold_ms = 0;
  };
  raised_take_profit = none;
  drawdown = none;
}

abbrev decide : Text → ℕ → Option ℤ → OpenParams ℤ
decide mint at liquidity = record {
  mint = mint;
  at = at;
  liquidity_sol = liquidity;
  live_verdict = live_pass;
  source = some (codes "pumpfun");
}

abbrev forced : ForcedExitConfig
forced = record { enabled = true; max_hold_ms = 100000; stale_observation_ms = 5000 }

abbrev at_pool : ℕ → ℤ → PoolObservation ℤ
at_pool t l = record { ts = t; liquidity_sol = l }

abbrev session_of : List (SessionEvent ℤ) → Session ℤ
session_of es =
    run_session clock settings (branded venue_pricing)
      (start_session clock settings (branded venue_pricing) none 0 [] []) es

-- Two opens, a refusal at the cap, a fall that sells, a restart, and a sweep of what went silent.
abbrev day : List (SessionEvent ℤ)
day =
    decided (decide (codes "A") 1000 (some (pos 50)))
    ∷ decided (decide (codes "B") 2000 (some (pos 60)))
    ∷ decided (decide (codes "C") 2500 (some (pos 70)))
    ∷ read_pool (codes "A") (at_pool 3000 (pos 5))
    ∷ restarted none 3500 []
    ∷ decided (decide (codes "C") 4000 (some (pos 70)))
    ∷ swept 8000 forced
    ∷ []

-- A stays sold, B goes silent, and C comes in after the restart.
day_now :
    (lookup (codes "A") (session_of day).book.positions ≡ none)
    × (open_count (session_of day).book ≡ 1)
    × (length (session_of day).log ≡ 8)
unfolding start_session step_session run_session open_position observe expire restore new_book
    open_rows_from_log open_rows_from venue_pricing text_eq ◌*ℤ◌ ◌+ℤ◌ ◌-ℤ◌ set step init_state
    delete
day_now = (refl, refl, refl)

ℤ-IsSigned : IsSigned ℤ
unfolding ◌*ℤ◌
ℤ-IsSigned (pos j) (pos zero) product positive enough = ground (arith, product)
ℤ-IsSigned (negsuc j) (pos zero) product positive enough = ground (arith, positive)
ℤ-IsSigned x (pos (suc k)) product positive enough = ground arith
ℤ-IsSigned x (negsuc k) product positive enough = absurd (ground (arith, enough))

run_session_in_step_example :
    let s = session_of day in
    ((k : Text)
      → lookup k (open_rows_from [] s.log) ≡ Option.map paper_open_row (lookup k s.book.positions))
    × ((k : Text) → has_key k s.book.pricing ≡ has_key k s.book.positions)
    × ((k : Text) (p : PaperPosition ℤ)
        → lookup k s.book.positions ≡ some p
        → (p.mint ≡ k) × (p.outcome ≡ still_open))
    × All IsEnded s.book.closed
run_session_in_step_example =
    run_session_in_step clock settings (branded venue_pricing) none 0 day
      (venue_pricing-IsSound ℤ-IsSigned) refl

restart_keeps_positions_example :
    let s' =
      step_session clock settings
        (branded venue_pricing)
        (session_of day)
        (restarted none 9000 []) in
    Option.map paper_open_row (lookup (codes "C") s'.book.positions)
    ≡ Option.map paper_open_row (lookup (codes "C") (session_of day).book.positions)
restart_keeps_positions_example =
    restart_keeps_positions clock settings (branded venue_pricing) none none 0 9000 day []
      (codes "C") (venue_pricing-IsSound ℤ-IsSigned) refl

run_session_within_cap_example : open_count (session_of day).book ≤ 2
run_session_within_cap_example =
    run_session_within_cap clock settings (branded venue_pricing) none 0 day
      (venue_pricing-IsSound ℤ-IsSigned) refl

venue_pricing-IsSound_example : IsSound {R = ℤ} venue_pricing
venue_pricing-IsSound_example = venue_pricing-IsSound ℤ-IsSigned

-- A book with one open position and one that was sold.
abbrev held : PaperBook ℤ
held = (session_of (take 3 day)).book

held-IsValid : IsValid held
held-IsValid =
    (run_session-IsLogged clock settings (branded venue_pricing)
      (start_session clock settings (branded venue_pricing) none 0 [] []) (take 3 day)
      (venue_pricing-IsSound ℤ-IsSigned) refl
      (first_start clock settings (branded venue_pricing) none 0)).0

expire_leaves_undue_example : lookup (codes "B") (expire clock held 6500 forced).0.positions ≡ (
    if due_in forced 6500 (lookup (codes "B") held.positions)
    then none
    else lookup (codes "B") held.positions)
expire_leaves_undue_example =
    expire_leaves_undue clock held 6500 forced (codes "B") refl held-IsValid

summarise_adds_up_example :
    let s = summarise held in s.opened ≡ s.open_now + s.closed + s.exit_failed + s.abandoned
summarise_adds_up_example = summarise_adds_up held held-IsValid

abbrev limits : DrawdownConfig ℤ
limits = record {
  enabled = true;
  max_daily_loss = pos 10;
  max_total_loss = pos 50;
  max_peak_drawdown = pos 30;
  unit = codes "SOL";
}

abbrev stopped : DrawdownState ℤ
stopped = record {
  version = 1;
  day = codes "2026-09-10";
  day_pnl = negsuc 11;
  total_pnl = negsuc 11;
  peak_pnl = pos 0;
  halted = some (record { at = codes "2026-09-10T12"; reason = daily_loss_limit });
  override = none;
  trades = 1;
}

abbrev halted_book : PaperBook ℤ
halted_book = record held {
  config = record settings { drawdown = some (record { limits = limits; state = some stopped }) };
  drawdown = some stopped;
}

abbrev later : List (BookCall ℤ)
later =
    observes (codes "A") (at_pool 3000 (pos 900))
    ∷ opens (decide (codes "D") 3500 (some (pos 50)))
    ∷ expires 200000000 forced
    ∷ abandons (codes "B") 200000001 (codes "no feed")
    ∷ []

apply_calls_refuses_example :
    let b = apply_calls clock halted_book later in
    open_position clock b (decide (codes "E") 300000000 (some (pos 50)))
    ≡ refuse b (codes "E") (drawdown_halt already_halted)
apply_calls_refuses_example =
    apply_calls_refuses clock limits halted_book stopped later
      (decide (codes "E") 300000000 (some (pos 50))) refl refl refl refl held-IsValid
