-- ===== src/Drawdown/Guard.antt =====
-- src/risk/drawdownGuard.ts. Profits are numbers; the prose of `detail` is left out.
use opiumo.Base.{
  Bool, List, Option, Text, [], false, if◌then◌else◌, is_some, leb, none, not, some, take, text_eq,
  true, ℕ, ◌&&◌, ◌++◌, ◌+◌, ◌==◌, ◌||◌, ◌∷◌,
}
use opiumo.Number.{Number, nought}
use opiumo.Platform.{Runtime}

pub data DrawdownReason : Type 0 where
  fine daily_loss_limit total_loss_limit peak_drawdown_limit : DrawdownReason
  manual_override already_halted : DrawdownReason

-- `L` is the type of a limit: a number, or in a configuration not yet checked an optional one.
pub record DrawdownConfig (L : Type 0) : Type 0 where
  pub enabled : Bool
  pub max_daily_loss : L
  pub max_total_loss : L
  pub max_peak_drawdown : L
  pub unit : Text

pub data DrawdownProblem : Type 0 where
  daily_not_positive total_not_positive peak_not_positive no_unit : DrawdownProblem

pub record Halt : Type 0 where
  pub at : Text
  pub reason : DrawdownReason

pub record Override : Type 0 where
  pub day : Text
  pub by : Text
  pub note : Text
  pub at : Text

pub record DrawdownState (R : Type 0) : Type 0 where
  pub version : ℕ
  pub day : Text
  pub day_pnl : R
  pub total_pnl : R
  pub peak_pnl : R
  pub halted : Option Halt
  pub override : Option Override
  pub trades : ℕ

pub record DrawdownDecision (R : Type 0) : Type 0 where
  pub halted : Bool
  pub reason : DrawdownReason
  pub day_pnl : R
  pub total_pnl : R
  pub drawdown_from_peak : R

abbrev pub utc_day : Runtime → ℕ → Text
utc_day r at = take 10 (r.iso at)

abbrev is_digit : ℕ → Bool
is_digit c = leb b'0' c && leb c b'9'

-- `/^\d{4}-\d{2}-\d{2}$/`, one test for each place.
abbrev day_shape : List (ℕ → Bool)
day_shape =
    is_digit
    ∷ is_digit
    ∷ is_digit
    ∷ is_digit
    ∷ (λ c. c == b'-')
    ∷ is_digit
    ∷ is_digit
    ∷ (λ c. c == b'-')
    ∷ is_digit
    ∷ is_digit
    ∷ []

unfoldable pub fits : List (ℕ → Bool) → Text → Bool
fits [] [] = true
fits [] (c ∷ cs) = false
fits (p ∷ ps) [] = false
fits (p ∷ ps) (c ∷ cs) = p c && fits ps cs

-- `!s` on a string.
abbrev is_empty : Text → Bool
is_empty [] = true
is_empty (c ∷ cs) = false

abbrev keep_for_day : Text → Option Override → Option Override
keep_for_day today none = none
keep_for_day today (some o) = if text_eq o.day today then some o else none

abbrev pub is_for_day : Text → Option Override → Bool
is_for_day today none = false
is_for_day today (some o) = text_eq o.day today

module _ {R : Type 0} ⦃n : Number R⦄ where
  open n use {add, sub, neg, le, lt, max, to_fixed}

  abbrev positive_limit : Option R → DrawdownProblem → List DrawdownProblem
  positive_limit none problem = problem ∷ []
  positive_limit (some l) problem = if lt nought l then [] else problem ∷ []

  unfoldable pub validate_drawdown_config : DrawdownConfig (Option R) → List DrawdownProblem
  validate_drawdown_config c =
      positive_limit c.max_daily_loss daily_not_positive
      ++ (positive_limit c.max_total_loss total_not_positive
          ++ (positive_limit c.max_peak_drawdown peak_not_positive
              ++ (if is_empty c.unit then no_unit ∷ [] else [])))

  module _ (r : Runtime) where
    unfoldable pub empty_state : ℕ → DrawdownState R
    empty_state at = record {
      version = 1;
      day = utc_day r at;
      day_pnl = nought;
      total_pnl = nought;
      peak_pnl = nought;
      halted = none;
      override = none;
      trades = 0;
    }

    -- The day moves on; a halt does not expire with it.
    unfoldable pub roll_to : DrawdownState R → ℕ → DrawdownState R
    roll_to s at = if text_eq s.day (utc_day r at) then s else record s {
      day = utc_day r at;
      day_pnl = nought;
      override = keep_for_day (utc_day r at) s.override;
    }

    unfoldable pub apply_realised : DrawdownState R → R → ℕ → DrawdownState R
    apply_realised s pnl at =
        let rolled = roll_to s at in
        let total = to_fixed (add rolled.total_pnl pnl) in
        record rolled {
          day_pnl = to_fixed (add rolled.day_pnl pnl);
          total_pnl = total;
          peak_pnl = max rolled.peak_pnl total;
          trades = rolled.trades + 1;
        }

    -- The order of the tests: an earlier halt, an override, then each limit.
    abbrev judge :
        DrawdownConfig R → DrawdownState R → Text → Option Halt → R → Bool × DrawdownReason
    judge c s today (some h) drawdown =
        if is_for_day today s.override then (false, manual_override) else (true, already_halted)
    judge c s today none drawdown =
        if is_for_day today s.override
        then (false, manual_override)
        else (if le c.max_daily_loss (neg s.day_pnl)
            then (true, daily_loss_limit)
            else (if le c.max_total_loss (neg s.total_pnl)
                then (true, total_loss_limit)
                else (if le c.max_peak_drawdown drawdown
                    then (true, peak_drawdown_limit)
                    else (false, fine))))

    unfoldable pub evaluate_drawdown : DrawdownState R → DrawdownConfig R → ℕ → DrawdownDecision R
    evaluate_drawdown state config at =
        let s = roll_to state at in
        let drawdown = to_fixed (sub s.peak_pnl s.total_pnl) in
        let verdict : Bool × DrawdownReason =
          if config.enabled
          then judge config s (utc_day r at) s.halted drawdown
          else (false, fine) in
        record {
          halted = verdict.0;
          reason = verdict.1;
          day_pnl = s.day_pnl;
          total_pnl = s.total_pnl;
          drawdown_from_peak = drawdown;
        }

    unfoldable pub mark_halted : DrawdownState R → DrawdownDecision R → ℕ → DrawdownState R
    mark_halted s d at =
        if not d.halted || is_some s.halted
        then s
        else record s { halted = some (record { at = r.iso at; reason = d.reason }) }

    -- `none` is the exception.
    unfoldable pub grant_override :
        DrawdownState R → Text → Text → Text → ℕ → Option (DrawdownState R)
    grant_override s day by note at =
        if not (fits day_shape day)
        then none
        else (if is_empty by || is_empty note
            then none
            else some (record s {
              override = some (record { day = day; by = by; note = note; at = r.iso at });
            }))

  unfoldable pub clear_halt : DrawdownState R → Text → Text → Option (DrawdownState R)
  clear_halt s by note =
      if is_empty by || is_empty note then none else some (record s { halted = none })
