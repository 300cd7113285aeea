-- ===== src/Credit/Metering.antt =====
-- Charging by the meter's counter: `chargeFromMeter` prices no call twice and loses none.
use opiumo.Credit.Balance.{roll_to-IsBalanced, roll_to_same_day, IsBalanced}
use opiumo.Credit.Breaker.{CreditBreaker, charge_from_meter}
use opiumo.Platform.{Runtime}
use opiumo.Base.{ap, refl, sym, ◌∙◌, [], arith, some, ◌+◌, ◌∷◌, ◌≤◌, ◌≡◌, Text, List, ℕ}
use opiumo.Credit.Ledger.{utc_day_key}

-- The readings of one process's meter, each at least the one before.
abbrev pub Increasing : ℕ → List (ℕ × ℕ) → Type 0
Increasing last [] = Unit
Increasing last ((total, at) ∷ rs) = (last ≤ total) × Increasing total rs

abbrev pub last_reading : ℕ → List (ℕ × ℕ) → ℕ
last_reading last [] = last
last_reading last ((total, at) ∷ rs) = last_reading total rs

-- Every instant lies on the day `today`.
abbrev pub AllOn : Runtime → Text → List (ℕ × ℕ) → Type 0
AllOn r today [] = Unit
AllOn r today ((total, at) ∷ rs) = (utc_day_key r at ≡ today) × AllOn r today rs

module _ {R : Type 0} (r : Runtime) where
  unfoldable pub charge_readings : CreditBreaker R → List (ℕ × ℕ) → CreditBreaker R
  charge_readings b [] = b
  charge_readings b ((total, at) ∷ rs) =
      charge_readings (charge_from_meter r b (some total) at).0 rs

  one_reading :
      (b : CreditBreaker R) (total at : ℕ)
      → IsBalanced b.state
      → b.state.day.key ≡ utc_day_key r at
      → b.last_meter_credits ≤ total
      → let b' = (charge_from_meter r b (some total) at).0 in
        (b'.state.day.key ≡ b.state.day.key)
        × (b'.state.day.credits + b.last_meter_credits ≡ b.state.day.credits + total)
        × (b'.state.month.credits + b.last_meter_credits ≡ b.state.month.credits + total)
        × (b'.last_meter_credits ≡ total)
        × IsBalanced b'.state
  unfolding charge_from_meter
  one_reading b total at v e h =
      ground (arith, roll_to_same_day r b.state at v e, roll_to-IsBalanced r b.state at v)

  -- Within one day, a process whose meter only grows adds to both periods exactly the difference
  -- between the last reading and the one that the breaker had seen before: nothing is charged
  -- twice, and nothing between two readings is lost.
  pub charge_readings-total :
      (today : Text) (b : CreditBreaker R) (rs : List (ℕ × ℕ))
      → IsBalanced b.state
      → b.state.day.key ≡ today
      → AllOn r today rs
      → Increasing b.last_meter_credits rs
      → let s = (charge_readings b rs).state in
        let total = last_reading b.last_meter_credits rs in
        (s.day.credits + b.last_meter_credits ≡ b.state.day.credits + total)
        × (s.month.credits + b.last_meter_credits ≡ b.state.month.credits + total)
  unfolding charge_readings
  charge_readings-total today b [] v e on up = (refl, refl)
  charge_readings-total today b ((total, at) ∷ rs) v e (on, ons) (up, ups) =
      let b' : CreditBreaker R = (charge_from_meter r b (some total) at).0 in
      let (dated, day, month, seen, v') = one_reading b total at v (e ∙ sym on) up in
      let ups' : Increasing b'.last_meter_credits rs = rw seen ups in
      let (days, months) = charge_readings-total today b' rs v' (dated ∙ e) ons ups' in
      let tail : last_reading b'.last_meter_credits rs ≡ last_reading total rs =
        ap (λ l. last_reading l rs) seen in
      (omega arith, omega arith)
