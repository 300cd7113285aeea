-- ===== src/Spot/Overrun.antt =====
-- src/trading/engine.ts: `onFilterPass` checks the cap before it waits, and saves after it.
use opiumo.Base.{ℕ, false, has_key, length, some, true, ◌<◌, ◌≡◌}
use opiumo.Number.{Number, nought}
use opiumo.Spot.Buying.{Buy, PassEvent, fallback_stop, or_one, probe_sol, record_buy}
use opiumo.Spot.Engine.{Bot}
use opiumo.Spot.Records.{TradingConfig}
use opiumo.Spot.Sizing.{SizingResult, compute_spot_position_size_sol}

module _ {R : Type 0} ⦃n : Number R⦄ (c : TradingConfig R) where
  open n use {of_nat, div, le}

  -- The probe and the swap of a buy are answered, and its size is above nought.
  pub record Lands (v : Buy R) : Type 0 where
    pub quoted : ℕ
    pub probe_answers : v.probe ≡ some quoted
    pub sized : SizingResult R
    pub size_found :
        let indicative = div (probe_sol c) (of_nat (or_one quoted)) in
        compute_spot_position_size_sol c.total_capital_sol c.risk_percent_per_trade indicative
          (fallback_stop c indicative)
        ≡ some sized
    pub size_positive : le sized.position_size_sol nought ≡ false
    pub paid : ℕ
    pub given : ℕ
    pub swap_answers : v.swap sized.position_size_sol ≡ some (paid, given)

  -- A token that may be bought: passed, trading is on, it is not held, and there is room.
  abbrev pub IsWelcome : Bot R → PassEvent → Type 0
  IsWelcome b e =
      (e.is_pass ≡ true)
      × (c.enabled ≡ true)
      × (has_key e.mint b.positions ≡ false)
      × (length b.positions < c.max_open_positions)

  abbrev after_buy : (v : Buy R) → Lands v → Bot R → PassEvent → Bot R
  after_buy v l b e =
      record_buy c b e v.now l.sized.position_size_sol (v.swap l.sized.position_size_sol)
