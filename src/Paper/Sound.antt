-- ===== src/Paper/Sound.antt =====
-- The live book's pricing (src/analysis/venueModels.ts) as the paper book relies on it.
use opiumo.Base.{arith, none, some, true, ◌≡◌, Option}
use opiumo.Exits.Decisions.{constant_product_proceeds}
use opiumo.Number.{Number, nought}
use opiumo.Paper.InStep.{IsSound}
use opiumo.Paper.Venues.{
  Venue, bonding_curve_proceeds, priced_at, proceeds_for, pumpfun, pumpfun_fee, raydium, venue_of,
  venue_pricing,
}

-- A positive product of a positive number and one that is not negative has no factor nought.
abbrev pub IsSigned : (R : Type 0) → ⦃n : Number R⦄ → Type 0
IsSigned R ⦃n⦄ =
    (x y : R)
    → n.lt nought (n.mul x y) ≡ true
    → n.lt nought x ≡ true
    → n.le nought y ≡ true
    → n.lt nought y ≡ true

module _ {R : Type 0} ⦃n : Number R⦄ where
  open n use {mul, le, lt}

  curve_stake :
      (stake entry now fee v : R)
      → bonding_curve_proceeds stake entry now fee ≡ some v
      → (lt nought stake ≡ true) × (le nought entry ≡ true)
  unfolding bonding_curve_proceeds
  curve_stake stake entry now fee v e = (ground (arith, e), ground (arith, e))

  product_pool :
      (liquidity fraction v : R)
      → constant_product_proceeds liquidity fraction ≡ some v
      → lt nought liquidity ≡ true
  unfolding constant_product_proceeds
  product_pool liquidity fraction v e = ground (arith, e)

  -- Whatever the venue is, an open that brings anything was at a pool with liquidity.
  pub venue_pricing-IsSound : IsSigned R → IsSound {R = R} venue_pricing
  unfolding venue_pricing proceeds_for
  venue_pricing-IsSound signed venue liquidity fraction v e share gain = by_venue (venue_of venue) e
    where
      by_venue :
          (o : Option Venue)
          → (priced_at o liquidity fraction).fn liquidity fraction ≡ some v
          → lt nought liquidity ≡ true
      by_venue (some pumpfun) e =
          let stake = mul fraction liquidity in
          let (some_stake, pool) = curve_stake stake liquidity liquidity pumpfun_fee v e in
          signed fraction liquidity some_stake share pool
      by_venue (some raydium) e = product_pool liquidity fraction v e
      by_venue none e = product_pool liquidity fraction v e
