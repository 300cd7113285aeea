-- ===== src/Paper/Venues.antt =====
-- src/analysis/venueModels.ts: slippage by venue, and the pricing of the live paper book.
use opiumo.Base.{if◌then◌else◌, not, text_eq, ◌||◌, Option, Text, codes, none, some}
use opiumo.Exits.Decisions.{ProceedsFn, constant_product_proceeds}
use opiumo.Number.{Number, nought}
use opiumo.Paper.Records.{Priced, PricingFactory}

module _ {R : Type 0} ⦃n : Number R⦄ where
  open n use {of_nat, add, sub, mul, div, le, lt}

  abbrev pub pumpfun_virtual_sol_offset : R
  pumpfun_virtual_sol_offset = of_nat 30

  abbrev pub pumpfun_fee : R
  pumpfun_fee = div (of_nat 1) (of_nat 100)

  -- What a position bought with a stake brings at the liquidity of now; `none` is `null`.
  unfoldable pub bonding_curve_proceeds : R → R → R → R → Option R
  bonding_curve_proceeds stake_sol entry_real_sol real_sol_now fee =
      if not (lt nought stake_sol)
        || (not (le nought entry_real_sol) || not (le nought real_sol_now))
      then none
      else (let s = mul stake_sol (sub (of_nat 1) fee) in
          let v0 = add pumpfun_virtual_sol_offset entry_real_sol in
          let v1 = add pumpfun_virtual_sol_offset real_sol_now in
          let out = div (mul (mul v1 v1) s) (add (add (mul v0 v0) (mul v0 s)) (mul v1 s)) in
          some (mul out (sub (of_nat 1) fee)))

  unfoldable pub bonding_curve_floor_fraction : R → R → R
  unfolding bonding_curve_proceeds
  bonding_curve_floor_fraction entry_real_sol fee =
      elim (bonding_curve_proceeds (of_nat 1) entry_real_sol nought fee) [
        | none ↦ nought
        | some p ↦ p
      ]

pub data Venue : Type 0 where
  pumpfun raydium : Venue

unfoldable pub venue_of : Option Text → Option Venue
venue_of none = none
venue_of (some source) =
    if text_eq source (codes "pumpfun")
    then some pumpfun
    else (if text_eq source (codes "raydium") then some raydium else none)

pub record VenueProceeds (R : Type 0) : Type 0 where
  pub fn : ProceedsFn R
  pub entry_proceeds_sol : Option R
  pub model : Text

abbrev pub on_real_reserves : Text
on_real_reserves = codes "constant-product on real reserves"

abbrev pub on_real_reserves_unknown : Text
on_real_reserves_unknown = codes "constant-product on real reserves (venue unknown - fallback)"

abbrev pub on_the_curve : Text
on_the_curve = codes "bonding curve (virtual reserves = real + 30 SOL), 1% fee each way"

module _ {R : Type 0} ⦃n : Number R⦄ where
  open n use {mul, div}

  unfoldable pub proceeds_for : Venue → R → R → R → VenueProceeds R
  unfolding bonding_curve_proceeds constant_product_proceeds
  proceeds_for raydium stake_sol entry_real_sol fee = record {
    fn = constant_product_proceeds;
    entry_proceeds_sol = constant_product_proceeds entry_real_sol (div stake_sol entry_real_sol);
    model = on_real_reserves;
  }
  proceeds_for pumpfun stake_sol entry_real_sol fee = record {
    fn = λ real_sol_now fraction. bonding_curve_proceeds stake_sol entry_real_sol real_sol_now fee;
    entry_proceeds_sol = bonding_curve_proceeds stake_sol entry_real_sol entry_real_sol fee;
    model = on_the_curve;
  }

  -- The pricing at a venue that is known, or not.
  abbrev pub priced_at : Option Venue → R → R → Priced R
  priced_at (some pumpfun) entry_liquidity_sol pool_fraction =
      let stake = mul pool_fraction entry_liquidity_sol in
      let priced = proceeds_for pumpfun stake entry_liquidity_sol pumpfun_fee in
      record { fn = priced.fn; model = priced.model }
  priced_at (some raydium) entry_liquidity_sol pool_fraction = record {
    fn = constant_product_proceeds;
    model = on_real_reserves;
  }
  priced_at none entry_liquidity_sol pool_fraction = record {
    fn = constant_product_proceeds;
    model = on_real_reserves_unknown;
  }

  unfoldable pub venue_pricing : PricingFactory R
  unfolding proceeds_for venue_of constant_product_proceeds
  venue_pricing venue entry_liquidity_sol pool_fraction =
      priced_at (venue_of venue) entry_liquidity_sol pool_fraction
