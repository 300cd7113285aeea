-- ===== src/Spot/Losing.antt =====
-- What a sale that fails leaves of the ladder and of the cycle (src/trading/engine.ts).
use mathlib.Core.Option.{some-injective}
use opiumo.Base.{
  if_cases, lookup-set_self, ok, set, sym, Bool, [], arith, false, if◌then◌else◌, lookup, none, not,
  refl, some, subst, true, ◌&&◌, ◌++◌, ◌+◌, ◌==◌, ◌∷◌, ◌≡◌, List, Text, ℕ,
}
use opiumo.Number.{Number}
use opiumo.Spot.Engine.{
  act_on_ladder, mark_tier, record_failed, record_swap, Bot, Cycle, execute_exit, failed_once_more,
  save,
}
use opiumo.Spot.Records.{ladder_tier, ExitReason, SpotPosition, TakeProfitStep, TradingConfig}
use opiumo.Spot.Retry.{should_abandon_position}
use opiumo.Spot.Rules.{is_executed, next_tier}

module _ {R : Type 0} ⦃n : Number R⦄ where
  open n use {le}

  executed_snoc :
      (tiers : List R) (x y : R)
      → le x y ≡ true
      → le y x ≡ true
      → is_executed (tiers ++ (x ∷ [])) y ≡ true
  executed_snoc [] x y h k = ground (arith, h, k)
  executed_snoc (t ∷ ts) x y h k = ground (arith, executed_snoc ts x y h k)

  next_tier_not_executed :
      (multiple : R) (executed : List R) (ladder : List (TakeProfitStep R)) (t : TakeProfitStep R)
      → next_tier multiple executed ladder ≡ some t
      → is_executed executed t.at_multiple_of_entry ≡ false
  next_tier_not_executed multiple executed [] t e = absurd (ground (arith, e))
  next_tier_not_executed multiple executed (u ∷ us) t e =
      by_test
        (not (is_executed executed u.at_multiple_of_entry) && le u.at_multiple_of_entry multiple)
        refl e (next_tier_not_executed multiple executed us t)
    where
      by_test :
          (test : Bool)
          → (not (is_executed executed u.at_multiple_of_entry)
              && le u.at_multiple_of_entry multiple)
            ≡ test
          → (if test then some u else next_tier multiple executed us) ≡ some t
          → (next_tier multiple executed us ≡ some t
              → is_executed executed t.at_multiple_of_entry ≡ false)
          → is_executed executed t.at_multiple_of_entry ≡ false
      by_test true open_tier e rest =
          subst (λ x. is_executed executed x.at_multiple_of_entry ≡ false) (some-injective u t e)
            (ground (arith, open_tier))
      by_test false open_tier e rest = rest e

  -- What the file has of a position, without the record of its failures.
  abbrev pub IsUnsold : SpotPosition R → SpotPosition R → Type 0
  IsUnsold q p =
      (q.remaining_size_tokens ≡ p.remaining_size_tokens)
      × (q.highest_price_sol ≡ p.highest_price_sol)
      × (q.stop_loss_price_sol ≡ p.stop_loss_price_sol)
      × (q.sell_failure_count ≡ p.sell_failure_count + 1)

  failed_lookup :
      (c : TradingConfig R) (b : Bot R) (k : Text) (at : ℕ) (fresh : SpotPosition R)
      → lookup fresh.mint (record_failed c b k at (some fresh)).positions
        ≡ some (failed_once_more c fresh at)
  unfolding save should_abandon_position
  failed_lookup c b k at fresh = lookup-set_self fresh.mint (failed_once_more c fresh at) _

  failed_position :
      (c : TradingConfig R) (w : Cycle R) (b : Bot R) (p fresh : SpotPosition R) (price percent : R)
      (why : ExitReason)
      → lookup p.mint b.positions ≡ some fresh
      → fresh.mint ≡ p.mint
      → w.swap ≡ none
      → (w.share p.remaining_size_tokens percent == 0) ≡ false
      → lookup p.mint (execute_exit c w b p price percent why).positions
        ≡ some (failed_once_more c fresh w.failed_at)
  unfolding execute_exit
  failed_position c w b p fresh price percent why there own fails some_part =
      let amount = w.share p.remaining_size_tokens percent in
      let q = failed_once_more c fresh w.failed_at in
      if_cases (λ (x : Bot R). lookup p.mint x.positions ≡ some q) (amount == 0)
        (λ empty. absurd (ground (arith, empty, some_part)))
        (λ _.
          subst
            (λ o.
              lookup p.mint (record_swap c b p price amount why w.failed_at o).positions ≡ some q)
            (sym fails)
            (subst (λ o. lookup p.mint (record_failed c b p.mint w.failed_at o).positions ≡ some q)
              (sym there)
              (subst
                (λ k.
                  lookup k (record_failed c b p.mint w.failed_at (some fresh)).positions ≡ some q)
                own (failed_lookup c b p.mint w.failed_at fresh))))

  -- A ladder tier whose sale fails is lost: the file then has the position with every token that it
  -- had, with the highest price and the stop of the cycle before, and with one more failure; and
  -- yet, at whatever multiple and on whatever ladder, no tier at that multiple fires for it again.
  pub failed_tier_is_lost :
      (c : TradingConfig R) (w : Cycle R) (b : Bot R) (p fresh : SpotPosition R) (price : R)
      (tier : TakeProfitStep R)
      → lookup p.mint b.positions ≡ some fresh
      → fresh.mint ≡ p.mint
      → w.swap ≡ none
      → (w.share p.remaining_size_tokens tier.sell_percent_of_remaining == 0) ≡ false
      → (q : SpotPosition R) × (lookup p.mint
            (act_on_ladder c w b p price (ok (some tier))).positions
          ≡ some q)
        × IsUnsold q fresh
        × ((multiple : R) (ladder : List (TakeProfitStep R)) (t : TakeProfitStep R)
            → next_tier multiple q.executed_ladder_tiers ladder ≡ some t
            → (le tier.at_multiple_of_entry t.at_multiple_of_entry
                && le t.at_multiple_of_entry tier.at_multiple_of_entry)
              ≡ false)
  unfolding save should_abandon_position
  failed_tier_is_lost c w b p fresh price tier there own fails some_part =
      let after = execute_exit c w b p price tier.sell_percent_of_remaining ladder_tier in
      let failed = failed_once_more c fresh w.failed_at in
      let q : SpotPosition R = record failed {
        executed_ladder_tiers = fresh.executed_ladder_tiers ++ (tier.at_multiple_of_entry ∷ []);
      } in
      (
        q,
        subst (λ o. lookup p.mint (mark_tier after tier.at_multiple_of_entry o).positions ≡ some q)
            (sym (
              failed_position c w b p fresh price tier.sell_percent_of_remaining ladder_tier there
                own fails some_part))
            (subst (λ k. lookup k (set fresh.mint q after.positions) ≡ some q) own
              (lookup-set_self fresh.mint q after.positions)),
        (refl, refl, refl, refl),
        λ multiple ladder t e. ground (
          arith,
          next_tier_not_executed multiple q.executed_ladder_tiers ladder t e,
          executed_snoc fresh.executed_ladder_tiers tier.at_multiple_of_entry
              t.at_multiple_of_entry,
        ),
      )
