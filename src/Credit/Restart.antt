-- ===== src/Credit/Restart.antt =====
-- A restart resumes the tally.
use opiumo.Base.{Text, refl, true, ℕ, ◌≡◌}
use opiumo.Credit.Balance.{IsBalanced, load_ledger-stored, roll_to_same_day}
use opiumo.Credit.Breaker.{CreditBreaker, persist, start}
use opiumo.Credit.Ledger.{load_ledger, roll_to, stored, utc_day_key}
use opiumo.Platform.{Runtime, Value}

module _ {R : Type 0} (r : Runtime) (print : Value → Text) where
  -- A breaker with unsaved charges that writes its ledger, and a process that then starts from the
  -- file at any later instant: the new ledger is the old one rolled to that instant, override
  -- included, so that on the same day both periods keep their credits.
  pub start-persist :
      (b : CreditBreaker R) (now : ℕ)
      → b.dirty ≡ true
      → IsBalanced b.state
      → let s = (start r print b.config (persist r b).file now).state in
        (s ≡ roll_to r b.state now)
        × (b.state.day.key ≡ utc_day_key r now → (s.day ≡ b.state.day) × (s.month ≡ b.state.month))
  unfolding start persist
  start-persist b now d v =
      let same : load_ledger r print (stored b.state) now ≡ b.state =
        load_ledger-stored r print b.state now v.version_one in
      simp (d, same) (refl, λ e. roll_to_same_day r b.state now v e)
