-- ===== src/Watchlist/Rounds.antt =====
-- The rounds and the whole runs of the watchlist (src/watchlist/watchlist.ts).
use opiumo.Base.{All, List}
use opiumo.Filters.Engine.{FiltersConfig}
use opiumo.Number.{Number}
use opiumo.Watchlist.Bounded.{IsSmall}
use opiumo.Watchlist.Policy.{WatchPolicyConfig}
use opiumo.Watchlist.Runtime.{Tracked, WatchlistConfig}

module _ {R : Type 0} ⦃n : Number R⦄ (c : WatchlistConfig) (policy : WatchPolicyConfig R)
    (f : FiltersConfig R) where
  abbrev pub AllSmall : List (Tracked R) → Type 0
  AllSmall ts = All (λ t. IsSmall c policy f t.entry) ts
