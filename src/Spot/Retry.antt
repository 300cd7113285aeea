-- ===== src/Spot/Retry.antt =====
-- src/trading/retry.ts: the wait after failed sales, and giving up.
use opiumo.Base.{
  arith, if◌then◌else◌, leb, none, refl, some, true, ℕ, ◌*◌, ◌+◌, ◌-◌, ◌==◌, ◌^◌, ◌↔◌, ◌≡◌, Bool,
  Option,
}

abbrev pub min_ℕ : ℕ → ℕ → ℕ
min_ℕ a b = if leb a b then a else b

-- `Math.min(baseMs * Math.pow(2, count - 1), maxMs)`
abbrev pub backoff_ms : ℕ → ℕ → ℕ → ℕ
backoff_ms count base_ms max_ms = min_ℕ (base_ms * 2 ^ (count - 1)) max_ms

unfoldable pub should_attempt_sell : ℕ → Option ℕ → ℕ → ℕ → ℕ → Bool
should_attempt_sell count none now base_ms max_ms = true
should_attempt_sell count (some failed_at) now base_ms max_ms =
    if count == 0 then true else leb (failed_at + backoff_ms count base_ms max_ms) now

unfoldable pub next_attempt_in_ms : ℕ → Option ℕ → ℕ → ℕ → ℕ → ℕ
next_attempt_in_ms count none now base_ms max_ms = 0
next_attempt_in_ms count (some failed_at) now base_ms max_ms =
    if count == 0 then 0 else failed_at + backoff_ms count base_ms max_ms - now

unfoldable pub should_abandon_position : ℕ → ℕ → Bool
should_abandon_position count max_failures = leb max_failures count

-- The wait that is announced is over exactly when a sale may be tried again.
pub next_attempt_in_ms_iff :
    (count : ℕ) (failed_at : Option ℕ) (now base_ms max_ms : ℕ)
    → (next_attempt_in_ms count failed_at now base_ms max_ms ≡ 0)
      ↔ (should_attempt_sell count failed_at now base_ms max_ms ≡ true)
unfolding next_attempt_in_ms should_attempt_sell
next_attempt_in_ms_iff count none now base_ms max_ms = (λ _. refl, λ _. refl)
next_attempt_in_ms_iff count (some t) now base_ms max_ms =
    (λ h. ground (arith, h), λ h. ground (arith, h))
