-- ===== src/ExchangeRate/Slippage.antt =====
-- What the rate and the slippage check guarantee.
use lumigift_lumigift.Common.{
  ℕ, ◌+◌, ◌*◌, ◌≤◌, ◌<◌, ◌≡◌, ◌↔◌, ◌⊎◌, Bool, false, Option, none, some, arith, refl, inl, inr,
}
use lumigift_lumigift.ExchangeRate.{
  CachedRate, CacheAnswer, hit, get_exchange_rate, validate_slippage, valid, horizon, cache_ttl_ms,
}

-- A payment passes the slippage check exactly when a rate is locked and the current one lies within
-- one percent of it, above or below.
pub validate_slippage_iff :
    (locked : Option ℕ) (current : ℕ)
    → (validate_slippage locked current ≡ valid)
      ↔ ((l : ℕ) × (locked ≡ some l) × (100 * current ≤ 101 * l) × (99 * l ≤ 100 * current))
unfolding validate_slippage
validate_slippage_iff none current = (λ h. cc, λ h. cc)
validate_slippage_iff (some l) current =
    (λ h. (l, refl, ground arith, ground arith), λ (k, e, below, above). ground arith)

-- A rate that is positive in the cache and in the database is returned positive, whatever Horizon
-- answers; and a rate is reported as fresh only if it was cached less than five minutes ago or has
-- just come from Horizon.
pub get_exchange_rate_usable :
    (now : ℕ) (c : CacheAnswer) (answer : Option ℕ) (stored : Bool) (last : Option CachedRate)
    → ((r : CachedRate) → c ≡ hit r → 0 < r.rate)
    → ((r : CachedRate) → last ≡ some r → 0 < r.rate)
    → let x = get_exchange_rate now c answer stored last in
      (0 < x.ngn_per_usdc)
      × (x.stale ≡ false
          → (x.source ≡ horizon)
            ⊎ ((r : CachedRate) × (c ≡ hit r) × (now < r.timestamp + cache_ttl_ms)))
unfolding get_exchange_rate
get_exchange_rate_usable now (hit r) answer stored last h k =
    (h r refl, λ fresh. inr (r, refl, ground arith))
get_exchange_rate_usable now c answer stored none h k = (ground arith, λ fresh. inl (ground arith))
get_exchange_rate_usable now c answer stored (some r) h k =
    (ground (arith, k r refl), λ fresh. inl (ground arith))
