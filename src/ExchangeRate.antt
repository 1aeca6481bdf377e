-- ===== src/ExchangeRate.antt =====
-- The NGN/USDC rate (src/server/services/exchange-rate.service.ts). Rates are natural numbers in a
-- fixed unit; a rate locked in Redis and a current rate are in the same unit.
pub mod Slippage
use lumigift_lumigift.Common.{
  ℕ, ◌+◌, ◌-◌, ◌*◌, ◌/◌, Bool, true, false, Option, none, some, ltb, leb, ◌==◌, if◌then◌else◌,
}

pub data Source : Type 0 where
  cache horizon database fallback : Source

pub record ExchangeRateResult : Type 0 where
  pub ngn_per_usdc : ℕ
  pub stale : Bool
  pub source : Source
  pub cached_at : Option ℕ

pub record CachedRate : Type 0 where
  pub rate : ℕ
  pub timestamp : ℕ

-- What Redis holds under the cache key: nothing, a text that does not parse, or a rate.
pub data CacheAnswer : Type 0 where
  missing unparsable : CacheAnswer
  hit : CachedRate → CacheAnswer

abbrev pub cache_ttl_ms : ℕ
cache_ttl_ms = 300000

abbrev pub fallback_rate : ℕ
fallback_rate = 1600

-- `fetchFromHorizon`: the answer of Horizon, none where the request fails; a price of 0 is refused.
abbrev fetch_from_horizon : Option ℕ → Option ℕ
fetch_from_horizon none = none
fetch_from_horizon (some price) = if price == 0 then none else some price

-- After a failed fetch.
abbrev last_known : Option CachedRate → ExchangeRateResult
last_known (some row) = record {
  ngn_per_usdc = row.rate;
  stale = true;
  source = database;
  cached_at = some row.timestamp;
}
last_known none = record {
  ngn_per_usdc = fallback_rate;
  stale = true;
  source = fallback;
  cached_at = none;
}

-- The path of a cache miss; `stored` says whether Redis took the refreshed rate.
abbrev synchronous : ℕ → Option ℕ → Bool → Option CachedRate → ExchangeRateResult
synchronous now answer stored last = elim (fetch_from_horizon answer) [
  | none ↦ last_known last
  | some rate ↦
      if stored
      then record { ngn_per_usdc = rate; stale = false; source = horizon; cached_at = some now }
      else last_known last
]

-- `getExchangeRate`: with the cache's answer, and what Horizon, Redis and the database would answer.
unfoldable pub get_exchange_rate :
    ℕ → CacheAnswer → Option ℕ → Bool → Option CachedRate → ExchangeRateResult
get_exchange_rate now missing answer stored last = synchronous now answer stored last
get_exchange_rate now unparsable answer stored last = synchronous now answer stored last
get_exchange_rate now (hit c) answer stored last = record {
  ngn_per_usdc = c.rate;
  stale = leb cache_ttl_ms (now - c.timestamp);
  source = cache;
  cached_at = some c.timestamp;
}

pub data SlippageResult : Type 0 where
  valid rate_expired rate_deviated : SlippageResult

-- `Math.abs(a - b)`
abbrev pub abs_diff : ℕ → ℕ → ℕ
abs_diff a b = if ltb a b then b - a else a - b

-- `validateSlippage`: |current - locked| / locked * 100 > 1, without the division.
unfoldable pub validate_slippage : Option ℕ → ℕ → SlippageResult
validate_slippage none current = rate_expired
validate_slippage (some locked) current =
    if ltb (1 * locked) (abs_diff current locked * 100) then rate_deviated else valid
