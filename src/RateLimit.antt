-- ===== src/RateLimit.antt =====
-- The in-memory rate limiter (`rateLimit` of src/server/middleware/index.ts).
pub mod Window
use lumigift_lumigift.Common.{
  ℕ, ◌+◌, String, Bool, true, false, Option, none, some, ltb, leb, if◌then◌else◌,
}
use lumigift_lumigift.Common.Dict.{Dict, get, set}

pub record Entry : Type 0 where
  pub count : ℕ
  pub reset_at : ℕ

abbrev fresh : ℕ → ℕ → Entry
fresh now window_ms = record { count = 1; reset_at = now + window_ms }

rate_limit_entry : ℕ → String → ℕ → ℕ → Entry → Dict Entry → Dict Entry × Bool
rate_limit_entry now key limit window_ms entry m =
    if ltb entry.reset_at now
    then (set key (fresh now window_ms) m, true)
    else if leb limit entry.count
    then (m, false)
    else (set key (record entry { count = entry.count + 1 }) m, true)

-- `rateLimit`, at a time and over the map; true lets the request through.
unfoldable pub rate_limit : ℕ → String → ℕ → ℕ → Dict Entry → Dict Entry × Bool
unfolding rate_limit_entry
rate_limit now key limit window_ms m = elim (get key m) [
  | none ↦ (set key (fresh now window_ms) m, true)
  | some entry ↦ rate_limit_entry now key limit window_ms entry m
]
