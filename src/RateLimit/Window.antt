-- ===== src/RateLimit/Window.antt =====
-- How many requests the limiter lets through.
use lumigift_lumigift.Common.{
  ℕ, suc, ◌+◌, ◌-◌, ◌≤◌, ◌<◌, ◌≡◌, ◌≢◌, ap, ◌⊎◌, inl, inr, String, Bool, true, false, List, [], ◌∷◌,
  none, some, arith, if◌then◌else◌, length, All, leb, Bool-cases,
}
use lumigift_lumigift.Common.Dict.{Dict, get, set, get-set_self, get-set_ne}
use lumigift_lumigift.RateLimit.{Entry, rate_limit}

-- The number of requests of one key that pass, at the given times.
pub passed : String → ℕ → ℕ → List ℕ → Dict Entry → ℕ
passed key limit window_ms [] m = 0
passed key limit window_ms (t ∷ ts) m =
    let (m', pass) = rate_limit t key limit window_ms m in
    (if pass then 1 else 0) + passed key limit window_ms ts m'

abbrev pub min_of : ℕ → ℕ → ℕ
min_of a b = if leb a b then a else b

step_full :
    (t : ℕ) (key : String) (limit window_ms : ℕ) (m : Dict Entry) (e : Entry)
    → get key m ≡ some e
    → t ≤ e.reset_at
    → limit ≤ e.count
    → rate_limit t key limit window_ms m ≡ (m, false)
unfolding rate_limit
step_full t key limit window_ms m e found early full = ground arith

step_room :
    (t : ℕ) (key : String) (limit window_ms : ℕ) (m : Dict Entry) (e : Entry)
    → get key m ≡ some e
    → t ≤ e.reset_at
    → e.count < limit
    → rate_limit t key limit window_ms m ≡ (set key (record e { count = e.count + 1 }) m, true)
unfolding rate_limit
step_room t key limit window_ms m e found early room = ground arith

-- The state of a key that starts a new window at a time.
abbrev pub Starts : ℕ → String → Dict Entry → Type 0
Starts t key m = (get key m ≡ none) ⊎ ((e : Entry) × (get key m ≡ some e) × (e.reset_at < t))

step_start :
    (t : ℕ) (key : String) (limit window_ms : ℕ) (m : Dict Entry)
    → Starts t key m
    → rate_limit t key limit window_ms m
      ≡ (set key (record { count = 1; reset_at = t + window_ms }) m, true)
unfolding rate_limit
step_start t key limit window_ms m (inl missing) = ground arith
step_start t key limit window_ms m (inr (e, found, late)) = ground arith

passed-cons :
    (key : String) (limit window_ms t : ℕ) (ts : List ℕ) (m m' : Dict Entry) (b : Bool)
    → rate_limit t key limit window_ms m ≡ (m', b)
    → passed key limit window_ms (t ∷ ts) m
      ≡ (if b then 1 else 0) + passed key limit window_ms ts m'
unfolding passed
passed-cons key limit window_ms t ts m m' b e =
    ap (λ r. (if r.1 then 1 else 0) + passed key limit window_ms ts r.0) e

-- Within a window that is open: what the limit has left, or all of them.
passed_open :
    (key : String) (limit window_ms : ℕ) (ts : List ℕ) (m : Dict Entry) (e : Entry)
    → get key m ≡ some e
    → e.count ≤ limit
    → All (λ t. t ≤ e.reset_at) ts
    → passed key limit window_ms ts m ≡ min_of (limit - e.count) (length ts)
passed_open key limit window_ms [] m e found h a = unfold passed in ground arith
passed_open key limit window_ms (t ∷ ts) m e found h (a, as') =
    elim (Bool-cases (leb limit e.count)) [
      | inl full ↦
          let first =
            passed-cons key limit window_ms t ts m m false
              (step_full t key limit window_ms m e found a (ground arith)) in
          let rest = passed_open key limit window_ms ts m e found h as' in
          ground (arith, first, rest)
      | inr room ↦
          let e' : Entry = record e { count = e.count + 1 } in
          let first =
            passed-cons key limit window_ms t ts m (set key e' m) true
              (step_room t key limit window_ms m e found a (ground arith)) in
          let rest =
            passed_open key limit window_ms ts (set key e' m) e' (get-set_self key e' m)
              (ground arith) as' in
          ground (arith, first, rest)
    ]

-- From the first request of a window on, exactly as many requests of the key pass, up to the end of
-- the window, as the limit allows: all of them, or the limit if there are more (a limit of at least 1).
pub passed_in_window :
    (key : String) (limit window_ms t : ℕ) (ts : List ℕ) (m : Dict Entry)
    → 1 ≤ limit
    → Starts t key m
    → All (λ u. u ≤ t + window_ms) ts
    → passed key limit window_ms (t ∷ ts) m ≡ min_of limit (suc (length ts))
passed_in_window key limit window_ms t ts m positive starts a =
    let e : Entry = record { count = 1; reset_at = t + window_ms } in
    let first =
      passed-cons key limit window_ms t ts m (set key e m) true
        (step_start t key limit window_ms m starts) in
    let rest =
      passed_open key limit window_ms ts (set key e m) e (get-set_self key e m) positive a in
    ground (arith, first, rest)

-- A request of one key leaves the entry of every other key as it is.
pub rate_limit_other :
    (t : ℕ) (key other : String) (limit window_ms : ℕ) (m : Dict Entry)
    → key ≢ other
    → get other (rate_limit t key limit window_ms m).0 ≡ get other m
unfolding rate_limit
rate_limit_other t key other limit window_ms m ne = grind (arith, get-set_ne)
