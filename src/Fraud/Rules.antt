-- ===== src/Fraud/Rules.antt =====
-- When a gift is flagged, and how severely.
use lumigift_lumigift.Common.{ℕ, ◌-◌, ◌≤◌, ◌<◌, ◌≡◌, ◌↔◌, ◌⊎◌, true, arith, length}
use lumigift_lumigift.Fraud.{medium, high, Counts, check_gift_for_fraud}

-- What makes a gift highly suspicious.
abbrev pub Suspicious : ℕ → Counts → Type 0
Suspicious age c =
    (5 ≤ c.to_recipient) ⊎ (((age < 3600000) × (3 ≤ c.last_day)) ⊎ (3 ≤ c.last_minutes))

-- A gift is flagged exactly when it is above 500,000 naira, or the sender has five gifts to the
-- recipient in a day, or an account younger than an hour with three gifts, or three gifts in ten
-- minutes. The severity is high exactly when one of the last three holds, medium exactly when only
-- the amount is above, and there are at most four reasons.
pub check_gift_for_fraud_lem :
    (now created amount : ℕ) (c : Counts)
    → let r = check_gift_for_fraud now created amount c in
      let age : ℕ = now - created in
      ((r.flagged ≡ true) ↔ ((500000 < amount) ⊎ Suspicious age c))
      × ((r.severity ≡ high) ↔ Suspicious age c)
      × ((r.severity ≡ medium) ↔ ((500000 < amount) × (Suspicious age c → ⊥)))
      × (length r.reasons ≤ 4)
unfolding check_gift_for_fraud
check_gift_for_fraud_lem now created amount c = (
  (λ h. ground arith, λ h. ground arith),
  (λ h. ground arith, λ h. ground arith),
  (λ h. (ground arith, λ x. ground arith), λ (h, n). ground arith),
  ground arith,
)
