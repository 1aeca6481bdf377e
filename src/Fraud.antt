-- ===== src/Fraud.antt =====
-- The fraud rules of src/server/services/fraud.service.ts. The counts come from the database.
pub mod Rules
pub mod Flags
use lumigift_lumigift.Common.{
  ℕ, ◌+◌, ◌-◌, ◌*◌, Bool, true, false, not, List, [], ◌∷◌, ◌++◌, ltb, leb, if◌then◌else◌,
}

pub data Severity : Type 0 where
  low medium high : Severity

-- The reasons, with the numbers that their texts show.
pub data Reason : Type 0 where
  many_to_recipient : ℕ → Reason
  large_amount : ℕ → Reason
  new_account : ℕ → ℕ → Reason
  rapid_creation : ℕ → Reason

pub record FraudCheckResult : Type 0 where
  pub flagged : Bool
  pub reasons : List Reason
  pub severity : Severity

-- The gifts of the sender: to the same recipient in 24 hours, in 24 hours, and in 10 minutes.
pub record Counts : Type 0 where
  pub to_recipient : ℕ
  pub last_day : ℕ
  pub last_minutes : ℕ

abbrev pub is_high : Severity → Bool
is_high high = true
is_high _ = false

-- The reasons so far and the severity; each rule may add a reason.
abbrev Finding : Type 0
Finding = List Reason × Severity

recipient_rule : Counts → Finding → Finding
recipient_rule c (rs, s) =
    if leb 5 c.to_recipient then (rs ++ many_to_recipient c.to_recipient ∷ [], high) else (rs, s)

amount_rule : ℕ → Finding → Finding
amount_rule amount_ngn (rs, s) =
    if ltb 500000 amount_ngn
    then (rs ++ large_amount amount_ngn ∷ [], if is_high s then high else medium)
    else (rs, s)

-- The age is in milliseconds; the code compares it in hours.
account_rule : ℕ → Counts → Finding → Finding
account_rule age c (rs, s) =
    if ltb age 3600000
    then (if leb 3 c.last_day then (rs ++ new_account age (c.last_day + 1) ∷ [], high) else (rs, s))
    else (rs, s)

rapid_rule : Counts → Finding → Finding
rapid_rule c (rs, s) =
    if leb 3 c.last_minutes then (rs ++ rapid_creation c.last_minutes ∷ [], high) else (rs, s)

abbrev is_some_reason : List Reason → Bool
is_some_reason [] = false
is_some_reason (r ∷ rs) = true

-- `checkGiftForFraud`, at a time, for an account created at a time.
unfoldable pub check_gift_for_fraud : ℕ → ℕ → ℕ → Counts → FraudCheckResult
unfolding recipient_rule amount_rule account_rule rapid_rule
check_gift_for_fraud now user_created_at amount_ngn c =
    let (reasons, severity) = rapid_rule c (
      account_rule (now - user_created_at) c
        (amount_rule amount_ngn (recipient_rule c ([], low)))) in
    record { flagged = is_some_reason reasons; reasons = reasons; severity = severity }
