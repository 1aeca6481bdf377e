-- ===== src/Gift/Defs.antt =====
-- The gift record (src/types/index.ts), the audit entry (src/server/services/audit.service.ts) and
-- the state that the gift service keeps: the in-memory map `gifts`, the audit rows that the database
-- accepted, and the requests that left the process.
use lumigift_lumigift.Common.{
  ℕ, String, Bool, true, false, List, [], ◌∷◌, ◌++◌, Option, none, some, ok, err, Action,
  if◌then◌else◌,
}
use lumigift_lumigift.Common.Dict.{Dict, set}
use lumigift_lumigift.Gift.Status.{GiftStatus}
use lumigift_lumigift.Fraud.{Reason, Severity}

pub data OccasionCategory : Type 0 where
  general birthday valentine anniversary graduation christmas : OccasionCategory

-- Times are milliseconds since the epoch. Amounts are whole naira; `amount_usdc` is a string.
pub record Gift : Type 0 where
  pub id : String
  pub sender_id : String
  pub recipient_phone_hash : String
  pub recipient_name : String
  pub recipient_email : Option String
  pub amount_ngn : ℕ
  pub amount_usdc : String
  pub message : Option String
  pub voice_note_url : Option String
  pub media_url : Option String
  pub unlock_at : ℕ
  pub status : GiftStatus
  pub occasion : OccasionCategory
  pub notify_at : Option ℕ
  pub contract_id : Option String
  pub stellar_tx_hash : Option String
  pub claim_tx_hash : Option String
  pub created_at : ℕ
  pub updated_at : ℕ
  pub deleted_at : Option ℕ

pub data AuditEventType : Type 0 where
  gift_created gift_cancelled gift_claimed gift_unlocked gift_expired : AuditEventType
  gift_deleted gift_funded gift_refunded payment_received payment_failed : AuditEventType
  payment_refunded user_registered otp_sent otp_verified : AuditEventType
  suspicious_login_reported : AuditEventType

-- A value of the metadata object.
pub data Value : Type 0 where
  text : String → Value
  num : ℕ → Value
  flag : Bool → Value

pub record AuditLogEntry : Type 0 where
  pub event_type : AuditEventType
  pub user_id : Option String
  pub gift_id : Option String
  pub amount_ngn : Option ℕ
  pub amount_usdc : Option String
  pub metadata : List (String × Value)

-- What is sent to other services: SMS, email, Paystack, the fraud table, Stellar.
pub data Outgoing : Type 0 where
  invitation_sms : String → Outgoing
  received_email : String → Outgoing
  claim_email : String → Outgoing
  claim_job : String → String → Outgoing
  expired_sms : String → Outgoing
  fraud_flag : String → Reason → Severity → Outgoing
  payment_request : String → ℕ → Outgoing
  refund_request : String → Outgoing
  usdc_payment : String → String → Outgoing

pub data Error : Type 0 where
  invalid_transition : GiftStatus → GiftStatus → Error
  limit_exceeded : Error
  database_error : Error
  phone_hash_collision : Error
  rate_unavailable : Error
  payment_unavailable : Error
  not_unlocked : Error
  invalid_account : Error
  already_claimed : Error
  escrow_error : Error
  queue_unavailable : Error
  gift_not_found : Error

pub record World : Type 0 where
  pub gifts : Dict Gift
  pub audit : List AuditLogEntry
  pub outgoing : List Outgoing

-- The time of a call, and whether the database takes an INSERT at that time.
pub record Env : Type 0 where
  pub now : ℕ
  pub db_up : Bool

-- `createAuditLog`: one INSERT, which throws if the database refuses it.
abbrev pub create_audit_log : Env → AuditLogEntry → Action World Error (Unit {0})
create_audit_log env entry w =
    if env.db_up
    then (record w { audit = w.audit ++ entry ∷ [] }, ok tt)
    else (w, err database_error)

-- `gifts.set(id, gift)`
abbrev pub save : String → Gift → Action World Error (Unit {0})
save id gift w = (record w { gifts = set id gift w.gifts }, ok tt)

abbrev pub send : Outgoing → Action World Error (Unit {0})
send o w = (record w { outgoing = w.outgoing ++ o ∷ [] }, ok tt)

-- `!gift.deletedAt`, and `gift.deletedAt != null`
abbrev pub is_active : Gift → Bool
is_active gift = elim gift.deleted_at [ none ↦ true | some t ↦ false ]
