-- ===== src/Gift/Create.antt =====
-- `createGift` of src/server/services/gift.service.ts: the daily limit, the checks, the gift, its
-- fraud review, the audit row, the invitation and the payment session.
use lumigift_lumigift.Common.{
  ℕ, zero, suc, ◌+◌, ◌*◌, String, Bool, not, ◌&&◌, List, [], ◌∷◌, Option, none, some, ok, err,
  Action, ◌>>=◌, ◌>>◌, return, throw, require, if◌then◌else◌, ltb, leb, ◌===◌, filter, sum_by,
}
use Prim.Native.String.{◌++◌ as concat}
use lumigift_lumigift.Common.Dict.{Dict, values}
use lumigift_lumigift.Fraud.{Reason, Severity, Counts, FraudCheckResult, check_gift_for_fraud}
use lumigift_lumigift.Phone.{detect_phone_hash_collision}
use lumigift_lumigift.Gift.Status.{pending_payment}
use lumigift_lumigift.Gift.Defs.{
  Gift, World, Env, Error, OccasionCategory, general, AuditLogEntry, gift_created, text, num, flag,
  limit_exceeded, database_error, phone_hash_collision, rate_unavailable, payment_unavailable,
  fraud_flag, invitation_sms, payment_request, received_email, create_audit_log, save, send,
}

pub record CreateGiftInput : Type 0 where
  pub recipient_phone : String
  pub recipient_name : String
  pub recipient_email : Option String
  pub amount_ngn : ℕ
  pub message : Option String
  pub voice_note_url : Option String
  pub unlock_at : ℕ
  pub occasion : Option OccasionCategory
  pub notify_at : Option ℕ
  pub payment_provider : String

-- The configured limit, SHA-256 of a phone number, and the removal of HTML tags from a text.
pub record Settings : Type 0 where
  pub daily_limit_ngn : ℕ
  pub hash_phone : String → String
  pub strip_html_tags : String → String

-- What the services answer during one call, none where a request throws: the amount in USDC, the
-- number of users with the recipient's hash, the counts of the fraud check, how many fraud flags
-- the database takes, whether the rate is locked and the invitation is made, and the payment's URL.
pub record Answers : Type 0 where
  pub amount_usdc : Option String
  pub users_with_hash : Option ℕ
  pub fraud_counts : Option Counts
  pub flags_taken : ℕ
  pub rate_locked : Bool
  pub invitation_made : Bool
  pub payment_url : Option String

-- `[...gifts.values()].filter(...).reduce(...)`: what the sender has sent since a time.
unfoldable pub sent_since : ℕ → String → Dict Gift → ℕ
sent_since start sender_id gifts =
    sum_by (λ g. g.amount_ngn)
      (filter (λ g. (g.sender_id === sender_id) && leb start g.created_at) (values gifts))

-- A call that returns a value or throws.
abbrev pub answered : {A : Type 0} → Option A → Error → Action World Error A
answered none e = throw e
answered (some a) e = return a

-- `input.message ? stripHtmlTags(input.message) : undefined`
abbrev filled : (String → String) → Option String → Option String
filled f none = none
filled f (some s) = if s === "" then none else some (f s)

abbrev pub check_hash : Option ℕ → Action World Error (Unit {0})
check_hash none = throw database_error
check_hash (some n) = elim (detect_phone_hash_collision n) [
  | ok known ↦ return tt
  | err e ↦ throw phone_hash_collision
]

unfoldable pub new_gift : Settings → ℕ → String → String → CreateGiftInput → String → Gift
new_gift s now id sender_id input amount_usdc = record {
  id = id;
  sender_id = sender_id;
  recipient_phone_hash = s.hash_phone input.recipient_phone;
  recipient_name = input.recipient_name;
  recipient_email = filled (λ e. e) input.recipient_email;
  amount_ngn = input.amount_ngn;
  amount_usdc = amount_usdc;
  message = filled s.strip_html_tags input.message;
  voice_note_url = input.voice_note_url;
  media_url = none;
  unlock_at = input.unlock_at;
  status = pending_payment;
  occasion = elim input.occasion [ none ↦ general | some o ↦ o ];
  notify_at = input.notify_at;
  contract_id = none;
  stellar_tx_hash = none;
  claim_tx_hash = none;
  created_at = now;
  updated_at = now;
  deleted_at = none;
}

-- The loop over the reasons, each an INSERT of which the database takes the first few.
unfoldable pub create_flags : ℕ → String → Severity → List Reason → Action World Error (Unit {0})
create_flags taken id severity [] = return tt
create_flags zero id severity (r ∷ rs) = throw database_error
create_flags (suc taken) id severity (r ∷ rs) = do
  send (fraud_flag id r severity)
  create_flags taken id severity rs

unfoldable pub review : Answers → FraudCheckResult → Gift → Action World Error (Unit {0})
unfolding create_flags
review a r gift =
    if r.flagged
    then (do
      create_flags a.flags_taken gift.id r.severity r.reasons
      save gift.id (record gift { status = pending_payment }))
    else return tt

unfoldable pub check_fraud :
    Answers → ℕ → Option ℕ → Gift → Option Counts → Action World Error (Unit {0})
unfolding review
check_fraud a now sender_created_at gift none = throw database_error
check_fraud a now sender_created_at gift (some c) =
    let since : ℕ = elim sender_created_at [ none ↦ 0 | some t ↦ t ] in
    review a (check_gift_for_fraud now since gift.amount_ngn c) gift

-- An invitation that fails is logged and passed over.
abbrev pub invite : Answers → Bool → String → Action World Error (Unit {0})
invite a recipient_is_registered phone =
    if not recipient_is_registered && a.invitation_made
    then send (invitation_sms phone)
    else return tt

abbrev pub email_recipient : Option String → Action World Error (Unit {0})
email_recipient none = return tt
email_recipient (some address) = if address === "" then return tt else send (received_email address)

abbrev pub creation_entry : CreateGiftInput → Bool → Gift → AuditLogEntry
creation_entry input recipient_is_registered gift = record {
  event_type = gift_created;
  user_id = some gift.sender_id;
  gift_id = some gift.id;
  amount_ngn = some gift.amount_ngn;
  amount_usdc = some gift.amount_usdc;
  metadata =
      ("recipientName", text input.recipient_name)
      ∷ ("unlockAt", num input.unlock_at)
      ∷ ("paymentProvider", text input.payment_provider)
      ∷ ("recipientIsRegistered", flag recipient_is_registered)
      ∷ [];
}

-- What follows once the gift is in the map.
unfoldable pub follow_up :
    Env → Answers → CreateGiftInput → Bool → Option ℕ → Gift → Action World Error (Gift × String)
unfolding check_fraud
follow_up env a input recipient_is_registered sender_created_at gift = do
  check_fraud a env.now sender_created_at gift a.fraud_counts
  require a.rate_locked rate_unavailable
  create_audit_log env (creation_entry input recipient_is_registered gift)
  invite a recipient_is_registered input.recipient_phone
  url ← answered a.payment_url payment_unavailable
  send (payment_request (concat "lumigift_" gift.id) (gift.amount_ngn * 100))
  email_recipient input.recipient_email
  return (gift, url)

unfoldable pub start_gift :
    Settings
    → Env
    → Answers
    → String
    → String
    → CreateGiftInput
    → Bool
    → Option ℕ
    → Action World Error (Gift × String)
unfolding follow_up new_gift
start_gift s env a id sender_id input recipient_is_registered sender_created_at = do
  amount_usdc ← answered a.amount_usdc rate_unavailable
  check_hash a.users_with_hash
  let gift : Gift = new_gift s env.now id sender_id input amount_usdc
  save id gift
  follow_up env a input recipient_is_registered sender_created_at gift

-- The check of the daily limit, before the first `await`.
abbrev pub over_limit : Settings → ℕ → String → ℕ → World → Bool
over_limit s today_start sender_id amount_ngn w =
    ltb s.daily_limit_ngn (sent_since today_start sender_id w.gifts + amount_ngn)

-- `createGift`, with the start of the day and the id that is drawn.
unfoldable pub create_gift :
    Settings
    → Env
    → ℕ
    → Answers
    → String
    → String
    → CreateGiftInput
    → Bool
    → Option ℕ
    → Action World Error (Gift × String)
unfolding start_gift sent_since
create_gift s env today_start a id sender_id input recipient_is_registered sender_created_at w =
    if over_limit s today_start sender_id input.amount_ngn w
    then (w, err limit_exceeded)
    else start_gift s env a id sender_id input recipient_is_registered sender_created_at w
