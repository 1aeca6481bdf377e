-- ===== src/Cancellation.antt =====
-- The DELETE handler of src/app/api/v1/gifts/[id]/route.ts, by which a sender cancels a gift and has
-- the payment refunded. The session and the schema of the id are arguments.
pub mod Refunds
pub mod InFlight
pub mod Access
use lumigift_lumigift.Common.{
  ℕ, String, Bool, true, false, not, ◌||◌, List, [], ◌∷◌, Option, none, some, Result, ok, err,
  Action, ◌>>=◌, ◌>>◌, continue, return, require, if◌then◌else◌, leb, ◌===◌,
}
use Prim.Native.String.{◌++◌ as concat}
use lumigift_lumigift.Gift.Status.{locked, pending_payment, cancelled, is_status, status_name}
use lumigift_lumigift.Gift.Defs.{
  Gift, World, Env, Error, AuditLogEntry, gift_deleted, text, num, payment_unavailable,
  refund_request, send, create_audit_log,
}
use lumigift_lumigift.Guards.Csrf.{Text, delete, Request, with_csrf, guarded}
use lumigift_lumigift.Gift.Service.{get_gift_by_id, cancel_gift, soft_delete_gift}

-- The gift object is the one in the map, so that its status is `cancelled` when the entry is built.
abbrev deletion_entry : String → Gift → AuditLogEntry
deletion_entry user_id gift = record {
  event_type = gift_deleted;
  user_id = some user_id;
  gift_id = some gift.id;
  amount_ngn = some gift.amount_ngn;
  amount_usdc = some gift.amount_usdc;
  metadata =
      ("status", text (status_name cancelled))
      ∷ ("recipientName", text gift.recipient_name)
      ∷ ("unlockAt", num gift.unlock_at)
      ∷ [];
}

-- The refund and what follows it; `refund_taken` is whether Paystack answers that it took the refund.
-- Where it does not, `refundPayment` throws and nothing is recorded.
unfoldable pub cancel_and_refund : Env → String → Bool → Gift → Action World Error ℕ
cancel_and_refund env user_id refund_taken gift = do
  require refund_taken payment_unavailable
  send (refund_request (concat "lumigift_" gift.id))
  cancel_gift env gift.id
  soft_delete_gift env gift.id
  create_audit_log env (deletion_entry user_id gift)
  return 200

unfoldable pub delete_found : Env → String → Bool → Gift → Action World Error ℕ
unfolding cancel_and_refund
delete_found env user_id refund_taken gift =
    if not (gift.sender_id === user_id)
    then return 403
    else if not (is_status gift.status locked || is_status gift.status pending_payment)
    then return 409
    else if leb gift.unlock_at env.now
    then return 409
    else cancel_and_refund env user_id refund_taken gift

-- `withErrorHandler`: an error becomes a 500.
abbrev pub answer_of : World × Result Error ℕ → World × ℕ
answer_of (w, ok n) = (w, n)
answer_of (w, err e) = (w, 500)

unfoldable pub delete_known : Env → String → Bool → Option Gift → World → World × ℕ
unfolding delete_found
delete_known env user_id refund_taken none w = (w, 404)
delete_known env user_id refund_taken (some gift) w =
    answer_of (delete_found env user_id refund_taken gift w)

-- `DELETE`, for the user of the session and the id that passes the schema; its status code.
unfoldable pub delete_gift : Env → Option String → Option String → Bool → World → World × ℕ
unfolding delete_known
delete_gift env none id refund_taken w = (w, 401)
delete_gift env (some user_id) none refund_taken w = (w, 400)
delete_gift env (some user_id) (some id) refund_taken w =
    delete_known env user_id refund_taken (get_gift_by_id id w) w

-- The route: the handler behind `withCsrf`, for a request with a header and a cookie.
unfoldable pub delete_route :
    Option (Text → Text)
    → Option Text
    → Option Text
    → Env
    → Option String
    → Option String
    → Bool
    → World
    → World × ℕ
delete_route hmac header cookie env user id refund_taken =
    guarded
      (with_csrf hmac env.now
        (record { method = delete; header_token = header; cookie_token = cookie }))
      (delete_gift env user id refund_taken)
