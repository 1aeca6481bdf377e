-- ===== src/Payments.antt =====
-- The payment routes: the Paystack webhook (src/app/api/v1/payments/route.ts), the Paystack callback
-- (src/app/api/v1/payments/callback/route.ts) and the Stripe webhook
-- (src/app/api/v1/payments/stripe/webhook/route.ts). Signatures, JSON, schemas and the answers of
-- Paystack, Stripe and Redis are arguments.
pub mod Pending
pub mod Routes
use lumigift_lumigift.Common.{
  ℕ, suc, String, Bool, true, false, not, List, [], ◌∷◌, ◌++◌, Option, none, some, Result, ok, err,
  Action, ◌>>=◌, ◌>>◌, continue, return, throw, require, if◌then◌else◌, ◌===◌,
}
use lumigift_lumigift.Gift.Status.{GiftStatus, locked, pending_payment}
use lumigift_lumigift.Gift.Defs.{World, Env, Error}
use lumigift_lumigift.Gift.Service.{update_gift_status}
use lumigift_lumigift.ExchangeRate.{SlippageResult, valid, rate_expired, rate_deviated}

-- What a route answers: a status code, or a redirect to a page.
pub data Page : Type 0 where
  bad_callback success_page failed_page expired_page slippage_page : Page

pub data Reply : Type 0 where
  status : ℕ → Reply
  redirect : Page → Reply

-- The reply, and whether the route marks the reference or event as processed.
abbrev pub Marked : Type 0
Marked = Reply × Bool

-- `if (giftId) await updateGiftStatus(giftId, status)`
abbrev pub update_if : Env → Option String → GiftStatus → Action World Error (Unit {0})
update_if env none s = return tt
update_if env (some id) s =
    if id === "" then return tt else (do update_gift_status env id s; return tt)

pub record PaystackEvent : Type 0 where
  pub event : String
  pub reference : String
  pub gift_id : Option String

-- The body after `JSON.parse` and the schema.
pub data Body : Type 0 where
  invalid_json invalid_shape : Body
  event : PaystackEvent → Body

-- `verifySignature`; the HMAC of the raw body under the secret key is an argument.
abbrev pub verify_signature : (String → String) → String → String → Bool
verify_signature hmac raw_body signature = signature === hmac raw_body

abbrev handle_event : Env → Bool → PaystackEvent → Action World Error Marked
handle_event env seen e = if seen then return (status 200, false) else (do
  if e.event === "charge.success" then update_if env e.gift_id locked else return tt
  return (status 200, true))

abbrev handle_body : Env → Bool → Body → Action World Error Marked
handle_body env seen invalid_json = return (status 400, false)
handle_body env seen invalid_shape = return (status 400, false)
handle_body env seen (event e) = handle_event env seen e

-- The Paystack webhook: `seen` is whether Redis holds the reference. It throws where
-- `updateGiftStatus` throws, which ends the request before the reference is marked.
unfoldable pub paystack_webhook :
    (String → String)
    → (String → Body)
    → Env
    → Bool
    → Option String
    → String
    → Action World Error Marked
paystack_webhook hmac parse env seen none raw_body = return (status 401, false)
paystack_webhook hmac parse env seen (some signature) raw_body =
    if signature === ""
    then return (status 401, false)
    else if not (verify_signature hmac raw_body signature)
    then return (status 401, false)
    else handle_body env seen (parse raw_body)

-- `verifyPayment`
pub data Verified : Type 0 where
  success failed pending : Verified

abbrev slippage_page_of : SlippageResult → Page
slippage_page_of rate_expired = expired_page
slippage_page_of _ = slippage_page

abbrev is_valid : SlippageResult → Bool
is_valid valid = true
is_valid _ = false

-- The callback once Paystack has answered.
abbrev after_verify : Env → String → SlippageResult → Verified → Action World Error Reply
after_verify env id slippage success =
    if is_valid slippage
    then (do update_gift_status env id locked; return (redirect success_page))
    else (do
      update_gift_status env id pending_payment
      return (redirect (slippage_page_of slippage)))
after_verify env id slippage _ = do
  update_gift_status env id pending_payment
  return (redirect failed_page)

-- `withErrorHandler`: an error becomes a 500.
abbrev pub catch_500 : World × Result Error Reply → World × Reply
catch_500 (w, ok r) = (w, r)
catch_500 (w, err e) = (w, status 500)

-- The callback: the gift id of a query that passes the schema, Paystack's answer (none where the
-- request fails) and the slippage check's.
unfoldable pub paystack_callback :
    Env → Option String → Option Verified → SlippageResult → World → World × Reply
paystack_callback env none answer slippage w = (w, redirect bad_callback)
paystack_callback env (some id) none slippage w = (w, status 500)
paystack_callback env (some id) (some v) slippage w = catch_500 (after_verify env id slippage v w)

pub data StripeEvent : Type 0 where
  session_completed : Option String → StripeEvent
  payment_failed : StripeEvent
  other_event : StripeEvent

abbrev stripe_switch : Env → StripeEvent → Action World Error (Unit {0})
stripe_switch env (session_completed gift_id) = update_if env gift_id locked
stripe_switch env payment_failed = return tt
stripe_switch env other_event = return tt

-- The two writes that mark an event, to the database and to Redis; either may fail.
pub record MarkAnswer : Type 0 where
  pub row_taken : Bool
  pub key_taken : Bool

abbrev mark_event : MarkAnswer → Result Error (Unit {0}) → Marked
mark_event m (err e) = (status 500, false)
mark_event m (ok r) =
    if m.row_taken
    then (if m.key_taken then (status 200, true) else (status 500, true))
    else (status 500, false)

abbrev stripe_event : Env → Bool → MarkAnswer → Option StripeEvent → World → World × Marked
stripe_event env seen m none w = (w, (status 400, false))
stripe_event env seen m (some e) w =
    if seen
    then (w, (status 200, false))
    else (let (w', r) = stripe_switch env e w in (w', mark_event m r))

-- The Stripe webhook: the signature header, whether the webhook secret is configured, the event that
-- Stripe's library constructs (none where the signature is wrong), and whether the database has it.
unfoldable pub stripe_webhook :
    Env → Option String → Bool → Option StripeEvent → Bool → MarkAnswer → World → World × Marked
stripe_webhook env none configured e seen m w = (w, (status 400, false))
stripe_webhook env (some sig) configured e seen m w =
    if sig === ""
    then (w, (status 400, false))
    else if not configured
    then (w, (status 500, false))
    else stripe_event env seen m e w
