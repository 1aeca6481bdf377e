-- ===== src/Payments/Routes.antt =====
-- The payment routes keep a gift waiting for its payment.
use lumigift_lumigift.Common.{
  String, Bool, true, false, ◌≡◌, ◌≢◌, refl, sym, subst, inl, inr, Option, none, some, Result, ok,
  err, continue, return, if◌then◌else◌, ◌===◌, not, Bool-cases,
}
use lumigift_lumigift.Gift.Status.{GiftStatus, pending_payment, funded, locked}
use lumigift_lumigift.Gift.Defs.{World, Env, Error}
use lumigift_lumigift.Gift.Service.{update_gift_status}
use lumigift_lumigift.ExchangeRate.{SlippageResult, valid, rate_expired, rate_deviated}
use lumigift_lumigift.Payments.{
  Body, invalid_json, invalid_shape, event, PaystackEvent, Verified, success, failed, pending,
  Reply, StripeEvent, session_completed, payment_failed, other_event, MarkAnswer, paystack_webhook,
  paystack_callback, stripe_webhook, status, after_verify, handle_body, handle_event, catch_500,
  stripe_event, update_if,
}
use lumigift_lumigift.Payments.Pending.{Waits, update-Waits, continue-Waits, update_if-Waits}

-- An update of a status other than `funded`, and a reply.
update_reply :
    (env : Env) (k id : String) (s : GiftStatus) (r : Reply) (w : World)
    → s ≢ funded
    → Waits id w.gifts
    → Waits id (continue {B = Reply} (update_gift_status env k s w) (λ x. return r)).0.gifts
update_reply env k id s r w ne h =
    continue-Waits id (update_gift_status env k s w) _ (update-Waits env k id s w ne h)
      (λ x v hv. hv)

handle_event-Waits :
    (env : Env) (seen : Bool) (e : PaystackEvent) (id : String) (w : World)
    → Waits id w.gifts
    → Waits id (handle_event env seen e w).0.gifts
handle_event-Waits env true e id w h = h
handle_event-Waits env false e id w h = elim (Bool-cases (e.event === "charge.success")) [
  | inl charge ↦ rw charge (
      continue-Waits id (update_if env e.gift_id locked w) _
        (update_if-Waits env e.gift_id id locked w (λ q. cc) h) (λ r v hv. hv))
  | inr other ↦ rw other h
]

pub paystack-Waits :
    (hmac : String → String) (parse : String → Body) (env : Env) (seen : Bool) (sig : Option String)
    (raw id : String) (w : World)
    → Waits id w.gifts
    → Waits id (paystack_webhook hmac parse env seen sig raw w).0.gifts
unfolding paystack_webhook
paystack-Waits hmac parse env seen none raw id w h = h
paystack-Waits hmac parse env seen (some s) raw id w h = elim (Bool-cases (s === "")) [
  | inl empty ↦ rw empty h
  | inr present ↦ rw present (elim (Bool-cases (s === hmac raw)) [
    | inl genuine ↦ rw genuine (body (parse raw))
    | inr forged ↦ rw forged h
  ])
]
  where
    body : (b : Body) → Waits id (handle_body env seen b w).0.gifts
    body invalid_json = h
    body invalid_shape = h
    body (event e) = handle_event-Waits env seen e id w h

after_verify-Waits :
    (env : Env) (k id : String) (slippage : SlippageResult) (v : Verified) (w : World)
    → Waits id w.gifts
    → Waits id (after_verify env k slippage v w).0.gifts
after_verify-Waits env k id valid success w h = update_reply env k id locked _ w (λ q. cc) h
after_verify-Waits env k id rate_expired success w h =
    update_reply env k id pending_payment _ w (λ q. cc) h
after_verify-Waits env k id rate_deviated success w h =
    update_reply env k id pending_payment _ w (λ q. cc) h
after_verify-Waits env k id slippage failed w h =
    update_reply env k id pending_payment _ w (λ q. cc) h
after_verify-Waits env k id slippage pending w h =
    update_reply env k id pending_payment _ w (λ q. cc) h

catch_500-world : (r : World × Result Error Reply) → (catch_500 r).0 ≡ r.0
catch_500-world (w, ok r) = refl
catch_500-world (w, err e) = refl

pub callback-Waits :
    (env : Env) (k : Option String) (answer : Option Verified) (slippage : SlippageResult)
    (id : String) (w : World)
    → Waits id w.gifts
    → Waits id (paystack_callback env k answer slippage w).0.gifts
unfolding paystack_callback
callback-Waits env none answer slippage id w h = h
callback-Waits env (some k) none slippage id w h = h
callback-Waits env (some k) (some v) slippage id w h =
    subst (λ u. Waits id u.gifts) (sym (catch_500-world (after_verify env k slippage v w)))
      (after_verify-Waits env k id slippage v w h)

stripe_event-Waits :
    (env : Env) (seen : Bool) (m : MarkAnswer) (e : Option StripeEvent) (id : String) (w : World)
    → Waits id w.gifts
    → Waits id (stripe_event env seen m e w).0.gifts
stripe_event-Waits env seen m none id w h = h
stripe_event-Waits env true m (some e) id w h = h
stripe_event-Waits env false m (some (session_completed k)) id w h =
    update_if-Waits env k id locked w (λ q. cc) h
stripe_event-Waits env false m (some payment_failed) id w h = h
stripe_event-Waits env false m (some other_event) id w h = h

pub stripe-Waits :
    (env : Env) (sig : Option String) (configured : Bool) (e : Option StripeEvent) (seen : Bool)
    (m : MarkAnswer) (id : String) (w : World)
    → Waits id w.gifts
    → Waits id (stripe_webhook env sig configured e seen m w).0.gifts
unfolding stripe_webhook
stripe-Waits env none configured e seen m id w h = h
stripe-Waits env (some s) configured e seen m id w h = elim (Bool-cases (s === "")) [
  | inl empty ↦ rw empty h
  | inr present ↦ rw present (by_secret configured)
]
  where
    by_secret :
        (c : Bool)
        → Waits id (if not c then (w, (status 500, false)) else stripe_event env seen m e w).0.gifts
    by_secret true = stripe_event-Waits env seen m e id w h
    by_secret false = h
