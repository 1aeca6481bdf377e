-- ===== src/Cancellation/Access.antt =====
-- Who can cancel a gift.
use lumigift_lumigift.Common.{
  ℕ, ◌<◌, ◌≡◌, refl, ◌⊎◌, inl, inr, String, Bool, true, false, ◌||◌, Option, none, some, Result, ok,
  err, leb, ◌===◌, arith, eq_iff, Bool-cases, Option-cases,
}
use lumigift_lumigift.Gift.Status.{locked, pending_payment, is_status, is_status_iff}
use lumigift_lumigift.Gift.Defs.{Gift, World, Env, Error}
use lumigift_lumigift.Gift.Service.{get_gift_by_id}
use lumigift_lumigift.Guards.Csrf.{
  Text, delete, Request, Verdict, pass, csrf_missing, csrf_invalid, with_csrf, guarded,
}
use lumigift_lumigift.Guards.Csrf.Tokens.{IsHex}
use lumigift_lumigift.Guards.Csrf.Admission.{Admitted, with_csrf-Admitted}
use lumigift_lumigift.Cancellation.{
  cancel_and_refund, delete_found, answer_of, delete_known, delete_gift, delete_route,
}

-- The gift is the user's own, is paid for or waits for its payment, and is not due yet.
pub record IsCancellable (env : Env) (user : String) (g : Gift) : Type 0 where
  pub own : g.sender_id ≡ user
  pub open_status : (g.status ≡ locked) ⊎ (g.status ≡ pending_payment)
  pub not_due : env.now < g.unlock_at

-- A call of the handler that changes anything: a signed-in user who may cancel the gift that was
-- found, and a refund that Paystack took.
pub record Cancels (env : Env) (user id : Option String) (refund_taken : Bool) (w : World)
    : Type 0 where
  pub name : String
  pub gift_id : String
  pub gift : Gift
  pub signed_in : user ≡ some name
  pub asked : id ≡ some gift_id
  pub found : get_gift_by_id gift_id w ≡ some gift
  pub cancellable : IsCancellable env name gift
  pub refunded : refund_taken ≡ true

status-or :
    (g : Gift)
    → (is_status g.status locked || is_status g.status pending_payment) ≡ true
    → (g.status ≡ locked) ⊎ (g.status ≡ pending_payment)
status-or g h =
    ground (arith, is_status_iff g.status locked, is_status_iff g.status pending_payment)

answer_of-world : {w : World} (r : World × Result Error ℕ) → r.0 ≡ w → (answer_of r).0 ≡ w
answer_of-world (w', ok n) h = h
answer_of-world (w', err e) h = h

delete_found-cases :
    (env : Env) (user : String) (taken : Bool) (g : Gift) (w : World)
    → ((delete_found env user taken g w).0 ≡ w) ⊎ (IsCancellable env user g × (taken ≡ true))
unfolding delete_found cancel_and_refund
delete_found-cases env user false g w = inl (ground arith)
delete_found-cases env user true g w = elim (Bool-cases (g.sender_id === user)) [
  | inr foreign ↦ inl (ground arith)
  | inl own ↦ elim (Bool-cases (is_status g.status locked || is_status g.status pending_payment)) [
    | inr refused ↦ inl (ground arith)
    | inl refundable ↦ elim (Bool-cases (leb g.unlock_at env.now)) [
      | inl late ↦ inl (ground arith)
      | inr early ↦ inr (
        record {
          own = (eq_iff g.sender_id user).0 own;
          open_status = status-or g refundable;
          not_due = ground arith;
        },
        refl,
      )
    ]
  ]
]

delete_gift-cases :
    (env : Env) (user id : Option String) (taken : Bool) (w : World)
    → ((delete_gift env user id taken w).0 ≡ w) ⊎ Cancels env user id taken w
unfolding delete_gift delete_known
delete_gift-cases env none id taken w = inl refl
delete_gift-cases env (some u) none taken w = inl refl
delete_gift-cases env (some u) (some k) taken w = elim (Option-cases (get_gift_by_id k w)) [
  | inl missing ↦ inl (rw missing refl)
  | inr (g, found) ↦ elim (delete_found-cases env u taken g w) [
    | inl same ↦ inl (rw found (answer_of-world (delete_found env u taken g w) same))
    | inr (may, refunded) ↦ inr (record {
      name = u;
      gift_id = k;
      gift = g;
      signed_in = refl;
      asked = refl;
      found = found;
      cancellable = may;
      refunded = refunded;
    })
  ]
]

-- A request to delete a gift changes nothing, unless it carries one token, authentic under the
-- configured secret and not stale, both in its header and in its cookie, and comes from a signed-in
-- user for a gift that is found, that is the user's own, is locked or waits for its payment and is
-- not due yet, and Paystack takes the refund. HMACs are hexadecimal.
pub delete_route_changes :
    (hmac : Option (Text → Text)) (header cookie : Option Text) (env : Env)
    (user id : Option String) (refund_taken : Bool) (w : World)
    → ((key : Text → Text) → hmac ≡ some key → (m : Text) → IsHex (key m))
    → ((delete_route hmac header cookie env user id refund_taken w).0 ≡ w)
      ⊎ (Admitted hmac env.now
            (record { method = delete; header_token = header; cookie_token = cookie })
          × Cancels env user id refund_taken w)
unfolding delete_route
delete_route_changes hmac header cookie env user id taken w hex =
    by_verdict (with_csrf hmac env.now req) refl
  where
    req : Request
    req = record { method = delete; header_token = header; cookie_token = cookie }

    by_verdict :
        (v : Verdict)
        → with_csrf hmac env.now req ≡ v
        → ((guarded v (delete_gift env user id taken) w).0 ≡ w)
          ⊎ (Admitted hmac env.now req × Cancels env user id taken w)
    by_verdict csrf_missing e = inl refl
    by_verdict csrf_invalid e = inl refl
    by_verdict pass e = elim (delete_gift-cases env user id taken w) [
      | inl same ↦ inl same
      | inr cancels ↦ inr (with_csrf-Admitted hmac env.now req hex refl e, cancels)
    ]
