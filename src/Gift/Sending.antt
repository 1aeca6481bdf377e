-- ===== src/Gift/Sending.antt =====
-- What creating gifts does to the store, and the daily limit over the calls of a day.
use lumigift_lumigift.Common.{
  ℕ, zero, suc, ◌+◌, ◌*◌, ◌≤◌, ◌≡◌, ◌⊎◌, inl, inr, refl, ap, ◌∙◌, String, Bool, true, false, List,
  [], ◌∷◌, Option, none, some, Result, ok, err, Action, ◌>>=◌, ◌>>◌, continue, return, require, ltb,
  arith, Bool-cases, Option-cases,
}
use Prim.Native.String.{◌++◌ as concat}
use lumigift_lumigift.Common.Dict.{Dict, set, set-set}
use lumigift_lumigift.Fraud.{Reason, Severity, Counts, FraudCheckResult}
use lumigift_lumigift.Phone.{detect_phone_hash_collision}
use lumigift_lumigift.Gift.Status.{pending_payment}
use lumigift_lumigift.Gift.Defs.{
  Gift, World, AuditLogEntry, Env, Error, payment_request, rate_unavailable, payment_unavailable,
  limit_exceeded, database_error, phone_hash_collision, send, save, create_audit_log,
}
use lumigift_lumigift.Gift.Create.{
  CreateGiftInput, Settings, Answers, sent_since, new_gift, answered, create_flags, review,
  check_fraud, invite, creation_entry, email_recipient, follow_up, start_gift, create_gift,
}

-- An action that leaves the map as it is.
abbrev Keeps : {A : Type 0} → Action World Error A → Type 0
Keeps m = (w : World) → (m w).0.gifts ≡ w.gifts

Keeps-continue :
    {A B : Type 0} (m : Action World Error A) (k : A → Action World Error B)
    → Keeps m
    → ((a : A) → Keeps (k a))
    → Keeps (m >>= k)
Keeps-continue m k h hk w = after (m w) ∙ h w
  where
    after : (r : World × Result Error _) → (continue r k).0.gifts ≡ r.0.gifts
    after (w', ok a) = hk a w'
    after (w', err e) = refl

create_flags-Keeps :
    (n : ℕ) (id : String) (s : Severity) (rs : List Reason) → Keeps (create_flags n id s rs)
unfolding create_flags
create_flags-Keeps n id s [] w = refl
create_flags-Keeps zero id s (r ∷ rs) w = refl
create_flags-Keeps (suc n) id s (r ∷ rs) w = create_flags-Keeps n id s rs _

-- Where the gift is stored already, writing it again changes nothing.
abbrev Stored : Gift → Dict Gift → World → Type 0
Stored gift d w = w.gifts ≡ set gift.id gift d

same_status :
    (gift : Gift) → gift.status ≡ pending_payment → record gift { status = pending_payment } ≡ gift
same_status gift p = ground arith

save-Stored :
    (gift : Gift) (d : Dict Gift) (w : World)
    → gift.status ≡ pending_payment
    → Stored gift d w
    → Stored gift d (save gift.id (record gift { status = pending_payment }) w).0
save-Stored gift d w p h =
    ap (λ g. set gift.id g w.gifts) (same_status gift p)
    ∙ ap (set gift.id gift) h
    ∙ set-set gift.id gift gift d

review-Stored :
    (a : Answers) (r : FraudCheckResult) (gift : Gift) (d : Dict Gift) (w : World)
    → gift.status ≡ pending_payment
    → Stored gift d w
    → Stored gift d (review a r gift w).0
unfolding review
review-Stored a r gift d w p h = elim (Bool-cases r.flagged) [
  | inl suspect ↦ rw suspect (
      after (create_flags a.flags_taken gift.id r.severity r.reasons w)
        (create_flags-Keeps a.flags_taken gift.id r.severity r.reasons w ∙ h))
  | inr clear ↦ rw clear h
]
  where
    after :
        (x : World × Result Error (Unit {0}))
        → Stored gift d x.0
        → Stored gift d
            (continue x (λ _. save gift.id (record gift { status = pending_payment }))).0
    after (w', ok t) h' = save-Stored gift d w' p h'
    after (w', err e) h' = h'

check_fraud-Stored :
    (a : Answers) (now : ℕ) (since : Option ℕ) (gift : Gift) (c : Option Counts) (d : Dict Gift)
    (w : World)
    → gift.status ≡ pending_payment
    → Stored gift d w
    → Stored gift d (check_fraud a now since gift c w).0
unfolding check_fraud
check_fraud-Stored a now since gift none d w p h = h
check_fraud-Stored a now since gift (some c) d w p h = review-Stored a _ gift d w p h

-- The steps after the fraud check keep the map.
send_off : Env → Answers → CreateGiftInput → Bool → Gift → Action World Error (Gift × String)
send_off env a input registered gift = do
  require a.rate_locked rate_unavailable
  create_audit_log env (creation_entry input registered gift)
  invite a registered input.recipient_phone
  url ← answered a.payment_url payment_unavailable
  send (payment_request (concat "lumigift_" gift.id) (gift.amount_ngn * 100))
  email_recipient input.recipient_email
  return (gift, url)

answered-Keeps : {A : Type 0} (o : Option A) (e : Error) → Keeps (answered o e)
answered-Keeps none e w = refl
answered-Keeps (some a) e w = refl

require-Keeps : (b : Bool) (e : Error) → Keeps (require b e)
require-Keeps true e w = refl
require-Keeps false e w = refl

email-Keeps : (o : Option String) → Keeps (email_recipient o)
email-Keeps none w = refl
email-Keeps (some s) w = ground arith

audit-Keeps : (env : Env) (entry : AuditLogEntry) → Keeps (create_audit_log env entry)
audit-Keeps env entry w = ground arith

invite-Keeps :
    (a : Answers) (registered : Bool) (phone : String) → Keeps (invite a registered phone)
invite-Keeps a registered phone w = ground arith

send_off-Keeps :
    (env : Env) (a : Answers) (input : CreateGiftInput) (registered : Bool) (gift : Gift)
    → Keeps (send_off env a input registered gift)
unfolding send_off
send_off-Keeps env a input registered gift w = ground arith

follow_up-Stored :
    (env : Env) (a : Answers) (input : CreateGiftInput) (registered : Bool) (since : Option ℕ)
    (gift : Gift) (d : Dict Gift) (w : World)
    → gift.status ≡ pending_payment
    → Stored gift d w
    → Stored gift d (follow_up env a input registered since gift w).0
unfolding follow_up send_off
follow_up-Stored env a input registered since gift d w p h =
    after (check_fraud a env.now since gift a.fraud_counts w)
      (check_fraud-Stored a env.now since gift a.fraud_counts d w p h)
  where
    after :
        (x : World × Result Error (Unit {0}))
        → Stored gift d x.0
        → Stored gift d (continue x (λ _. send_off env a input registered gift)).0
    after (w', ok t) h' = send_off-Keeps env a input registered gift w' ∙ h'
    after (w', err e) h' = h'

saved : Gift → World → World
saved gift w = (save gift.id gift w).0

-- What a call does once it is past the limit: nothing to the map, or the new gift is in it.
pub start_gift_branches :
    (s : Settings) (env : Env) (a : Answers) (id sender_id : String) (input : CreateGiftInput)
    (registered : Bool) (since : Option ℕ) (w : World)
    → let w' = (start_gift s env a id sender_id input registered since w).0 in
      (w'.gifts ≡ w.gifts)
      ⊎ ((usdc : String) × (w'.gifts ≡ set id (new_gift s env.now id sender_id input usdc) w.gifts))
unfolding start_gift new_gift detect_phone_hash_collision saved
start_gift_branches s env a id sender_id input registered since w =
    elim (Option-cases a.amount_usdc) [
      | inl unknown ↦ inl (ground arith)
      | inr (usdc, known) ↦ elim (Option-cases a.users_with_hash) [
        | inl failed ↦ inl (ground arith)
        | inr (n, counted) ↦ elim (Bool-cases (ltb 1 n)) [
          | inl many ↦ inl (ground arith)
          | inr one ↦
              let gift : Gift = new_gift s env.now id sender_id input usdc in
              let stored =
                follow_up-Stored env a input registered since gift w.gifts (saved gift w) refl
                  refl in
              inr (usdc, ground (arith, stored))
        ]
      ]
    ]

-- Creating a gift on all branches. Either the call throws before the gift is written and changes no
-- gift; or the day's total with the new amount is within the limit, and the map holds the new gift
-- under its id, which waits for its payment, whether or not the call throws afterwards: on a refused
-- fraud flag, an unlocked rate, a lost audit row or a failed payment session.
pub create_gift_branches :
    (s : Settings) (env : Env) (start : ℕ) (a : Answers) (id sender_id : String)
    (input : CreateGiftInput) (registered : Bool) (since : Option ℕ) (w : World)
    → let (w', r) = create_gift s env start a id sender_id input registered since w in
      ((w' ≡ w) × ((e : Error) × (r ≡ err e)))
      ⊎ ((sent_since start sender_id w.gifts + input.amount_ngn ≤ s.daily_limit_ngn)
          × ((usdc : String) × (a.amount_usdc ≡ some usdc)
              × (w'.gifts ≡ set id (new_gift s env.now id sender_id input usdc) w.gifts)))
unfolding create_gift new_gift detect_phone_hash_collision saved
create_gift_branches s env start a id sender_id input registered since w =
    elim (Bool-cases
      (ltb s.daily_limit_ngn (sent_since start sender_id w.gifts + input.amount_ngn))) [
        | inl over ↦ inl (ground arith, (limit_exceeded, ground arith))
        | inr within ↦ elim (Option-cases a.amount_usdc) [
          | inl unknown ↦ inl (ground arith, (rate_unavailable, ground arith))
          | inr (usdc, known) ↦ elim (Option-cases a.users_with_hash) [
            | inl failed ↦ inl (ground arith, (database_error, ground arith))
            | inr (n, counted) ↦ elim (Bool-cases (ltb 1 n)) [
              | inl many ↦ inl (ground arith, (phone_hash_collision, ground arith))
              | inr one ↦
                  let gift : Gift = new_gift s env.now id sender_id input usdc in
                  let stored =
                    follow_up-Stored env a input registered since gift w.gifts (saved gift w) refl
                      refl in
                  inr (ground arith, (usdc, known, ground (arith, stored)))
            ]
          ]
        ]
      ]
