-- ===== src/Scheduler/Expiry.antt =====
-- What the expiry job does.
use lumigift_lumigift.Common.{
  truthy, ℕ, ◌+◌, ◌*◌, subst, String, Bool, true, false, not, ◌≡◌, refl, ap, ◌∙◌, ◌&&◌, List, [],
  ◌∷◌, ◌++◌, Option, none, some, Action, ◌>>◌, arith, if◌then◌else◌, Option-cases, Bool-cases, inl,
  inr,
}
use lumigift_lumigift.Common.Dict.{Dict, get}
use lumigift_lumigift.Gift.Status.{GiftStatus, expired, is_valid_transition}
use lumigift_lumigift.Gift.Status.Chains.{ne-expired}
use lumigift_lumigift.Gift.Defs.{Gift, World, Env, Error, Outgoing, usdc_payment, expired_sms}
use lumigift_lumigift.Gift.Service.{update_gift_status}
use lumigift_lumigift.Claim.Worker.{payments, payments-append}
use lumigift_lumigift.Scheduler.{
  ExpiryRow, refund, notify, expire_row, count_ok, expire_each, process_expiries,
}

abbrev pub has {ℓ} : {A : Type ℓ} → Option A → Bool
has none = false
has (some a) = true

-- The rows whose gift is not in the map, and which Stellar pays.
abbrev pub refunds : Dict Gift → ExpiryRow → Bool
refunds d row = not (has (get row.id d)) && has (truthy row.sender_stellar_key) && row.refund_sent

-- The number of rows for which the test holds.
abbrev pub count_rows : (ExpiryRow → Bool) → List ExpiryRow → ℕ
count_rows p [] = 0
count_rows p (row ∷ rows) = (if p row then 1 else 0) + count_rows p rows

never-expired : (s : GiftStatus) → is_valid_transition s expired ≡ false
never-expired s = elim (Bool-cases (is_valid_transition s expired)) [
  | inl valid ↦ absurd (ne-expired s expired valid refl)
  | inr refused ↦ refused
]

update-expired : (env : Env) (id : String) (w : World) → (update_gift_status env id expired w).0 ≡ w
unfolding update_gift_status
update-expired env id w = elim (Option-cases (get id w.gifts)) [
  | inl missing ↦ rw (missing, update_gift_status) refl
  | inr (g, found) ↦ ground (arith, never-expired g.status)
]

one_payment :
    (os : List Outgoing) (key amount : String)
    → payments (os ++ usdc_payment key amount ∷ []) ≡ payments os + 1
one_payment os key amount = omega (arith, payments-append os (usdc_payment key amount ∷ []))

no_payment :
    (os : List Outgoing) (phone : String) → payments (os ++ expired_sms phone ∷ []) ≡ payments os
no_payment os phone = omega (arith, payments-append os (expired_sms phone ∷ []))

abbrev settle : ExpiryRow → Option String → Option String → Action World Error (Unit {0})
settle row key phone = refund row key >> notify row phone

settle-payments :
    (row : ExpiryRow) (key phone : Option String) (w : World)
    → ((settle row key phone w).0.gifts ≡ w.gifts)
      × (payments (settle row key phone w).0.outgoing
          ≡ payments w.outgoing + (if has key && row.refund_sent then 1 else 0))
settle-payments row none none w = ground arith
settle-payments row none (some p) w = ground (arith, no_payment w.outgoing p)
settle-payments row (some k) none w = ground (arith, one_payment w.outgoing k row.amount_usdc)
settle-payments row (some k) (some p) w = ground (
  arith,
  one_payment w.outgoing k row.amount_usdc,
  no_payment (w.outgoing ++ usdc_payment k row.amount_usdc ∷ []) p,
)

expire_row-missing :
    (env : Env) (row : ExpiryRow) (w : World)
    → get row.id w.gifts ≡ none
    → expire_row env row w ≡ settle row (truthy row.sender_stellar_key) (truthy row.sender_phone) w
unfolding expire_row update_gift_status
expire_row-missing env row w missing = ground arith

-- One row: the map stays, and a payment goes out exactly for a row that refunds.
expire_row-payments :
    (env : Env) (row : ExpiryRow) (w : World)
    → ((expire_row env row w).0.gifts ≡ w.gifts)
      × (payments (expire_row env row w).0.outgoing
          ≡ payments w.outgoing + (if refunds w.gifts row then 1 else 0))
unfolding expire_row update_gift_status
expire_row-payments env row w = elim (Option-cases (get row.id w.gifts)) [
  | inl missing ↦
      let e = expire_row-missing env row w missing in
      rw e (
        ground
          (arith, settle-payments row (truthy row.sender_stellar_key) (truthy row.sender_phone) w))
  | inr (g, found) ↦ ground (arith, never-expired g.status)
]

expire_each-payments :
    (env : Env) (rows : List ExpiryRow) (w : World) (n : ℕ)
    → ((expire_each env rows w n).0.gifts ≡ w.gifts)
      × (payments (expire_each env rows w n).0.outgoing
          ≡ payments w.outgoing + count_rows (refunds w.gifts) rows)
unfolding expire_each
expire_each-payments env [] w n = (refl, omega arith)
expire_each-payments env (row ∷ rows) w n =
    let r = expire_row env row w in
    let (kept, sent) = expire_row-payments env row w in
    let (kept', sent') = expire_each-payments env rows r.0 (count_ok r n) in
    let sent'' : payments (expire_each env rows r.0 (count_ok r n)).0.outgoing
        ≡ payments r.0.outgoing + count_rows (refunds w.gifts) rows =
      subst
        (λ d.
          payments (expire_each env rows r.0 (count_ok r n)).0.outgoing
          ≡ payments r.0.outgoing + count_rows (refunds d) rows)
        kept sent' in
    (kept' ∙ kept, omega (arith, sent'', sent))

-- The expiry job changes no gift of the map: no gift ever becomes expired by it. It refunds exactly
-- the rows that have a key, that Stellar pays and whose gift is not in the map at all.
pub process_expiries-payments :
    (env : Env) (rows : List ExpiryRow) (w : World)
    → let w' = (process_expiries env rows w).0 in
      (w'.gifts ≡ w.gifts)
      × (payments w'.outgoing ≡ payments w.outgoing + count_rows (refunds w.gifts) rows)
unfolding process_expiries
process_expiries-payments env rows w = expire_each-payments env rows w 0

-- A run of the job that selects the same rows again refunds them again.
pub process_expiries_again :
    (env env' : Env) (rows : List ExpiryRow) (w : World)
    → payments (process_expiries env' rows (process_expiries env rows w).0).0.outgoing
      ≡ payments w.outgoing + 2 * count_rows (refunds w.gifts) rows
process_expiries_again env env' rows w =
    let w' = (process_expiries env rows w).0 in
    let (kept, sent) = process_expiries-payments env rows w in
    let (kept', sent') = process_expiries-payments env' rows w' in
    let again : count_rows (refunds w'.gifts) rows ≡ count_rows (refunds w.gifts) rows =
      ap (λ d. count_rows (refunds d) rows) kept in
    omega (arith, sent, sent', again)
