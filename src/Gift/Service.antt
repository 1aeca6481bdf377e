-- ===== src/Gift/Service.antt =====
-- The operations of src/server/services/gift.service.ts on one gift.
use lumigift_lumigift.Common.{
  String, [], ◌∷◌, Option, none, some, Result, ok, err, Action, if◌then◌else◌, ◌>>◌, return,
  require,
}
use lumigift_lumigift.Common.Dict.{get, set}
use lumigift_lumigift.Gift.Status.{
  GiftStatus, funded, claimed, cancelled, is_status, is_valid_transition, status_name,
}
use lumigift_lumigift.Gift.Defs.{
  Gift, World, Env, Error, invalid_transition, AuditEventType, gift_funded, gift_claimed,
  gift_cancelled, text, create_audit_log, save, is_active,
}

-- `getGiftById`: a soft-deleted gift is not found.
unfoldable pub get_gift_by_id : String → World → Option Gift
get_gift_by_id id w = elim (get id w.gifts) [
  | none ↦ none
  | some gift ↦ if is_active gift then some gift else none
]

-- `assertValidTransition`
unfoldable pub assert_valid_transition : GiftStatus → GiftStatus → Action World Error (Unit {0})
assert_valid_transition current next =
    require (is_valid_transition current next) (invalid_transition current next)

-- The event that a new status is logged as, or none.
unfoldable pub status_event : GiftStatus → Option AuditEventType
status_event status =
    if is_status status funded
    then some gift_funded
    else if is_status status claimed
    then some gift_claimed
    else if is_status status cancelled
    then some gift_cancelled
    else none

log_status_change : Env → String → Gift → GiftStatus → GiftStatus → Action World Error (Unit {0})
log_status_change env id gift previous status = elim (status_event status) [
  | none ↦ return tt
  | some event_type ↦ create_audit_log env (record {
    event_type = event_type;
    user_id = some gift.sender_id;
    gift_id = some id;
    amount_ngn = some gift.amount_ngn;
    amount_usdc = some gift.amount_usdc;
    metadata =
        ("previousStatus", text (status_name previous))
        ∷ ("newStatus", text (status_name status))
        ∷ [];
  })
]

-- `updateGiftStatus`: the map is written before the audit row, so a refused INSERT leaves the new
-- status behind.
update_found : Env → String → GiftStatus → Gift → Action World Error (Option Gift)
unfolding assert_valid_transition log_status_change status_event
update_found env id status gift = do
  assert_valid_transition gift.status status
  let gift' : Gift = record gift { status = status; updated_at = env.now }
  save id gift'
  log_status_change env id gift' gift.status status
  return (some gift')

unfoldable pub update_gift_status : Env → String → GiftStatus → Action World Error (Option Gift)
unfolding update_found
update_gift_status env id status w = elim (get id w.gifts) [
  | none ↦ (w, ok none)
  | some gift ↦ update_found env id status gift w
]

-- `updateGiftStatusIdempotent`: every error of the update is caught, and the gift object is
-- returned as the map then holds it.
catch_skip : String → World × Result Error (Option Gift) → World × Result Error (Option Gift)
catch_skip id (w, ok r) = (w, ok r)
catch_skip id (w, err e) = (w, ok (get id w.gifts))

unfoldable pub update_gift_status_idempotent :
    Env → String → GiftStatus → Action World Error (Option Gift)
unfolding update_gift_status catch_skip
update_gift_status_idempotent env id status w = elim (get id w.gifts) [
  | none ↦ (w, ok none)
  | some gift ↦
      if is_status gift.status status
      then (w, ok (some gift))
      else catch_skip id (update_gift_status env id status w)
]

-- An operation that finds a gift, changes it and writes it back; null when there is none.
abbrev pub modify : (Gift → Gift) → String → Action World Error (Option Gift)
modify change id w = elim (get id w.gifts) [
  | none ↦ (w, ok none)
  | some gift ↦ (record w { gifts = set id (change gift) w.gifts }, ok (some (change gift)))
]

-- `cancelGift` does not look at the current status.
unfoldable pub cancel_gift : Env → String → Action World Error (Option Gift)
cancel_gift env = modify (λ gift. record gift { status = cancelled; updated_at = env.now })

unfoldable pub store_claim_tx_hash : Env → String → String → Action World Error (Option Gift)
store_claim_tx_hash env id tx_hash =
    modify (λ gift. record gift { claim_tx_hash = some tx_hash; updated_at = env.now }) id

unfoldable pub soft_delete_gift : Env → String → Action World Error (Option Gift)
soft_delete_gift env =
    modify (λ gift. record gift { deleted_at = some env.now; updated_at = env.now })

unfoldable pub restore_gift : Env → String → Action World Error (Option Gift)
restore_gift env = modify (λ gift. record gift { deleted_at = none; updated_at = env.now })
