-- ===== src/Invitations.antt =====
-- Invitations of recipients without an account (src/server/services/invitation.service.ts), over the
-- rows of gift_invitations; its calls for the registration and for a claim.
use lumigift_lumigift.Common.{
  ℕ, ◌+◌, ◌*◌, String, Bool, true, false, not, ◌&&◌, ◌||◌, List, [], ◌∷◌, ◌++◌, map, Option, none,
  some, any, ltb, ◌===◌, if◌then◌else◌,
}

pub data InvitationStatus : Type 0 where
  pending accepted expired claimed : InvitationStatus

abbrev pub is_pending : InvitationStatus → Bool
is_pending pending = true
is_pending _ = false

abbrev pub is_accepted : InvitationStatus → Bool
is_accepted accepted = true
is_accepted _ = false

pub record Invitation : Type 0 where
  pub id : String
  pub gift_id : String
  pub recipient_phone_hash : String
  pub recipient_phone : String
  pub token : String
  pub status : InvitationStatus
  pub expires_at : ℕ

abbrev pub invitation_ttl_ms : ℕ
invitation_ttl_ms = 30 * 24 * 60 * 60 * 1000

abbrev pub new_invitation : ℕ → String → String → String → String → String → Invitation
new_invitation now id token gift_id phone_hash phone = record {
  id = id;
  gift_id = gift_id;
  recipient_phone_hash = phone_hash;
  recipient_phone = phone;
  token = token;
  status = pending;
  expires_at = now + invitation_ttl_ms;
}

-- `createGiftInvitation`, with the id and the token that are drawn; none where the INSERT throws. The
-- table has unique ids and tokens, and a foreign key into the table `gifts`.
unfoldable pub create_gift_invitation :
    Bool
    → ℕ
    → String
    → String
    → String
    → String
    → String
    → List Invitation
    → Option (List Invitation)
create_gift_invitation has_gift_row now id token gift_id phone_hash phone rows =
    if has_gift_row && not (any (λ i. (i.id === id) || (i.token === token)) rows)
    then some (rows ++ new_invitation now id token gift_id phone_hash phone ∷ [])
    else none

-- `SELECT ... WHERE`: the first row.
unfoldable pub find_row : (Invitation → Bool) → List Invitation → Option Invitation
find_row p [] = none
find_row p (i ∷ rows) = let rest = find_row p rows in if p i then some i else rest

-- `validateInvitationToken`
abbrev pub validate_invitation_token : ℕ → String → List Invitation → Option Invitation
validate_invitation_token now token =
    find_row (λ i. (i.token === token) && is_pending i.status && ltb now i.expires_at)

abbrev pub set_status : String → InvitationStatus → List Invitation → List Invitation
set_status id status = map (λ i. if i.id === id then record i { status = status } else i)

-- `acceptInvitation` and `claimInvitation`: whether there was a row.
abbrev pub accept_invitation : String → List Invitation → List Invitation × Bool
accept_invitation id rows = (set_status id accepted rows, any (λ i. i.id === id) rows)

abbrev pub claim_invitation : String → List Invitation → List Invitation × Bool
claim_invitation id rows = (set_status id claimed rows, any (λ i. i.id === id) rows)

-- `getInvitationByPhoneAndGift`
abbrev pub is_invited : ℕ → String → String → Invitation → Bool
is_invited now phone gift_id i =
    (i.recipient_phone === phone) && (i.gift_id === gift_id) && ltb now i.expires_at

abbrev pub get_invitation_by_phone_and_gift :
    ℕ → String → String → List Invitation → Option Invitation
get_invitation_by_phone_and_gift now phone gift_id = find_row (is_invited now phone gift_id)
