-- ===== src/ClaimRoute/LockedOut.antt =====
-- What becomes of an invited recipient who claims before the gift is unlocked.
use lumigift_lumigift.Common.{
  ℕ, ◌+◌, ◌≡◌, String, Bool, true, not, ◌&&◌, ◌||◌, List, [], ◌∷◌, Option, some, if◌then◌else◌, all,
  ◌==◌, ◌===◌,
}
use lumigift_lumigift.Redis.{Redis}
use lumigift_lumigift.Gift.Defs.{Gift, World}
use lumigift_lumigift.Invitations.{Invitation, accepted, get_invitation_by_phone_and_gift}
use lumigift_lumigift.Guards.Csrf.{Text}
use lumigift_lumigift.ClaimRoute.{ClaimRequest, Site, claim_route}
use lumigift_lumigift.ClaimRoute.Rows.{is_for}
use lumigift_lumigift.ClaimRoute.Refused.{is_claim_of}

-- The phone has one invitation to the gift: of the rows for both, each has the id, and the row that is
-- found at a time is accepted and lasts until then.
pub record IsInvited (now : ℕ) (phone : String) (i : Invitation) (rows : List Invitation)
    : Type 0 where
  pub found : get_invitation_by_phone_and_gift now phone i.gift_id rows ≡ some i
  pub ready : i.status ≡ accepted
  pub alone : all (λ j. not (is_for phone i.gift_id j) || (j.id === i.id)) rows ≡ true

module _ (r : Redis) (verify : String → String → String → Bool) (hmac : Option (Text → Text)) where
  open r use {State, get, del}

  -- How many of the claims of the gift by the phone before a time are answered with 200. Any other
  -- claims are in between, and the gifts are any gifts at each of them.
  unfoldable pub claims_of_phone :
      String → String → ℕ → List (ClaimRequest × World) → Site r verify hmac → ℕ
  claims_of_phone phone gift_id until [] s = 0
  claims_of_phone phone gift_id until ((q, w) ∷ later) s =
      let (s', status) = claim_route r verify hmac q (record s { world = w }) in
      (if is_claim_of phone gift_id until q && (status == 200) then 1 else 0)
      + claims_of_phone phone gift_id until later s'
