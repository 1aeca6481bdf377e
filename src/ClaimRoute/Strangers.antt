-- ===== src/ClaimRoute/Strangers.antt =====
-- Who can claim a gift that is unlocked.
use lumigift_lumigift.Common.{◌≡◌, ◌⊎◌, String, true, List, none, some, truthy, Result, ok}
use lumigift_lumigift.Redis.{Redis}
use lumigift_lumigift.Gift.Defs.{Gift, World, Error, Outgoing}
use lumigift_lumigift.Claim.{job_id}
use lumigift_lumigift.Invitations.{Invitation, get_invitation_by_phone_and_gift}
use lumigift_lumigift.ClaimRoute.{SessionUser, ClaimRequest}

abbrev sent_off : Gift → World → List Outgoing → World × Result Error String
sent_off g w o = (record w { outgoing = o }, ok (job_id g.id))

-- A signed-in user with a key of their own, whose phone, if there is one, has no invitation to the
-- gift. Nothing relates them to the gift: the hash of the recipient's phone is any text.
pub record IsStranger (q : ClaimRequest) (rows : List Invitation) (g : Gift) : Type 0 where
  pub user : SessionUser
  pub signed_in : q.session ≡ some user
  pub lookup_up : q.lookup_up ≡ true
  pub uninvited :
      (truthy user.phone ≡ none)
      ⊎ ((phone : String) × (truthy user.phone ≡ some phone)
          × (get_invitation_by_phone_and_gift q.now phone g.id rows ≡ none))
