-- ===== src/Tests/Registrations.antt =====
-- Registrations of an invited recipient.
use lumigift_lumigift.Common.{◌≡◌, refl, Bool, true, false, [], ◌∷◌, some}
use lumigift_lumigift.Gift.Status.{unlocked, locked}
use lumigift_lumigift.Invitations.{Invitation, pending, find_row}
use lumigift_lumigift.Registration.{RegisterBody, RegisterRequest, is_registered}
use lumigift_lumigift.Registration.Ids.{HasUniqueIds}
use lumigift_lumigift.Registration.Stuck.{
  register, claim, Portal, registry, serve_visit, wanted, half_registered_is_stuck,
}
use lumigift_lumigift.Registration.Owners.{IsOrderly, HasUniquePhones, visited, visited-IsOrderly}
use lumigift_lumigift.Tests.KeyStore.{key_store, no_keys}
use lumigift_lumigift.Tests.Samples.{world_in}
use lumigift_lumigift.Tests.Guards.{token}
use lumigift_lumigift.Tests.Claims.{signs, hmac, claim_by, passes}

abbrev ada : RegisterBody
ada = record { phone = "+2348012345678"; display_name = "Ada"; invitation_token = some "t1" }

-- A registration, with what becomes of the UPDATE.
abbrev register_ada : Bool → RegisterRequest
register_ada update_up = record {
  now = 3000;
  header_token = some token;
  cookie_token = some token;
  body = some ada;
  user_id = "u7";
  users_up = true;
  token_up = true;
  insert_up = true;
  update_up = update_up;
}

abbrev invited : Invitation
invited = record {
  id = "i1";
  gift_id = "g1";
  recipient_phone_hash = "ab12";
  recipient_phone = "+2348012345678";
  token = "t1";
  status = pending;
  expires_at = 9000;
}

abbrev entrance : Portal key_store signs hmac
entrance = record {
  users = record { id = "u1"; phone = "+2340000000000"; display_name = "Obi" } ∷ [];
  site = record { keys = no_keys; invitations = invited ∷ []; world = world_in locked };
}

half_registered_is_stuck_example :
    let (p', status) = serve_visit key_store signs hmac (register (register_ada false)) entrance in
    (status ≡ 500)
    × (is_registered "+2348012345678" p'.users ≡ true)
    × (p'.site.invitations ≡ invited ∷ [])
    × (wanted key_store signs hmac "+2348012345678" "g1" 9000
          (register (register_ada true)
            ∷ claim (claim_by (some "+2348012345678")) (world_in unlocked)
            ∷ [])
          p'
        ≡ 0)
unfolding find_row HasUniqueIds
half_registered_is_stuck_example =
    half_registered_is_stuck key_store signs hmac (register_ada false) ada "t1" invited entrance
      (register (register_ada true)
        ∷ claim (claim_by (some "+2348012345678")) (world_in unlocked)
        ∷ [])
      passes refl refl refl refl refl refl (refl, refl, refl, refl) (refl, tt) refl

visited-IsOrderly_example : IsOrderly (
    registry key_store signs hmac (
      visited key_store signs hmac
        (register (register_ada true)
          ∷ claim (claim_by (some "+2348012345678")) (world_in unlocked)
          ∷ [])
        entrance))
unfolding HasUniqueIds HasUniquePhones
visited-IsOrderly_example =
    visited-IsOrderly key_store signs hmac
      (register (register_ada true)
        ∷ claim (claim_by (some "+2348012345678")) (world_in unlocked)
        ∷ [])
      entrance (record { ids = (refl, tt); phones = (refl, tt); owned = refl })
