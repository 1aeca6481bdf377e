-- ===== src/Tests/Deletion.antt =====
-- Erasing a user.
use lumigift_lumigift.Common.{◌≡◌, refl, true, List, [], ◌∷◌, none, some, ok, err}
use lumigift_lumigift.UserDeletion.{
  User, Tables, Database, DeletionError, delete_user_data, anonymize_user,
}
use lumigift_lumigift.UserDeletion.Constraint.{delete_user_data-refused}

abbrev willing : Database
willing = record {
  connects = true;
  begins = true;
  inserts = true;
  updates_gifts = true;
  deletes_devices = true;
  deletes_invitations = true;
  updates_user = true;
  completes = true;
  commits = true;
  audits = true;
}

abbrev ada : User
ada = record {
  id = "u1";
  phone = "+2348012345678";
  display_name = "Ada";
  email = some "ada@example.com";
  avatar_url = none;
  stellar_public_key = none;
  updated_at = 1000;
}

abbrev tables : List User → Tables
tables users = record {
  requests = [];
  gifts =
      record {
        id = "g1";
        sender_id = "u1";
        message = some "hello";
        voice_note_url = none;
        media_url = none;
        updated_at = 1000;
      }
      ∷ [];
  devices = record { id = "d1"; user_id = "u1" } ∷ [];
  invitations = record { id = "i1"; gift_id = "g1"; recipient_phone = "+2348087654321" } ∷ [];
  users = users;
  audit = [];
}

delete_user_data-refused_example :
    (e : DeletionError) × (delete_user_data willing 5000 "q1" "u1" none (tables (ada ∷ []))
      ≡ (tables (ada ∷ []), err e))
delete_user_data-refused_example =
    delete_user_data-refused willing 5000 "q1" "u1" none (tables (ada ∷ [])) refl

-- Without the row the statements go through.
erased : (delete_user_data willing 5000 "q1" "u1" none (tables [])).1 ≡ ok "q1"
unfolding delete_user_data anonymize_user
erased = refl

erased_devices : (delete_user_data willing 5000 "q1" "u1" none (tables [])).0.devices ≡ []
unfolding delete_user_data anonymize_user
erased_devices = refl
