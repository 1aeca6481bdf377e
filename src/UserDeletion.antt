-- ===== src/UserDeletion.antt =====
-- Erasing a user (src/server/services/user-deletion.service.ts), over the tables of the database and
-- the constraint that migrations/0002_normalize_phone_e164.sql puts on `users`. What the database
-- does with each statement is an argument. The columns that the statements read or write are kept.
pub mod Constraint
use lumigift_lumigift.Common.{
  ℕ, String, Bool, true, false, not, ◌&&◌, List, [], ◌∷◌, ◌++◌, map, Option, none, some, Result, ok,
  err, Action, ◌>>=◌, ◌>>◌, continue, return, require, any, filter, ◌===◌, if◌then◌else◌,
}
use Prim.Native.Char.{code}
use Prim.Native.String.{[] as empty, ◌∷◌ as ◌∷ₛ◌, ◌++◌ as concat}
use lumigift_lumigift.Phone.{is_e164}

-- The character codes of a text.
unfoldable pub codes : String → List ℕ
codes empty = []
codes (c ∷ₛ s) = code c ∷ codes s

pub record User : Type 0 where
  pub id : String
  pub phone : String
  pub display_name : String
  pub email : Option String
  pub avatar_url : Option String
  pub stellar_public_key : Option String
  pub updated_at : ℕ

pub record GiftRow : Type 0 where
  pub id : String
  pub sender_id : String
  pub message : Option String
  pub voice_note_url : Option String
  pub media_url : Option String
  pub updated_at : ℕ

pub record UserDevice : Type 0 where
  pub id : String
  pub user_id : String

pub record GiftInvitation : Type 0 where
  pub id : String
  pub gift_id : String
  pub recipient_phone : String

pub record DeletionRequest : Type 0 where
  pub id : String
  pub user_id : String
  pub ip_address : Option String
  pub completed_at : Option ℕ

pub record DeletionEntry : Type 0 where
  pub user_id : String
  pub ip_address : Option String
  pub request_id : String

pub record Tables : Type 0 where
  pub requests : List DeletionRequest
  pub gifts : List GiftRow
  pub devices : List UserDevice
  pub invitations : List GiftInvitation
  pub users : List User
  pub audit : List DeletionEntry

-- Which statements go through; the INSERT of the audit log comes after the COMMIT.
pub record Database : Type 0 where
  pub connects : Bool
  pub begins : Bool
  pub inserts : Bool
  pub updates_gifts : Bool
  pub deletes_devices : Bool
  pub deletes_invitations : Bool
  pub updates_user : Bool
  pub completes : Bool
  pub commits : Bool
  pub audits : Bool

pub data DeletionError : Type 0 where
  statement_failed check_violation : DeletionError

-- A statement that goes through, or throws.
abbrev statement : Bool → (Tables → Tables) → Action Tables DeletionError (Unit {0})
statement goes f t = if goes then (f t, ok tt) else (t, err statement_failed)

-- The request is drawn its id.
abbrev pub insert_request : String → String → Option String → Tables → Tables
insert_request request_id user ip t = record t {
  requests =
      t.requests
      ++ record { id = request_id; user_id = user; ip_address = ip; completed_at = none } ∷ [];
}

abbrev anonymous_gift : ℕ → String → GiftRow → GiftRow
anonymous_gift now user g =
    if g.sender_id === user
    then record g { message = none; voice_note_url = none; media_url = none; updated_at = now }
    else g

abbrev pub anonymize_gifts : ℕ → String → Tables → Tables
anonymize_gifts now user t = record t { gifts = map (anonymous_gift now user) t.gifts }

abbrev pub delete_devices : String → Tables → Tables
delete_devices user t = record t { devices = filter (λ d. not (d.user_id === user)) t.devices }

abbrev pub delete_invitations : String → Tables → Tables
delete_invitations user t =
    let own : List GiftRow = filter (λ g. g.sender_id === user) t.gifts in
    record t { invitations = filter (λ i. not (any (λ g. g.id === i.gift_id) own)) t.invitations }

unfoldable pub anonymous_user : ℕ → User → User
anonymous_user now u = record u {
  phone = concat "deleted-" u.id;
  display_name = "Deleted User";
  email = none;
  avatar_url = none;
  stellar_public_key = none;
  updated_at = now;
}

-- The row of the user, under `CHECK (phone ~ '^\+[1-9][0-9]{9,14}$')`.
unfoldable pub anonymize_user : Bool → ℕ → String → Action Tables DeletionError (Unit {0})
anonymize_user goes now user t =
    if any (λ u. (u.id === user) && not (is_e164 (codes (anonymous_user now u).phone))) t.users
    then (t, err check_violation)
    else statement goes
        (λ s. record s {
          users = map (λ u. if u.id === user then anonymous_user now u else u) s.users;
        })
        t

abbrev complete_request : ℕ → String → Tables → Tables
complete_request now request_id t = record t {
  requests =
      map (λ r. if r.id === request_id then record r { completed_at = some now } else r) t.requests;
}

-- The statements from the INSERT to the COMMIT.
unfoldable pub erase :
    Database → ℕ → String → String → Option String → Action Tables DeletionError String
unfolding anonymize_user
erase db now request_id user ip = do
  statement db.inserts (insert_request request_id user ip)
  statement db.updates_gifts (anonymize_gifts now user)
  statement db.deletes_devices (delete_devices user)
  statement db.deletes_invitations (delete_invitations user)
  anonymize_user db.updates_user now user
  statement db.completes (complete_request now request_id)
  require db.commits statement_failed
  return request_id

-- The audit log after the COMMIT, which no ROLLBACK takes back; or the ROLLBACK and the error, also
-- where the ROLLBACK itself throws.
abbrev pub settle_deletion :
    Database
    → String
    → Option String
    → Tables
    → Tables × Result DeletionError String
    → Tables × Result DeletionError String
settle_deletion db user ip t (t', err e) = (t, err e)
settle_deletion db user ip t (t', ok request_id) =
    if db.audits
    then (
      record t' {
        audit =
            t'.audit ++ record { user_id = user; ip_address = ip; request_id = request_id } ∷ [];
      },
      ok request_id,
    )
    else (t', err statement_failed)

-- `deleteUserData`
unfoldable pub delete_user_data :
    Database → ℕ → String → String → Option String → Action Tables DeletionError String
unfolding erase
delete_user_data db now request_id user ip t =
    if db.connects && db.begins
    then settle_deletion db user ip t (erase db now request_id user ip t)
    else (t, err statement_failed)
