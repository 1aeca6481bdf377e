-- ===== src/Registration.antt =====
-- The registration of a user: POST src/app/api/v1/auth/register, behind `withCsrf` and
-- `withErrorHandler`, over the rows of `users` and of the invitations. A phone number has one user
-- (migrations/0002_normalize_phone_e164.sql), and so has an id. Which statements the database carries
-- out is an argument.
pub mod Ids
pub mod HalfDone
pub mod Stuck
pub mod Owners
use lumigift_lumigift.Common.{
  ℕ, String, Bool, true, false, not, ◌||◌, List, [], ◌∷◌, ◌++◌, Option, none, some, Result, ok, err,
  any, ◌===◌, if◌then◌else◌, truthy,
}
use lumigift_lumigift.Invitations.{Invitation, validate_invitation_token, accept_invitation}
use lumigift_lumigift.Guards.Csrf.{Text, post, Request, with_csrf, guarded}

-- A row of `users`.
pub record Account : Type 0 where
  pub id : String
  pub phone : String
  pub display_name : String

-- The body that passes the schema.
pub record RegisterBody : Type 0 where
  pub phone : String
  pub display_name : String
  pub invitation_token : Option String

-- A request, with the id that is drawn and which of the statements go through: the two queries, the
-- INSERT and the UPDATE.
pub record RegisterRequest : Type 0 where
  pub now : ℕ
  pub header_token : Option Text
  pub cookie_token : Option Text
  pub body : Option RegisterBody
  pub user_id : String
  pub users_up : Bool
  pub token_up : Bool
  pub insert_up : Bool
  pub update_up : Bool

pub record Registry : Type 0 where
  pub users : List Account
  pub invitations : List Invitation

abbrev pub is_registered : String → List Account → Bool
is_registered phone = any (λ u. u.phone === phone)

-- The id of the invitation, or the status of the answer without one.
abbrev pub check_found : String → Option Invitation → Result ℕ (Option String)
check_found phone none = err 400
check_found phone (some i) = if not (i.recipient_phone === phone) then err 400 else ok (some i.id)

unfoldable pub check_invitation :
    RegisterRequest → String → Option String → List Invitation → Result ℕ (Option String)
check_invitation q phone none rows = ok none
check_invitation q phone (some token) rows =
    if not q.token_up
    then err 500
    else check_found phone (validate_invitation_token q.now token rows)

abbrev pub account_of : RegisterRequest → RegisterBody → Account
account_of q b = record { id = q.user_id; phone = b.phone; display_name = b.display_name }

abbrev pub account_clashes : Account → Account → Bool
account_clashes a u = (u.id === a.id) || (u.phone === a.phone)

-- After the INSERT.
abbrev pub accept : RegisterRequest → Option String → Registry → Registry × ℕ
accept q none s = (s, 201)
accept q (some id) s =
    if not q.update_up
    then (s, 500)
    else (record s { invitations = (accept_invitation id s.invitations).0 }, 201)

unfoldable pub create_user :
    RegisterRequest → RegisterBody → Option String → Registry → Registry × ℕ
create_user q b invitation_id s =
    if not q.insert_up || any (account_clashes (account_of q b)) s.users
    then (s, 500)
    else accept q invitation_id (record s { users = s.users ++ account_of q b ∷ [] })

abbrev pub with_checked :
    RegisterRequest → RegisterBody → Result ℕ (Option String) → Registry → Registry × ℕ
with_checked q b (err status) s = (s, status)
with_checked q b (ok invitation_id) s = create_user q b invitation_id s

unfoldable pub register_handler : RegisterRequest → Option RegisterBody → Registry → Registry × ℕ
register_handler q none s = (s, 400)
register_handler q (some b) s =
    if not q.users_up
    then (s, 500)
    else if is_registered b.phone s.users
    then (s, 409)
    else with_checked q b (check_invitation q b.phone (truthy b.invitation_token) s.invitations) s

-- POST
unfoldable pub register_route : Option (Text → Text) → RegisterRequest → Registry → Registry × ℕ
register_route hmac q s =
    guarded
      (with_csrf hmac q.now
        (record { method = post; header_token = q.header_token; cookie_token = q.cookie_token }))
      (register_handler q q.body) s
