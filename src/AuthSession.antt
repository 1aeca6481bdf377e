-- ===== src/AuthSession.antt =====
-- The sessions of NextAuth (src/lib/auth.ts): the callbacks `jwt` and `session` and the event
-- `signOut`, over the refresh tokens; and the decoding of a cookie under two secrets
-- (src/lib/jwt-rotation.ts). The library calls them; what it decodes is an argument.
pub mod Stale
pub mod Secrets
use lumigift_lumigift.Common.{
  ℕ, ◌+◌, ◌-◌, ◌*◌, String, Bool, true, false, not, Option, none, some, Result, ok, err, Action,
  ◌>>=◌, ◌>>◌, continue, return, ltb, if◌then◌else◌, truthy,
}
use lumigift_lumigift.Tokens.{
  Rows, DbError, Draw, Db, create_refresh_token, rotate_refresh_token, revoke_all_user_tokens,
}

-- The token that is kept in the cookie.
pub record Jwt : Type 0 where
  pub id : String
  pub phone : Option String
  pub access_token_expires : ℕ
  pub refresh_token : String
  pub error : Option String

-- The user of the session that the routes see.
pub record UserSession : Type 0 where
  pub id : String
  pub phone : Option String
  pub error : Option String

abbrev pub access_ttl_ms : ℕ
access_ttl_ms = 15 * 60 * 1000

abbrev pub refresh_error : String
refresh_error = "RefreshAccessTokenError"

-- `jwt` at the sign-in of a user.
unfoldable pub sign_in : Bool → Draw → String → Option String → Action Rows DbError Jwt
sign_in db_up d id phone = do
  token ← create_refresh_token db_up d id
  return (record {
    id = id;
    phone = phone;
    access_token_expires = d.now + access_ttl_ms;
    refresh_token = token;
    error = none;
  })

abbrev pub refreshed : ℕ → Jwt → Option String → Jwt
refreshed now j none = record j { error = some refresh_error }
refreshed now j (some token) = record j {
  access_token_expires = now + access_ttl_ms;
  refresh_token = token;
}

abbrev pub rotate_for : Db → Draw → Jwt → Action Rows DbError Jwt
rotate_for db d j = do
  token ← rotate_refresh_token db d j.refresh_token j.id
  return (refreshed d.now j token)

-- `jwt` afterwards.
unfoldable pub jwt_callback : Db → Draw → Jwt → Action Rows DbError Jwt
jwt_callback db d j t = if ltb d.now j.access_token_expires then (t, ok j) else rotate_for db d j t

-- `session`
abbrev pub user_session : Jwt → UserSession
user_session j = record { id = j.id; phone = j.phone; error = j.error }

-- `signOut`
unfoldable pub sign_out : Bool → ℕ → Jwt → Action Rows DbError (Unit {0})
sign_out db_up db_now j = revoke_all_user_tokens db_up db_now j.id

-- `decode`, with what the library decodes under a secret, none where it throws, and the time in
-- milliseconds of a token, 0 where it has none. The grace is none where the setting is no number:
-- then no token is too old. An empty previous secret counts as none.
abbrev pub is_over : Option ℕ → ℕ → Bool
is_over none age = false
is_over (some grace) age = ltb grace age

abbrev pub within_grace : {A : Type 0} → (A → ℕ) → Option ℕ → ℕ → Option A → Option A
within_grace issued grace now none = none
within_grace issued grace now (some token) =
    if is_over grace (now - issued token) then none else some token

abbrev pub decode_previous :
    {A : Type 0} → (String → Option A) → (A → ℕ) → Option ℕ → ℕ → Option String → Option A
decode_previous lib issued grace now none = none
decode_previous lib issued grace now (some secret) = within_grace issued grace now (lib secret)

abbrev pub or_previous : {A : Type 0} → Option A → Option A → Option A
or_previous none fallback = fallback
or_previous (some token) fallback = some token

unfoldable pub decode_jwt :
    {A : Type 0} → (String → Option A) → (A → ℕ) → Option ℕ → ℕ → String → Option String → Option A
decode_jwt lib issued grace now secret previous =
    or_previous (lib secret) (decode_previous lib issued grace now (truthy previous))
