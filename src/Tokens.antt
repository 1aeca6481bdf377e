-- ===== src/Tokens.antt =====
-- Refresh tokens (src/server/services/token.service.ts) and the table `refresh_tokens`
-- (migrations/0005_add_refresh_tokens.sql), whose ids and tokens are unique. A day of `setDate` has
-- 24 hours. What the database does with each statement is an argument.
pub mod Sessions
pub mod Unique
pub mod Rotation
pub mod Replies
pub mod Refines
pub mod SingleUse
use lumigift_lumigift.Common.{
  ℕ, ◌+◌, ◌*◌, String, Bool, true, false, not, ◌&&◌, ◌||◌, List, [], ◌∷◌, ◌++◌, map, Option, none,
  some, Result, ok, err, Action, ◌>>=◌, ◌>>◌, continue, return, require, any, ltb, ◌===◌,
  if◌then◌else◌,
}

pub record RefreshToken : Type 0 where
  pub id : String
  pub user_id : String
  pub token : String
  pub expires_at : ℕ
  pub revoked_at : Option ℕ
  pub replaced_by : Option String

abbrev pub Rows : Type 0
Rows = List RefreshToken

pub data DbError : Type 0 where
  unavailable unique_violation : DbError

-- What a call draws and reads: the id that the database gives to a row, the token, and the clocks of
-- the process and of the database.
pub record Draw : Type 0 where
  pub row_id : String
  pub drawn : String
  pub now : ℕ
  pub db_now : ℕ

-- Which statements of a transaction go through; `rolls_back` is about the last ROLLBACK.
pub record Db : Type 0 where
  pub connects : Bool
  pub begins : Bool
  pub selects : Bool
  pub inserts : Bool
  pub updates : Bool
  pub commits : Bool
  pub rolls_back : Bool

abbrev pub thirty_days : ℕ
thirty_days = 30 * 24 * 60 * 60 * 1000

abbrev pub new_row : Draw → String → RefreshToken
new_row d user = record {
  id = d.row_id;
  user_id = user;
  token = d.drawn;
  expires_at = d.now + thirty_days;
  revoked_at = none;
  replaced_by = none;
}

abbrev pub clashes : String → String → RefreshToken → Bool
clashes id token row = (row.id === id) || (row.token === token)

-- INSERT, under the constraints of the table.
unfoldable pub insert_token : Draw → String → Action Rows DbError (Unit {0})
insert_token d user t =
    if any (clashes d.row_id d.drawn) t
    then (t, err unique_violation)
    else (t ++ new_row d user ∷ [], ok tt)

-- UPDATE
abbrev pub update : (RefreshToken → RefreshToken) → Action Rows DbError (Unit {0})
update f t = (map f t, ok tt)

-- `createRefreshToken`
unfoldable pub create_refresh_token : Bool → Draw → String → Action Rows DbError String
unfolding insert_token
create_refresh_token db_up d user = do
  require db_up unavailable
  insert_token d user
  return d.drawn

-- SELECT
unfoldable pub find_token : String → String → Rows → Option RefreshToken
find_token token user [] = none
find_token token user (row ∷ rows) =
    let rest = find_token token user rows in
    if (row.token === token) && (row.user_id === user) then some row else rest

abbrev pub is_revoked : Option ℕ → Bool
is_revoked none = false
is_revoked (some t) = true

abbrev pub is_dead : ℕ → RefreshToken → Bool
is_dead now row = is_revoked row.revoked_at || ltb row.expires_at now

abbrev pub replaced : Draw → String → RefreshToken → RefreshToken
replaced d old_id row =
    if row.id === old_id
    then record row { revoked_at = some d.db_now; replaced_by = some d.row_id }
    else row

-- The statements that exchange a token, from the INSERT to the COMMIT.
unfoldable pub exchange : Db → Draw → String → RefreshToken → Action Rows DbError String
unfolding insert_token
exchange db d user old = do
  require db.inserts unavailable
  insert_token d user
  require db.updates unavailable
  update (replaced d old.id)
  require db.commits unavailable
  return d.drawn

-- ROLLBACK and `null`; if it fails, the error leaves the function. Either way the rows are as before.
abbrev pub undo : Db → Rows → Rows × Result DbError (Option String)
undo db t = if db.rolls_back then (t, ok none) else (t, err unavailable)

-- `catch`
abbrev pub settle : Db → Rows → Rows × Result DbError String → Rows × Result DbError (Option String)
settle db t (t', ok token) = (t', ok (some token))
settle db t (t', err e) = undo db t

unfoldable pub rotate_selected :
    Db → Draw → String → Option RefreshToken → Action Rows DbError (Option String)
unfolding exchange
rotate_selected db d user none t = undo db t
rotate_selected db d user (some old) t =
    if is_dead d.now old then undo db t else settle db t (exchange db d user old t)

-- `rotateRefreshToken`
unfoldable pub rotate_refresh_token :
    Db → Draw → String → String → Action Rows DbError (Option String)
unfolding rotate_selected
rotate_refresh_token db d old_token user t =
    if not db.connects
    then (t, err unavailable)
    else if db.begins && db.selects
    then rotate_selected db d user (find_token old_token user t) t
    else undo db t

abbrev pub revoked : ℕ → String → RefreshToken → RefreshToken
revoked db_now user row =
    if (row.user_id === user) && not (is_revoked row.revoked_at)
    then record row { revoked_at = some db_now }
    else row

-- `revokeAllUserTokens`
unfoldable pub revoke_all_user_tokens : Bool → ℕ → String → Action Rows DbError (Unit {0})
revoke_all_user_tokens db_up db_now user = do
  require db_up unavailable
  update (revoked db_now user)

-- A call of the service, with what it draws and what the database does.
pub data Call : Type 0 where
  create : Bool → Draw → String → Call
  rotate : Db → Draw → String → String → Call
  revoke : Bool → ℕ → String → Call

-- The token that a call gives to its caller.
abbrev pub given_by : Rows × Result DbError String → Rows × Option String
given_by (t, ok token) = (t, some token)
given_by (t, err e) = (t, none)

abbrev pub given_or_null : Rows × Result DbError (Option String) → Rows × Option String
given_or_null (t, ok token) = (t, token)
given_or_null (t, err e) = (t, none)

unfoldable pub serve_call : Call → Rows → Rows × Option String
unfolding create_refresh_token rotate_refresh_token revoke_all_user_tokens
serve_call (create db_up d user) t = given_by (create_refresh_token db_up d user t)
serve_call (rotate db d old user) t = given_or_null (rotate_refresh_token db d old user t)
serve_call (revoke db_up db_now user) t = ((revoke_all_user_tokens db_up db_now user t).0, none)
