-- ===== src/Tokens/Sessions.antt =====
-- What the service promises: a list of sessions, each with a token that can be used once, until a
-- time. The rows that are revoked, the ids and the links between rows are forgotten.
use lumigift_lumigift.Common.{
  ℕ, ◌+◌, ◌≡◌, refl, String, Bool, true, false, not, ◌&&◌, List, [], ◌∷◌, ◌++◌, Option, none, some,
  any, filter, ltb, ◌===◌, if◌then◌else◌, arith,
}
use lumigift_lumigift.Tokens.{
  RefreshToken, Rows, Draw, thirty_days, clashes, is_revoked, Call, create, rotate, revoke,
}

pub record Session : Type 0 where
  pub holder : String
  pub key : String
  pub until : ℕ

abbrev pub session_of : RefreshToken → Session
session_of row = record { holder = row.user_id; key = row.token; until = row.expires_at }

-- The sessions that the rows stand for.
unfoldable pub sessions : Rows → List Session
sessions [] = []
sessions (row ∷ rows) =
    let rest = sessions rows in if is_revoked row.revoked_at then rest else session_of row ∷ rest

abbrev pub is_usable : String → String → ℕ → Session → Bool
is_usable key user now s = (s.key === key) && (s.holder === user) && not (ltb s.until now)

abbrev pub opened : Draw → String → Session
opened d user = record { holder = user; key = d.drawn; until = d.now + thirty_days }

-- A call on the sessions, that is carried out or not: a session is opened; a session that can be
-- used is exchanged for a new one; the sessions of a user are closed.
unfoldable pub ask : Bool → Call → List Session → List Session × Option String
ask false call ss = (ss, none)
ask true (create db_up d user) ss = (ss ++ opened d user ∷ [], some d.drawn)
ask true (rotate db d old user) ss =
    if any (is_usable old user d.now) ss
    then (filter (λ s. not (s.key === old)) ss ++ opened d user ∷ [], some d.drawn)
    else (ss, none)
ask true (revoke db_up db_now user) ss = (filter (λ s. not (s.holder === user)) ss, none)

-- The database does its part: every statement goes through, and what is drawn is new.
unfoldable pub is_carried : Call → Rows → Bool
is_carried (create db_up d user) t = db_up && not (any (clashes d.row_id d.drawn) t)
is_carried (rotate db d old user) t =
    db.connects
    && db.begins
    && db.selects
    && db.inserts
    && db.updates
    && db.commits
    && not (any (clashes d.row_id d.drawn) t)
is_carried (revoke db_up db_now user) t = db_up

pub sessions-append : (t u : Rows) → sessions (t ++ u) ≡ sessions t ++ sessions u
unfolding sessions
sessions-append [] u = refl
sessions-append (row ∷ t) u = ground (arith, sessions-append t u)

-- Rows whose tokens differ from a token have no session with it.
pub filter-other_key :
    (id key : String) (t : Rows)
    → any (clashes id key) t ≡ false
    → filter (λ s. not (s.key === key)) (sessions t) ≡ sessions t
unfolding sessions
filter-other_key id key [] h = refl
filter-other_key id key (row ∷ t) h = ground (arith, filter-other_key id key t)

pub usable-other_key :
    (id key user : String) (now : ℕ) (t : Rows)
    → any (clashes id key) t ≡ false
    → any (is_usable key user now) (sessions t) ≡ false
unfolding sessions
usable-other_key id key user now [] h = refl
usable-other_key id key user now (row ∷ t) h = ground (arith, usable-other_key id key user now t)
