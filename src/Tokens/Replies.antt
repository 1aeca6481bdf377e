-- ===== src/Tokens/Replies.antt =====
-- What each call of the service leaves and gives, by cases.
use lumigift_lumigift.Common.{
  ◌≡◌, inl, inr, String, Bool, true, false, not, ◌&&◌, [], ◌∷◌, ◌++◌, map, none, some, any,
  if◌then◌else◌, arith, Option-cases,
}
use lumigift_lumigift.Tokens.{
  RefreshToken, Rows, Draw, Db, clashes, new_row, insert_token, create_refresh_token, find_token,
  is_dead, replaced, exchange, undo, settle, rotate_selected, rotate_refresh_token, create, rotate,
  given_or_null, serve_call,
}
use lumigift_lumigift.Tokens.Sessions.{is_carried}

pub exchanged :
    (db : Db) (d : Draw) (user : String) (old : RefreshToken) (t : Rows)
    → given_or_null (settle db t (exchange db d user old t)) ≡ (
        if db.inserts && db.updates && db.commits && not (any (clashes d.row_id d.drawn) t)
        then (map (replaced d old.id) (t ++ new_row d user ∷ []), some d.drawn)
        else (t, none))
unfolding exchange insert_token
exchanged db d user old t = ground arith

pub undone : (db : Db) (t : Rows) → given_or_null (undo db t) ≡ (t, none)
undone db t = ground arith

pub rotate-refused :
    (db : Db) (d : Draw) (old user : String) (t : Rows)
    → is_carried (rotate db d old user) t ≡ false
    → serve_call (rotate db d old user) t ≡ (t, none)
unfolding serve_call rotate_refresh_token rotate_selected is_carried
rotate-refused db d old user t h = elim (Option-cases (find_token old user t)) [
  | inl missing ↦ rw missing (ground arith)
  | inr (row, found) ↦ rw found (ground (arith, exchanged db d user row t))
]

pub rotate-missing :
    (db : Db) (d : Draw) (old user : String) (t : Rows)
    → find_token old user t ≡ none
    → serve_call (rotate db d old user) t ≡ (t, none)
unfolding serve_call rotate_refresh_token rotate_selected
rotate-missing db d old user t h = rw h (ground arith)

pub rotate-dead :
    (db : Db) (d : Draw) (old user : String) (t : Rows) (row : RefreshToken)
    → find_token old user t ≡ some row
    → is_dead d.now row ≡ true
    → serve_call (rotate db d old user) t ≡ (t, none)
unfolding serve_call rotate_refresh_token rotate_selected
rotate-dead db d old user t row h dead = rw h (ground arith)

pub rotate-exchanged :
    (db : Db) (d : Draw) (old user : String) (t : Rows) (row : RefreshToken)
    → is_carried (rotate db d old user) t ≡ true
    → find_token old user t ≡ some row
    → is_dead d.now row ≡ false
    → serve_call (rotate db d old user) t
      ≡ (map (replaced d row.id) (t ++ new_row d user ∷ []), some d.drawn)
unfolding serve_call rotate_refresh_token rotate_selected is_carried
rotate-exchanged db d old user t row carried h alive =
    rw h (ground (arith, exchanged db d user row t))

pub fresh_created :
    (db_up : Bool) (d : Draw) (user : String) (t : Rows)
    → is_carried (create db_up d user) t ≡ true
    → any (clashes d.row_id d.drawn) t ≡ false
unfolding is_carried
fresh_created db_up d user t h = ground arith

pub fresh_rotated :
    (db : Db) (d : Draw) (old user : String) (t : Rows)
    → is_carried (rotate db d old user) t ≡ true
    → any (clashes d.row_id d.drawn) t ≡ false
unfolding is_carried
fresh_rotated db d old user t h = ground arith

pub created :
    (db_up : Bool) (d : Draw) (user : String) (t : Rows)
    → serve_call (create db_up d user) t ≡ (
        if is_carried (create db_up d user) t
        then (t ++ new_row d user ∷ [], some d.drawn)
        else (t, none))
unfolding serve_call create_refresh_token insert_token is_carried
created db_up d user t = ground arith
