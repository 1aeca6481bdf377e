-- ===== src/Tokens/Refines.antt =====
-- The service carries out its calls on the sessions.
use lumigift_lumigift.Common.{
  ℕ, ◌≡◌, refl, ap, sym, ◌∙◌, inl, inr, String, Bool, true, false, not, List, [], ◌∷◌, ◌++◌, map,
  Option, none, some, any, filter, ◌===◌, arith, Bool-cases, Option-cases, subst,
}
use mathlib.Core.List.{map-append}
use lumigift_lumigift.Tokens.{
  RefreshToken, Rows, Draw, Db, clashes, new_row, find_token, is_dead, replaced, revoked,
  revoke_all_user_tokens, Call, create, rotate, revoke, serve_call,
}
use lumigift_lumigift.Tokens.Replies.{
  rotate-refused, rotate-missing, rotate-dead, rotate-exchanged, fresh_created, fresh_rotated,
  created,
}
use lumigift_lumigift.Tokens.Unique.{
  IsUnique, differ_sym, map-IsUnique, snoc-IsUnique, replaced-kept, revoked-kept,
}
use lumigift_lumigift.Tokens.Sessions.{Session, sessions, opened, ask, is_carried, sessions-append}
use lumigift_lumigift.Tokens.Rotation.{
  find_token-clashes, usable-missing, usable-found, remove-found, remove-user,
}

-- The rows stand for the sessions of an answer, with the same token given.
record Agrees (r : Rows × Option String) (a : List Session × Option String) : Type 0 where
  unique : IsUnique r.0
  same : (sessions r.0, r.1) ≡ a

done :
    (t : Rows) (o : Option String) (ss : List Session) (r : Rows × Option String)
    → IsUnique t
    → sessions t ≡ ss
    → r ≡ (t, o)
    → Agrees r (ss, o)
done t o ss r u e h = record {
  unique = subst (λ x. IsUnique x.0) (sym h) u;
  same = ap (λ x. (sessions x.0, x.1)) h ∙ ap (λ x. (x, o)) e;
}

-- An answer that gives nothing and changes nothing.
nothing :
    (t : Rows) (r : Rows × Option String) → IsUnique t → r ≡ (t, none) → Agrees r (sessions t, none)
nothing t r u h = done t none (sessions t) r u refl h

-- The new row is not touched by the UPDATE of the old one.
sessions-exchanged :
    (d : Draw) (old user : String) (t : Rows) (row : RefreshToken)
    → IsUnique t
    → any (clashes d.row_id d.drawn) t ≡ false
    → find_token old user t ≡ some row
    → sessions (map (replaced d row.id) (t ++ new_row d user ∷ []))
      ≡ filter (λ s. not (s.key === old)) (sessions t) ++ opened d user ∷ []
unfolding sessions
sessions-exchanged d old user t row u fresh h =
    let apart : clashes d.row_id d.drawn row ≡ false =
      find_token-clashes old user d.row_id d.drawn t row h fresh in
    let differs : (d.row_id === row.id) ≡ false = differ_sym row.id d.row_id (ground arith) in
    ap sessions (map-append (replaced d row.id) t (new_row d user ∷ []))
    ∙ sessions-append (map (replaced d row.id) t) (map (replaced d row.id) (new_row d user ∷ []))
    ∙ rw (differs, remove-found d old user t row u h) refl

sessions-opened :
    (d : Draw) (user : String) (t : Rows)
    → sessions (t ++ new_row d user ∷ []) ≡ sessions t ++ opened d user ∷ []
unfolding sessions
sessions-opened d user t = sessions-append t (new_row d user ∷ [])

create-Agrees :
    (db_up : Bool) (d : Draw) (user : String) (t : Rows)
    → IsUnique t
    → Agrees
        (serve_call (create db_up d user) t)
        (ask (is_carried (create db_up d user) t) (create db_up d user) (sessions t))
unfolding ask
create-Agrees db_up d user t u = elim (Bool-cases (is_carried (create db_up d user) t)) [
  | inr refused ↦ rw (created db_up d user t, refused) (nothing t _ u refl)
  | inl carried ↦
      let fresh : any (clashes d.row_id d.drawn) t ≡ false = fresh_created db_up d user t carried in
      rw (created db_up d user t, carried)
        (done _ _ _ _ (snoc-IsUnique t (new_row d user) fresh u) (sessions-opened d user t) refl)
]

revoke-Agrees :
    (db_up : Bool) (db_now : ℕ) (user : String) (t : Rows)
    → IsUnique t
    → Agrees
        (serve_call (revoke db_up db_now user) t)
        (ask (is_carried (revoke db_up db_now user) t) (revoke db_up db_now user) (sessions t))
unfolding serve_call revoke_all_user_tokens ask is_carried
revoke-Agrees false db_now user t u = nothing t _ u refl
revoke-Agrees true db_now user t u = record {
  unique = map-IsUnique (revoked db_now user) t (revoked-kept db_now user) u;
  same = ap (λ ss. (ss, none)) (remove-user db_now user t);
}

rotate-Agrees :
    (db : Db) (d : Draw) (old user : String) (t : Rows)
    → IsUnique t
    → Agrees
        (serve_call (rotate db d old user) t)
        (ask (is_carried (rotate db d old user) t) (rotate db d old user) (sessions t))
unfolding ask
rotate-Agrees db d old user t u = elim (Bool-cases (is_carried (rotate db d old user) t)) [
  | inr refused ↦ rw refused (nothing t _ u (rotate-refused db d old user t refused))
  | inl carried ↦ rw carried (elim (Option-cases (find_token old user t)) [
    | inl missing ↦
        rw (usable-missing old user d.now t missing)
          (nothing t _ u (rotate-missing db d old user t missing))
    | inr (row, found) ↦ elim (Bool-cases (is_dead d.now row)) [
      | inl dead ↦
          rw (usable-found old user d.now t row u found, dead)
            (nothing t _ u (rotate-dead db d old user t row found dead))
      | inr alive ↦
          let fresh : any (clashes d.row_id d.drawn) t ≡ false =
            fresh_rotated db d old user t carried in
          rw
            (
              usable-found old user d.now t row u found,
              alive,
              rotate-exchanged db d old user t row carried found alive,
            )
            (record {
              unique =
                  map-IsUnique (replaced d row.id) _ (replaced-kept d row.id)
                    (snoc-IsUnique t (new_row d user) fresh u);
              same =
                  ap (λ ss. (ss, some d.drawn)) (sessions-exchanged d old user t row u fresh found);
            })
    ]
  ])
]

serve_call-Agrees :
    (c : Call) (t : Rows)
    → IsUnique t
    → Agrees (serve_call c t) (ask (is_carried c t) c (sessions t))
serve_call-Agrees (create db_up d user) t u = create-Agrees db_up d user t u
serve_call-Agrees (rotate db d old user) t u = rotate-Agrees db d old user t u
serve_call-Agrees (revoke db_up db_now user) t u = revoke-Agrees db_up db_now user t u

pub serve_call-IsUnique : (c : Call) (t : Rows) → IsUnique t → IsUnique (serve_call c t).0
serve_call-IsUnique c t u = (serve_call-Agrees c t u).unique

-- The calls in turn, on the rows.
unfoldable pub serve_calls : List Call → Rows → Rows × List (Option String)
serve_calls [] t = (t, [])
serve_calls (c ∷ cs) t =
    let (t', o) = serve_call c t in let (t'', os) = serve_calls cs t' in (t'', o ∷ os)

-- Which of the calls are carried out.
unfoldable pub carried_calls : List Call → Rows → List (Bool × Call)
carried_calls [] t = []
carried_calls (c ∷ cs) t = (is_carried c t, c) ∷ carried_calls cs (serve_call c t).0

-- The same on the sessions.
unfoldable pub ask_all : List (Bool × Call) → List Session → List Session × List (Option String)
ask_all [] ss = (ss, [])
ask_all ((b, c) ∷ cs) ss =
    let (ss', o) = ask b c ss in let (ss'', os) = ask_all cs ss' in (ss'', o ∷ os)

-- The refresh tokens are a list of sessions: whatever the calls, what they draw, and which statements
-- the database refuses, the tokens that they give and the sessions that are left are those of opening
-- a session, exchanging one that can be used for a new one, and closing those of a user, where a call
-- whose statements do not all go through, or which draws what is in use, gives nothing and changes
-- nothing. The table's ids and tokens are unique.
pub serve_calls-ask_all :
    (cs : List Call) (t : Rows)
    → IsUnique t
    → (sessions (serve_calls cs t).0, (serve_calls cs t).1)
      ≡ ask_all (carried_calls cs t) (sessions t)
unfolding serve_calls carried_calls ask_all
serve_calls-ask_all [] t u = refl
serve_calls-ask_all (c ∷ cs) t u =
    let a = serve_call-Agrees c t u in
    let later = serve_calls-ask_all cs (serve_call c t).0 a.unique in
    ap (λ x. (x.0, (serve_call c t).1 ∷ x.1)) later
    ∙ ap (λ x. let y = ask_all (carried_calls cs (serve_call c t).0) x.0 in (y.0, x.1 ∷ y.1)) a.same
