-- ===== src/AuthSession/Stale.antt =====
-- Sessions whose refresh token was revoked or exchanged.
use lumigift_lumigift.Common.{
  ℕ, ◌≡◌, ◌≤◌, ◌⊎◌, inl, inr, refl, sym, subst, String, true, false, not, ◌&&◌, List, [], ◌∷◌, map,
  none, some, Result, ok, err, any, ltb, ◌===◌, arith, Bool-cases, Option-cases, if◌then◌else◌,
}
use lumigift_lumigift.Tokens.{
  RefreshToken, Rows, DbError, unavailable, Draw, Db, find_token, is_dead, revoked,
  rotate_refresh_token, rotate_selected, revoke_all_user_tokens, undo, Call, revoke, serve_call,
}
use lumigift_lumigift.Tokens.Unique.{IsUnique}
use lumigift_lumigift.Tokens.Refines.{serve_calls, serve_call-IsUnique}
use lumigift_lumigift.Tokens.SingleUse.{
  is_spent, serve_calls-spent, serve_calls-IsUnique, found-spent,
}
use lumigift_lumigift.AuthSession.{
  Jwt, refresh_error, refreshed, jwt_callback, user_session, sign_out,
}

-- A request of the client: the calls of the token service that came before it, and what the database
-- does with its own.
pub record CookieRequest : Type 0 where
  pub before : List Call
  pub db : Db
  pub draw : Draw

-- The cookie after the answer; the client keeps the one it has where the callback throws.
abbrev pub kept : Jwt → Result DbError Jwt → Jwt
kept j (ok j') = j'
kept j (err e) = j

-- The session is served, for the same user, and was not refreshed; when it has run out it says so.
pub record IsServed (j : Jwt) (now : ℕ) (answer : Result DbError Jwt) : Type 0 where
  pub cookie : Jwt
  pub answered : answer ≡ ok cookie
  pub same_user : ((user_session cookie).id ≡ j.id) × ((user_session cookie).phone ≡ j.phone)
  pub not_refreshed :
      (cookie.refresh_token ≡ j.refresh_token)
      × (cookie.access_token_expires ≡ j.access_token_expires)
  pub reported : j.access_token_expires ≤ now → (user_session cookie).error ≡ some refresh_error

-- The answer, where it is not an error of the database.
unfoldable pub Answers : Jwt → Db → ℕ → Result DbError Jwt → Type 0
Answers j db now answer =
    (((db.connects && db.rolls_back) ≡ false) × (answer ≡ err unavailable)) ⊎ IsServed j now answer

-- Every answer to the requests of a client that comes back with its cookie.
unfoldable pub AllAnswers : List CookieRequest → Jwt → Rows → Type 0
AllAnswers [] j t = Unit
AllAnswers (q ∷ later) j t =
    let (t', answer) = jwt_callback q.db q.draw j (serve_calls q.before t).0 in
    Answers j q.db q.draw.now answer × AllAnswers later (kept j answer) t'

-- A rotation with a spent token changes nothing.
rotate_refresh_token-spent :
    (db : Db) (d : Draw) (old user : String) (t : Rows)
    → IsUnique t
    → any (is_spent old) t ≡ true
    → rotate_refresh_token db d old user t
      ≡ (if not db.connects then (t, err unavailable) else undo db t)
unfolding rotate_refresh_token rotate_selected
rotate_refresh_token-spent db d old user t u h = elim (Bool-cases db.connects) [
  | inr down ↦ rw down refl
  | inl up ↦ elim (Bool-cases (db.begins && db.selects)) [
    | inr down ↦ rw (up, down) refl
    | inl selected ↦ elim (Option-cases (find_token old user t)) [
      | inl missing ↦ rw (up, selected, missing) refl
      | inr (row, found) ↦
          let dead : is_dead d.now row ≡ true =
            ground (arith, found-spent old user t row u h found) in
          rw (up, selected, found, dead) refl
    ]
  ]
]

-- One request.
callback-spent :
    (db : Db) (d : Draw) (j : Jwt) (t : Rows)
    → IsUnique t
    → any (is_spent j.refresh_token) t ≡ true
    → ((jwt_callback db d j t).0 ≡ t) × Answers j db d.now (jwt_callback db d j t).1
unfolding jwt_callback Answers
callback-spent db d j t u h = elim (Bool-cases (ltb d.now j.access_token_expires)) [
  | inl fresh ↦ rw fresh (
    refl,
    inr (record {
      cookie = j;
      answered = refl;
      same_user = (refl, refl);
      not_refreshed = (refl, refl);
      reported = λ le. absurd (ground (arith, le));
    }),
  )
  | inr over ↦
      let e = rotate_refresh_token-spent db d j.refresh_token j.id t u h in
      elim (Bool-cases db.connects) [
        | inr down ↦ rw (over, e, down) (refl, inl (refl, refl))
        | inl up ↦ elim (Bool-cases db.rolls_back) [
          | inr stuck ↦ rw (over, e, up, stuck) (refl, inl (refl, refl))
          | inl undone ↦
              rw (over, e, up, undone)
                (
                  refl,
                  inr (record {
                    cookie = refreshed d.now j none;
                    answered = refl;
                    same_user = (refl, refl);
                    not_refreshed = (refl, refl);
                    reported = λ le. refl;
                  }),
                )
        ]
      ]
]

kept-token :
    (j : Jwt) (db : Db) (now : ℕ) (answer : Result DbError Jwt)
    → Answers j db now answer
    → (kept j answer).refresh_token ≡ j.refresh_token
unfolding Answers
kept-token j db now answer (inl (down, e)) = rw e refl
kept-token j db now answer (inr served) = rw served.answered served.not_refreshed.0

spent-AllAnswers :
    (qs : List CookieRequest) (j : Jwt) (t : Rows)
    → IsUnique t
    → any (is_spent j.refresh_token) t ≡ true
    → AllAnswers qs j t
unfolding AllAnswers
spent-AllAnswers [] j t u h = tt
spent-AllAnswers (q ∷ later) j t u h =
    let t1 = (serve_calls q.before t).0 in
    let u1 = serve_calls-IsUnique q.before t u in
    let h1 = serve_calls-spent j.refresh_token q.before t h in
    let (same, answered) = callback-spent q.db q.draw j t1 u1 h1 in
    let a = jwt_callback q.db q.draw j t1 in
    let token = kept-token j q.db q.draw.now a.1 answered in
    (
      answered,
      spent-AllAnswers later (kept j a.1) a.0 (subst IsUnique (sym same) u1) (
          subst (λ k. any (is_spent k) a.0 ≡ true) (sym token)
            (subst (λ x. any (is_spent j.refresh_token) x ≡ true) (sym same) h1)),
    )

found-revoked :
    (db_now : ℕ) (token user : String) (t : Rows) (row : RefreshToken)
    → find_token token user t ≡ some row
    → any (is_spent token) (map (revoked db_now user) t) ≡ true
unfolding find_token
found-revoked db_now token user [] row h = cc
found-revoked db_now token user (r ∷ t) row h =
    elim (Bool-cases ((r.token === token) && (r.user_id === user))) [
      | inl held ↦ ground arith
      | inr other ↦ ground (arith, found-revoked db_now token user t row)
    ]

-- Signing out does not end a session: after `signOut` has revoked the user's tokens, a client that
-- keeps its cookie is served a session for the same user at every request, as long as the database
-- answers; only, once it has run out, with an error in it, and it is never refreshed. Other calls of
-- the token service may come in between.
pub signed_out_is_served :
    (db_now : ℕ) (j : Jwt) (row : RefreshToken) (t : Rows) (qs : List CookieRequest)
    → IsUnique t
    → find_token j.refresh_token j.id t ≡ some row
    → AllAnswers qs j (sign_out true db_now j t).0
unfolding sign_out revoke_all_user_tokens serve_call
signed_out_is_served db_now j row t qs u found =
    spent-AllAnswers qs j _ (serve_call-IsUnique (revoke true db_now j.id) t u)
      (found-revoked db_now j.refresh_token j.id t row found)
