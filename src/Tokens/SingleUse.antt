-- ===== src/Tokens/SingleUse.antt =====
-- A token that was exchanged.
use lumigift_lumigift.Common.{
  ℕ, ◌≡◌, refl, ap, sym, ◌∙◌, inl, inr, subst, String, Bool, true, false, ◌&&◌, List, [], ◌∷◌, ◌++◌,
  map, none, some, any, ◌===◌, arith, eq_iff, Bool-cases, Option-cases,
}
use lumigift_lumigift.Tokens.{
  RefreshToken, Rows, Draw, Db, new_row, find_token, clashes, is_revoked, is_dead, replaced,
  revoked, revoke_all_user_tokens, Call, create, rotate, revoke, serve_call,
}
use lumigift_lumigift.Tokens.Sessions.{is_carried}
use lumigift_lumigift.Tokens.Unique.{IsUnique}
use lumigift_lumigift.Tokens.Rotation.{find_token-token, find_token-clashes}
use lumigift_lumigift.Tokens.Replies.{
  rotate-refused, rotate-missing, rotate-dead, rotate-exchanged, created,
}
use lumigift_lumigift.Tokens.Refines.{serve_calls, serve_call-IsUnique}

-- A revoked row with the token.
abbrev pub is_spent : String → RefreshToken → Bool
is_spent old row = (row.token === old) && is_revoked row.revoked_at

any-append_left : (p : RefreshToken → Bool) (t u : Rows) → any p t ≡ true → any p (t ++ u) ≡ true
any-append_left p [] u h = absurd (ground arith)
any-append_left p (r ∷ t) u h = ground (arith, any-append_left p t u)

any-map_mono :
    (p : RefreshToken → Bool) (f : RefreshToken → RefreshToken) (t : Rows)
    → ((r : RefreshToken) → p r ≡ true → p (f r) ≡ true)
    → any p t ≡ true
    → any p (map f t) ≡ true
any-map_mono p f [] keep h = h
any-map_mono p f (r ∷ t) keep h = ground (arith, keep r, any-map_mono p f t keep)

spent-replaced :
    (old id : String) (d : Draw) (r : RefreshToken)
    → is_spent old r ≡ true
    → is_spent old (replaced d id r) ≡ true
spent-replaced old id d r h = ground arith

spent-revoked :
    (old user : String) (db_now : ℕ) (r : RefreshToken)
    → is_spent old r ≡ true
    → is_spent old (revoked db_now user r) ≡ true
spent-revoked old user db_now r h = ground arith

-- No call makes a spent token usable.
rotate-spent :
    (old : String) (db : Db) (d : Draw) (key user : String) (t : Rows)
    → any (is_spent old) t ≡ true
    → any (is_spent old) (serve_call (rotate db d key user) t).0 ≡ true
rotate-spent old db d key user t h = elim (Bool-cases (is_carried (rotate db d key user) t)) [
  | inr refused ↦ rw (rotate-refused db d key user t refused) h
  | inl carried ↦ elim (Option-cases (find_token key user t)) [
    | inl missing ↦ rw (rotate-missing db d key user t missing) h
    | inr (row, found) ↦ elim (Bool-cases (is_dead d.now row)) [
      | inl dead ↦ rw (rotate-dead db d key user t row found dead) h
      | inr alive ↦ rw (rotate-exchanged db d key user t row carried found alive) (
          any-map_mono (is_spent old) (replaced d row.id) _ (spent-replaced old row.id d)
            (any-append_left (is_spent old) t _ h))
    ]
  ]
]

serve_call-spent :
    (old : String) (c : Call) (t : Rows)
    → any (is_spent old) t ≡ true
    → any (is_spent old) (serve_call c t).0 ≡ true
unfolding serve_call revoke_all_user_tokens
serve_call-spent old (create db_up d user) t h =
    elim (Bool-cases (is_carried (create db_up d user) t)) [
      | inr refused ↦ rw (created db_up d user t, refused) h
      | inl carried ↦ rw (created db_up d user t, carried) (any-append_left (is_spent old) t _ h)
    ]
serve_call-spent old (rotate db d key user) t h = rotate-spent old db d key user t h
serve_call-spent old (revoke false db_now user) t h = h
serve_call-spent old (revoke true db_now user) t h =
    any-map_mono (is_spent old) (revoked db_now user) t (spent-revoked old user db_now) h

pub serve_calls-spent :
    (old : String) (cs : List Call) (t : Rows)
    → any (is_spent old) t ≡ true
    → any (is_spent old) (serve_calls cs t).0 ≡ true
unfolding serve_calls
serve_calls-spent old [] t h = h
serve_calls-spent old (c ∷ cs) t h =
    serve_calls-spent old cs (serve_call c t).0 (serve_call-spent old c t h)

pub serve_calls-IsUnique : (cs : List Call) (t : Rows) → IsUnique t → IsUnique (serve_calls cs t).0
unfolding serve_calls
serve_calls-IsUnique [] t u = u
serve_calls-IsUnique (c ∷ cs) t u =
    serve_calls-IsUnique cs (serve_call c t).0 (serve_call-IsUnique c t u)

spent-apart :
    (id key : String) (t : Rows) → any (clashes id key) t ≡ false → any (is_spent key) t ≡ false
spent-apart id key [] h = refl
spent-apart id key (r ∷ t) h = ground (arith, spent-apart id key t)

-- Under the constraints, the row of a spent token is the one that is found.
pub found-spent :
    (old user : String) (t : Rows) (row : RefreshToken)
    → IsUnique t
    → any (is_spent old) t ≡ true
    → find_token old user t ≡ some row
    → is_revoked row.revoked_at ≡ true
unfolding find_token IsUnique
found-spent old user [] row u h found = cc
found-spent old user (r ∷ t) row (apart, u) h found =
    elim (Bool-cases ((r.token === old) && (r.user_id === user))) [
      | inl held ↦
          let same : r ≡ row = ground arith in
          let others : any (is_spent old) t ≡ false =
            subst (λ k. any (is_spent k) t ≡ false) ((eq_iff r.token old).0 (ground arith))
              (spent-apart r.id r.token t apart) in
          ap (λ x. is_revoked x.revoked_at) (sym same) ∙ ground (arith, others)
      | inr other ↦
          let later : find_token old user t ≡ some row = ground arith in
          elim (Bool-cases (r.token === old)) [
            | inl held ↦
                let clash = find_token-clashes old user r.id r.token t row later apart in
                let same : row.token ≡ r.token =
                  (find_token-token old user t row later).0 ∙ sym ((eq_iff r.token old).0 held) in
                absurd (ground (arith, (eq_iff row.token r.token).1 same))
            | inr free ↦ found-spent old user t row u (ground arith) later
          ]
    ]

-- The row that is found is spent after the UPDATE.
found-replaced :
    (d : Draw) (old user : String) (t u : Rows) (row : RefreshToken)
    → find_token old user t ≡ some row
    → any (is_spent old) (map (replaced d row.id) (t ++ u)) ≡ true
unfolding find_token
found-replaced d old user [] u row h = cc
found-replaced d old user (r ∷ t) u row h =
    elim (Bool-cases ((r.token === old) && (r.user_id === user))) [
      | inl held ↦
          let same : r ≡ row = ground arith in
          let same_id : (r.id === row.id) ≡ true = (eq_iff r.id row.id).1 (ap (λ x. x.id) same) in
          ground arith
      | inr other ↦ ground (arith, found-replaced d old user t u row)
    ]

-- A row that was found alive and exchanged.
pub rotate-gave :
    (db : Db) (d : Draw) (old user token : String) (t : Rows)
    → (serve_call (rotate db d old user) t).1 ≡ some token
    → any (is_spent old) (serve_call (rotate db d old user) t).0 ≡ true
rotate-gave db d old user token t h = elim (Bool-cases (is_carried (rotate db d old user) t)) [
  | inr refused ↦ absurd (gave_none (rotate-refused db d old user t refused))
  | inl carried ↦ elim (Option-cases (find_token old user t)) [
    | inl missing ↦ absurd (gave_none (rotate-missing db d old user t missing))
    | inr (row, found) ↦ elim (Bool-cases (is_dead d.now row)) [
      | inl dead ↦ absurd (gave_none (rotate-dead db d old user t row found dead))
      | inr alive ↦
          rw (rotate-exchanged db d old user t row carried found alive)
            (found-replaced d old user t (new_row d user ∷ []) row found)
    ]
  ]
]
  where
    gave_none : serve_call (rotate db d old user) t ≡ (t, none) → ⊥
    gave_none e = let both : none ≡ some token = sym (ap (λ x. x.1) e) ∙ h in cc

spent-refused :
    (db : Db) (d : Draw) (old user : String) (t : Rows)
    → IsUnique t
    → any (is_spent old) t ≡ true
    → (serve_call (rotate db d old user) t).1 ≡ none
spent-refused db d old user t u h = elim (Option-cases (find_token old user t)) [
  | inl missing ↦ rw (rotate-missing db d old user t missing) refl
  | inr (row, found) ↦
      let dead : is_dead d.now row ≡ true = ground (arith, found-spent old user t row u h found) in
      rw (rotate-dead db d old user t row found dead) refl
]

-- A refresh token that was exchanged for another is refused ever after, whoever presents it and
-- whatever calls there are in between. The table's ids and tokens are unique.
pub rotate_once :
    (db db' : Db) (d d' : Draw) (old user user' token : String) (cs : List Call) (t : Rows)
    → IsUnique t
    → (serve_call (rotate db d old user) t).1 ≡ some token
    → let t' = (serve_calls cs (serve_call (rotate db d old user) t).0).0 in
      (serve_call (rotate db' d' old user') t').1 ≡ none
rotate_once db db' d d' old user user' token cs t u h =
    let t' = (serve_call (rotate db d old user) t).0 in
    let unique = serve_call-IsUnique (rotate db d old user) t u in
    spent-refused db' d' old user' (serve_calls cs t').0 (serve_calls-IsUnique cs t' unique)
      (serve_calls-spent old cs t' (rotate-gave db d old user token t h))
