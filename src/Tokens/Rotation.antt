-- ===== src/Tokens/Rotation.antt =====
-- What the SELECT and the UPDATE of a rotation mean for the sessions.
use lumigift_lumigift.Common.{
  ℕ, ◌≡◌, refl, ap, sym, ◌∙◌, inl, inr, subst, eq_refl, String, true, false, not, ◌&&◌, [], ◌∷◌,
  map, none, some, any, filter, ◌===◌, arith, eq_iff, Bool-cases,
}
use lumigift_lumigift.Tokens.{
  RefreshToken, Rows, Draw, clashes, find_token, is_dead, replaced, revoked,
}
use lumigift_lumigift.Tokens.Unique.{IsUnique, differ_sym}
use lumigift_lumigift.Tokens.Sessions.{sessions, is_usable, filter-other_key, usable-other_key}

pub find_token-token :
    (old user : String) (t : Rows) (row : RefreshToken)
    → find_token old user t ≡ some row
    → (row.token ≡ old) × (row.user_id ≡ user)
unfolding find_token
find_token-token old user [] row h = cc
find_token-token old user (r ∷ t) row h =
    elim (Bool-cases ((r.token === old) && (r.user_id === user))) [
      | inl held ↦
          let same : r ≡ row = ground arith in
          (
            ap (λ x. x.token) (sym same) ∙ (eq_iff r.token old).0 (ground arith),
            ap (λ x. x.user_id) (sym same) ∙ (eq_iff r.user_id user).0 (ground arith),
          )
      | inr other ↦ find_token-token old user t row (ground arith)
    ]

pub find_token-clashes :
    (old user id key : String) (t : Rows) (row : RefreshToken)
    → find_token old user t ≡ some row
    → any (clashes id key) t ≡ false
    → clashes id key row ≡ false
unfolding find_token
find_token-clashes old user id key [] row h apart = cc
find_token-clashes old user id key (r ∷ t) row h apart =
    elim (Bool-cases ((r.token === old) && (r.user_id === user))) [
      | inl held ↦
          let same : r ≡ row = ground arith in ap (clashes id key) (sym same) ∙ ground arith
      | inr other ↦ find_token-clashes old user id key t row (ground arith) (ground arith)
    ]

pub usable-missing :
    (old user : String) (now : ℕ) (t : Rows)
    → find_token old user t ≡ none
    → any (is_usable old user now) (sessions t) ≡ false
unfolding find_token sessions
usable-missing old user now [] h = refl
usable-missing old user now (r ∷ t) h =
    elim (Bool-cases ((r.token === old) && (r.user_id === user))) [
      | inl held ↦ absurd (ground arith)
      | inr other ↦ ground (arith, usable-missing old user now t)
    ]

map-replaced :
    (d : Draw) (id key : String) (t : Rows)
    → any (clashes id key) t ≡ false
    → map (replaced d id) t ≡ t
map-replaced d id key [] h = refl
map-replaced d id key (r ∷ t) h = ground (arith, map-replaced d id key t)

usable-head :
    (now : ℕ) (r : RefreshToken) (t : Rows)
    → IsUnique (r ∷ t)
    → any (is_usable r.token r.user_id now) (sessions (r ∷ t)) ≡ not (is_dead now r)
unfolding sessions IsUnique
usable-head now r t (apart, u) =
    let others : any (is_usable r.token r.user_id now) (sessions t) ≡ false =
      usable-other_key r.id r.token r.user_id now t apart in
    let same : (r.token === r.token) ≡ true = eq_refl r.token in
    let same_user : (r.user_id === r.user_id) ≡ true = eq_refl r.user_id in ground arith

-- The row that is found is usable as a session exactly when it is not dead.
pub usable-found :
    (old user : String) (now : ℕ) (t : Rows) (row : RefreshToken)
    → IsUnique t
    → find_token old user t ≡ some row
    → any (is_usable old user now) (sessions t) ≡ not (is_dead now row)
unfolding find_token sessions IsUnique
usable-found old user now [] row u h = cc
usable-found old user now (r ∷ t) row (apart, u) h =
    elim (Bool-cases ((r.token === old) && (r.user_id === user))) [
      | inl held ↦
          let same : r ≡ row = ground arith in
          let old_same : r.token ≡ old = (eq_iff r.token old).0 (ground arith) in
          let user_same : r.user_id ≡ user = (eq_iff r.user_id user).0 (ground arith) in
          ap (λ k. any (is_usable k user now) (sessions (r ∷ t))) (sym old_same)
          ∙ ap (λ k. any (is_usable r.token k now) (sessions (r ∷ t))) (sym user_same)
          ∙ usable-head now r t (apart, u)
          ∙ ap (λ x. not (is_dead now x)) same
      | inr other ↦
          let later : find_token old user t ≡ some row = ground arith in
          ground (arith, usable-found old user now t row u later)
    ]

remove-head :
    (d : Draw) (r : RefreshToken) (t : Rows)
    → IsUnique (r ∷ t)
    → sessions (map (replaced d r.id) (r ∷ t))
      ≡ filter (λ s. not (s.key === r.token)) (sessions (r ∷ t))
unfolding sessions IsUnique
remove-head d r t (apart, u) =
    let same : (r.token === r.token) ≡ true = eq_refl r.token in
    let same_id : (r.id === r.id) ≡ true = eq_refl r.id in
    rw (map-replaced d r.id r.token t apart) (ground (arith, filter-other_key r.id r.token t apart))

-- The UPDATE of a rotation removes the session of the row that was found.
pub remove-found :
    (d : Draw) (old user : String) (t : Rows) (row : RefreshToken)
    → IsUnique t
    → find_token old user t ≡ some row
    → sessions (map (replaced d row.id) t) ≡ filter (λ s. not (s.key === old)) (sessions t)
unfolding find_token sessions IsUnique
remove-found d old user [] row u h = cc
remove-found d old user (r ∷ t) row (apart, u) h =
    elim (Bool-cases ((r.token === old) && (r.user_id === user))) [
      | inl held ↦
          let same : r ≡ row = ground arith in
          let old_same : r.token ≡ old = (eq_iff r.token old).0 (ground arith) in
          ap (λ x. sessions (map (replaced d x.id) (r ∷ t))) (sym same)
          ∙ remove-head d r t (apart, u)
          ∙ ap (λ k. filter (λ s. not (s.key === k)) (sessions (r ∷ t))) old_same
      | inr other ↦
          let later : find_token old user t ≡ some row = ground arith in
          let kept : clashes r.id r.token row ≡ false =
            find_token-clashes old user r.id r.token t row later apart in
          let row_old : row.token ≡ old = (find_token-token old user t row later).0 in
          let differs : (r.token === old) ≡ false =
            subst (λ k. (r.token === k) ≡ false) row_old
              (differ_sym row.token r.token (ground arith)) in
          let other_row : (r.id === row.id) ≡ false = differ_sym row.id r.id (ground arith) in
          ground (arith, remove-found d old user t row u later)
    ]

-- The UPDATE of a logout removes the sessions of the user.
pub remove-user :
    (db_now : ℕ) (user : String) (t : Rows)
    → sessions (map (revoked db_now user) t) ≡ filter (λ s. not (s.holder === user)) (sessions t)
unfolding sessions
remove-user db_now user [] = refl
remove-user db_now user (r ∷ t) = ground (arith, remove-user db_now user t)
