-- ===== src/Tokens/Unique.antt =====
-- The constraints of the table: no two rows share an id or a token.
use lumigift_lumigift.Common.{
  ℕ, ◌≡◌, refl, ◌∙◌, String, Bool, false, ◌||◌, [], ◌∷◌, ◌++◌, map, any, ◌===◌, arith, eq_iff,
}
use lumigift_lumigift.Tokens.{RefreshToken, Rows, Draw, clashes, replaced, revoked}

unfoldable pub IsUnique : Rows → Type 0
IsUnique [] = Unit
IsUnique (row ∷ rows) = (any (clashes row.id row.token) rows ≡ false) × IsUnique rows

pub differ_sym : (a b : String) → (a === b) ≡ false → (b === a) ≡ false
differ_sym a b h = ground (arith, eq_iff a b, eq_iff b a)

clashes_sym : (r s : RefreshToken) → clashes r.id r.token s ≡ false → clashes s.id s.token r ≡ false
clashes_sym r s h = ground (arith, differ_sym s.id r.id, differ_sym s.token r.token)

-- An update that keeps ids and tokens keeps the clashes.
any-map_kept :
    (f : RefreshToken → RefreshToken) (id key : String) (t : Rows)
    → ((r : RefreshToken) → ((f r).id ≡ r.id) × ((f r).token ≡ r.token))
    → any (clashes id key) (map f t) ≡ any (clashes id key) t
any-map_kept f id key [] h = refl
any-map_kept f id key (row ∷ t) h =
    let (same_id, same_token) = h row in rw (same_id, same_token, any-map_kept f id key t h) refl

pub map-IsUnique :
    (f : RefreshToken → RefreshToken) (t : Rows)
    → ((r : RefreshToken) → ((f r).id ≡ r.id) × ((f r).token ≡ r.token))
    → IsUnique t
    → IsUnique (map f t)
unfolding IsUnique
map-IsUnique f [] h u = tt
map-IsUnique f (row ∷ t) h (apart, u) =
    let (same_id, same_token) = h row in
    (rw (same_id, same_token, any-map_kept f row.id row.token t h) apart, map-IsUnique f t h u)

any-snoc :
    (p : RefreshToken → Bool) (t : Rows) (r : RefreshToken) → any p (t ++ r ∷ []) ≡ (any p t || p r)
any-snoc p [] r = ground arith
any-snoc p (row ∷ t) r = ground (arith, any-snoc p t r)

pub snoc-IsUnique :
    (t : Rows) (r : RefreshToken)
    → any (clashes r.id r.token) t ≡ false
    → IsUnique t
    → IsUnique (t ++ r ∷ [])
unfolding IsUnique
snoc-IsUnique [] r fresh u = (refl, tt)
snoc-IsUnique (row ∷ t) r fresh (apart, u) = (
  any-snoc (clashes row.id row.token) t r ∙ ground (arith, apart, clashes_sym r row),
  snoc-IsUnique t r (ground arith) u,
)

pub replaced-kept :
    (d : Draw) (id : String) (r : RefreshToken)
    → ((replaced d id r).id ≡ r.id) × ((replaced d id r).token ≡ r.token)
replaced-kept d id r = ground arith

pub revoked-kept :
    (db_now : ℕ) (user : String) (r : RefreshToken)
    → ((revoked db_now user r).id ≡ r.id) × ((revoked db_now user r).token ≡ r.token)
revoked-kept db_now user r = ground arith
