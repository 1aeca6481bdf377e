-- ===== src/Admin/Deleted.antt =====
-- What an administrator can do with gifts that are soft-deleted.
use lumigift_lumigift.Common.{
  ℕ, ◌≡◌, ◌≢◌, refl, ap, sym, ◌⊎◌, inl, inr, subst, String, Bool, true, false, not, List, [], ◌∷◌,
  ◌++◌, Option, none, some, Result, ok, err, any, filter, ◌===◌, arith, eq_iff, Bool-cases,
}
use Prim.Native.String.{◌++◌ as concat}
use lumigift_lumigift.Common.Dict.{Dict, get}
use lumigift_lumigift.Gift.Defs.{Gift, World, Env}
use lumigift_lumigift.RateLimit.{Entry, rate_limit}
use lumigift_lumigift.EventIndexer.Replay.{IsKeyed}
use lumigift_lumigift.Admin.{
  AuditEntry, Office, entry_of, require_admin, Deed, deed_name, deed_limit, deed_found, deed_asked,
  deed_limited, deed_admitted, deed_route, deed_on,
}
use lumigift_lumigift.Admin.Deeds.{HasKeysOnce, after_deed, do_deed_other, do_deed_self}

-- An answered request: who asked, for which gift, and the entry that says so.
pub record IsLogged (env : Env) (draw : String) (pieces : List String) (deed : Deed)
    (session id : Option String) (o o' : Office) : Type 0 where
  pub admin : String
  pub gift_id : String
  pub gift : Gift
  pub when : ℕ
  pub signed_in : session ≡ some admin
  pub listed : any (λ a. a === admin) pieces ≡ true
  pub named : admin ≢ ""
  pub asked : id ≡ some gift_id
  pub found : get gift_id o.world.gifts ≡ some gift
  pub deleted : gift.deleted_at ≡ some when
  pub logged : o'.audit_log ≡ o.audit_log ++ entry_of env draw admin (deed_name deed) gift.id ∷ []
  pub effect : get gift.id o'.world.gifts ≡ after_deed env deed gift
  pub others : (j : String) → gift.id ≢ j → get j o'.world.gifts ≡ get j o.world.gifts

-- The part of an answered request that begins with the id, over the gifts and the log before.
record IsDone (env : Env) (draw : String) (deed : Deed) (admin : String) (id : Option String)
    (w : World) (entries : List AuditEntry) (o' : Office) : Type 0 where
  gift_id : String
  gift : Gift
  when : ℕ
  asked : id ≡ some gift_id
  found : get gift_id w.gifts ≡ some gift
  deleted : gift.deleted_at ≡ some when
  logged : o'.audit_log ≡ entries ++ entry_of env draw admin (deed_name deed) gift.id ∷ []
  effect : get gift.id o'.world.gifts ≡ after_deed env deed gift
  others : (j : String) → gift.id ≢ j → get j o'.world.gifts ≡ get j w.gifts

-- A gift stands under its own id, and no key stands twice.
abbrev pub IsStore : World → Type 0
IsStore w = ((k : String) → IsKeyed k w) × HasKeysOnce w.gifts

abbrev Cases : Env → String → Deed → String → Option String → Office → Office → Type 0
Cases env draw deed admin id o o' =
    ((o'.world ≡ o.world) × (o'.audit_log ≡ o.audit_log))
    ⊎ IsDone env draw deed admin id o.world o.audit_log o'

deed_on-Cases :
    (env : Env) (draw : String) (deed : Deed) (admin gift_id : String) (gift : Gift)
    (when : Option ℕ) (o : Office)
    → IsStore o.world
    → get gift_id o.world.gifts ≡ some gift
    → gift.deleted_at ≡ when
    → Cases env draw deed admin (some gift_id) o (deed_on env draw deed admin gift when o).0
deed_on-Cases env draw deed admin gift_id gift none o store found e = inl (refl, refl)
deed_on-Cases env draw deed admin gift_id gift (some t) o store found e = inr (record {
  gift_id = gift_id;
  gift = gift;
  when = t;
  asked = refl;
  found = found;
  deleted = e;
  logged = refl;
  effect =
      do_deed_self env deed gift o.world store.1
        (subst (λ k. get k o.world.gifts ≡ some gift) (sym (store.0 gift_id gift found)) found);
  others = λ j h. do_deed_other env deed gift o.world j h;
})

deed_found-Cases :
    (env : Env) (draw : String) (deed : Deed) (admin gift_id : String) (found : Option Gift)
    (o : Office)
    → IsStore o.world
    → get gift_id o.world.gifts ≡ found
    → Cases env draw deed admin (some gift_id) o (deed_found env draw deed admin found o).0
deed_found-Cases env draw deed admin gift_id none o store e = inl (refl, refl)
deed_found-Cases env draw deed admin gift_id (some gift) o store e =
    deed_on-Cases env draw deed admin gift_id gift gift.deleted_at o store e refl

deed_asked-Cases :
    (env : Env) (draw : String) (deed : Deed) (admin : String) (id : Option String) (o : Office)
    → IsStore o.world
    → Cases env draw deed admin id o (deed_asked env draw deed admin id o).0
deed_asked-Cases env draw deed admin none o store = inl (refl, refl)
deed_asked-Cases env draw deed admin (some k) o store =
    deed_found-Cases env draw deed admin k (get k o.world.gifts) o store refl

deed_limited-Cases :
    (env : Env) (draw : String) (deed : Deed) (id : Option String) (admin : String)
    (r : Dict Entry × Bool) (o : Office)
    → IsStore o.world
    → Cases env draw deed admin id o (deed_limited env draw deed id admin r o).0
deed_limited-Cases env draw deed id admin (limits, false) o store = inl (refl, refl)
deed_limited-Cases env draw deed id admin (limits, true) o store =
    deed_asked-Cases env draw deed admin id (record o { limits = limits }) store

-- A listed administrator.
any-named :
    (pieces : List String) (admin : String)
    → any (λ a. a === admin) (filter (λ a. not (a === "")) pieces) ≡ true
    → (any (λ a. a === admin) pieces ≡ true) × (admin ≢ "")
any-named [] admin h = absurd (ground arith)
any-named (p ∷ pieces) admin h = elim (Bool-cases (p === "")) [
  | inl empty ↦ let (listed, named) = any-named pieces admin (ground arith) in (ground arith, named)
  | inr filled ↦ elim (Bool-cases (p === admin)) [
    | inl here ↦ (ground arith, λ e. ground (arith, eq_iff p admin, eq_iff p ""))
    | inr there ↦
        let (listed, named) = any-named pieces admin (ground arith) in (ground arith, named)
  ]
]

require_admin-ok :
    (pieces : List String) (session : Option String) (admin : String)
    → require_admin pieces session ≡ ok admin
    → (session ≡ some admin) × (any (λ a. a === admin) pieces ≡ true) × (admin ≢ "")
unfolding require_admin
require_admin-ok pieces none admin h = absurd (ground arith)
require_admin-ok pieces (some u) admin h =
    elim (Bool-cases (any (λ a. a === u) (filter (λ a. not (a === "")) pieces))) [
      | inl listed ↦
          let same : u ≡ admin = ground arith in
          let (in_pieces, named) = any-named pieces u listed in
          (
            ap some same,
            subst (λ x. any (λ a. a === x) pieces ≡ true) same in_pieces,
            subst (λ x. x ≢ "") same named,
          )
      | inr unknown ↦ absurd (ground arith)
    ]

-- A request to restore or to remove a gift changes the gifts and the administrators' log only if it
-- comes from a signed-in user who is listed as an administrator, for a gift that is found and is
-- soft-deleted; then exactly one entry is logged, which names the user, the deed and the gift, the
-- gift is active again or is gone, and no other gift is touched. Each gift stands under its own id.
pub deed_route-IsLogged :
    (env : Env) (draw : String) (pieces : List String) (deed : Deed) (session id : Option String)
    (o : Office)
    → IsStore o.world
    → let o' = (deed_route env draw pieces deed session id o).0 in
      ((o'.world ≡ o.world) × (o'.audit_log ≡ o.audit_log))
      ⊎ IsLogged env draw pieces deed session id o o'
unfolding deed_route
deed_route-IsLogged env draw pieces deed session id o store =
    by_admin (require_admin pieces session) refl
  where
    limiter : String → Dict Entry × Bool
    limiter admin = rate_limit env.now (concat "admin:" admin) (deed_limit deed) 60000 o.limits

    by_admin :
        (r : Result ℕ String)
        → require_admin pieces session ≡ r
        → let o' = (deed_admitted env draw deed id r o).0 in
          ((o'.world ≡ o.world) × (o'.audit_log ≡ o.audit_log))
          ⊎ IsLogged env draw pieces deed session id o o'
    by_admin (err status) e = inl (refl, refl)
    by_admin (ok admin) e =
        elim (deed_limited-Cases env draw deed id admin (limiter admin) o store) [
          | inl idle ↦ inl idle
          | inr d ↦
              let (signed_in, listed, named) = require_admin-ok pieces session admin e in
              inr (record {
                admin = admin;
                gift_id = d.gift_id;
                gift = d.gift;
                when = d.when;
                signed_in = signed_in;
                listed = listed;
                named = named;
                asked = d.asked;
                found = d.found;
                deleted = d.deleted;
                logged = d.logged;
                effect = d.effect;
                others = d.others;
              })
        ]
