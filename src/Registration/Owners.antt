-- ===== src/Registration/Owners.antt =====
-- Whose invitations are accepted.
use lumigift_lumigift.Common.{
  inl, inr, ℕ, ◌≡◌, refl, ap, sym, ◌∙◌, subst, String, Bool, true, false, not, ◌||◌, List, [], ◌∷◌,
  ◌++◌, Option, none, some, Result, ok, err, truthy, any, all, ◌===◌, arith, eq_iff, Bool-cases,
}
use lumigift_lumigift.Redis.{Redis}
use lumigift_lumigift.Invitations.{Invitation, is_accepted, accepted, claimed, set_status}
use lumigift_lumigift.Guards.Csrf.{Text, Verdict, pass, csrf_missing, csrf_invalid, guarded}
use lumigift_lumigift.ClaimRoute.{Site}
use lumigift_lumigift.ClaimRoute.Rows.{Marks, claim_route-Marks}
use lumigift_lumigift.Registration.{
  Account, RegisterBody, RegisterRequest, Registry, is_registered, check_invitation, account_of,
  account_clashes, accept, create_user, with_checked, register_handler, register_route,
}
use lumigift_lumigift.Registration.Ids.{
  HasUniqueIds, set_status-HasUniqueIds, are_for, check_invitation-are_for,
}
use lumigift_lumigift.Registration.HalfDone.{is_registered-append, is_registered-new}
use lumigift_lumigift.Registration.Stuck.{Visit, register, claim, Portal, registry, serve_visit}

-- The invitation is not accepted, or its phone has a user.
abbrev pub is_owned : List Account → Invitation → Bool
is_owned users i = not (is_accepted i.status) || is_registered i.recipient_phone users

-- No two users have the same phone.
unfoldable pub HasUniquePhones : List Account → Type 0
HasUniquePhones [] = Unit
HasUniquePhones (u ∷ users) = (is_registered u.phone users ≡ false) × HasUniquePhones users

-- The constraints of the tables, and that each invitation that was accepted and not yet claimed is
-- for the phone of a user.
pub record IsOrderly (s : Registry) : Type 0 where
  pub ids : HasUniqueIds s.invitations
  pub phones : HasUniquePhones s.users
  pub owned : all (is_owned s.users) s.invitations ≡ true

owned-append :
    (users : List Account) (a : Account) (rows : List Invitation)
    → all (is_owned users) rows ≡ true
    → all (is_owned (users ++ a ∷ [])) rows ≡ true
owned-append users a [] h = refl
owned-append users a (i ∷ rows) h =
    ground (arith, owned-append users a rows, is_registered-append i.recipient_phone users a)

is_registered-snoc :
    (phone : String) (users : List Account) (a : Account)
    → is_registered phone (users ++ a ∷ []) ≡ (is_registered phone users || (a.phone === phone))
is_registered-snoc phone [] a = ground arith
is_registered-snoc phone (u ∷ users) a = ground (arith, is_registered-snoc phone users a)

differ_sym : (a b : String) → (a === b) ≡ false → (b === a) ≡ false
differ_sym a b h = ground (arith, eq_iff a b, eq_iff b a)

phones-append :
    (a : Account) (users : List Account)
    → is_registered a.phone users ≡ false
    → HasUniquePhones users
    → HasUniquePhones (users ++ a ∷ [])
unfolding HasUniquePhones
phones-append a [] h u = (refl, tt)
phones-append a (x ∷ users) h (apart, u) = (
  is_registered-snoc x.phone users a ∙ ground (arith, apart, differ_sym x.phone a.phone),
  phones-append a users (ground arith) u,
)

unclashed-free :
    (a : Account) (users : List Account)
    → any (account_clashes a) users ≡ false
    → is_registered a.phone users ≡ false
unclashed-free a [] h = refl
unclashed-free a (u ∷ users) h = ground (arith, unclashed-free a users)

owned-claimed :
    (id : String) (users : List Account) (rows : List Invitation)
    → all (is_owned users) rows ≡ true
    → all (is_owned users) (set_status id claimed rows) ≡ true
owned-claimed id users [] h = refl
owned-claimed id users (i ∷ rows) h = ground (arith, owned-claimed id users rows)

owned-accepted :
    (id phone : String) (users : List Account) (rows : List Invitation)
    → is_registered phone users ≡ true
    → are_for id phone rows ≡ true
    → all (is_owned users) rows ≡ true
    → all (is_owned users) (set_status id accepted rows) ≡ true
owned-accepted id phone users [] there own h = refl
owned-accepted id phone users (i ∷ rows) there own h =
    let rest = owned-accepted id phone users rows there (ground arith) (ground arith) in
    elim (Bool-cases (i.id === id)) [
      | inr other ↦ rw other (ground (arith, rest))
      | inl this ↦
          let same : i.recipient_phone ≡ phone =
            (eq_iff i.recipient_phone phone).0 (ground arith) in
          let owner : is_registered i.recipient_phone users ≡ true =
            subst (λ x. is_registered x users ≡ true) (sym same) there in
          rw this (ground (arith, rest, owner))
    ]

accept-IsOrderly :
    (q : RegisterRequest) (phone : String) (o : Option String) (s : Registry)
    → is_registered phone s.users ≡ true
    → ((id : String) → o ≡ some id → are_for id phone s.invitations ≡ true)
    → IsOrderly s
    → IsOrderly (accept q o s).0
accept-IsOrderly q phone none s there own h = h
accept-IsOrderly q phone (some id) s there own h = elim (Bool-cases q.update_up) [
  | inr down ↦ rw down h
  | inl up ↦ rw up (record {
    ids = set_status-HasUniqueIds id accepted s.invitations h.ids;
    phones = h.phones;
    owned = owned-accepted id phone s.users s.invitations there (own id refl) h.owned;
  })
]

create_user-IsOrderly :
    (q : RegisterRequest) (b : RegisterBody) (o : Option String) (s : Registry)
    → ((id : String) → o ≡ some id → are_for id b.phone s.invitations ≡ true)
    → IsOrderly s
    → IsOrderly (create_user q b o s).0
unfolding create_user
create_user-IsOrderly q b o s own h = elim (Bool-cases q.insert_up) [
  | inr down ↦ rw down h
  | inl up ↦ elim (Bool-cases (any (account_clashes (account_of q b)) s.users)) [
    | inl clash ↦ rw (up, clash) h
    | inr fresh ↦
        let users = s.users ++ account_of q b ∷ [] in
        rw (up, fresh)
          (accept-IsOrderly q b.phone o (record s { users = users })
            (is_registered-new s.users (account_of q b)) own
            (record {
              ids = h.ids;
              phones =
                  phones-append (account_of q b) s.users
                    (unclashed-free (account_of q b) s.users fresh) h.phones;
              owned = owned-append s.users (account_of q b) s.invitations h.owned;
            }))
  ]
]

with_checked-IsOrderly :
    (q : RegisterRequest) (b : RegisterBody) (c : Result ℕ (Option String)) (s : Registry)
    → check_invitation q b.phone (truthy b.invitation_token) s.invitations ≡ c
    → IsOrderly s
    → IsOrderly (with_checked q b c s).0
with_checked-IsOrderly q b (err status) s e h = h
with_checked-IsOrderly q b (ok o) s e h =
    create_user-IsOrderly q b o s
      (λ id same.
        check_invitation-are_for q b.phone id (truthy b.invitation_token) s.invitations h.ids
          (e ∙ ap ok same))
      h

register_handler-IsOrderly :
    (q : RegisterRequest) (body : Option RegisterBody) (s : Registry)
    → IsOrderly s
    → IsOrderly (register_handler q body s).0
unfolding register_handler create_user check_invitation
register_handler-IsOrderly q none s h = h
register_handler-IsOrderly q (some b) s h = elim (Bool-cases q.users_up) [
  | inr down ↦ rw down h
  | inl up ↦ elim (Bool-cases (is_registered b.phone s.users)) [
    | inl there ↦ rw (up, there) h
    | inr free ↦ rw (up, free) (with_checked-IsOrderly q b _ s refl h)
  ]
]

register_route-IsOrderly :
    (hmac : Option (Text → Text)) (q : RegisterRequest) (s : Registry)
    → IsOrderly s
    → IsOrderly (register_route hmac q s).0
unfolding register_route
register_route-IsOrderly hmac q s h = by_verdict _
  where
    by_verdict : (v : Verdict) → IsOrderly (guarded v (register_handler q q.body) s).0
    by_verdict pass = register_handler-IsOrderly q q.body s h
    by_verdict csrf_missing = h
    by_verdict csrf_invalid = h

module _ (r : Redis) (verify : String → String → String → Bool) (hmac : Option (Text → Text)) where
  -- The state after visits.
  unfoldable pub visited : List Visit → Portal r verify hmac → Portal r verify hmac
  visited [] p = p
  visited (v ∷ later) p = visited later (serve_visit r verify hmac v p).0

  serve_visit-IsOrderly :
      (v : Visit) (p : Portal r verify hmac)
      → IsOrderly (registry r verify hmac p)
      → IsOrderly (registry r verify hmac (serve_visit r verify hmac v p).0)
  unfolding serve_visit Marks
  serve_visit-IsOrderly (register q) p h =
      register_route-IsOrderly hmac q (registry r verify hmac p) h
  serve_visit-IsOrderly (claim q w) p h =
      let s : Site r verify hmac = record p.site { world = w } in
      elim (claim_route-Marks r verify hmac q s) [
        | inl same ↦ record {
          ids = subst HasUniqueIds (sym same) h.ids;
          phones = h.phones;
          owned = subst (λ rows. all (is_owned p.users) rows ≡ true) (sym same) h.owned;
        }
        | inr (id, marked) ↦ record {
          ids =
              subst HasUniqueIds (sym marked)
                (set_status-HasUniqueIds id claimed p.site.invitations h.ids);
          phones = h.phones;
          owned =
              subst (λ rows. all (is_owned p.users) rows ≡ true) (sym marked)
                (owned-claimed id p.users p.site.invitations h.owned);
        }
      ]

  -- Registrations and claims, in any order and whatever the database answers, keep the constraints of
  -- the tables (no two users with a phone, no two invitations with an id), and keep each invitation
  -- that is accepted, and not yet claimed, one whose phone has a user.
  pub visited-IsOrderly :
      (later : List Visit) (p : Portal r verify hmac)
      → IsOrderly (registry r verify hmac p)
      → IsOrderly (registry r verify hmac (visited later p))
  unfolding visited
  visited-IsOrderly [] p h = h
  visited-IsOrderly (v ∷ later) p h =
      visited-IsOrderly later (serve_visit r verify hmac v p).0 (serve_visit-IsOrderly v p h)
