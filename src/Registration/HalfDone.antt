-- ===== src/Registration/HalfDone.antt =====
-- A registration that fails after the user was written, with the claims that follow.
use lumigift_lumigift.Common.{
  inl, inr, ℕ, ◌≡◌, ◌≢◌, refl, ap, ◌∙◌, subst, String, true, false, not, ◌||◌, List, [], ◌∷◌, ◌++◌,
  Option, none, some, Result, ok, err, truthy, any, arith, eq_refl, Bool-cases,
}
use lumigift_lumigift.Invitations.{accepted}
use lumigift_lumigift.Guards.Csrf.{Text, Verdict, pass, csrf_missing, csrf_invalid, guarded}
use lumigift_lumigift.ClaimRoute.Rows.{Shut}
use lumigift_lumigift.Registration.{
  Account, RegisterBody, RegisterRequest, Registry, is_registered, check_invitation, account_of,
  account_clashes, accept, create_user, with_checked, register_handler, register_route,
}
use lumigift_lumigift.Registration.Ids.{
  HasUniqueIds, set_status-HasUniqueIds, are_for, check_invitation-are_for, Shut-accepted,
}

-- The phone has a user, and no invitation to the gift that can be claimed with.
pub record IsHalfDone (phone gift_id : String) (until : ℕ) (s : Registry) : Type 0 where
  pub there : is_registered phone s.users ≡ true
  pub unique : HasUniqueIds s.invitations
  pub shut : Shut phone gift_id until s.invitations

pub is_registered-append :
    (phone : String) (users : List Account) (a : Account)
    → is_registered phone users ≡ true
    → is_registered phone (users ++ a ∷ []) ≡ true
is_registered-append phone [] a h = absurd (ground arith)
is_registered-append phone (u ∷ users) a h = ground (arith, is_registered-append phone users a)

pub is_registered-new :
    (users : List Account) (a : Account) → is_registered a.phone (users ++ a ∷ []) ≡ true
is_registered-new [] a = rw (eq_refl a.phone) refl
is_registered-new (u ∷ users) a = ground (arith, is_registered-new users a)

accept-IsHalfDone :
    (q : RegisterRequest) (phone gift_id other : String) (until : ℕ) (o : Option String)
    (s : Registry)
    → other ≢ phone
    → ((id : String) → o ≡ some id → are_for id other s.invitations ≡ true)
    → IsHalfDone phone gift_id until s
    → IsHalfDone phone gift_id until (accept q o s).0
accept-IsHalfDone q phone gift_id other until none s ne own h = h
accept-IsHalfDone q phone gift_id other until (some id) s ne own h = elim (Bool-cases q.update_up) [
  | inr down ↦ rw down h
  | inl up ↦ rw up (record {
    there = h.there;
    unique = set_status-HasUniqueIds id accepted s.invitations h.unique;
    shut = Shut-accepted phone gift_id other id until s.invitations ne (own id refl) h.shut;
  })
]

create_user-IsHalfDone :
    (q : RegisterRequest) (b : RegisterBody) (phone gift_id : String) (until : ℕ)
    (o : Option String) (s : Registry)
    → b.phone ≢ phone
    → ((id : String) → o ≡ some id → are_for id b.phone s.invitations ≡ true)
    → IsHalfDone phone gift_id until s
    → IsHalfDone phone gift_id until (create_user q b o s).0
unfolding create_user
create_user-IsHalfDone q b phone gift_id until o s ne own h =
    elim (Bool-cases (not q.insert_up || any (account_clashes (account_of q b)) s.users)) [
      | inl refused ↦ rw refused h
      | inr inserted ↦ rw inserted (
          accept-IsHalfDone q phone gift_id b.phone until o
            (record s { users = s.users ++ account_of q b ∷ [] }) ne own
            (record {
              there = is_registered-append phone s.users (account_of q b) h.there;
              unique = h.unique;
              shut = h.shut;
            }))
    ]

with_checked-IsHalfDone :
    (q : RegisterRequest) (b : RegisterBody) (phone gift_id : String) (until : ℕ)
    (c : Result ℕ (Option String)) (s : Registry)
    → b.phone ≢ phone
    → check_invitation q b.phone (truthy b.invitation_token) s.invitations ≡ c
    → IsHalfDone phone gift_id until s
    → IsHalfDone phone gift_id until (with_checked q b c s).0
with_checked-IsHalfDone q b phone gift_id until (err status) s ne e h = h
with_checked-IsHalfDone q b phone gift_id until (ok o) s ne e h =
    create_user-IsHalfDone q b phone gift_id until o s ne
      (λ id same.
        check_invitation-are_for q b.phone id (truthy b.invitation_token) s.invitations h.unique
          (e ∙ ap ok same))
      h

other_phone :
    (phone other : String) (users : List Account)
    → is_registered phone users ≡ true
    → is_registered other users ≡ false
    → other ≢ phone
other_phone phone other users there not_there e =
    let moved = subst (λ p. is_registered p users ≡ false) e not_there in ground arith

register_handler-IsHalfDone :
    (q : RegisterRequest) (body : Option RegisterBody) (phone gift_id : String) (until : ℕ)
    (s : Registry)
    → IsHalfDone phone gift_id until s
    → IsHalfDone phone gift_id until (register_handler q body s).0
unfolding register_handler create_user check_invitation
register_handler-IsHalfDone q none phone gift_id until s h = h
register_handler-IsHalfDone q (some b) phone gift_id until s h = elim (Bool-cases q.users_up) [
  | inr down ↦ rw down h
  | inl up ↦ elim (Bool-cases (is_registered b.phone s.users)) [
    | inl there ↦ rw (up, there) h
    | inr free ↦
        rw (up, free)
          (with_checked-IsHalfDone q b phone gift_id until _ s
            (other_phone phone b.phone s.users h.there free) refl h)
  ]
]

pub register_route-IsHalfDone :
    (hmac : Option (Text → Text)) (q : RegisterRequest) (phone gift_id : String) (until : ℕ)
    (s : Registry)
    → IsHalfDone phone gift_id until s
    → IsHalfDone phone gift_id until (register_route hmac q s).0
unfolding register_route
register_route-IsHalfDone hmac q phone gift_id until s h = by_verdict _
  where
    by_verdict :
        (v : Verdict) → IsHalfDone phone gift_id until (guarded v (register_handler q q.body) s).0
    by_verdict pass = register_handler-IsHalfDone q q.body phone gift_id until s h
    by_verdict csrf_missing = h
    by_verdict csrf_invalid = h

-- The phone is not registered again.
pub register_route-again :
    (hmac : Option (Text → Text)) (q : RegisterRequest) (b : RegisterBody) (s : Registry)
    → q.body ≡ some b
    → is_registered b.phone s.users ≡ true
    → (register_route hmac q s).1 ≢ 201
unfolding register_route register_handler
register_route-again hmac q b s body there = by_verdict _
  where
    by_verdict : (v : Verdict) → (guarded v (register_handler q q.body) s).1 ≢ 201
    by_verdict csrf_missing = λ e. omega (arith, e)
    by_verdict csrf_invalid = λ e. omega (arith, e)
    by_verdict pass = elim (Bool-cases q.users_up) [
      | inr down ↦ rw (body, down) (λ e. omega (arith, e))
      | inl up ↦ rw (body, up, there) (λ e. omega (arith, e))
    ]
