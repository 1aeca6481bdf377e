-- ===== src/Registration/Ids.antt =====
-- Rows of the invitations, whose ids are unique, and the row that a query finds.
use lumigift_lumigift.Common.{
  if◌then◌else◌, inl, inr, ℕ, ◌≡◌, ◌≢◌, refl, ap, sym, ◌∙◌, subst, String, Bool, true, false, not,
  ◌&&◌, ◌||◌, List, [], ◌∷◌, Option, none, some, Result, ok, err, any, all, leb, ◌===◌, arith,
  eq_iff, eq_refl, Bool-cases, Option-cases,
}
use lumigift_lumigift.Invitations.{
  Invitation, InvitationStatus, is_accepted, accepted, set_status, find_row,
  validate_invitation_token,
}
use lumigift_lumigift.ClaimRoute.Rows.{is_for, Shut}
use lumigift_lumigift.Registration.{RegisterRequest, check_invitation}

unfoldable pub HasUniqueIds : List Invitation → Type 0
HasUniqueIds [] = Unit
HasUniqueIds (i ∷ rows) = (any (λ j. j.id === i.id) rows ≡ false) × HasUniqueIds rows

any-set_status :
    (key id : String) (status : InvitationStatus) (rows : List Invitation)
    → any (λ j. j.id === key) (set_status id status rows) ≡ any (λ j. j.id === key) rows
any-set_status key id status [] = refl
any-set_status key id status (i ∷ rows) = ground (arith, any-set_status key id status rows)

id-set_status :
    (id : String) (status : InvitationStatus) (i : Invitation)
    → (if i.id === id then record i { status = status } else i).id ≡ i.id
id-set_status id status i = ground arith

pub set_status-HasUniqueIds :
    (id : String) (status : InvitationStatus) (rows : List Invitation)
    → HasUniqueIds rows
    → HasUniqueIds (set_status id status rows)
unfolding HasUniqueIds
set_status-HasUniqueIds id status [] u = tt
set_status-HasUniqueIds id status (i ∷ rows) (apart, u) = (
  rw (id-set_status id status i, any-set_status i.id id status rows) apart,
  set_status-HasUniqueIds id status rows u,
)

-- What holds of the row that is found holds of some row.
pub any-find_row :
    (p w : Invitation → Bool) (i : Invitation) (rows : List Invitation)
    → find_row p rows ≡ some i
    → w i ≡ true
    → any w rows ≡ true
unfolding find_row
any-find_row p w i [] h e = let wrong : none ≡ some i = h in absurd cc
any-find_row p w i (j ∷ rows) h e = elim (Bool-cases (p j)) [
  | inl this ↦
      let chosen : some j ≡ some i = sym (rw this refl) ∙ h in
      let same : j ≡ i = cc in let holds : w j ≡ true = ap w same ∙ e in ground (arith, holds)
  | inr other ↦
      let rest = any-find_row p w i rows (sym (rw other refl) ∙ h) e in ground (arith, rest)
]

-- The rows with an id are for a phone.
abbrev pub are_for : String → String → List Invitation → Bool
are_for id phone = all (λ j. not (j.id === id) || (j.recipient_phone === phone))

apart-are_for :
    (id phone : String) (rows : List Invitation)
    → any (λ j. j.id === id) rows ≡ false
    → are_for id phone rows ≡ true
apart-are_for id phone [] h = refl
apart-are_for id phone (i ∷ rows) h = ground (arith, apart-are_for id phone rows)

found-are_for :
    (p : Invitation → Bool) (i : Invitation) (rows : List Invitation)
    → HasUniqueIds rows
    → find_row p rows ≡ some i
    → are_for i.id i.recipient_phone rows ≡ true
unfolding find_row HasUniqueIds
found-are_for p i [] u h = refl
found-are_for p i (j ∷ rows) (apart, u) h = elim (Bool-cases (p j)) [
  | inl this ↦
      let chosen : some j ≡ some i = sym (rw this refl) ∙ h in
      let same : j ≡ i = cc in
      let head : are_for j.id j.recipient_phone (j ∷ rows) ≡ true =
        rw (eq_refl j.recipient_phone, apart-are_for j.id j.recipient_phone rows apart) ground
          arith in
      subst (λ k. are_for k.id k.recipient_phone (j ∷ rows) ≡ true) same head
  | inr other ↦
      let later : find_row p rows ≡ some i = sym (rw other refl) ∙ h in
      let rest = found-are_for p i rows u later in
      elim (Bool-cases (j.id === i.id)) [
        | inr free ↦ ground (arith, rest)
        | inl clash ↦
            let there = any-find_row p (λ k. k.id === i.id) i rows later (eq_refl i.id) in
            let same : j.id ≡ i.id = (eq_iff j.id i.id).0 clash in
            let apart' : any (λ k. k.id === i.id) rows ≡ false =
              subst (λ x. any (λ k. k.id === x) rows ≡ false) same apart in
            absurd (ground (arith, there, apart'))
      ]
]

-- The invitation that a registration accepts is for the phone that it registers.
pub check_invitation-are_for :
    (q : RegisterRequest) (phone id : String) (token : Option String) (rows : List Invitation)
    → HasUniqueIds rows
    → check_invitation q phone token rows ≡ ok (some id)
    → are_for id phone rows ≡ true
unfolding check_invitation
check_invitation-are_for q phone id none rows u h = absurd (ground (arith, h))
check_invitation-are_for q phone id (some token) rows u h = elim (Bool-cases q.token_up) [
  | inr down ↦ absurd (wrong 500 (sym (rw down refl) ∙ h))
  | inl up ↦ elim (Option-cases (validate_invitation_token q.now token rows)) [
    | inl missing ↦ absurd (wrong 400 (sym (rw (up, missing) refl) ∙ h))
    | inr (i, found) ↦ elim (Bool-cases (i.recipient_phone === phone)) [
      | inr other ↦ absurd (wrong 400 (sym (rw (up, found, other) refl) ∙ h))
      | inl own ↦
          let same_id = given i.id (sym (rw (up, found, own) refl) ∙ h) in
          subst (λ k. are_for k phone rows ≡ true) same_id
            (subst (λ x. are_for i.id x rows ≡ true) ((eq_iff i.recipient_phone phone).0 own)
              (found-are_for _ i rows u found))
    ]
  ]
]
  where
    refusal : ℕ → Result ℕ (Option String)
    refusal e = err e

    wrong : (e : ℕ) → refusal e ≡ ok (some id) → ⊥
    wrong e w = cc

    acceptance : String → Result ℕ (Option String)
    acceptance key = ok (some key)

    given : (key : String) → acceptance key ≡ ok (some id) → key ≡ id
    given key w = cc

-- Accepting an invitation of another phone.
pub Shut-accepted :
    (phone gift_id other id : String) (until : ℕ) (rows : List Invitation)
    → other ≢ phone
    → are_for id other rows ≡ true
    → Shut phone gift_id until rows
    → Shut phone gift_id until (set_status id accepted rows)
unfolding Shut
Shut-accepted phone gift_id other id until rows ne own (every, lasting) =
    (every_kept rows own every, lasting_kept rows lasting)
  where
    foreign :
        (i : Invitation)
        → (i.recipient_phone === other) ≡ true
        → (i.recipient_phone === phone) ≡ false
    foreign i h = elim (Bool-cases (i.recipient_phone === phone)) [
      | inr other_phone ↦ other_phone
      | inl held ↦ absurd (
          ne (sym ((eq_iff i.recipient_phone other).0 h) ∙ (eq_iff i.recipient_phone phone).0 held))
    ]

    every_kept :
        (rows : List Invitation)
        → are_for id other rows ≡ true
        → all (λ i. not (is_for phone gift_id i) || not (is_accepted i.status)) rows ≡ true
        → all
            (λ i. not (is_for phone gift_id i) || not (is_accepted i.status))
            (set_status id accepted rows)
          ≡ true
    every_kept [] own h = refl
    every_kept (i ∷ rows) own h = ground (arith, every_kept rows, foreign i)

    lasting_kept :
        (rows : List Invitation)
        → any (λ i. is_for phone gift_id i && leb until i.expires_at) rows ≡ true
        → any (λ i. is_for phone gift_id i && leb until i.expires_at) (set_status id accepted rows)
          ≡ true
    lasting_kept [] h = h
    lasting_kept (i ∷ rows) h = ground (arith, lasting_kept rows)
