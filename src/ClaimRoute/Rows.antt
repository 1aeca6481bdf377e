-- ===== src/ClaimRoute/Rows.antt =====
-- What claims do with the rows of the invitations.
use lumigift_lumigift.Common.{
  ℕ, ◌≡◌, ◌<◌, ◌⊎◌, inl, inr, refl, sym, subst, String, Bool, true, false, not, ◌&&◌, ◌||◌, List,
  [], ◌∷◌, Option, none, some, truthy, any, all, leb, ◌===◌, arith, Bool-cases,
}
use lumigift_lumigift.Redis.{Redis}
use lumigift_lumigift.Gift.Defs.{Gift}
use lumigift_lumigift.Invitations.{
  Invitation, claimed, is_accepted, set_status, find_row, is_invited,
  get_invitation_by_phone_and_gift,
}
use lumigift_lumigift.Guards.Csrf.{Text, Verdict, pass, csrf_missing, csrf_invalid, guarded}
use lumigift_lumigift.ClaimRoute.{
  ClaimGiftInput, SessionUser, ClaimRequest, seconds, Site, check_signature, verify_claim_signature,
  pass_on, with_invitation, with_gift, if_signed, claim_handler, claim_route,
}

abbrev pub is_for : String → String → Invitation → Bool
is_for phone gift_id i = (i.recipient_phone === phone) && (i.gift_id === gift_id)

-- No invitation of the phone to the gift is one that was accepted and not yet claimed, and one of
-- them lasts until a time.
unfoldable pub Shut : String → String → ℕ → List Invitation → Type 0
Shut phone gift_id until rows =
    (all (λ i. not (is_for phone gift_id i) || not (is_accepted i.status)) rows ≡ true)
    × (any (λ i. is_for phone gift_id i && leb until i.expires_at) rows ≡ true)

pub Shut-set_status :
    (phone gift_id id : String) (until : ℕ) (rows : List Invitation)
    → Shut phone gift_id until rows
    → Shut phone gift_id until (set_status id claimed rows)
unfolding Shut
Shut-set_status phone gift_id id until rows (every, lasting) =
    (every_kept rows every, lasting_kept rows lasting)
  where
    every_kept :
        (rows : List Invitation)
        → all (λ i. not (is_for phone gift_id i) || not (is_accepted i.status)) rows ≡ true
        → all
            (λ i. not (is_for phone gift_id i) || not (is_accepted i.status))
            (set_status id claimed rows)
          ≡ true
    every_kept [] h = refl
    every_kept (i ∷ rows) h = ground (arith, every_kept rows)

    lasting_kept :
        (rows : List Invitation)
        → any (λ i. is_for phone gift_id i && leb until i.expires_at) rows ≡ true
        → any (λ i. is_for phone gift_id i && leb until i.expires_at) (set_status id claimed rows)
          ≡ true
    lasting_kept [] h = h
    lasting_kept (i ∷ rows) h = ground (arith, lasting_kept rows)

-- Until then an invitation is found, and it is not such a one.
pub Shut-found :
    (phone gift_id : String) (until now : ℕ) (rows : List Invitation)
    → Shut phone gift_id until rows
    → now < until
    → (i : Invitation) × (get_invitation_by_phone_and_gift now phone gift_id rows ≡ some i)
      × (is_accepted i.status ≡ false)
unfolding Shut find_row
Shut-found phone gift_id until now [] (every, lasting) h = absurd (ground arith)
Shut-found phone gift_id until now (i ∷ rows) (every, lasting) h =
    elim (Bool-cases (is_invited now phone gift_id i)) [
      | inl found ↦ (i, rw found refl, ground arith)
      | inr other ↦
          let (j, e, f) = Shut-found phone gift_id until now rows (ground arith, ground arith) h in
          (j, rw other e, f)
    ]

module _ (r : Redis) (verify : String → String → String → Bool) (hmac : Option (Text → Text)) where
  -- The rows stay as they are, or an invitation is marked as claimed.
  unfoldable pub Marks : List Invitation → List Invitation → Type 0
  Marks rows rows' = (rows' ≡ rows) ⊎ ((id : String) × (rows' ≡ set_status id claimed rows))

  with_invitation-Marks :
      (q : ClaimRequest) (key : String) (gift : Gift) (o : Option Invitation)
      (s : Site r verify hmac)
      → Marks s.invitations (with_invitation r verify hmac q key gift o s).0.invitations
  unfolding Marks pass_on
  with_invitation-Marks q key gift none s = inl refl
  with_invitation-Marks q key gift (some i) s = elim (Bool-cases (is_accepted i.status)) [
    | inr other ↦ rw other (inl refl)
    | inl ready ↦ elim (Bool-cases q.update_up) [
      | inr down ↦ rw (ready, down) (inl refl)
      | inl up ↦ rw (ready, up) (inr (i.id, refl))
    ]
  ]

  with_gift-Marks :
      (q : ClaimRequest) (user : SessionUser) (input : ClaimGiftInput) (o : Option Gift)
      (phone : Option String) (s : Site r verify hmac)
      → truthy user.phone ≡ phone
      → Marks s.invitations (with_gift r verify hmac q user input o s).0.invitations
  unfolding Marks pass_on
  with_gift-Marks q user input none phone s e = inl refl
  with_gift-Marks q user input (some gift) none s e = rw e (inl refl)
  with_gift-Marks q user input (some gift) (some phone) s e = elim (Bool-cases q.lookup_up) [
    | inr down ↦ rw (e, down) (inl refl)
    | inl up ↦ rw (e, up) (with_invitation-Marks q input.recipient_stellar_key gift _ s)
  ]

  signed-Marks :
      (q : ClaimRequest) (user : SessionUser) (input : ClaimGiftInput) (found : Option String)
      (s : Site r verify hmac)
      → Marks s.invitations
          (if_signed r verify hmac q user input
            (check_signature r verify hmac (seconds q.now) input found s)).0.invitations
  unfolding Marks
  signed-Marks q user input none s = inl refl
  signed-Marks q user input (some x) s =
      elim (Bool-cases (verify input.recipient_stellar_key input.nonce input.signature)) [
        | inr wrong ↦ rw wrong (inl refl)
        | inl right ↦ rw right (with_gift-Marks q user input _ _ _ refl)
      ]

  guarded-Marks :
      (q : ClaimRequest) (v : Verdict) (user : Option SessionUser) (body : Option ClaimGiftInput)
      (s : Site r verify hmac)
      → Marks s.invitations (guarded v (claim_handler r verify hmac q user body) s).0.invitations
  unfolding Marks claim_handler verify_claim_signature
  guarded-Marks q csrf_missing user body s = inl refl
  guarded-Marks q csrf_invalid user body s = inl refl
  guarded-Marks q pass none body s = inl refl
  guarded-Marks q pass (some user) none s = inl refl
  guarded-Marks q pass (some user) (some input) s = signed-Marks q user input _ s

  pub claim_route-Marks :
      (q : ClaimRequest) (s : Site r verify hmac)
      → Marks s.invitations (claim_route r verify hmac q s).0.invitations
  unfolding claim_route
  claim_route-Marks q s = guarded-Marks q _ q.session q.body s

  pub claim_route-Shut :
      (phone gift_id : String) (until : ℕ) (q : ClaimRequest) (s : Site r verify hmac)
      → Shut phone gift_id until s.invitations
      → Shut phone gift_id until (claim_route r verify hmac q s).0.invitations
  unfolding Marks
  claim_route-Shut phone gift_id until q s shut = elim (claim_route-Marks q s) [
    | inl same ↦ subst (Shut phone gift_id until) (sym same) shut
    | inr (id, marked) ↦
        subst (Shut phone gift_id until) (sym marked)
          (Shut-set_status phone gift_id id until s.invitations shut)
  ]
