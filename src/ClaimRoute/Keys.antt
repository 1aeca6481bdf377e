-- ===== src/ClaimRoute/Keys.antt =====
-- What a claim does with the keys of Redis.
use lumigift_lumigift.Common.{
  ℕ, ◌≤◌, ◌≡◌, inl, inr, refl, ◌∙◌, subst, String, Bool, Option, none, some, truthy, ◌===◌, arith,
  eq_iff, Bool-cases,
}
use lumigift_lumigift.Redis.{Redis}
use lumigift_lumigift.Gift.Defs.{Gift}
use lumigift_lumigift.Invitations.{Invitation}
use lumigift_lumigift.Guards.Csrf.{Text}
use lumigift_lumigift.ClaimRoute.{
  ClaimGiftInput, SessionUser, ClaimRequest, Site, pass_on, with_invitation, with_phone, with_gift,
}

module _ (r : Redis) (verify : String → String → String → Bool) (hmac : Option (Text → Text)) where
  open r use {State, get, del, get-del, get-del_ne}

  -- What is checked after the signature leaves the keys alone.
  with_invitation-keys :
      (q : ClaimRequest) (key : String) (gift : Gift) (o : Option Invitation)
      (s : Site r verify hmac)
      → (with_invitation r verify hmac q key gift o s).0.keys ≡ s.keys
  unfolding pass_on
  with_invitation-keys q key gift none s = refl
  with_invitation-keys q key gift (some i) s = ground arith

  with_phone-keys :
      (q : ClaimRequest) (gift_id key : String) (gift : Gift) (phone : Option String)
      (s : Site r verify hmac)
      → (with_phone r verify hmac q gift_id key gift phone s).0.keys ≡ s.keys
  unfolding pass_on
  with_phone-keys q gift_id key gift none s = refl
  with_phone-keys q gift_id key gift (some phone) s = elim (Bool-cases q.lookup_up) [
    | inr down ↦ rw down refl
    | inl up ↦ rw up (with_invitation-keys q key gift _ s)
  ]

  pub with_gift-keys :
      (q : ClaimRequest) (user : SessionUser) (input : ClaimGiftInput) (o : Option Gift)
      (s : Site r verify hmac)
      → (with_gift r verify hmac q user input o s).0.keys ≡ s.keys
  with_gift-keys q user input none s = refl
  with_gift-keys q user input (some gift) s =
      with_phone-keys q input.gift_id input.recipient_stellar_key gift (truthy user.phone) s

  -- From a time on the challenge is not there.
  unfoldable pub Spent : String → ℕ → State → Type 0
  Spent k t s = (t' : ℕ) → t ≤ t' → get t' k s ≡ none

  pub del-Spent : (j k : String) (t : ℕ) (s : State) → Spent k t s → Spent k t (del t j s)
  unfolding Spent
  del-Spent j k t s spent t' h = elim (Bool-cases (j === k)) [
    | inl same ↦
        let e : j ≡ k = (eq_iff j k).0 same in
        subst (λ x. get t' x (del t j s) ≡ none) e (get-del t t' j s h)
    | inr other ↦ get-del_ne t t' j k s h (λ e. ground (arith, (eq_iff j k).1 e)) ∙ spent t' h
  ]
