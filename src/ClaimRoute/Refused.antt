-- ===== src/ClaimRoute/Refused.antt =====
-- Claims while no invitation of the phone to the gift can be claimed with.
use lumigift_lumigift.Common.{
  ℕ, ◌<◌, ◌≡◌, ◌≢◌, inl, inr, ap, sym, subst, String, Bool, true, false, ◌&&◌, Option, none, some,
  truthy, ltb, ◌==◌, ◌===◌, arith, eq_iff, Bool-cases,
}
use lumigift_lumigift.Redis.{Redis}
use lumigift_lumigift.Gift.Defs.{Gift}
use lumigift_lumigift.Guards.Csrf.{
  Text, post, Verdict, pass, csrf_missing, csrf_invalid, with_csrf, guarded,
}
use lumigift_lumigift.ClaimRoute.{
  ClaimGiftInput, SessionUser, ClaimRequest, seconds, Site, check_signature, verify_claim_signature,
  with_phone, with_gift, if_signed, claim_handler, claim_route,
}
use lumigift_lumigift.ClaimRoute.Rows.{Shut, Shut-found}

-- A claim of the gift by a user with the phone, before a time.
abbrev is_phone : String → Option String → Bool
is_phone phone none = false
is_phone phone (some p) = p === phone

is_phone_iff : (phone : String) (o : Option String) → is_phone phone o ≡ true → o ≡ some phone
is_phone_iff phone none h = absurd (ground arith)
is_phone_iff phone (some p) h = ap some ((eq_iff p phone).0 h)

abbrev by_phone : String → Option SessionUser → Bool
by_phone phone none = false
by_phone phone (some user) = is_phone phone (truthy user.phone)

abbrev for_gift : String → Option ClaimGiftInput → Bool
for_gift gift_id none = false
for_gift gift_id (some input) = input.gift_id === gift_id

abbrev pub is_claim_of : String → String → ℕ → ClaimRequest → Bool
is_claim_of phone gift_id until q =
    by_phone phone q.session && for_gift gift_id q.body && ltb q.now until

module _ (r : Redis) (verify : String → String → String → Bool) (hmac : Option (Text → Text)) where
  open r use {State, get, del}

  with_phone_refused :
      (q : ClaimRequest) (phone key : String) (gift : Gift) (until : ℕ) (gift_id : String)
      (s : Site r verify hmac)
      → Shut phone gift_id until s.invitations
      → q.now < until
      → (with_phone r verify hmac q gift_id key gift (some phone) s).1 ≢ 200
  with_phone_refused q phone key gift until gift_id s shut h =
      let (i, found, other) = Shut-found phone gift_id until q.now s.invitations shut h in
      elim (Bool-cases q.lookup_up) [
        | inr down ↦ rw down (λ e. omega (arith, e))
        | inl up ↦ rw (up, found, other) (λ e. omega (arith, e))
      ]

  with_gift-refused :
      (q : ClaimRequest) (user : SessionUser) (input : ClaimGiftInput) (o : Option Gift)
      (phone : String) (until : ℕ) (s : Site r verify hmac)
      → Shut phone input.gift_id until s.invitations
      → truthy user.phone ≡ some phone
      → q.now < until
      → (with_gift r verify hmac q user input o s).1 ≢ 200
  with_gift-refused q user input none phone until s shut e h = λ w. omega (arith, w)
  with_gift-refused q user input (some gift) phone until s shut e h =
      rw e
        (with_phone_refused q phone input.recipient_stellar_key gift until input.gift_id s shut h)

  signed-refused :
      (q : ClaimRequest) (user : SessionUser) (input : ClaimGiftInput) (found : Option String)
      (phone : String) (until : ℕ) (s : Site r verify hmac)
      → Shut phone input.gift_id until s.invitations
      → truthy user.phone ≡ some phone
      → q.now < until
      → (if_signed r verify hmac q user input
          (check_signature r verify hmac (seconds q.now) input found s)).1
        ≢ 200
  signed-refused q user input none phone until s shut e h = λ w. omega (arith, w)
  signed-refused q user input (some x) phone until s shut e h =
      elim (Bool-cases (verify input.recipient_stellar_key input.nonce input.signature)) [
        | inr wrong ↦ rw wrong (λ w. omega (arith, w))
        | inl right ↦ rw right (with_gift-refused q user input _ phone until _ shut e h)
      ]

  guarded-refused :
      (q : ClaimRequest) (v : Verdict) (user : Option SessionUser) (body : Option ClaimGiftInput)
      (phone gift_id : String) (until : ℕ) (s : Site r verify hmac)
      → Shut phone gift_id until s.invitations
      → (by_phone phone user && for_gift gift_id body && ltb q.now until) ≡ true
      → (guarded v (claim_handler r verify hmac q user body) s).1 ≢ 200
  unfolding claim_handler verify_claim_signature
  guarded-refused q csrf_missing user body phone gift_id until s shut h = λ w. omega (arith, w)
  guarded-refused q csrf_invalid user body phone gift_id until s shut h = λ w. omega (arith, w)
  guarded-refused q pass none body phone gift_id until s shut h = λ w. omega (arith, w)
  guarded-refused q pass (some user) none phone gift_id until s shut h = λ w. omega (arith, w)
  guarded-refused q pass (some user) (some input) phone gift_id until s shut h =
      let same : input.gift_id ≡ gift_id = (eq_iff input.gift_id gift_id).0 (ground arith) in
      let from : truthy user.phone ≡ some phone =
        is_phone_iff phone (truthy user.phone) (ground arith) in
      signed-refused q user input _ phone until s
        (subst (λ g. Shut phone g until s.invitations) (sym same) shut) from (ground arith)

  pub route-refused :
      (q : ClaimRequest) (phone gift_id : String) (until : ℕ) (s : Site r verify hmac)
      → Shut phone gift_id until s.invitations
      → (is_claim_of phone gift_id until q && ((claim_route r verify hmac q s).1 == 200)) ≡ false
  unfolding claim_route
  route-refused q phone gift_id until s shut =
      elim (Bool-cases
        (is_claim_of phone gift_id until q && ((claim_route r verify hmac q s).1 == 200))) [
          | inr other ↦ other
          | inl this ↦ absurd (
              guarded-refused q
                (with_csrf hmac q.now (record {
                  method = post;
                  header_token = q.header_token;
                  cookie_token = q.cookie_token;
                }))
                q.session q.body phone gift_id until s shut (ground arith) (ground arith))
        ]
