-- ===== src/Registration/Stuck.antt =====
-- Registrations and claims in turn.
use lumigift_lumigift.Common.{
  if◌then◌else◌, inl, inr, ℕ, ◌+◌, ◌≡◌, refl, sym, subst, String, Bool, true, false, not, ◌&&◌,
  ◌||◌, List, [], ◌∷◌, ◌++◌, Option, none, some, truthy, any, all, leb, ◌==◌, ◌===◌, arith, eq_iff,
  eq_refl, Bool-cases,
}
use lumigift_lumigift.Redis.{Redis}
use lumigift_lumigift.Gift.Defs.{World}
use lumigift_lumigift.Invitations.{Invitation, is_accepted, claimed, validate_invitation_token}
use lumigift_lumigift.Guards.Csrf.{Text, post, pass, with_csrf}
use lumigift_lumigift.ClaimRoute.{ClaimRequest, Site, claim_route}
use lumigift_lumigift.ClaimRoute.Rows.{is_for, Shut, Marks, claim_route-Marks, claim_route-Shut}
use lumigift_lumigift.ClaimRoute.Refused.{is_claim_of, route-refused}
use lumigift_lumigift.Registration.{
  Account, RegisterBody, RegisterRequest, Registry, is_registered, check_invitation, account_of,
  account_clashes, create_user, register_handler, register_route,
}
use lumigift_lumigift.Registration.Ids.{HasUniqueIds, set_status-HasUniqueIds, any-find_row}
use lumigift_lumigift.Registration.HalfDone.{
  IsHalfDone, is_registered-new, register_route-IsHalfDone, register_route-again,
}

-- A registration, or a claim with the gifts as they are then.
pub data Visit : Type 0 where
  register : RegisterRequest → Visit
  claim : ClaimRequest → World → Visit

abbrev registers : String → Option RegisterBody → Bool
registers phone none = false
registers phone (some b) = b.phone === phone

module _ (r : Redis) (verify : String → String → String → Bool) (hmac : Option (Text → Text)) where
  open r use {State}

  -- The users, and the rest of the state, which holds the invitations.
  pub record Portal : Type 0 where
    pub users : List Account
    pub site : Site r verify hmac

  abbrev pub registry : Portal → Registry
  registry p = record { users = p.users; invitations = p.site.invitations }

  abbrev registered : Portal → Registry × ℕ → Portal × ℕ
  registered p (s, status) =
      (record { users = s.users; site = record p.site { invitations = s.invitations } }, status)

  abbrev claimed_at : Portal → Site r verify hmac × ℕ → Portal × ℕ
  claimed_at p (s, status) = (record p { site = s }, status)

  unfoldable pub serve_visit : Visit → Portal → Portal × ℕ
  serve_visit (register q) p = registered p (register_route hmac q (registry p))
  serve_visit (claim q w) p =
      claimed_at p (claim_route r verify hmac q (record p.site { world = w }))

  -- Whether an answer is the success that the phone waits for: a registration, or a claim of the gift
  -- before a time.
  abbrev is_wanted : String → String → ℕ → Visit → ℕ → Bool
  is_wanted phone gift_id until (register q) status = registers phone q.body && (status == 201)
  is_wanted phone gift_id until (claim q w) status =
      is_claim_of phone gift_id until q && (status == 200)

  unfoldable pub wanted : String → String → ℕ → List Visit → Portal → ℕ
  wanted phone gift_id until [] p = 0
  wanted phone gift_id until (v ∷ later) p =
      let (p', status) = serve_visit v p in
      (if is_wanted phone gift_id until v status then 1 else 0)
      + wanted phone gift_id until later p'

  serve_visit-IsHalfDone :
      (phone gift_id : String) (until : ℕ) (v : Visit) (p : Portal)
      → IsHalfDone phone gift_id until (registry p)
      → IsHalfDone phone gift_id until (registry (serve_visit v p).0)
  unfolding serve_visit Marks
  serve_visit-IsHalfDone phone gift_id until (register q) p h =
      register_route-IsHalfDone hmac q phone gift_id until (registry p) h
  serve_visit-IsHalfDone phone gift_id until (claim q w) p h =
      let s : Site r verify hmac = record p.site { world = w } in
      record {
        there = h.there;
        unique = elim (claim_route-Marks r verify hmac q s) [
          | inl same ↦ subst HasUniqueIds (sym same) h.unique
          | inr (id, marked) ↦
              subst HasUniqueIds (sym marked)
                (set_status-HasUniqueIds id claimed p.site.invitations h.unique)
        ];
        shut = claim_route-Shut r verify hmac phone gift_id until q s h.shut;
      }

  register-unwanted :
      (phone : String) (q : RegisterRequest) (body : Option RegisterBody) (s : Registry)
      → q.body ≡ body
      → is_registered phone s.users ≡ true
      → (registers phone body && ((register_route hmac q s).1 == 201)) ≡ false
  register-unwanted phone q none s e there = refl
  register-unwanted phone q (some b) s e there = elim (Bool-cases (b.phone === phone)) [
    | inr other ↦ rw other refl
    | inl own ↦
        let same : b.phone ≡ phone = (eq_iff b.phone phone).0 own in
        let refused =
          register_route-again hmac q b s e
            (subst (λ x. is_registered x s.users ≡ true) (sym same) there) in
        rw own (ground (arith, refused))
  ]

  serve_visit-unwanted :
      (phone gift_id : String) (until : ℕ) (v : Visit) (p : Portal)
      → IsHalfDone phone gift_id until (registry p)
      → is_wanted phone gift_id until v (serve_visit v p).1 ≡ false
  unfolding serve_visit
  serve_visit-unwanted phone gift_id until (register q) p h =
      register-unwanted phone q q.body (registry p) refl h.there
  serve_visit-unwanted phone gift_id until (claim q w) p h =
      route-refused r verify hmac q phone gift_id until (record p.site { world = w }) h.shut

  wanted-none :
      (phone gift_id : String) (until : ℕ) (later : List Visit) (p : Portal)
      → IsHalfDone phone gift_id until (registry p)
      → wanted phone gift_id until later p ≡ 0
  unfolding wanted
  wanted-none phone gift_id until [] p h = refl
  wanted-none phone gift_id until (v ∷ later) p h =
      let rest =
        wanted-none phone gift_id until later (serve_visit v p).0
          (serve_visit-IsHalfDone phone gift_id until v p h) in
      rw (serve_visit-unwanted phone gift_id until v p h) (omega (arith, rest))

  -- The registration that breaks off: the user is written, the invitation is not.
  half-written :
      (q : RegisterRequest) (b : RegisterBody) (token : String) (i : Invitation) (s : Registry)
      → with_csrf hmac q.now
          (record { method = post; header_token = q.header_token; cookie_token = q.cookie_token })
        ≡ pass
      → q.body ≡ some b
      → truthy b.invitation_token ≡ some token
      → validate_invitation_token q.now token s.invitations ≡ some i
      → i.recipient_phone ≡ b.phone
      → is_registered b.phone s.users ≡ false
      → any (account_clashes (account_of q b)) s.users ≡ false
      → (q.users_up ≡ true) × (q.token_up ≡ true) × (q.insert_up ≡ true) × (q.update_up ≡ false)
      → register_route hmac q s ≡ (record s { users = s.users ++ account_of q b ∷ [] }, 500)
  unfolding register_route register_handler check_invitation create_user
  half-written q b token i s admitted body with_token found own free fresh (up, up', up'', down) =
      rw
        (
          admitted,
          body,
          up,
          free,
          with_token,
          up',
          found,
          (eq_iff i.recipient_phone b.phone).1 own,
          up'',
          fresh,
          down,
        )
        refl

  -- A registration that breaks off can never be made good: if the user is written but the invitation
  -- is not marked as accepted, the answer is a 500; from then on every registration of the phone is
  -- refused, and so is, until the invitation expires, every claim of the gift by the phone, whatever
  -- else is registered and claimed and whatever becomes of the gifts. No invitation of the phone to
  -- the gift was accepted before, and the ids of the invitations are unique.
  pub half_registered_is_stuck :
      (q : RegisterRequest) (b : RegisterBody) (token : String) (i : Invitation) (p : Portal)
      (later : List Visit)
      → with_csrf hmac q.now
          (record { method = post; header_token = q.header_token; cookie_token = q.cookie_token })
        ≡ pass
      → q.body ≡ some b
      → truthy b.invitation_token ≡ some token
      → validate_invitation_token q.now token p.site.invitations ≡ some i
      → i.recipient_phone ≡ b.phone
      → is_registered b.phone p.users ≡ false
      → any (account_clashes (account_of q b)) p.users ≡ false
      → (q.users_up ≡ true) × (q.token_up ≡ true) × (q.insert_up ≡ true) × (q.update_up ≡ false)
      → HasUniqueIds p.site.invitations
      → all (λ j. not (is_for b.phone i.gift_id j) || not (is_accepted j.status)) p.site.invitations
        ≡ true
      → let (p', status) = serve_visit (register q) p in
        (status ≡ 500)
        × (is_registered b.phone p'.users ≡ true)
        × (p'.site.invitations ≡ p.site.invitations)
        × (wanted b.phone i.gift_id i.expires_at later p' ≡ 0)
  unfolding serve_visit Shut
  half_registered_is_stuck q b token i p later admitted body with_token found own free fresh ups
        unique shut =
      let lasts : (is_for b.phone i.gift_id i && leb i.expires_at i.expires_at) ≡ true =
        ground (arith, (eq_iff i.recipient_phone b.phone).1 own, eq_refl i.gift_id) in
      let there = is_registered-new p.users (account_of q b) in
      rw (half-written q b token i (registry p) admitted body with_token found own free fresh ups) (
        refl,
        there,
        refl,
        wanted-none b.phone i.gift_id i.expires_at later _ (record {
          there = there;
          unique = unique;
          shut = (shut, any-find_row _ _ i p.site.invitations found lasts);
        }),
      )
