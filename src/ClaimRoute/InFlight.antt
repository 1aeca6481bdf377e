-- ===== src/ClaimRoute/InFlight.antt =====
-- Claims that overlap (src/app/api/v1/gifts/[id]/claim/route.ts, lines 18 to 41): the GET of the
-- challenge and its DEL are two commands, and other requests run in between. A claim is in flight from
-- its GET, which found the challenge, until its DEL; what follows the DEL is one step.
use lumigift_lumigift.Common.{
  ℕ, ◌+◌, ◌≤◌, ◌≡◌, ◌≢◌, ◌⊎◌, inl, inr, refl, ap, sym, ◌∙◌, subst, String, Bool, true, false, ◌&&◌,
  List, [], ◌∷◌, Option, none, some, if◌then◌else◌, ◌==◌, ◌===◌, ltb, length, truthy, sum_by, All,
  pick, pick-sum_by, pick-length, arith, eq_iff, Bool-cases, Option-cases,
}
use lumigift_lumigift.Redis.{Redis}
use lumigift_lumigift.Guards.Csrf.{
  Text, post, Verdict, pass, csrf_missing, csrf_invalid, with_csrf, guarded,
}
use lumigift_lumigift.ClaimRoute.{
  challenge_key, ClaimGiftInput, SessionUser, ClaimRequest, seconds, Site, check_signature,
  verify_claim_signature, if_signed, claim_handler, claim_route,
}
use lumigift_lumigift.ClaimRoute.Keys.{with_gift-keys, Spent, del-Spent}

-- A claim whose GET found the challenge.
pub record Flight : Type 0 where
  pub request : ClaimRequest
  pub user : SessionUser
  pub input : ClaimGiftInput
  pub found : String

-- A claim begins, or the one at a place goes on at a time in milliseconds.
pub data Move : Type 0 where
  begins : ClaimRequest → Move
  goes_on : ℕ → ℕ → Move

abbrev time_of : Move → ℕ
time_of (begins q) = seconds q.now
time_of (goes_on now n) = seconds now

-- Moves in the order of their times.
unfoldable pub Ordered : ℕ → List Move → Type 0
Ordered t [] = Unit
Ordered t (m ∷ ms) = (t ≤ time_of m) × Ordered (time_of m) ms

-- The body is about one challenge.
abbrev pub carries : String → String → ClaimGiftInput → Bool
carries gift_id nonce input = (input.gift_id === gift_id) && (input.nonce === nonce)

abbrev pub count_carrying : String → String → List ClaimGiftInput → ℕ
count_carrying gift_id nonce = sum_by (λ input. if carries gift_id nonce input then 1 else 0)

abbrev carrying : String → String → Flight → ℕ
carrying gift_id nonce f = if carries gift_id nonce f.input then 1 else 0

carrying-length :
    (gift_id nonce : String) (fs : List Flight) → sum_by (carrying gift_id nonce) fs ≤ length fs
carrying-length gift_id nonce [] = omega arith
carrying-length gift_id nonce (f ∷ fs) = ground (arith, carrying-length gift_id nonce fs)

carried-key :
    (gift_id nonce : String) (input : ClaimGiftInput)
    → carries gift_id nonce input ≡ true
    → challenge_key input.gift_id input.nonce ≡ challenge_key gift_id nonce
carried-key gift_id nonce input h =
    ap (λ g. challenge_key g input.nonce) ((eq_iff input.gift_id gift_id).0 (ground arith))
    ∙ ap (challenge_key gift_id) ((eq_iff input.nonce nonce).0 (ground arith))

module _ (r : Redis) (verify : String → String → String → Bool) (hmac : Option (Text → Text)) where
  open r use {State, get, del, get-del}

  abbrev flight_of : ClaimRequest → SessionUser → ClaimGiftInput → Option String → Option Flight
  flight_of q user input none = none
  flight_of q user input (some found) =
      some (record { request = q; user = user; input = input; found = found })

  abbrev handler_begins :
      ClaimRequest → Option SessionUser → Option ClaimGiftInput → Site r verify hmac → Option Flight
  handler_begins q none body s = none
  handler_begins q (some user) none s = none
  handler_begins q (some user) (some input) s =
      flight_of q user input
        (truthy (get (seconds q.now) (challenge_key input.gift_id input.nonce) s.keys))

  abbrev begins_after : ClaimRequest → Verdict → Site r verify hmac → Option Flight
  begins_after q pass s = handler_begins q q.session q.body s
  begins_after q csrf_missing s = none
  begins_after q csrf_invalid s = none

  -- The claim up to its GET, where it goes on after it.
  unfoldable pub begin_claim : ClaimRequest → Site r verify hmac → Option Flight
  begin_claim q s =
      begins_after q
        (with_csrf hmac q.now
          (record { method = post; header_token = q.header_token; cookie_token = q.cookie_token }))
        s

  -- The rest, from its DEL on.
  unfoldable pub end_claim : ℕ → Flight → Site r verify hmac → Site r verify hmac × ℕ
  end_claim now f s =
      if_signed r verify hmac (record f.request { now = now }) f.user f.input
        (check_signature r verify hmac (seconds now) f.input (some f.found) s)

  -- The two parts, one right after the other, are the claim.
  abbrev pub Parts :
      ClaimRequest → Site r verify hmac → Site r verify hmac × ℕ → Option Flight → Type 0
  Parts q s a none = (a.0 ≡ s) × (a.1 ≢ 200)
  Parts q s a (some f) = a ≡ end_claim q.now f s

  handler-Parts :
      (q : ClaimRequest) (user : Option SessionUser) (body : Option ClaimGiftInput)
      (s : Site r verify hmac)
      → Parts q s (claim_handler r verify hmac q user body s) (handler_begins q user body s)
  unfolding claim_handler verify_claim_signature end_claim
  handler-Parts q none body s = (refl, λ h. omega (arith, h))
  handler-Parts q (some user) none s = (refl, λ h. omega (arith, h))
  handler-Parts q (some user) (some input) s =
      elim (Option-cases
        (truthy (get (seconds q.now) (challenge_key input.gift_id input.nonce) s.keys))) [
          | inl missing ↦ rw missing (refl, λ h. omega (arith, h))
          | inr (x, there) ↦ rw there refl
        ]

  guarded-Parts :
      (q : ClaimRequest) (v : Verdict) (s : Site r verify hmac)
      → Parts q s
          (guarded v (claim_handler r verify hmac q q.session q.body) s)
          (begins_after q v s)
  guarded-Parts q pass s = handler-Parts q q.session q.body s
  guarded-Parts q csrf_missing s = (refl, λ h. omega (arith, h))
  guarded-Parts q csrf_invalid s = (refl, λ h. omega (arith, h))

  pub claim_route-Parts :
      (q : ClaimRequest) (s : Site r verify hmac)
      → Parts q s (claim_route r verify hmac q s) (begin_claim q s)
  unfolding claim_route begin_claim
  claim_route-Parts q s = guarded-Parts q _ s

  -- The claims in flight, the site, and the bodies that were answered with 200.
  pub record Run : Type 0 where
    pub flights : List Flight
    pub site : Site r verify hmac
    pub passed : List ClaimGiftInput

  abbrev pub add_flight : ℕ → Option Flight → Run → Run
  add_flight k none x = x
  add_flight k (some f) x =
      if ltb (length x.flights) k then record x { flights = f ∷ x.flights } else x

  abbrev pub answered : Flight → List Flight → Site r verify hmac × ℕ → Run → Run
  answered f others (s, status) x = record {
    flights = others;
    site = s;
    passed = if status == 200 then f.input ∷ x.passed else x.passed;
  }

  abbrev pub go_on : ℕ → Option (Flight × List Flight) → Run → Run
  go_on now none x = x
  go_on now (some (f, others)) x = answered f others (end_claim now f x.site) x

  -- Not more than so many claims are in flight at a time; one that would be more does not begin.
  unfoldable pub move_one : ℕ → Move → Run → Run
  move_one k (begins q) x = add_flight k (begin_claim q x.site) x
  move_one k (goes_on now n) x = go_on now (pick n x.flights) x

  unfoldable pub move_all : ℕ → List Move → Run → Run
  move_all k [] x = x
  move_all k (m ∷ ms) x = move_all k ms (move_one k m x)

  abbrev Signed : ClaimGiftInput → Type 0
  Signed input = verify input.recipient_stellar_key input.nonce input.signature ≡ true

  -- No claim with the challenge has passed, or the challenge is gone.
  record IsLimited (k : ℕ) (gift_id nonce : String) (t : ℕ) (x : Run) : Type 0 where
    pub few : length x.flights ≤ k
    pub signed : All Signed x.passed
    pub total :
        (count_carrying gift_id nonce x.passed ≡ 0)
        ⊎ (Spent r verify hmac (challenge_key gift_id nonce) t x.site.keys
            × (count_carrying gift_id nonce x.passed + sum_by (carrying gift_id nonce) x.flights
                ≤ k))

  -- A claim that begins carries no challenge that is gone.
  flight_of-Spent :
      (gift_id nonce : String) (q : ClaimRequest) (user : SessionUser) (input : ClaimGiftInput)
      (found : Option String) (f : Flight) (s : Site r verify hmac)
      → truthy (get (seconds q.now) (challenge_key input.gift_id input.nonce) s.keys) ≡ found
      → flight_of q user input found ≡ some f
      → Spent r verify hmac (challenge_key gift_id nonce) (seconds q.now) s.keys
      → carries gift_id nonce f.input ≡ false
  unfolding Spent
  flight_of-Spent gift_id nonce q user input none f s read e spent = absurd (ground (arith, e))
  flight_of-Spent gift_id nonce q user input (some y) f s read e spent =
      elim (Bool-cases (carries gift_id nonce f.input)) [
        | inr other ↦ other
        | inl this ↦
            let made : record { request = q; user = user; input = input; found = y } ≡ f = cc in
            let same : input ≡ f.input = ap (λ g. g.input) made in
            let key =
              ap (λ v. challenge_key v.gift_id v.nonce) same
              ∙ carried-key gift_id nonce f.input this in
            let gone : get (seconds q.now) (challenge_key input.gift_id input.nonce) s.keys ≡ none =
              ap (λ k. get (seconds q.now) k s.keys) key ∙ spent (seconds q.now) (omega arith) in
            let wrong : none ≡ some y = sym (ap truthy gone) ∙ read in absurd cc
      ]

  handler_begins-Spent :
      (gift_id nonce : String) (q : ClaimRequest) (user : Option SessionUser)
      (body : Option ClaimGiftInput) (f : Flight) (s : Site r verify hmac)
      → handler_begins q user body s ≡ some f
      → Spent r verify hmac (challenge_key gift_id nonce) (seconds q.now) s.keys
      → carries gift_id nonce f.input ≡ false
  handler_begins-Spent gift_id nonce q none body f s e spent = absurd (ground (arith, e))
  handler_begins-Spent gift_id nonce q (some user) none f s e spent = absurd (ground (arith, e))
  handler_begins-Spent gift_id nonce q (some user) (some input) f s e spent =
      flight_of-Spent gift_id nonce q user input _ f s refl e spent

  begin_claim-Spent :
      (gift_id nonce : String) (q : ClaimRequest) (v : Verdict) (f : Flight)
      (s : Site r verify hmac)
      → begins_after q v s ≡ some f
      → Spent r verify hmac (challenge_key gift_id nonce) (seconds q.now) s.keys
      → carries gift_id nonce f.input ≡ false
  begin_claim-Spent gift_id nonce q pass f s e spent =
      handler_begins-Spent gift_id nonce q q.session q.body f s e spent
  begin_claim-Spent gift_id nonce q csrf_missing f s e spent = absurd (ground (arith, e))
  begin_claim-Spent gift_id nonce q csrf_invalid f s e spent = absurd (ground (arith, e))

  -- The rest of a claim removes its challenge, and is answered with 200 only if it is signed.
  end_claim-keys :
      (now : ℕ) (f : Flight) (s : Site r verify hmac)
      → ((end_claim now f s).0.keys
          ≡ del (seconds now) (challenge_key f.input.gift_id f.input.nonce) s.keys)
        × ((end_claim now f s).1 ≡ 200 → Signed f.input)
  unfolding end_claim
  end_claim-keys now f s =
      elim (Bool-cases (verify f.input.recipient_stellar_key f.input.nonce f.input.signature)) [
        | inr wrong ↦ rw wrong (refl, λ h. absurd (omega (arith, h)))
        | inl right ↦ rw right (with_gift-keys r verify hmac _ f.user f.input _ _, λ h. refl)
      ]

  pushed-Signed :
      (passed : Bool) (input : ClaimGiftInput) (inputs : List ClaimGiftInput)
      → (passed ≡ true → Signed input)
      → All Signed inputs
      → All Signed (if passed then input ∷ inputs else inputs)
  pushed-Signed true input inputs h hs = (h refl, hs)
  pushed-Signed false input inputs h hs = hs

  pushed-count :
      (gift_id nonce : String) (passed : Bool) (input : ClaimGiftInput)
      (inputs : List ClaimGiftInput)
      → count_carrying gift_id nonce (if passed then input ∷ inputs else inputs)
        ≤ count_carrying gift_id nonce inputs + (if carries gift_id nonce input then 1 else 0)
  pushed-count gift_id nonce true input inputs = omega arith
  pushed-count gift_id nonce false input inputs = omega arith

  later-IsLimited :
      (k : ℕ) (gift_id nonce : String) (t now : ℕ) (x : Run)
      → IsLimited k gift_id nonce t x
      → t ≤ now
      → IsLimited k gift_id nonce now x
  unfolding Spent
  later-IsLimited k gift_id nonce t now x b le = record {
    few = b.few;
    signed = b.signed;
    total = elim b.total [
      | inl unused ↦ inl unused
      | inr (spent, most) ↦ inr (λ t' h. spent t' (omega (arith, le, h)), most)
    ];
  }

  carried-Spent :
      (gift_id nonce : String) (now : ℕ) (f : Flight) (s : Site r verify hmac)
      → carries gift_id nonce f.input ≡ true
      → Spent r verify hmac (challenge_key gift_id nonce) (seconds now) (end_claim now f s).0.keys
  unfolding Spent
  carried-Spent gift_id nonce now f s this t' le =
      ap (get t' (challenge_key gift_id nonce)) (end_claim-keys now f s).0
      ∙ ap
          (λ key.
            get t' key (del (seconds now) (challenge_key f.input.gift_id f.input.nonce) s.keys))
          (sym (carried-key gift_id nonce f.input this))
      ∙ get-del (seconds now) t' (challenge_key f.input.gift_id f.input.nonce) s.keys le

  answered-IsLimited :
      (k : ℕ) (gift_id nonce : String) (now n : ℕ) (f : Flight) (others : List Flight) (x : Run)
      → pick n x.flights ≡ some (f, others)
      → IsLimited k gift_id nonce (seconds now) x
      → IsLimited k gift_id nonce (seconds now) (answered f others (end_claim now f x.site) x)
  answered-IsLimited k gift_id nonce now n f others x at b =
      let a = end_claim now f x.site in
      let shorter = pick-length n x.flights f others at in
      let fewer = pick-sum_by (carrying gift_id nonce) n x.flights f others at in
      let all_few = carrying-length gift_id nonce x.flights in
      let counted = pushed-count gift_id nonce (a.1 == 200) f.input x.passed in
      record {
        few = omega (arith, b.few, shorter);
        signed =
            pushed-Signed (a.1 == 200) f.input x.passed
              (λ h. (end_claim-keys now f x.site).1 (ground (arith, h))) b.signed;
        total = elim (Bool-cases (carries gift_id nonce f.input)) [
          | inl this ↦ inr (
            carried-Spent gift_id nonce now f x.site this,
            elim b.total [
              | inl unused ↦ omega (arith, counted, once this, fewer, all_few, b.few, unused)
              | inr (spent, most) ↦ omega (arith, counted, once this, fewer, most)
            ],
          )
          | inr other ↦ elim b.total [
            | inl unused ↦ inl (omega (arith, counted, never other, unused))
            | inr (spent, most) ↦ inr (
              subst (Spent r verify hmac (challenge_key gift_id nonce) (seconds now))
                  (sym (end_claim-keys now f x.site).0)
                  (del-Spent r verify hmac (challenge_key f.input.gift_id f.input.nonce)
                    (challenge_key gift_id nonce) (seconds now) x.site.keys spent),
              omega (arith, counted, never other, fewer, most),
            )
          ]
        ];
      }
    where
      once : carries gift_id nonce f.input ≡ true → carrying gift_id nonce f ≡ 1
      once this = rw this refl

      never : carries gift_id nonce f.input ≡ false → carrying gift_id nonce f ≡ 0
      never other = rw other refl

  goes_on-IsLimited :
      (k : ℕ) (gift_id nonce : String) (now n : ℕ) (x : Run)
      → IsLimited k gift_id nonce (seconds now) x
      → IsLimited k gift_id nonce (seconds now) (go_on now (pick n x.flights) x)
  goes_on-IsLimited k gift_id nonce now n x b = elim (Option-cases (pick n x.flights)) [
    | inl missing ↦ rw missing b
    | inr ((f, others), at) ↦ rw at (answered-IsLimited k gift_id nonce now n f others x at b)
  ]

  begins-IsLimited :
      (k : ℕ) (gift_id nonce : String) (q : ClaimRequest) (x : Run)
      → IsLimited k gift_id nonce (seconds q.now) x
      → IsLimited k gift_id nonce (seconds q.now) (add_flight k (begin_claim q x.site) x)
  unfolding begin_claim
  begins-IsLimited k gift_id nonce q x b = elim (Option-cases (begin_claim q x.site)) [
    | inl missing ↦ rw missing b
    | inr (f, at) ↦ elim (Bool-cases (ltb (length x.flights) k)) [
      | inr full ↦ rw (at, full) b
      | inl room ↦
          rw (at, room)
            (record {
              few = ground (arith, room);
              signed = b.signed;
              total = elim b.total [
                | inl unused ↦ inl unused
                | inr (spent, most) ↦
                    let other = begin_claim-Spent gift_id nonce q _ f x.site at spent in
                    inr (spent, ground (arith, other, most))
              ];
            })
    ]
  ]

  move_one-IsLimited :
      (k : ℕ) (gift_id nonce : String) (m : Move) (x : Run)
      → IsLimited k gift_id nonce (time_of m) x
      → IsLimited k gift_id nonce (time_of m) (move_one k m x)
  unfolding move_one
  move_one-IsLimited k gift_id nonce (begins q) x b = begins-IsLimited k gift_id nonce q x b
  move_one-IsLimited k gift_id nonce (goes_on now n) x b =
      goes_on-IsLimited k gift_id nonce now n x b

  move_all-IsLimited :
      (k : ℕ) (gift_id nonce : String) (t : ℕ) (ms : List Move) (x : Run)
      → Ordered t ms
      → IsLimited k gift_id nonce t x
      → (count_carrying gift_id nonce (move_all k ms x).passed ≤ k)
        × All Signed (move_all k ms x).passed
  unfolding Ordered move_all
  move_all-IsLimited k gift_id nonce t [] x o b = (
    elim b.total [ inl unused ↦ omega (arith, unused) | inr (spent, most) ↦ omega (arith, most) ],
    b.signed,
  )
  move_all-IsLimited k gift_id nonce t (m ∷ ms) x (le, o) b =
      move_all-IsLimited k gift_id nonce (time_of m) ms (move_one k m x) o (
        move_one-IsLimited k gift_id nonce m x
          (later-IsLimited k gift_id nonce t (time_of m) x b le))

  -- Of the claims that carry the nonce of one challenge for its gift at most as many are answered with
  -- 200 as there are claims in flight at a time, where a claim is in flight from its GET of the
  -- challenge until its DEL, whoever sends them, at whatever times, with any other claims in between;
  -- so at most one where each claim ends before the next begins. And a claim is answered with 200 only
  -- if its signature is right for the key that it names. The commands are in the order of their times,
  -- and the challenge is not issued again.
  pub challenge_in_flight :
      (k : ℕ) (gift_id nonce : String) (t : ℕ) (ms : List Move) (s : Site r verify hmac)
      → Ordered t ms
      → let passed = (move_all k ms (record { flights = []; site = s; passed = [] })).passed in
        (count_carrying gift_id nonce passed ≤ k)
        × All (λ i. verify i.recipient_stellar_key i.nonce i.signature ≡ true) passed
  challenge_in_flight k gift_id nonce t ms s o =
      move_all-IsLimited k gift_id nonce t ms (record { flights = []; site = s; passed = [] }) o
        (record { few = omega arith; signed = tt; total = inl refl })
