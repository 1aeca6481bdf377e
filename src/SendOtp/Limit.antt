-- ===== src/SendOtp/Limit.antt =====
-- How many passwords are sent to a phone number.
use lumigift_lumigift.Common.{
  ℕ, zero, suc, ◌+◌, ◌-◌, ◌≡◌, ◌≢◌, ◌≤◌, ◌<◌, ◌⊎◌, inl, inr, refl, ap, sym, ◌∙◌, subst, String,
  Bool, true, false, ◌&&◌, List, [], ◌∷◌, Option, none, some, leb, ◌==◌, ◌===◌, if◌then◌else◌,
  arith, eq_iff, Bool-cases,
}
use lumigift_lumigift.Redis.{Redis}
use lumigift_lumigift.Otp.{otp_key, attempts_key, store_otp}
use lumigift_lumigift.Guards.Csrf.{Text, Verdict, pass, csrf_missing, csrf_invalid}
use lumigift_lumigift.SendOtp.{
  phone_limit_key, ip_limit_key, SendRequest, SendReply, RateCheck, counted, check_rate_limit,
  store_sent, if_allowed, send_otp_handler, past_guard, send_otp_route,
}
use lumigift_lumigift.SendOtp.Apart.{ip-phone, otp-phone, attempts-phone, other_phone}

module _ (r : Redis) (hmac : Option (Text → Text)) (phone : String) (from : ℕ) where
  open r use {
    State, number, set_ex, del, incr, incr_reply, expire, incr_reply-number, number-incr_new,
    number-incr_old, number-expire, number-set_ex_ne, number-del_ne, number-incr_ne,
    number-expire_ne,
  }

  -- From a time, until ten minutes after the first, the counter of the phone holds so much.
  unfoldable Holds : ℕ → ℕ → State → Type 0
  Holds n t s = (t' : ℕ) → t ≤ t' → t' < from + 600 → number t' (phone_limit_key phone) s ≡ n

  -- Commands on another key.
  counted-Holds :
      (n t window : ℕ) (key : String) (s : State)
      → key ≢ phone_limit_key phone
      → Holds n t s
      → Holds n t (counted r t key window s)
  unfolding Holds
  counted-Holds n t window key s ne h t' le lt = elim (Bool-cases (incr_reply t key s == 1)) [
    | inr later ↦ rw later (number-incr_ne t t' key (phone_limit_key phone) s le ne ∙ h t' le lt)
    | inl first ↦ rw first (
        number-expire_ne t t' window key (phone_limit_key phone) (incr t key s) le ne
        ∙ number-incr_ne t t' key (phone_limit_key phone) s le ne
        ∙ h t' le lt)
  ]

  store_otp-Holds :
      (n t : ℕ) (other otp : String) (s : State)
      → Holds n t s
      → Holds n t (store_otp r t other otp s)
  unfolding Holds store_otp
  store_otp-Holds n t other otp s h t' le lt =
      number-del_ne t t' (attempts_key other) (phone_limit_key phone) _ le
        (attempts-phone other phone)
      ∙ number-set_ex_ne t t' _ (otp_key other) (phone_limit_key phone) otp s le
          (otp-phone other phone)
      ∙ h t' le lt

  -- The counter of the phone goes up by one.
  counted-once :
      (n t : ℕ) (s : State)
      → from ≤ t
      → t < from + 600
      → Holds n t s
      → (incr_reply t (phone_limit_key phone) s ≡ suc n)
        × Holds (suc n) t (counted r t (phone_limit_key phone) 600 s)
  unfolding Holds
  counted-once n t s begun lt h =
      let reply : incr_reply t (phone_limit_key phone) s ≡ suc n =
        incr_reply-number t (phone_limit_key phone) s ∙ ground (arith, h t (omega arith) lt) in
      (reply, by_number n h reply)
    where
      by_number :
          (n : ℕ)
          → ((t' : ℕ) → t ≤ t' → t' < from + 600 → number t' (phone_limit_key phone) s ≡ n)
          → incr_reply t (phone_limit_key phone) s ≡ suc n
          → (t' : ℕ) → t ≤ t'
          → t' < from + 600
          → number t' (phone_limit_key phone) (counted r t (phone_limit_key phone) 600 s) ≡ suc n
      by_number zero h reply t' le lt' = rw reply (
          number-expire t t' 600 (phone_limit_key phone) (incr t (phone_limit_key phone) s) le
            (omega (arith, begun, lt'))
          ∙ number-incr_new t t (phone_limit_key phone) s (omega arith) (h t (omega arith) lt))
      by_number (suc n) h reply t' le lt' =
          let not_first : (suc (suc n) == 1) ≡ false = ground arith in
          rw (reply, not_first)
            (number-incr_old t t' n (phone_limit_key phone) s le (h t (omega arith) lt)
              (h t' le lt'))

  Holds-later : (n t u : ℕ) (s : State) → t ≤ u → Holds n t s → Holds n u s
  unfolding Holds
  Holds-later n t u s le h t' le' lt = h t' (omega (arith, le, le')) lt

  -- What a request does with the counter: it is not answered with 200 and the counter holds as much as
  -- before, or it is one more request of the phone, answered with 200 only as one of the first three.
  abbrev is_for : Option String → Bool
  is_for none = false
  is_for (some other) = other === phone

  abbrev sends : SendRequest → SendReply → Bool
  sends q reply = is_for q.body && (reply.status == 200)

  Grows : ℕ → ℕ → SendRequest → State × SendReply → Type 0
  Grows n t q (s', reply) =
      ((sends q reply ≡ false) × Holds n t s')
      ⊎ ((sends q reply ≡ true → suc n ≤ 3) × Holds (suc n) t s')

  if_allowed-Holds :
      (n t : ℕ) (q : SendRequest) (other : String) (by_phone by_ip : RateCheck) (s : State)
      → q.now ≡ t
      → Holds n t s
      → Holds n t (if_allowed r q other by_phone by_ip s).0
  if_allowed-Holds n t q other by_phone by_ip s at h = elim (Bool-cases by_phone.allowed) [
    | inr refused ↦ rw refused h
    | inl ok ↦ elim (Bool-cases by_ip.allowed) [
      | inr refused ↦ rw (ok, refused) h
      | inl ok' ↦ rw (ok, ok') (stored _ q.sent)
    ]
  ]
    where
      stored : (c : RateCheck) (o : Option String) → Holds n t (store_sent r q other c o s).0
      stored c none = h
      stored c (some otp) = rw at (store_otp-Holds n t other otp s h)

  if_allowed-refused :
      (q : SendRequest) (other : String) (by_phone by_ip : RateCheck) (s : State)
      → by_phone.allowed ≡ false
      → ((if_allowed r q other by_phone by_ip s).1.status == 200) ≡ false
  if_allowed-refused q other by_phone by_ip s e = rw e refl

  own-Grows :
      (n : ℕ) (q : SendRequest) (s : State)
      → from ≤ q.now
      → q.now < from + 600
      → Holds n q.now s
      → Grows n q.now q (send_otp_handler r q (some phone) s)
  unfolding send_otp_handler check_rate_limit Grows
  own-Grows n q s begun lt h =
      let by_phone = (check_rate_limit r q.now (phone_limit_key phone) 3 600 s).1 in
      let by_ip =
        (check_rate_limit r q.now (ip_limit_key q.ip) 10 60
          (check_rate_limit r q.now (phone_limit_key phone) 3 600 s).0).1 in
      let (reply, more) = counted-once n q.now s begun lt h in
      inr (
        λ sent. elim (Bool-cases (leb (suc n) 3)) [
          | inl few ↦ ground (arith, few)
          | inr many ↦
              let refused = ap (λ c. leb c 3) reply ∙ many in
              absurd (ground (arith, sent, if_allowed-refused q phone by_phone by_ip _ refused))
        ],
        if_allowed-Holds (suc n) q.now q phone by_phone by_ip _ refl
            (counted-Holds (suc n) q.now 60 (ip_limit_key q.ip) _ (ip-phone q.ip phone) more),
      )

  handler-Grows :
      (n : ℕ) (q : SendRequest) (body : Option String) (s : State)
      → q.body ≡ body
      → from ≤ q.now
      → q.now < from + 600
      → Holds n q.now s
      → Grows n q.now q (send_otp_handler r q body s)
  unfolding send_otp_handler check_rate_limit Grows
  handler-Grows n q none s b begun lt h = rw b (inl (refl, h))
  handler-Grows n q (some other) s b begun lt h =
      let by_phone = (check_rate_limit r q.now (phone_limit_key other) 3 600 s).1 in
      let by_ip =
        (check_rate_limit r q.now (ip_limit_key q.ip) 10 60
          (check_rate_limit r q.now (phone_limit_key other) 3 600 s).0).1 in
      elim (Bool-cases (other === phone)) [
        | inr another ↦
            rw (b, another)
              (inl (
                refl,
                if_allowed-Holds n q.now q other by_phone by_ip _ refl (
                    counted-Holds n q.now 60 (ip_limit_key q.ip) _ (ip-phone q.ip phone) (
                      counted-Holds n q.now 600 (phone_limit_key other) s
                        (other_phone other phone
                          (λ e. ground (arith, another, (eq_iff other phone).1 e)))
                        h)),
              ))
        | inl this ↦
            subst (λ x. Grows n q.now q (send_otp_handler r q (some x) s))
              (sym ((eq_iff other phone).0 this)) (own-Grows n q s begun lt h)
      ]

  route-Grows :
      (n : ℕ) (q : SendRequest) (s : State)
      → from ≤ q.now
      → q.now < from + 600
      → Holds n q.now s
      → Grows n q.now q (send_otp_route r hmac q s)
  unfolding send_otp_route Grows
  route-Grows n q s begun lt h = by_verdict _
    where
      by_verdict : (v : Verdict) → Grows n q.now q (past_guard r q v s)
      by_verdict pass = handler-Grows n q q.body s refl begun lt h
      by_verdict csrf_missing = inl (ground arith, h)
      by_verdict csrf_invalid = inl (ground arith, h)

  -- Requests in the order of their times, within ten minutes from the first.
  unfoldable pub InWindow : ℕ → List SendRequest → Type 0
  InWindow t [] = Unit
  InWindow t (q ∷ qs) = (t ≤ q.now) × (q.now < from + 600) × InWindow q.now qs

  -- How many requests of the phone are answered with 200.
  unfoldable pub passwords_sent : List SendRequest → State → ℕ
  passwords_sent [] s = 0
  passwords_sent (q ∷ qs) s =
      let (s', reply) = send_otp_route r hmac q s in
      (if sends q reply then 1 else 0) + passwords_sent qs s'

  passwords_sent-le :
      (n t : ℕ) (qs : List SendRequest) (s : State)
      → from ≤ t
      → InWindow t qs
      → Holds n t s
      → passwords_sent qs s ≤ 3 - n
  unfolding passwords_sent InWindow Grows
  passwords_sent-le n t [] s begun in_window h = omega arith
  passwords_sent-le n t (q ∷ qs) s begun (le, lt, later) h =
      let a = send_otp_route r hmac q s in
      let begun' : from ≤ q.now = omega (arith, begun, le) in
      elim (route-Grows n q s begun' lt (Holds-later n t q.now s le h)) [
        | inl (unsent, same) ↦
            rw unsent (omega (arith, passwords_sent-le n q.now qs a.0 begun' later same))
        | inr (few, more) ↦
            let rest = passwords_sent-le (suc n) q.now qs a.0 begun' later more in
            elim (Bool-cases (sends q a.1)) [
              | inr unsent ↦ rw unsent (omega (arith, rest))
              | inl sent ↦ rw sent (omega (arith, rest, few sent))
            ]
      ]

  -- A phone number is sent at most three passwords in ten minutes: whatever is asked for it and for
  -- others, from whatever addresses, at most three of the requests for it are answered with 200. The
  -- requests are in the order of their times, and its counter was not there before the first.
  pub three_passwords_sent :
      (qs : List SendRequest) (s : State)
      → InWindow from qs
      → ((t : ℕ) → from ≤ t → t < from + 600 → number t (phone_limit_key phone) s ≡ 0)
      → passwords_sent qs s ≤ 3
  unfolding Holds
  three_passwords_sent qs s in_window fresh =
      passwords_sent-le 0 from qs s (omega arith) in_window fresh
