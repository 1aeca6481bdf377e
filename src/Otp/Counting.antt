-- ===== src/Otp/Counting.antt =====
-- The password under its key, and the attempts that are counted for it.
use lumigift_lumigift.Common.{
  ℕ, zero, suc, ◌+◌, ◌≤◌, ◌≡◌, ◌≢◌, ◌⊎◌, inl, inr, refl, ◌∙◌, String, Bool, true, false, ◌&&◌, none,
  some, ltb, leb, ◌===◌, arith, eq_iff, Bool-cases,
}
use Prim.Native.String.{◌++◌ as concat}
use text.Mathlib.TextLemmas.{append_cancel_right}
use lumigift_lumigift.Redis.{Redis}
use lumigift_lumigift.Otp.{
  otp_ttl, max_session_failures, account_lock_ttl, otp_key, attempts_key, failures_key, lock_key,
  store_otp, align, expire_failures, end_session, fail_session, clean_up,
}

-- Keys of one phone number with different prefixes are different.
key_ne : (a b phone : String) → (a === b) ≡ false → concat a phone ≢ concat b phone
key_ne a b phone h e = ground (arith, eq_iff a b, append_cancel_right a b phone e)

attempts-otp : (phone : String) → attempts_key phone ≢ otp_key phone
attempts-otp phone = key_ne "otp:attempts:" "otp:" phone refl

failures-otp : (phone : String) → failures_key phone ≢ otp_key phone
failures-otp phone = key_ne "otp:session-failures:" "otp:" phone refl

lock-otp : (phone : String) → lock_key phone ≢ otp_key phone
lock-otp phone = key_ne "otp:lock:" "otp:" phone refl

module _ (r : Redis) (phone code : String) where
  open r use {
    State, get, number, set_ex, del, incr, incr_reply, expire, ttl, get-set_ex, get-del, number-del,
    get-ttl, incr_reply-number, number-incr_new, number-incr_old, number-expire, get-set_ex_ne,
    get-del_ne, get-incr_ne, get-expire_ne,
  }

  -- From a time on there is no password.
  unfoldable pub Gone : ℕ → State → Type 0
  Gone t s = (t' : ℕ) → t ≤ t' → get t' (otp_key phone) s ≡ none

  -- From a time on, as long as the password is there, it is the code and n attempts are counted.
  unfoldable pub Counts : ℕ → ℕ → State → Type 0
  Counts n t s =
      (t' : ℕ)
      → t ≤ t'
      → (get t' (otp_key phone) s ≡ none)
        ⊎ ((get t' (otp_key phone) s ≡ some code) × (number t' (attempts_key phone) s ≡ n))

  pub Gone-Counts : (n t : ℕ) (s : State) → Gone t s → Counts n t s
  unfolding Gone Counts
  Gone-Counts n t s gone t' h = inl (gone t' h)

  pub Counts-later : (n t u : ℕ) (s : State) → t ≤ u → Counts n t s → Counts n u s
  unfolding Counts
  Counts-later n t u s h c t' later = c t' (omega (arith, h, later))

  pub store_otp-Counts : (t : ℕ) (s : State) → Counts 0 t (store_otp r t phone code s)
  unfolding Counts store_otp
  store_otp-Counts t s t' h =
      let kept =
        get-del_ne t t' (attempts_key phone) (otp_key phone)
          (set_ex t (otp_key phone) code otp_ttl s) h (attempts-otp phone) in
      let stored = get-set_ex t t' otp_ttl (otp_key phone) code s h in
      elim (Bool-cases (ltb t' (t + otp_ttl))) [
        | inl alive ↦ inr (kept ∙ stored ∙ rw alive refl, number-del t t' (attempts_key phone) _ h)
        | inr expired ↦ inl (kept ∙ stored ∙ rw expired refl)
      ]

  pub del-Gone : (t : ℕ) (s : State) → Gone t (del t (otp_key phone) s)
  unfolding Gone
  del-Gone t s t' h = get-del t t' (otp_key phone) s h

  pub clean_up-Gone : (t : ℕ) (s : State) → Gone t (clean_up r t phone s)
  unfolding Gone clean_up
  clean_up-Gone t s t' h =
      get-del_ne t t' (failures_key phone) (otp_key phone) _ h (failures-otp phone)
      ∙ get-del_ne t t' (attempts_key phone) (otp_key phone) _ h (attempts-otp phone)
      ∙ get-del t t' (otp_key phone) s h

  expire_failures-get :
      (t t' : ℕ) (first : Bool) (s : State)
      → t ≤ t'
      → get t' (otp_key phone) (expire_failures r t phone first s) ≡ get t' (otp_key phone) s
  unfolding expire_failures
  expire_failures-get t t' true s h =
      get-expire_ne t t' account_lock_ttl (failures_key phone) (otp_key phone) s h
        (failures-otp phone)
  expire_failures-get t t' false s h = refl

  end_session-get :
      (t t' n : ℕ) (s : State)
      → t ≤ t'
      → get t' (otp_key phone) (end_session r t phone n s).0 ≡ get t' (otp_key phone) s
  unfolding end_session
  end_session-get t t' n s h = elim (Bool-cases (leb max_session_failures n)) [
    | inl enough ↦ rw enough (
        get-set_ex_ne t t' account_lock_ttl (lock_key phone) (otp_key phone) "1" _ h
          (lock-otp phone)
        ∙ get-del_ne t t' (failures_key phone) (otp_key phone) s h (failures-otp phone))
    | inr fewer ↦ rw fewer refl
  ]

  pub fail_session-Gone : (t : ℕ) (s : State) → Gone t (fail_session r t phone s).0
  unfolding Gone fail_session
  fail_session-Gone t s t' h =
      end_session-get t t' _ _ h
      ∙ expire_failures-get t t' _ _ h
      ∙ get-incr_ne t t' (failures_key phone) (otp_key phone) _ h (failures-otp phone)
      ∙ get-del t t' (otp_key phone) s h

  align-get :
      (t t' : ℕ) (first : Bool) (s : State)
      → t ≤ t'
      → get t' (otp_key phone) (align r t phone first s) ≡ get t' (otp_key phone) s
  unfolding align
  align-get t t' first s h = elim (Bool-cases (first && ltb 0 (ttl t (otp_key phone) s))) [
    | inl aligned ↦ rw aligned (
        get-expire_ne t t' (ttl t (otp_key phone) s) (attempts_key phone) (otp_key phone) s h
          (attempts-otp phone))
    | inr left ↦ rw left refl
  ]

  -- Where the password is still there, its counter is too.
  align-number :
      (t t' m : ℕ) (first : Bool) (s : State)
      → t ≤ t'
      → number t (attempts_key phone) s ≡ m
      → number t' (attempts_key phone) s ≡ m
      → (get t' (otp_key phone) s ≡ none)
        ⊎ (number t' (attempts_key phone) (align r t phone first s) ≡ m)
  unfolding align
  align-number t t' m first s h now then' =
      elim (Bool-cases (first && ltb 0 (ttl t (otp_key phone) s))) [
        | inr left ↦ inr (rw left then')
        | inl aligned ↦ elim (Bool-cases (ltb t' (t + ttl t (otp_key phone) s))) [
          | inl alive ↦ inr (
              rw aligned (
                number-expire t t' (ttl t (otp_key phone) s) (attempts_key phone) s h (ground arith)
                ∙ now))
          | inr over ↦ inl (get-ttl t t' (otp_key phone) s (ground arith) (ground arith))
        ]
      ]

  number-incr :
      (n t t' : ℕ) (s : State)
      → t ≤ t'
      → number t (attempts_key phone) s ≡ n
      → number t' (attempts_key phone) s ≡ n
      → number t' (attempts_key phone) (incr t (attempts_key phone) s) ≡ suc n
  number-incr zero t t' s h e e' = number-incr_new t t' (attempts_key phone) s h e
  number-incr (suc n) t t' s h e e' = number-incr_old t t' n (attempts_key phone) s h e e'

  -- One more attempt is counted.
  pub counted-Counts :
      (n t : ℕ) (first : Bool) (s : State)
      → Counts n t s
      → number t (attempts_key phone) s ≡ n
      → Counts (suc n) t (align r t phone first (incr t (attempts_key phone) s))
  unfolding Counts
  counted-Counts n t first s c e t' h =
      let s' : State = incr t (attempts_key phone) s in
      let kept : get t' (otp_key phone) s' ≡ get t' (otp_key phone) s =
        get-incr_ne t t' (attempts_key phone) (otp_key phone) s h (attempts-otp phone) in
      let aligned = align-get t t' first s' h in
      elim (c t' h) [
        | inl gone ↦ inl (aligned ∙ kept ∙ gone)
        | inr (there, counted) ↦
            elim (align-number t t' (suc n) first s' h (number-incr n t t s (omega arith) e e)
              (number-incr n t t' s h e counted)) [
                | inl gone ↦ inl (aligned ∙ gone)
                | inr same ↦ inr (aligned ∙ kept ∙ there, same)
              ]
      ]
