-- ===== src/Otp/Guesses.antt =====
-- How many guesses a stored password allows.
use lumigift_lumigift.Common.{
  ℕ, suc, ◌+◌, ◌≤◌, ◌<◌, ◌≡◌, ◌⊎◌, String, Bool, true, false, List, [], ◌∷◌, if◌then◌else◌,
}
use lumigift_lumigift.Redis.{Redis}
use lumigift_lumigift.Otp.Counting.{Gone, Counts}
use lumigift_lumigift.Otp.{
  max_attempts, Outcome, still_locked, not_found, too_many, success, verify_otp,
}

-- The outcomes of a guess that was compared with the password.
abbrev pub is_compared : Outcome → Bool
is_compared (still_locked ttl) = false
is_compared not_found = false
is_compared too_many = false
is_compared _ = true

abbrev pub is_success : Outcome → Bool
is_success success = true
is_success _ = false

module _ (r : Redis) (phone code : String) where
  open r use {
    State, get, number, set_ex, del, incr, incr_reply, expire, ttl, get-set_ex, get-del, number-del,
    get-ttl, incr_reply-number, number-incr_new, number-incr_old, number-expire, get-set_ex_ne,
    get-del_ne, get-incr_ne, get-expire_ne,
  }

  -- What a guess does: it is compared as one more of at most five, or it is not compared; and only
  -- the code succeeds, after which there is no password.
  Step : ℕ → ℕ → String → State × Outcome → Type 0
  Step n t guess (s', o) =
      ((is_compared o ≡ false) × Counts r phone code n t s')
      ⊎ ((n < max_attempts)
          × Counts r phone code (suc n) t s'
          × (o ≡ success → (guess ≡ code) × Gone r phone code t s'))

  -- Guesses with their times, each no earlier than the one before.
  unfoldable pub Ascending : ℕ → List (ℕ × String) → Type 0
  Ascending t [] = Unit
  Ascending t ((u, guess) ∷ gs) = (t ≤ u) × Ascending u gs

  -- How many of the guesses have an outcome that passes the test.
  unfoldable pub tally : (Outcome → Bool) → List (ℕ × String) → State → ℕ
  tally p [] s = 0
  tally p ((t, guess) ∷ gs) s =
      let (s', o) = verify_otp r t phone guess s in (if p o then 1 else 0) + tally p gs s'

  -- Every guess that succeeds is the code.
  pub OnlyCode : List (ℕ × String) → State → Type 0
  OnlyCode [] s = Unit
  OnlyCode ((t, guess) ∷ gs) s =
      let (s', o) = verify_otp r t phone guess s in (o ≡ success → guess ≡ code) × OnlyCode gs s'

  abbrev Bounded : ℕ → List (ℕ × String) → State → Type 0
  Bounded n gs s =
      (tally is_compared gs s + n ≤ max_attempts) × (tally is_success gs s ≤ 1) × OnlyCode gs s
