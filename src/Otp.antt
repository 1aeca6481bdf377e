-- ===== src/Otp.antt =====
-- One-time passwords (src/lib/otp.ts) over Redis. Times are seconds.
pub mod Counting
pub mod Guesses
use lumigift_lumigift.Common.{
  ℕ, ◌+◌, ◌≡◌, String, Bool, true, false, not, ◌&&◌, List, [], ◌∷◌, Option, none, some, ltb, leb,
  ◌==◌, ◌===◌, if◌then◌else◌, truthy,
}
use Prim.Native.String.{◌++◌ as concat}
use lumigift_lumigift.Redis.{Redis}

abbrev pub otp_ttl : ℕ
otp_ttl = 600

abbrev pub max_attempts : ℕ
max_attempts = 5

abbrev pub max_session_failures : ℕ
max_session_failures = 3

abbrev pub account_lock_ttl : ℕ
account_lock_ttl = 900

abbrev pub otp_key : String → String
otp_key phone = concat "otp:" phone

abbrev pub attempts_key : String → String
attempts_key phone = concat "otp:attempts:" phone

abbrev pub failures_key : String → String
failures_key phone = concat "otp:session-failures:" phone

abbrev pub lock_key : String → String
lock_key phone = concat "otp:lock:" phone

-- The ends of `verifyOtp`: the account is locked already, there is no password, too many attempts,
-- a wrong password, the last wrong one of a session, the one that locks the account, the right one.
pub data Outcome : Type 0 where
  still_locked : ℕ → Outcome
  not_found too_many invalid exhausted now_locked success : Outcome

pub record VerifyResult : Type 0 where
  pub is_success : Bool
  pub locked : Bool
  pub message : String
  pub retry_after : Option ℕ

abbrev account_locked : String
account_locked =
    "Account temporarily locked due to too many failed attempts. Please try again later."

abbrev request_new : String
request_new = "Too many failed attempts. Please request a new OTP."

abbrev failure : Bool → String → Option ℕ → VerifyResult
failure locked message retry_after = record {
  is_success = false;
  locked = locked;
  message = message;
  retry_after = retry_after;
}

-- What `verifyOtp` returns.
abbrev pub result_of : Outcome → VerifyResult
result_of (still_locked ttl) = failure true account_locked (some ttl)
result_of not_found = failure false "OTP expired or not found. Please request a new one." none
result_of too_many = failure true request_new none
result_of invalid = failure false "Invalid OTP." none
result_of exhausted = failure true request_new none
result_of now_locked = failure true account_locked (some account_lock_ttl)
result_of success = record { is_success = true; locked = false; message = ""; retry_after = none }

module _ (r : Redis) where
  open r use {State, get, set_ex, del, incr, incr_reply, expire, ttl}

  -- `storeOtp`
  unfoldable pub store_otp : ℕ → String → String → State → State
  store_otp t phone otp s = del t (attempts_key phone) (set_ex t (otp_key phone) otp otp_ttl s)

  -- The counter with the time to live of the password, on the first attempt.
  unfoldable pub align : ℕ → String → Bool → State → State
  align t phone first s =
      if first && ltb 0 (ttl t (otp_key phone) s)
      then expire t (attempts_key phone) (ttl t (otp_key phone) s) s
      else s

  unfoldable pub expire_failures : ℕ → String → Bool → State → State
  expire_failures t phone first s =
      if first then expire t (failures_key phone) account_lock_ttl s else s

  -- The end of a session of wrong guesses, with the number of sessions that failed in a row.
  unfoldable pub end_session : ℕ → String → ℕ → State → State × Outcome
  end_session t phone session_failures s =
      if leb max_session_failures session_failures
      then (
        set_ex t (lock_key phone) "1" account_lock_ttl (del t (failures_key phone) s),
        now_locked,
      )
      else (s, exhausted)

  unfoldable pub fail_session : ℕ → String → State → State × Outcome
  unfolding end_session expire_failures
  fail_session t phone s =
      let deleted = del t (otp_key phone) s in
      let session_failures = incr_reply t (failures_key phone) deleted in
      end_session t phone session_failures
        (expire_failures t phone (session_failures == 1) (incr t (failures_key phone) deleted))

  unfoldable pub clean_up : ℕ → String → State → State
  clean_up t phone s =
      del t (failures_key phone) (del t (attempts_key phone) (del t (otp_key phone) s))

  -- The comparison, with the number of this attempt.
  unfoldable pub compare_otp : ℕ → String → String → String → ℕ → State → State × Outcome
  unfolding fail_session clean_up
  compare_otp t phone otp stored attempts s =
      if otp === stored
      then (clean_up t phone s, success)
      else if attempts == max_attempts
      then fail_session t phone s
      else (s, invalid)

  unfoldable pub attempt_otp : ℕ → String → String → String → State → State × Outcome
  unfolding compare_otp align
  attempt_otp t phone otp stored s =
      let attempts = incr_reply t (attempts_key phone) s in
      let counted = align t phone (attempts == 1) (incr t (attempts_key phone) s) in
      if ltb max_attempts attempts
      then (del t (otp_key phone) counted, too_many)
      else compare_otp t phone otp stored attempts counted

  -- `verifyOtp`
  unfoldable pub verify_stored : ℕ → String → String → Option String → State → State × Outcome
  unfolding attempt_otp
  verify_stored t phone otp none s = (s, not_found)
  verify_stored t phone otp (some stored) s = attempt_otp t phone otp stored s

  unfoldable pub verify_otp : ℕ → String → String → State → State × Outcome
  unfolding verify_stored
  verify_otp t phone otp s =
      if ltb 0 (ttl t (lock_key phone) s)
      then (s, still_locked (ttl t (lock_key phone) s))
      else verify_stored t phone otp (truthy (get t (otp_key phone) s)) s
