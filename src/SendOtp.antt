-- ===== src/SendOtp.antt =====
-- POST src/app/api/v1/auth/send-otp, over Redis, behind `withCsrf` and `withErrorHandler`. Times are
-- seconds.
pub mod Apart
pub mod Limit
use lumigift_lumigift.Common.{
  ℕ, ◌+◌, ◌-◌, ◌*◌, String, Bool, true, false, not, Option, none, some, leb, ◌==◌, if◌then◌else◌,
}
use Prim.Native.String.{◌++◌ as concat}
use lumigift_lumigift.Redis.{Redis}
use lumigift_lumigift.Otp.{store_otp}
use lumigift_lumigift.Guards.Csrf.{Text, post, Verdict, pass, csrf_missing, csrf_invalid, with_csrf}

abbrev pub phone_limit_key : String → String
phone_limit_key phone = concat "rl:otp:phone:" phone

abbrev pub ip_limit_key : String → String
ip_limit_key ip = concat "rl:otp:ip:" ip

pub record RateCheck : Type 0 where
  pub allowed : Bool
  pub limit : ℕ
  pub remaining : ℕ
  pub reset : ℕ
  pub retry_after : ℕ

-- A request, with the address of the client, and the password that was sent, none where the SMS
-- could not be sent.
pub record SendRequest : Type 0 where
  pub now : ℕ
  pub header_token : Option Text
  pub cookie_token : Option Text
  pub body : Option String
  pub ip : String
  pub sent : Option String

-- An answer: the status, the headers of the limit, and `Retry-After`.
pub record SendReply : Type 0 where
  pub status : ℕ
  pub headers : Option RateCheck
  pub retry_after : Option ℕ

abbrev pub plain : ℕ → SendReply
plain status = record { status = status; headers = none; retry_after = none }

abbrev pub limited : RateCheck → RateCheck → SendReply
limited shown check = record {
  status = 429;
  headers = some shown;
  retry_after = some check.retry_after;
}

module _ (r : Redis) where
  open r use {State, incr, incr_reply, expire, ttl}

  -- `checkRateLimit`
  abbrev pub first_expires : ℕ → String → ℕ → ℕ → State → State
  first_expires t key window count s = if count == 1 then expire t key window s else s

  abbrev pub counted : ℕ → String → ℕ → State → State
  counted t key window s = first_expires t key window (incr_reply t key s) (incr t key s)

  abbrev pub rate_check : ℕ → ℕ → ℕ → ℕ → RateCheck
  rate_check t limit count left = record {
    allowed = leb count limit;
    limit = limit;
    remaining = limit - count;
    reset = t + left;
    retry_after = left;
  }

  unfoldable pub check_rate_limit : ℕ → String → ℕ → ℕ → State → State × RateCheck
  check_rate_limit t key limit window s =
      let s' = counted t key window s in
      (s', rate_check t limit (incr_reply t key s) (ttl t key s'))

  -- The password is stored, once it was sent.
  abbrev pub store_sent :
      SendRequest → String → RateCheck → Option String → State → State × SendReply
  store_sent q phone shown none s = (s, plain 500)
  store_sent q phone shown (some otp) s = (
    store_otp r q.now phone otp s,
    record { status = 200; headers = some shown; retry_after = none },
  )

  abbrev pub if_allowed : SendRequest → String → RateCheck → RateCheck → State → State × SendReply
  if_allowed q phone by_phone by_ip s =
      if not by_phone.allowed
      then (s, limited by_phone by_phone)
      else if not by_ip.allowed
      then (s, limited by_phone by_ip)
      else store_sent q phone by_phone q.sent s

  unfoldable pub send_otp_handler : SendRequest → Option String → State → State × SendReply
  send_otp_handler q none s = (s, plain 400)
  send_otp_handler q (some phone) s =
      let (s1, by_phone) = check_rate_limit q.now (phone_limit_key phone) 3 600 s in
      let (s2, by_ip) = check_rate_limit q.now (ip_limit_key q.ip) 10 60 s1 in
      if_allowed q phone by_phone by_ip s2

  abbrev pub past_guard : SendRequest → Verdict → State → State × SendReply
  past_guard q pass s = send_otp_handler q q.body s
  past_guard q csrf_missing s = (s, plain 403)
  past_guard q csrf_invalid s = (s, plain 403)

  -- POST; the guard reads its time in milliseconds.
  unfoldable pub send_otp_route : Option (Text → Text) → SendRequest → State → State × SendReply
  send_otp_route hmac q s =
      past_guard q
        (with_csrf hmac (1000 * q.now)
          (record { method = post; header_token = q.header_token; cookie_token = q.cookie_token }))
        s
