-- ===== src/Takeover.antt =====
-- Wrong passwords and suspicious logins (src/server/services/account-takeover.service.ts), over the
-- tables of migrations/0008_account_takeover_protection.sql, and POST src/app/api/v1/auth/verify-otp.
-- Times are seconds. Which statements the database carries out is an argument.
pub mod Flagging
use lumigift_lumigift.Common.{
  ℕ, ◌+◌, ◌*◌, String, Bool, true, false, not, ◌&&◌, List, [], ◌∷◌, ◌++◌, map, filter, length,
  Option, none, some, Result, ok, err, Action, ◌>>=◌, ◌>>◌, continue, return, require, leb, ltb,
  ◌===◌, if◌then◌else◌,
}
use lumigift_lumigift.Redis.{Redis}
use lumigift_lumigift.Otp.{Outcome, VerifyResult, result_of, verify_otp}
use lumigift_lumigift.Tokens.{DbError, unavailable}
use lumigift_lumigift.Guards.Csrf.{Text, post, Request, with_csrf, guarded}

pub data AccountStatus : Type 0 where
  active suspended flagged : AccountStatus

pub record Holder : Type 0 where
  pub id : String
  pub phone : String
  pub account_status : AccountStatus
  pub last_login_country : Option String
  pub last_login_at : Option ℕ

-- A row of `failed_otp_attempts`.
pub record FailedAttempt : Type 0 where
  pub phone : String
  pub attempted_at : ℕ

-- A row of `account_alerts`: the kinds that the code writes, with the number in the description.
pub data AlertType : Type 0 where
  failed_otp rapid_gifts : ℕ → AlertType

pub record Alert : Type 0 where
  pub user_id : String
  pub alert_type : AlertType

pub record Watch : Type 0 where
  pub failed : List FailedAttempt
  pub holders : List Holder
  pub alerts : List Alert

-- Which statements go through.
pub record Up : Type 0 where
  pub inserts : Bool
  pub counts : Bool
  pub selects : Bool
  pub updates : Bool
  pub alerts : Bool

abbrev pub day : ℕ
day = 24 * 60 * 60

abbrev pub is_recent : ℕ → String → FailedAttempt → Bool
is_recent now phone f = (f.phone === phone) && ltb now (f.attempted_at + day)

-- `SELECT id FROM users WHERE phone = $1`: the first row.
unfoldable pub find_holder : String → List Holder → Option Holder
find_holder phone [] = none
find_holder phone (h ∷ hs) =
    let rest = find_holder phone hs in if h.phone === phone then some h else rest

abbrev pub flag_holder : String → List Holder → List Holder
flag_holder id = map (λ h. if h.id === id then record h { account_status = flagged } else h)

-- Marking a user, with an alert.
unfoldable pub raise_alert : Up → String → AlertType → Action Watch DbError (Unit {0})
raise_alert up id kind w =
    if not up.updates
    then (w, err unavailable)
    else if not up.alerts
    then (record w { holders = flag_holder id w.holders }, err unavailable)
    else (
      record w {
        holders = flag_holder id w.holders;
        alerts = w.alerts ++ record { user_id = id; alert_type = kind } ∷ [];
      },
      ok tt,
    )

abbrev pub flag_found : Up → ℕ → Option Holder → Action Watch DbError (Unit {0})
flag_found up n none = return tt
flag_found up n (some h) = raise_alert up h.id (failed_otp n)

abbrev pub flag_from_three : Up → String → ℕ → Action Watch DbError (Unit {0})
flag_from_three up phone n w =
    if leb 3 n
    then (if up.selects
        then flag_found up n (find_holder phone w.holders) w
        else (w, err unavailable))
    else (w, ok tt)

abbrev pub insert_failed : ℕ → String → Watch → Watch
insert_failed now phone w = record w {
  failed = w.failed ++ record { phone = phone; attempted_at = now } ∷ [];
}

abbrev pub recent_failures : ℕ → String → Watch → ℕ
recent_failures now phone w = length (filter (is_recent now phone) w.failed)

abbrev count_failed : Up → ℕ → String → Action Watch DbError ℕ
count_failed up now phone w =
    if up.counts then (w, ok (recent_failures now phone w)) else (w, err unavailable)

-- `trackFailedOtp`
unfoldable pub track_failed_otp : Up → ℕ → String → Action Watch DbError ℕ
track_failed_otp up now phone w =
    if not up.inserts
    then (w, err unavailable)
    else ((do n ← count_failed up now phone; flag_from_three up phone n; return n)
        (insert_failed now phone w))

-- `checkRapidGiftCreation`, with the number of gifts that the query counts.
unfoldable pub check_rapid_gift_creation : Up → ℕ → String → Action Watch DbError Bool
check_rapid_gift_creation up n user_id w =
    if not up.counts
    then (w, err unavailable)
    else if leb n 10
    then (w, ok false)
    else ((do raise_alert up user_id (rapid_gifts n); return true) w)

module _ (r : Redis) (hmac : Option (Text → Text)) where
  open r use {State}

  -- The keys of Redis, and the tables.
  pub record Desk : Type 0 where
    pub keys : State
    pub watch : Watch

  -- A request, with what the schema leaves of its body: a phone number and a password.
  pub record VerifyRequest : Type 0 where
    pub now : ℕ
    pub header_token : Option Text
    pub cookie_token : Option Text
    pub body : Option (String × String)
    pub up : Up

  -- `trackFailedOtp(phone).catch(() => {})`, after a failure.
  abbrev pub answer_verified : VerifyRequest → String → VerifyResult → Desk → Desk × ℕ
  answer_verified q phone result d = if result.is_success then (d, 200) else (
    record d { watch = (track_failed_otp q.up q.now phone d.watch).0 },
    if result.locked then 429 else 401,
  )

  abbrev pub verified : VerifyRequest → String → State × Outcome → Desk → Desk × ℕ
  verified q phone (keys', outcome) d =
      answer_verified q phone (result_of outcome) (record d { keys = keys' })

  unfoldable pub verify_otp_handler : VerifyRequest → Option (String × String) → Desk → Desk × ℕ
  verify_otp_handler q none d = (d, 400)
  verify_otp_handler q (some (phone, otp)) d =
      verified q phone (verify_otp r q.now phone otp d.keys) d

  -- POST; the guard reads its time in milliseconds.
  unfoldable pub verify_otp_route : VerifyRequest → Desk → Desk × ℕ
  verify_otp_route q d =
      guarded
        (with_csrf hmac (1000 * q.now)
          (record { method = post; header_token = q.header_token; cookie_token = q.cookie_token }))
        (verify_otp_handler q q.body) d
